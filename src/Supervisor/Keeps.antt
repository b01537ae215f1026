-- ===== src/Supervisor/Keeps.antt =====
-- Invariants of supervisor programs, with a rule for each construct of a do block.
use nfs_klldap_host.Prelude.{ℕ, ◌≡◌, Bool, true, false, Option, none, some, if◌then◌else◌}
use nfs_klldap_host.Supervisor.State.{Os, Machine, M, ◌>>=◌, ◌>>◌, pure, done, get, observe, live}

pub record Keeps {os : Os} {A : Type 0} (Q : Machine os → Type 0) (f : M os A) : Type 0 where
  pub holds : (m : Machine os) → Q m → Q (f m).1

-- The invariant is kept, and the result has the property `R`.
pub record Ensures {os : Os} {A : Type 0} (Q : Machine os → Type 0) (f : M os A) (R : A → Type 0)
    : Type 0 where
  pub keeps : Keeps Q f
  pub result : (m : Machine os) → Q m → R (f m).0

module _ {os : Os} (Q : Machine os → Type 0) where
  pub Keeps-bind_ensures :
      {A B : Type 0} {R : A → Type 0} (f : M os A) (g : A → M os B)
      → Ensures Q f R
      → ((a : A) → R a → Keeps Q (g a))
      → Keeps Q (f >>= g)
  unfolding ◌>>=◌
  Keeps-bind_ensures f g kf kg = record {
    holds = λ m q. (kg (f m).0 (kf.result m q)).holds (f m).1 (kf.keeps.holds m q);
  }

  pub Keeps-bind :
      {A B : Type 0} (f : M os A) (g : A → M os B)
      → Keeps Q f
      → ((a : A) → Keeps Q (g a))
      → Keeps Q (f >>= g)
  unfolding ◌>>=◌
  Keeps-bind f g kf kg = record { holds = λ m q. (kg (f m).0).holds (f m).1 (kf.holds m q) }

  pub Keeps-then :
      {B : Type 0} (f : M os (Unit {0})) (g : M os B) → Keeps Q f → Keeps Q g → Keeps Q (f >> g)
  unfolding ◌>>◌
  Keeps-then f g kf kg = record { holds = λ m q. kg.holds (f m).1 (kf.holds m q) }

  pub Keeps-pure : {A : Type 0} (a : A) → Keeps Q (pure a)
  unfolding pure
  Keeps-pure a = record { holds = λ m q. q }

  pub Keeps-done : Keeps Q done
  unfolding done
  Keeps-done = record { holds = λ m q. q }

  pub Keeps-get : Keeps Q get
  unfolding get
  Keeps-get = record { holds = λ m q. q }

  pub Keeps-if :
      {A : Type 0} (c : Bool) (f g : M os A) → Keeps Q f → Keeps Q g → Keeps Q (if c then f else g)
  Keeps-if true f g kf kg = kf
  Keeps-if false f g kf kg = kg

  pub Keeps-if_true :
      {A : Type 0} (c : Bool) (f g : M os A) → c ≡ true → Keeps Q f → Keeps Q (if c then f else g)
  Keeps-if_true true f g e kf = kf
  Keeps-if_true false f g e kf = absurd (cc e)

  pub Keeps-when_false :
      (c : Bool) (f : M os (Unit {0})) → c ≡ false → Keeps Q (if c then f else done)
  Keeps-when_false true f e = absurd (cc e)
  Keeps-when_false false f e = Keeps-done

  pub Keeps-observe : {A : Type 0} (f : os.World → A) → Keeps Q (observe f)
  unfolding observe
  Keeps-observe f = record { holds = λ m q. q }

  pub Keeps-live : (pid : Option ℕ) → Keeps Q (live pid)
  unfolding live
  Keeps-live none = record { holds = λ m q. q }
  Keeps-live (some pid) = record { holds = λ m q. q }
