-- ===== src/Permissions/Modes.antt =====
-- Read implies execute on directories: the mode bits of nfs-klldap-ui/src/fs.rs and the ACL permissions
-- of nfs-klldap-ui/src/privileged.rs.
use Prim.Native.Nat.{bit_and, bit_or}
use nfs_klldap_host.AclTable.{AclPerms, dir_r_implies_x}
use nfs_klldap_host.Prelude.{
  ℕ, zero, suc, ◌/◌, ◌%◌, ◌*◌, ◌<◌, ◌≡◌, refl, arith, Bool, true, false, ◌&&◌, not, ◌==◌, ==_iff,
  Bool-cases, inl, inr, subst, sym,
}

unfoldable pub dir_mode_r_implies_x : ℕ → ℕ
dir_mode_r_implies_x mode = bit_or mode (bit_and mode 0o444 / 4)

pub data Class : Type 0 where
  user group others : Class

-- The place value of the lowest bit of a class.
abbrev pub unit_of : Class → ℕ
unit_of user = 64
unit_of group = 8
unit_of others = 1

-- The permissions of a class in a mode.
abbrev pub class_perms : ℕ → Class → AclPerms
class_perms mode c = record {
  r = mode / (unit_of c * 4) % 2 == 1;
  w = mode / (unit_of c * 2) % 2 == 1;
  x = mode / unit_of c % 2 == 1;
}

abbrev same : Bool → Bool → Bool
same true b = b
same false b = not b

abbrev is_perm : AclPerms → AclPerms → Bool
is_perm p q = same p.r q.r && (same p.w q.w && same p.x q.x)

-- What the table checks of a mode.
abbrev fuses : ℕ → ℕ → Class → Bool
fuses mode result c = is_perm (class_perms result c) (dir_r_implies_x (class_perms mode c))

checked : ℕ → Bool
unfolding dir_mode_r_implies_x dir_r_implies_x
checked mode =
    let result = dir_mode_r_implies_x mode in
    result / 512 == mode / 512
    && (dir_mode_r_implies_x result == result
        && (fuses mode result user && (fuses mode result group && fuses mode result others)))

all_below : ℕ → Bool
unfolding checked
all_below zero = true
all_below (suc n) = checked n && all_below n

table : all_below 4096 ≡ true
unfolding all_below
table = refl

same_sound : (a b : Bool) → same a b ≡ true → a ≡ b
same_sound true true h = refl
same_sound true false h = absurd (cc h)
same_sound false true h = absurd (cc h)
same_sound false false h = refl

&&-both : (a b : Bool) → (a && b) ≡ true → (a ≡ true) × (b ≡ true)
&&-both true b h = (refl, h)
&&-both false b h = absurd (cc h)

is_perm_sound : (p q : AclPerms) → is_perm p q ≡ true → p ≡ q
is_perm_sound p q h =
    let (r, rest) = &&-both (same p.r q.r) (same p.w q.w && same p.x q.x) h in
    let (w, x) = &&-both (same p.w q.w) (same p.x q.x) rest in
    ground (arith, same_sound p.r q.r r, same_sound p.w q.w w, same_sound p.x q.x x)

all_below-lt : (n mode : ℕ) → all_below n ≡ true → mode < n → checked mode ≡ true
unfolding all_below
all_below-lt zero mode h lt = absurd (omega arith)
all_below-lt (suc n) mode h lt =
    let (here, below) = &&-both (checked n) (all_below n) h in
    elim (Bool-cases (mode == n)) [
      | inl e ↦ subst (λ z. checked z ≡ true) (sym ((==_iff mode n).0 e)) here
      | inr e ↦ all_below-lt n mode below (ground arith)
    ]

per_class :
    (mode result : ℕ)
    → fuses mode result user ≡ true
    → fuses mode result group ≡ true
    → fuses mode result others ≡ true
    → (c : Class) → class_perms result c ≡ dir_r_implies_x (class_perms mode c)
per_class mode result u g o user = is_perm_sound _ _ u
per_class mode result u g o group = is_perm_sound _ _ g
per_class mode result u g o others = is_perm_sound _ _ o

-- For a mode of twelve bits: the mode of a directory grants each class execute where the mode asked
-- for grants it read, exactly as the editor of ACL entries does, changes nothing else, special bits
-- included, and normalising it again changes nothing.
pub dir_mode_r_implies_x-dir_r_implies_x :
    (mode : ℕ)
    → mode < 4096
    → let result = dir_mode_r_implies_x mode in
      ((c : Class) → class_perms result c ≡ dir_r_implies_x (class_perms mode c))
      × (result / 512 ≡ mode / 512)
      × (dir_mode_r_implies_x result ≡ result)
unfolding checked
dir_mode_r_implies_x-dir_r_implies_x mode h =
    let result = dir_mode_r_implies_x mode in
    let (special, rest) = &&-both (result / 512 == mode / 512) _ (all_below-lt 4096 mode table h) in
    let (again, classes) = &&-both (dir_mode_r_implies_x result == result) _ rest in
    let (u, both) = &&-both (fuses mode result user) _ classes in
    let (g, o) = &&-both (fuses mode result group) (fuses mode result others) both in
    (per_class mode result u g o, (==_iff _ _).0 special, (==_iff _ _).0 again)
