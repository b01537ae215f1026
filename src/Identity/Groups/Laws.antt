-- ===== src/Identity/Groups/Laws.antt =====
-- The group lists of nfs-klldap-config/src/bin/idhelper/resolve.rs have the primary group first and no
-- group twice.
use nfs_klldap_host.Identity.Cache.{Resolved, is_machine}
use nfs_klldap_host.Identity.Groups.{
  is_member, push_new, merge_group_gids, compute_gids_for_resolved, without,
}
use nfs_klldap_host.Identity.Lookup.{Ldap}
use nfs_klldap_host.Prelude.{
  ℕ, ◌≡◌, true, false, ◌||◌, Option, none, some, List, [], ◌∷◌, ◌++◌, refl, ap, ◌∙◌, arith, ◌==◌,
  Text, if◌then◌else◌, Bool-cases, inl, inr,
}

abbrev pub IsUnique : List ℕ → Type 0
IsUnique [] = Unit
IsUnique (g ∷ gids) = (is_member g gids ≡ false) × IsUnique gids

is_member-append :
    (g : ℕ) (xs ys : List ℕ) → is_member g (xs ++ ys) ≡ (is_member g xs || is_member g ys)
is_member-append g [] ys = refl
is_member-append g (x ∷ xs) ys = ground (arith, is_member-append g xs ys)

IsUnique-snoc :
    (g : ℕ) (xs : List ℕ) → is_member g xs ≡ false → IsUnique xs → IsUnique (xs ++ g ∷ [])
IsUnique-snoc g [] h u = (refl, tt)
IsUnique-snoc g (x ∷ xs) h (fresh, u) =
    (ground (arith, is_member-append x xs (g ∷ [])), IsUnique-snoc g xs (ground arith) u)

pub push_new-IsUnique : (out more : List ℕ) → IsUnique out → IsUnique (push_new out more)
unfolding push_new
push_new-IsUnique out [] u = u
push_new-IsUnique out (g ∷ more) u = elim (Bool-cases (is_member g out)) [
  | inl y ↦ rw y (push_new-IsUnique out more u)
  | inr n ↦ rw n (push_new-IsUnique (out ++ g ∷ []) more (IsUnique-snoc g out n u))
]

is_member-pushed :
    (h g : ℕ) (out : List ℕ)
    → is_member h (if is_member g out then out else out ++ g ∷ []) ≡ (is_member h out || (g == h))
is_member-pushed h g out = ground (arith, is_member-append h out (g ∷ []), member_of_equal h g out)
  where
    member_of_equal : (h g : ℕ) (out : List ℕ) → (g == h) ≡ true → is_member h out ≡ is_member g out
    member_of_equal h g out e = ground arith

pub is_member-push_new :
    (h : ℕ) (out more : List ℕ)
    → is_member h (push_new out more) ≡ (is_member h out || is_member h more)
unfolding push_new
is_member-push_new h out [] = ground arith
is_member-push_new h out (g ∷ more) =
    is_member-push_new h (if is_member g out then out else out ++ g ∷ []) more
    ∙ ground (arith, is_member-pushed h g out)

abbrev pub StartsWith : ℕ → List ℕ → Type 0
StartsWith g gids = (rest : List ℕ) × (gids ≡ g ∷ rest)

pub push_new-StartsWith :
    (g : ℕ) (out more : List ℕ) → StartsWith g out → StartsWith g (push_new out more)
unfolding push_new
push_new-StartsWith g out [] h = h
push_new-StartsWith g out (x ∷ more) (rest, e) = elim (Bool-cases (is_member x out)) [
  | inl y ↦ rw y (push_new-StartsWith g out more (rest, e))
  | inr n ↦
      rw n (push_new-StartsWith g (out ++ x ∷ []) more (rest ++ x ∷ [], ap (λ z. z ++ x ∷ []) e))
]

-- A merged list starts with the primary group, has no group twice, and has a group exactly when it is
-- the primary one or one of the supplemental ones.
pub merge_group_gids_lem :
    (primary : ℕ) (supplemental : List ℕ)
    → StartsWith primary (merge_group_gids primary supplemental)
      × IsUnique (merge_group_gids primary supplemental)
      × ((g : ℕ)
          → is_member g (merge_group_gids primary supplemental)
            ≡ ((primary == g) || is_member g supplemental))
unfolding merge_group_gids
merge_group_gids_lem primary supplemental = (
  push_new-StartsWith primary (primary ∷ []) supplemental ([], refl),
  push_new-IsUnique (primary ∷ []) supplemental (refl, tt),
  λ g. is_member-push_new g (primary ∷ []) supplemental ∙ ground arith,
)

abbrev pub primary_of : Resolved → ℕ
primary_of r = if is_machine r.kind then 0 else r.gid

abbrev pub IsGroupList : ℕ → List ℕ → Type 0
IsGroupList g gids = StartsWith g gids × IsUnique gids

merged :
    (primary : ℕ) (supplemental : List ℕ)
    → IsGroupList primary (merge_group_gids primary supplemental)
merged primary supplemental =
    ((merge_group_gids_lem primary supplemental).0, (merge_group_gids_lem primary supplemental).1)

pub compute_gids_for_resolved-IsGroupList :
    (ldap : Option Ldap) (r : Resolved) (p : Text)
    → IsGroupList (primary_of r) (compute_gids_for_resolved ldap r p).0
unfolding compute_gids_for_resolved
compute_gids_for_resolved-IsGroupList none r p = elim (Bool-cases (is_machine r.kind)) [
  | inl m ↦ rw m (merged 0 r.supplemental_gids)
  | inr n ↦ rw n (merged r.gid [])
]
compute_gids_for_resolved-IsGroupList (some d) r p = elim (Bool-cases (is_machine r.kind)) [
  | inl m ↦ rw m (merged 0 (push_new r.supplemental_gids (without 0 (d.groups_for_principal p))))
  | inr n ↦ rw n (merged r.gid (d.groups_for_principal p))
]
