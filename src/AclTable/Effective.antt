-- ===== src/AclTable/Effective.antt =====
-- Effective permissions in nfs-klldap-ui/src/privileged.rs.
use nfs_klldap_host.AclTable.{
  AclPerms, AclTag, owner, owning_group, mask, other, named_user, named_group, AclLine, AclTable,
  is_mask, first_mask, mask_of, is_masked, capped, effective_perms, is_extra, any_extra,
  is_extended,
}
use nfs_klldap_host.Prelude.{
  ◌≡◌, Bool, true, false, not, ◌&&◌, ◌||◌, Option, none, some, List, [], ◌∷◌, refl, arith,
  Bool-cases, inl, inr,
}

-- Every permission of the first is one of the second.
abbrev pub is_within : AclPerms → AclPerms → Bool
is_within p q = (not p.r || q.r) && (not p.w || q.w) && (not p.x || q.x)

abbrev pub is_within_mask : AclPerms → Option AclPerms → Bool
is_within_mask p none = true
is_within_mask p (some m) = is_within p m

is_within_self : (p : AclPerms) → is_within p p ≡ true
is_within_self p = ground arith

capped_within : (p : AclPerms) (m : Option AclPerms) → is_within (capped p m) p ≡ true
capped_within p none = is_within_self p
capped_within p (some m) = ground arith

capped_within_mask : (p : AclPerms) (m : Option AclPerms) → is_within_mask (capped p m) m ≡ true
capped_within_mask p none = refl
capped_within_mask p (some m) = ground arith

mask_is_extra : (t : AclTag) → is_extra t ≡ false → is_mask t ≡ false
mask_is_extra owner h = refl
mask_is_extra owning_group h = refl
mask_is_extra mask h = absurd (cc h)
mask_is_extra other h = refl
mask_is_extra (named_user u) h = refl
mask_is_extra (named_group g) h = refl

both_false : (a b : Bool) → (a || b) ≡ false → (a ≡ false) × (b ≡ false)
both_false a b h = (ground arith, ground arith)

first_mask-none : (ls : List AclLine) → any_extra ls ≡ false → first_mask ls ≡ none
first_mask-none [] h = refl
first_mask-none (l ∷ ls) h =
    let (here, later) = both_false (is_extra l.tag) (any_extra ls) h in
    rw (mask_is_extra l.tag here, first_mask-none ls later) refl

mask_of-none : (t : AclTable) → is_extended t ≡ false → mask_of t false ≡ none
unfolding mask_of is_extended
mask_of-none t h = first_mask-none t.access (both_false _ (any_extra t.access) h).1

plain_within :
    (t : AclTable) (p : AclPerms)
    → (is_extended t || is_within p (capped p (mask_of t false))) ≡ true
plain_within t p = elim (Bool-cases (is_extended t)) [
  | inl y ↦ rw y refl
  | inr n ↦ rw (n, mask_of-none t n) (is_within_self p)
]

or_self : (b : Bool) (p : AclPerms) → (b || is_within p p) ≡ true
or_self b p = ground (arith, is_within_self p)

-- What a path's ACL grants by an entry never goes beyond the entry, nor beyond the mask of its layer
-- if the entry is in the group class; an owner's, other's or mask entry grants what it says; and
-- where no entry is named and no mask set, the plain mode that is shown is the whole truth.
pub effective_perms_lem :
    (t : AclTable) (l : AclLine) (default : Bool)
    → let e = effective_perms t l default in
      (is_within e l.perms ≡ true)
      × ((not (is_masked l.tag) || is_within_mask e (mask_of t default)) ≡ true)
      × ((is_masked l.tag || is_within l.perms e) ≡ true)
      × ((is_extended t || is_within l.perms (effective_perms t l false)) ≡ true)
unfolding effective_perms
effective_perms_lem t l default = elim (Bool-cases (is_masked l.tag)) [
  | inl y ↦ rw y (
    capped_within l.perms (mask_of t default),
    capped_within_mask l.perms (mask_of t default),
    refl,
    plain_within t l.perms,
  )
  | inr n ↦
      rw n (is_within_self l.perms, refl, is_within_self l.perms, or_self (is_extended t) l.perms)
]
