-- ===== src/Identity/Snapshot/Rootline.antt =====
-- Root and nobody in the lines of nfs-klldap-config/src/bin/idhelper/materialize.rs.
use nfs_klldap_host.Identity.Cache.{IdCache}
use nfs_klldap_host.Identity.Members.{LdapGroups, root_group}
use nfs_klldap_host.Identity.Rows.{passwd_line}
use nfs_klldap_host.Identity.Snapshot.{
  Lines, root_passwd, root_group_prefix, root_prefix_line, nobody_prefix, nobody_passwd, any_starts,
  base_passwd, base_groups, with_nobody, led_by_root, build_nss_snapshot,
}
use nfs_klldap_host.Prelude.{
  ◌≡◌, Bool, true, false, not, List, [], ◌∷◌, ◌++◌, refl, arith, if◌then◌else◌, Text, starts_with,
  retain, All, Bool-cases, inl, inr,
}

-- A text in front, and none behind it that begins like root's group row.
abbrev pub IsLed : Text → List Text → Type 0
IsLed first ls = (rest : List Text) × (ls ≡ first ∷ rest)

abbrev pub IsOnlyRoot : List Text → Type 0
IsOnlyRoot ls =
    (rest : List Text) × (ls ≡ root_group ∷ rest)
    × All (λ l. starts_with root_group_prefix l ≡ false) rest

retained :
    (ls : List Text)
    → All
        (λ l. starts_with root_group_prefix l ≡ false)
        (retain (λ l. not (starts_with root_group_prefix l)) ls)
retained [] = tt
retained (l ∷ ls) = elim (Bool-cases (starts_with root_group_prefix l)) [
  | inl y ↦ rw y (retained ls)
  | inr n ↦ rw n (n, retained ls)
]

nobody_starts : starts_with nobody_prefix nobody_passwd ≡ true
unfolding passwd_line
nobody_starts = refl

any_starts-snoc :
    (p : Text) (ls : List Text) (l : Text)
    → starts_with p l ≡ true
    → any_starts p (ls ++ l ∷ []) ≡ true
any_starts-snoc p [] l h = rw h refl
any_starts-snoc p (k ∷ ls) l h = ground (arith, any_starts-snoc p ls l h)

with_nobody-any_starts : (passwd : List Text) → any_starts nobody_prefix (with_nobody passwd) ≡ true
with_nobody-any_starts passwd = elim (Bool-cases (any_starts nobody_prefix passwd)) [
  | inl y ↦ rw y y
  | inr n ↦ rw n (any_starts-snoc nobody_prefix passwd nobody_passwd nobody_starts)
]

with_nobody-IsLed : (first : Text) (ls : List Text) → IsLed first (with_nobody (first ∷ ls))
with_nobody-IsLed first ls = elim (Bool-cases (any_starts nobody_prefix (first ∷ ls))) [
  | inl y ↦ rw y (ls, refl)
  | inr n ↦ rw n (ls ++ nobody_passwd ∷ [], refl)
]

IsLed-base_passwd :
    (c : Bool) (xs ys : List Text)
    → IsLed root_passwd (with_nobody (if c then root_passwd ∷ xs else root_passwd ∷ ys))
IsLed-base_passwd true xs ys = with_nobody-IsLed root_passwd xs
IsLed-base_passwd false xs ys = with_nobody-IsLed root_passwd ys

led_by_root_lem :
    (out : Lines)
    → IsLed root_passwd (led_by_root out).0
      × (any_starts nobody_prefix (led_by_root out).0 ≡ true)
      × IsOnlyRoot (led_by_root out).1
unfolding led_by_root
led_by_root_lem out = (
  IsLed-base_passwd (any_starts root_prefix_line out.passwd) _ _,
  with_nobody-any_starts (base_passwd out),
  (_, refl, retained (base_groups out)),
)

-- For every cache and every LDAP answer, the passwd lines start with root's and have one for nobody,
-- and the group lines start with the minimal row of root, behind which none begins with `root:x:0:`.
pub build_nss_snapshot_lem :
    (c : IdCache) (groups : LdapGroups)
    → let (passwd, group) = build_nss_snapshot c groups in
      IsLed root_passwd passwd × (any_starts nobody_prefix passwd ≡ true) × IsOnlyRoot group
unfolding build_nss_snapshot
build_nss_snapshot_lem c groups = led_by_root_lem _
