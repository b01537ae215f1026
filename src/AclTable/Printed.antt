-- ===== src/AclTable/Printed.antt =====
-- The output of `getfacl -c -n`, as its documentation gives it, read by nfs-klldap-ui/src/privileged.rs.
use nfs_klldap_host.AclTable.{
  AclPerms, from_str, to_str, AclTag, owner, owning_group, mask, other, named_user, named_group,
  AclLine, AclTable, colon, user_word, group_word, mask_word, other_word, tag_of, named, line_of,
  line_of_rest, line_of_parts, parse_acl_line, default_prefix,
}
use nfs_klldap_host.Identity.Rows.{to_decimal, digits_of}
use nfs_klldap_host.Identity.Rows.Decimal.{
  parse_u32-to_decimal, all_digits-digits_of, is_empty-digits_of,
}
use nfs_klldap_host.Prelude.{
  ℕ, zero, suc, Option, none, ◌^◌, ◌<◌, ◌≡◌, Bool, true, false, some, List, [], ◌∷◌, ◌++◌, refl, ap,
  ◌∙◌, arith, Text, is_empty, all_digits, split_once_at, contains,
}

-- What getfacl prints of a tag, in front of the permissions.
abbrev pub word_of : AclTag → Text
word_of owner = user_word
word_of (named_user u) = user_word
word_of owning_group = group_word
word_of (named_group g) = group_word
word_of mask = mask_word
word_of other = other_word

abbrev pub id_of : AclTag → Text
id_of (named_user u) = to_decimal u
id_of (named_group g) = to_decimal g
id_of _ = []

abbrev pub print_line : AclLine → Text
print_line l = word_of l.tag ++ (colon ∷ (id_of l.tag ++ (colon ∷ to_str l.perms)))

-- `#effective:`
abbrev pub effective_word : Text
effective_word = 35 ∷ 101 ∷ 102 ∷ 102 ∷ 101 ∷ 99 ∷ 116 ∷ 105 ∷ 118 ∷ 101 ∷ 58 ∷ []

abbrev pub tabs : ℕ → Text
tabs zero = []
tabs (suc n) = 9 ∷ tabs n

-- What follows an entry that the mask caps: at least one tab, and a comment with what is left of it.
abbrev pub comment : ℕ → Option AclPerms → Text
comment n none = []
comment n (some p) = tabs (suc n) ++ (effective_word ++ to_str p)

-- How getfacl comments on the entries, of the default layer or not: which of them, and behind how many
-- tabs.
pub record Comments : Type 0 where
  pub effective : Bool → AclLine → Option AclPerms
  pub indent : Bool → AclLine → ℕ

abbrev pub comment_on : Comments → Bool → AclLine → Text
comment_on k default l = comment (k.indent default l) (k.effective default l)

abbrev pub print_access : Comments → List AclLine → Text → Text
print_access k [] rest = rest
print_access k (l ∷ ls) rest =
    (print_line l ++ comment_on k false l) ++ (10 ∷ print_access k ls rest)

-- An empty line ends the output.
abbrev pub print_default : Comments → List AclLine → Text
print_default k [] = 10 ∷ []
print_default k (l ∷ ls) =
    ((default_prefix ++ print_line l) ++ comment_on k true l) ++ (10 ∷ print_default k ls)

abbrev pub print_table : Comments → AclTable → Text
print_table k t = print_access k t.access (print_default k t.default)

abbrev pub IsId : AclTag → Type 0
IsId (named_user u) = u < 2 ^ 32
IsId (named_group g) = g < 2 ^ 32
IsId _ = Unit

perms_cases :
    (r w x : Bool)
    → from_str (to_str (record { r = r; w = w; x = x })) ≡ record { r = r; w = w; x = x }
unfolding from_str to_str
perms_cases true true true = refl
perms_cases true true false = refl
perms_cases true false true = refl
perms_cases true false false = refl
perms_cases false true true = refl
perms_cases false true false = refl
perms_cases false false true = refl
perms_cases false false false = refl

from_str-to_str : (p : AclPerms) → from_str (to_str p) ≡ p
from_str-to_str p = perms_cases p.r p.w p.x

to_decimal_full : (n : ℕ) → is_empty (to_decimal n) ≡ false
unfolding to_decimal
to_decimal_full n = is_empty-digits_of 9 n

tag_of-word_of : (t : AclTag) → IsId t → tag_of (word_of t) (id_of t) ≡ some t
unfolding tag_of
tag_of-word_of owner h = refl
tag_of-word_of owning_group h = refl
tag_of-word_of mask h = refl
tag_of-word_of other h = refl
tag_of-word_of (named_user u) h =
    rw (to_decimal_full u) (ap (named named_user) (parse_u32-to_decimal u h))
tag_of-word_of (named_group g) h =
    rw (to_decimal_full g) (ap (named named_group) (parse_u32-to_decimal g h))

digits-contains : (s : Text) → all_digits s ≡ true → contains 58 s ≡ false
digits-contains [] h = refl
digits-contains (c ∷ s) h = ground (arith, digits-contains s)

to_decimal-contains : (n : ℕ) → contains 58 (to_decimal n) ≡ false
unfolding to_decimal
to_decimal-contains n = digits-contains (digits_of 10 n) (all_digits-digits_of 10 n)

word_of-contains : (t : AclTag) → contains 58 (word_of t) ≡ false
word_of-contains owner = refl
word_of-contains (named_user u) = refl
word_of-contains owning_group = refl
word_of-contains (named_group g) = refl
word_of-contains mask = refl
word_of-contains other = refl

id_of-contains : (t : AclTag) → contains 58 (id_of t) ≡ false
id_of-contains owner = refl
id_of-contains (named_user u) = to_decimal-contains u
id_of-contains owning_group = refl
id_of-contains (named_group g) = to_decimal-contains g
id_of-contains mask = refl
id_of-contains other = refl

pub parse_acl_line-print_line : (l : AclLine) → IsId l.tag → parse_acl_line (print_line l) ≡ some l
unfolding parse_acl_line
parse_acl_line-print_line l h =
    ap line_of_parts (split_once_at 58 (word_of l.tag) _ (word_of-contains l.tag))
    ∙ ap (line_of_rest (word_of l.tag))
        (split_once_at 58 (id_of l.tag) (to_str l.perms) (id_of-contains l.tag))
    ∙ ap (λ z. line_of z (tag_of (word_of l.tag) (id_of l.tag))) (from_str-to_str l.perms)
    ∙ ap (line_of l.perms) (tag_of-word_of l.tag h)
