-- ===== src/AclTable/ReadBack.antt =====
-- A whole output of getfacl, read back by nfs-klldap-ui/src/privileged.rs.
use nfs_klldap_host.AclTable.{
  AclTag, owner, owning_group, mask, other, named_user, named_group, AclLine, AclTable,
  parse_acl_line, default_prefix, strip_text, add_access, add_default, add_line, parse_lines,
  parse_getfacl_table,
}
use nfs_klldap_host.AclTable.Printed.{
  Comments, word_of, print_line, print_access, print_default, print_table, IsId,
  parse_acl_line-print_line,
}
use nfs_klldap_host.AclTable.Lines.{
  IsSolid, All-IsSolid-append, print_line-IsSolid, parse_lines-comment, lines-comment,
}
use nfs_klldap_host.Identity.Rows.{lines}
use nfs_klldap_host.Prelude.{
  ◌≡◌, true, false, none, List, [], ◌∷◌, ◌++◌, refl, ap, ◌∙◌, Text, is_empty, All,
}

word_of_full : (t : AclTag) (rest : Text) → is_empty (word_of t ++ rest) ≡ false
word_of_full owner rest = refl
word_of_full (named_user u) rest = refl
word_of_full owning_group rest = refl
word_of_full (named_group g) rest = refl
word_of_full mask rest = refl
word_of_full other rest = refl

word_of-strip_text :
    (t : AclTag) (rest : Text) → strip_text default_prefix (word_of t ++ rest) ≡ none
word_of-strip_text owner rest = refl
word_of-strip_text (named_user u) rest = refl
word_of-strip_text owning_group rest = refl
word_of-strip_text (named_group g) rest = refl
word_of-strip_text mask rest = refl
word_of-strip_text other rest = refl

abbrev pub AllIds : List AclLine → Type 0
AllIds ls = All (λ l. IsId l.tag) ls

default_prefix-IsSolid : (l : AclLine) → All IsSolid (default_prefix ++ print_line l)
default_prefix-IsSolid l =
    All-IsSolid-append default_prefix (print_line l)
      (
        (refl, refl),
        (
          (refl, refl),
          (
            (refl, refl),
            ((refl, refl), ((refl, refl), ((refl, refl), ((refl, refl), ((refl, refl), tt))))),
          ),
        ),
      )
      (print_line-IsSolid l)

parse-print_default :
    (k : Comments) (ls : List AclLine)
    → AllIds ls
    → parse_lines (lines (print_default k ls)) ≡ record { access = []; default = ls }
unfolding parse_lines
parse-print_default k [] h = refl
parse-print_default k (l ∷ ls) (id, h) =
    let s = default_prefix ++ print_line l in
    let n = k.indent true l in
    let o = k.effective true l in
    ap parse_lines (lines-comment s n o (print_default k ls) (default_prefix-IsSolid l))
    ∙ parse_lines-comment s n o (lines (print_default k ls)) (default_prefix-IsSolid l) refl
    ∙ ap (add_default (parse_acl_line (print_line l))) (parse-print_default k ls h)
    ∙ ap (λ z. add_default z (record { access = []; default = ls }))
        (parse_acl_line-print_line l id)

parse-print_access :
    (k : Comments) (ls : List AclLine) (rest : Text) (d : List AclLine)
    → AllIds ls
    → parse_lines (lines rest) ≡ record { access = []; default = d }
    → parse_lines (lines (print_access k ls rest)) ≡ record { access = ls; default = d }
parse-print_access k [] rest d h e = e
parse-print_access k (l ∷ ls) rest d (id, h) e =
    let later = print_access k ls rest in
    let n = k.indent false l in
    let o = k.effective false l in
    ap parse_lines (lines-comment (print_line l) n o later (print_line-IsSolid l))
    ∙ parse_lines-comment (print_line l) n o (lines later) (print_line-IsSolid l)
        (word_of_full l.tag _)
    ∙ ap (λ z. add_line (print_line l) z (parse_lines (lines later))) (word_of-strip_text l.tag _)
    ∙ ap (add_access (parse_acl_line (print_line l))) (parse-print_access k ls rest d h e)
    ∙ ap (λ z. add_access z (record { access = ls; default = d })) (parse_acl_line-print_line l id)

-- Whatever entries a path has, base, named and mask, access and default, with ids of 32 bits, and
-- whichever of them getfacl follows with tabs and an `#effective:` comment: the output that it prints
-- for them, a line for each and an empty one, is read as exactly those entries, in their order and with
-- their own permissions, not those of the comments.
pub parse_getfacl_table-print_table :
    (k : Comments) (t : AclTable)
    → AllIds t.access
    → AllIds t.default
    → parse_getfacl_table (print_table k t) ≡ t
unfolding parse_getfacl_table
parse_getfacl_table-print_table k t h h' =
    parse-print_access k t.access (print_default k t.default) t.default h
      (parse-print_default k t.default h')
