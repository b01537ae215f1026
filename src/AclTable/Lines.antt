-- ===== src/AclTable/Lines.antt =====
-- One line of the output of getfacl, with its comment, as read by nfs-klldap-ui/src/privileged.rs.
use nfs_klldap_host.AclTable.{
  AclPerms, to_str, AclTag, owner, owning_group, mask, other, named_user, named_group, AclLine,
  default_prefix, strip_text, add_line, is_comment, parse_lines,
}
use nfs_klldap_host.AclTable.Printed.{effective_word, tabs, comment, word_of, id_of, print_line}
use nfs_klldap_host.Identity.Rows.{lines, to_decimal, digits_of}
use nfs_klldap_host.Identity.Rows.Decimal.{all_digits-digits_of}
use mathlib.Core.List.{append_assoc, append-nil}
use nfs_klldap_host.Prelude.{
  ℕ, zero, suc, sym, contains, split_once_at, Option, some, ◌≡◌, Bool, true, false, none, List, [],
  ◌∷◌, ◌++◌, refl, ap, ◌∙◌, arith, if◌then◌else◌, ◌==◌, Text, is_empty, is_digit, all_digits,
  is_whitespace, trim, trim_end, leads, trim_start_of_leads, split_once, All, Bool-cases, inl, inr,
}

-- Solid: no space, and no `#`.
abbrev pub IsSolid : ℕ → Type 0
IsSolid c = (is_whitespace c ≡ false) × ((c == 35) ≡ false)

digits-IsSolid : (s : Text) → all_digits s ≡ true → All IsSolid s
digits-IsSolid [] h = tt
digits-IsSolid (c ∷ s) h = elim (Bool-cases (is_digit c)) [
  | inl y ↦ ((ground arith, ground arith), digits-IsSolid s (ground arith))
  | inr n ↦ absurd (cc (h, n))
]

to_decimal-IsSolid : (n : ℕ) → All IsSolid (to_decimal n)
unfolding to_decimal
to_decimal-IsSolid n = digits-IsSolid (digits_of 10 n) (all_digits-digits_of 10 n)

word_of-IsSolid : (t : AclTag) → All IsSolid (word_of t)
word_of-IsSolid owner = ((refl, refl), ((refl, refl), ((refl, refl), ((refl, refl), tt))))
word_of-IsSolid (named_user u) = ((refl, refl), ((refl, refl), ((refl, refl), ((refl, refl), tt))))
word_of-IsSolid owning_group =
    ((refl, refl), ((refl, refl), ((refl, refl), ((refl, refl), ((refl, refl), tt)))))
word_of-IsSolid (named_group g) =
    ((refl, refl), ((refl, refl), ((refl, refl), ((refl, refl), ((refl, refl), tt)))))
word_of-IsSolid mask = ((refl, refl), ((refl, refl), ((refl, refl), ((refl, refl), tt))))
word_of-IsSolid other =
    ((refl, refl), ((refl, refl), ((refl, refl), ((refl, refl), ((refl, refl), tt)))))

id_of-IsSolid : (t : AclTag) → All IsSolid (id_of t)
id_of-IsSolid owner = tt
id_of-IsSolid (named_user u) = to_decimal-IsSolid u
id_of-IsSolid owning_group = tt
id_of-IsSolid (named_group g) = to_decimal-IsSolid g
id_of-IsSolid mask = tt
id_of-IsSolid other = tt

letter-IsSolid : (b : Bool) (c : ℕ) → IsSolid c → IsSolid (if b then c else 45)
letter-IsSolid true c h = h
letter-IsSolid false c h = (refl, refl)

to_str-IsSolid : (p : AclPerms) → All IsSolid (to_str p)
unfolding to_str
to_str-IsSolid p = (
  letter-IsSolid p.r 114 (refl, refl),
  (letter-IsSolid p.w 119 (refl, refl), (letter-IsSolid p.x 120 (refl, refl), tt)),
)

pub All-IsSolid-append : (s t : Text) → All IsSolid s → All IsSolid t → All IsSolid (s ++ t)
All-IsSolid-append [] t h k = k
All-IsSolid-append (c ∷ s) t (first, h) k = (first, All-IsSolid-append s t h k)

pub print_line-IsSolid : (l : AclLine) → All IsSolid (print_line l)
print_line-IsSolid l = All-IsSolid-append (word_of l.tag) _ (word_of-IsSolid l.tag) (
  (refl, refl),
  All-IsSolid-append (id_of l.tag) _ (id_of-IsSolid l.tag) ((refl, refl), to_str-IsSolid l.perms),
)

leads-IsSolid : (s : Text) → All IsSolid s → leads s ≡ true
leads-IsSolid [] h = refl
leads-IsSolid (c ∷ s) ((w, hash), h) = rw w refl

trim_end-IsSolid : (s : Text) → All IsSolid s → trim_end s ≡ s
trim_end-IsSolid [] h = refl
trim_end-IsSolid (c ∷ s) ((w, hash), h) = rw w (ap (λ z. c ∷ z) (trim_end-IsSolid s h))

trim-IsSolid : (s : Text) → All IsSolid s → trim s ≡ s
trim-IsSolid s h = ap trim_end (trim_start_of_leads s (leads-IsSolid s h)) ∙ trim_end-IsSolid s h

split_once-IsSolid : (s : Text) → All IsSolid s → split_once 35 s ≡ none
split_once-IsSolid [] h = refl
split_once-IsSolid (c ∷ s) ((w, hash), h) = rw (hash, split_once-IsSolid s h) refl

not_break : (c : ℕ) → is_whitespace c ≡ false → ((c == 10) ≡ false) × ((c == 13) ≡ false)
not_break c h = (ground arith, ground arith)

is_comment-IsSolid : (s : Text) → All IsSolid s → is_empty s ≡ false → is_comment s ≡ false
is_comment-IsSolid [] h full = absurd (cc full)
is_comment-IsSolid (c ∷ s) ((w, hash), h) full = ground arith

-- A solid line is read whole.
parse_lines-IsSolid :
    (s : Text) (rest : List Text)
    → All IsSolid s
    → is_empty s ≡ false
    → parse_lines (s ∷ rest) ≡ add_line s (strip_text default_prefix s) (parse_lines rest)
unfolding parse_lines
parse_lines-IsSolid s rest h full =
    rw (trim-IsSolid s h, is_comment-IsSolid s h full, split_once-IsSolid s h) refl

-- Ink: not a space; a text of ink at the end of a line keeps what stands in front of it.
abbrev IsInk : ℕ → Type 0
IsInk c = is_whitespace c ≡ false

trim_end-ink : (c : ℕ) (t : Text) → All IsInk (c ∷ t) → trim_end (c ∷ t) ≡ c ∷ t
trim_end-ink c [] (w, h) = rw w refl
trim_end-ink c (d ∷ t) (w, h) = rw w (ap (λ z. c ∷ z) (trim_end-ink d t h))

trim_end-kept :
    (s : Text) (c : ℕ) (t : Text) → All IsInk (c ∷ t) → trim_end (s ++ (c ∷ t)) ≡ s ++ (c ∷ t)
trim_end-kept [] c t h = trim_end-ink c t h
trim_end-kept (d ∷ []) c t h = kept d c t (trim_end-ink c t h)
  where
    kept : (d c : ℕ) (t : Text) → trim_end (c ∷ t) ≡ c ∷ t → trim_end (d ∷ c ∷ t) ≡ d ∷ c ∷ t
    kept d c t e = rw e (ground arith)
trim_end-kept (d ∷ e ∷ s) c t h = kept (trim_end-kept (e ∷ s) c t h)
  where
    kept :
        trim_end (e ∷ (s ++ (c ∷ t))) ≡ e ∷ (s ++ (c ∷ t))
        → trim_end (d ∷ e ∷ (s ++ (c ∷ t))) ≡ d ∷ e ∷ (s ++ (c ∷ t))
    kept same = rw same (ground arith)

trim_end-tabs : (n : ℕ) → trim_end (tabs n) ≡ []
trim_end-tabs zero = refl
trim_end-tabs (suc n) = rw (trim_end-tabs n) refl

trim_end-IsSolid-tabs : (s : Text) (n : ℕ) → All IsSolid s → trim_end (s ++ tabs n) ≡ s
trim_end-IsSolid-tabs [] n h = trim_end-tabs n
trim_end-IsSolid-tabs (c ∷ s) n ((w, hash), h) =
    rw w (ap (λ z. c ∷ z) (trim_end-IsSolid-tabs s n h))

leads-append : (s t : Text) → All IsSolid s → is_empty s ≡ false → leads (s ++ t) ≡ true
leads-append [] t h full = absurd (cc full)
leads-append (c ∷ s) t ((w, hash), h) full = rw w refl

trim-IsSolid-tabs : (s : Text) (n : ℕ) → All IsSolid s → is_empty s ≡ false → trim (s ++ tabs n) ≡ s
trim-IsSolid-tabs s n h full =
    ap trim_end (trim_start_of_leads (s ++ tabs n) (leads-append s (tabs n) h full))
    ∙ trim_end-IsSolid-tabs s n h

contains-tabs : (n : ℕ) → contains 35 (tabs n) ≡ false
contains-tabs zero = refl
contains-tabs (suc n) = contains-tabs n

contains-IsSolid-tabs : (s : Text) (n : ℕ) → All IsSolid s → contains 35 (s ++ tabs n) ≡ false
contains-IsSolid-tabs [] n h = contains-tabs n
contains-IsSolid-tabs (c ∷ s) n ((w, hash), h) = ground (arith, contains-IsSolid-tabs s n h)

IsSolid-IsInk : (s : Text) → All IsSolid s → All IsInk s
IsSolid-IsInk [] h = tt
IsSolid-IsInk (c ∷ s) ((w, hash), h) = (w, IsSolid-IsInk s h)

effective_word-IsInk : (p : AclPerms) → All IsInk (effective_word ++ to_str p)
effective_word-IsInk p = (
  refl,
  (
    refl,
    (
      refl,
      (
        refl,
        (
          refl,
          (
            refl,
            (refl, (refl, (refl, (refl, (refl, IsSolid-IsInk (to_str p) (to_str-IsSolid p)))))),
          ),
        ),
      ),
    ),
  ),
)

is_comment-append : (s t : Text) → All IsSolid s → is_empty s ≡ false → is_comment (s ++ t) ≡ false
is_comment-append [] t h full = absurd (cc full)
is_comment-append (c ∷ s) t ((w, hash), h) full = ground arith

-- A solid line with a comment behind it is read as the solid line.
parse_lines-effective :
    (s : Text) (n : ℕ) (p : AclPerms) (rest : List Text)
    → All IsSolid s
    → is_empty s ≡ false
    → parse_lines (((s ++ tabs n) ++ (effective_word ++ to_str p)) ∷ rest)
      ≡ add_line s (strip_text default_prefix s) (parse_lines rest)
unfolding parse_lines
parse_lines-effective s n p rest h full =
    let front = s ++ tabs n in
    let back = effective_word ++ to_str p in
    let whole : trim (front ++ back) ≡ front ++ back =
      ap trim_end (
        trim_start_of_leads (front ++ back)
          (ap leads (append_assoc s (tabs n) back) ∙ leads-append s (tabs n ++ back) h full))
      ∙ trim_end-kept front 35 _ (effective_word-IsInk p) in
    let shown : is_comment (front ++ back) ≡ false =
      ap is_comment (append_assoc s (tabs n) back) ∙ is_comment-append s (tabs n ++ back) h full in
    let split : split_once 35 (front ++ back) ≡ some (front, _) =
      split_once_at 35 front _ (contains-IsSolid-tabs s n h) in
    rw (whole, shown, split, trim-IsSolid-tabs s n h full) refl

pub parse_lines-comment :
    (s : Text) (n : ℕ) (o : Option AclPerms) (rest : List Text)
    → All IsSolid s
    → is_empty s ≡ false
    → parse_lines ((s ++ comment n o) ∷ rest)
      ≡ add_line s (strip_text default_prefix s) (parse_lines rest)
parse_lines-comment s n none rest h full =
    ap (λ z. parse_lines (z ∷ rest)) (append-nil s) ∙ parse_lines-IsSolid s rest h full
parse_lines-comment s n (some p) rest h full =
    ap (λ z. parse_lines (z ∷ rest))
      (sym (append_assoc s (tabs (suc n)) (effective_word ++ to_str p)))
    ∙ parse_lines-effective s (suc n) p rest h full

-- A text of one line.
abbrev IsLine : ℕ → Type 0
IsLine c = ((c == 10) ≡ false) × ((c == 13) ≡ false)

IsInk-IsLine : (s : Text) → All IsInk s → All IsLine s
IsInk-IsLine [] h = tt
IsInk-IsLine (c ∷ s) (w, h) = (not_break c w, IsInk-IsLine s h)

All-IsLine-append : (s t : Text) → All IsLine s → All IsLine t → All IsLine (s ++ t)
All-IsLine-append [] t h k = k
All-IsLine-append (c ∷ s) t (first, h) k = (first, All-IsLine-append s t h k)

tabs-IsLine : (n : ℕ) → All IsLine (tabs n)
tabs-IsLine zero = tt
tabs-IsLine (suc n) = ((refl, refl), tabs-IsLine n)

comment-IsLine : (n : ℕ) (o : Option AclPerms) → All IsLine (comment n o)
comment-IsLine n none = tt
comment-IsLine n (some p) =
    All-IsLine-append (tabs (suc n)) _ (tabs-IsLine (suc n))
      (IsInk-IsLine (effective_word ++ to_str p) (effective_word-IsInk p))

lines-IsLine : (s rest : Text) → All IsLine s → lines (s ++ (10 ∷ rest)) ≡ s ∷ lines rest
lines-IsLine [] rest h = refl
lines-IsLine (c ∷ s) rest ((feed, carriage), h) = rw (feed, carriage, lines-IsLine s rest h) refl

pub lines-comment :
    (s : Text) (n : ℕ) (o : Option AclPerms) (rest : Text)
    → All IsSolid s
    → lines ((s ++ comment n o) ++ (10 ∷ rest)) ≡ (s ++ comment n o) ∷ lines rest
lines-comment s n o rest h =
    lines-IsLine (s ++ comment n o) rest
      (All-IsLine-append s _ (IsInk-IsLine s (IsSolid-IsInk s h)) (comment-IsLine n o))
