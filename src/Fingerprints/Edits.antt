-- ===== src/Fingerprints/Edits.antt =====
-- One edited file through the filter and the sort of nfs-klldap-config/src/exports_fingerprint.rs.
use nfs_klldap_host.Fingerprints.{Entry, is_before, insert_entry, sort_by_name}
use nfs_klldap_host.Prelude.{
  ℕ, ◌≡◌, inl, inr, refl, Bool, true, Option, none, some, List, [], ◌∷◌, ◌++◌, Text, retain,
  Bool-cases, All, ◌<◌,
}

abbrev pub entry : Text → List ℕ → Entry
entry name bytes = record { file_name = name; content = some bytes }

-- The first list with the content `p` of one file `name` replaced by `q`.
pub data IsEdited : Text → List ℕ → List ℕ → List Entry → List Entry → Type 0 where
  this :
      (name : Text) (p q : List ℕ) (es fs rest : List Entry)
      → es ≡ entry name p ∷ rest
      → fs ≡ entry name q ∷ rest
      → IsEdited name p q es fs
  later :
      (name : Text) (p q : List ℕ) (es fs : List Entry) (e : Entry) (s t : List Entry)
      → es ≡ e ∷ s
      → fs ≡ e ∷ t
      → IsEdited name p q s t
      → IsEdited name p q es fs

pub append-IsEdited :
    (name : Text) (p q : List ℕ) (before after : List Entry)
    → IsEdited name p q (before ++ (entry name p ∷ after)) (before ++ (entry name q ∷ after))
append-IsEdited name p q [] after = this name p q _ _ after refl refl
append-IsEdited name p q (e ∷ before) after =
    later name p q _ _ e _ _ refl refl (append-IsEdited name p q before after)

pub retain-IsEdited :
    (keep : Text → Bool) (name : Text) (p q : List ℕ) (es fs : List Entry)
    → keep name ≡ true
    → IsEdited name p q es fs
    → IsEdited name p q (retain (λ e. keep e.file_name) es) (retain (λ e. keep e.file_name) fs)
retain-IsEdited keep name p q es fs h (this _ _ _ _ _ rest a b) =
    rw (a, b, h) (this name p q _ _ (retain (λ e. keep e.file_name) rest) refl refl)
retain-IsEdited keep name p q es fs h (later _ _ _ _ _ e s t a b k) =
    elim (Bool-cases (keep e.file_name)) [
      | inl y ↦
          rw (a, b, y) (later name p q _ _ e _ _ refl refl (retain-IsEdited keep name p q s t h k))
      | inr n ↦ rw (a, b, n) (retain-IsEdited keep name p q s t h k)
    ]

insert_entry-IsEdited :
    (x : Entry) (name : Text) (p q : List ℕ) (es fs : List Entry)
    → IsEdited name p q es fs
    → IsEdited name p q (insert_entry x es) (insert_entry x fs)
unfolding insert_entry
insert_entry-IsEdited x name p q es fs (this _ _ _ _ _ rest a b) =
    elim (Bool-cases (is_before name x.file_name)) [
      | inl y ↦ rw (a, b, y) (this name p q _ _ (insert_entry x rest) refl refl)
      | inr n ↦ rw (a, b, n) (later name p q _ _ x _ _ refl refl (this name p q _ _ rest refl refl))
    ]
insert_entry-IsEdited x name p q es fs (later _ _ _ _ _ e s t a b k) =
    elim (Bool-cases (is_before e.file_name x.file_name)) [
      | inl y ↦
          rw (a, b, y) (later name p q _ _ e _ _ refl refl (insert_entry-IsEdited x name p q s t k))
      | inr n ↦
          rw (a, b, n) (later name p q _ _ x _ _ refl refl (later name p q _ _ e _ _ refl refl k))
    ]

insert_entry-entry :
    (name : Text) (p q : List ℕ) (es : List Entry)
    → IsEdited name p q (insert_entry (entry name p) es) (insert_entry (entry name q) es)
unfolding insert_entry
insert_entry-entry name p q [] = this name p q _ _ [] refl refl
insert_entry-entry name p q (e ∷ es) = elim (Bool-cases (is_before e.file_name name)) [
  | inl y ↦ rw y (later name p q _ _ e _ _ refl refl (insert_entry-entry name p q es))
  | inr n ↦ rw n (this name p q _ _ (e ∷ es) refl refl)
]

pub sort_by_name-IsEdited :
    (name : Text) (p q : List ℕ) (es fs : List Entry)
    → IsEdited name p q es fs
    → IsEdited name p q (sort_by_name es) (sort_by_name fs)
unfolding sort_by_name
sort_by_name-IsEdited name p q es fs (this _ _ _ _ _ rest a b) =
    rw (a, b) (insert_entry-entry name p q (sort_by_name rest))
sort_by_name-IsEdited name p q es fs (later _ _ _ _ _ e s t a b k) =
    rw (a, b) (insert_entry-IsEdited e name p q _ _ (sort_by_name-IsEdited name p q s t k))

-- What reading gives is bytes.
abbrev pub OfBytes : Option (List ℕ) → Type 0
OfBytes none = Unit
OfBytes (some bytes) = All (λ b. b < 256) bytes

abbrev pub IsRead : Entry → Type 0
IsRead e = OfBytes e.content

pub retain-IsRead :
    (keep : Entry → Bool) (es : List Entry) → All IsRead es → All IsRead (retain keep es)
retain-IsRead keep [] h = tt
retain-IsRead keep (e ∷ es) (k, h) = elim (Bool-cases (keep e)) [
  | inl y ↦ rw y (k, retain-IsRead keep es h)
  | inr n ↦ rw n (retain-IsRead keep es h)
]

insert_entry-IsRead :
    (x : Entry) (es : List Entry) → IsRead x → All IsRead es → All IsRead (insert_entry x es)
unfolding insert_entry
insert_entry-IsRead x [] k h = (k, tt)
insert_entry-IsRead x (e ∷ es) k (l, h) = elim (Bool-cases (is_before e.file_name x.file_name)) [
  | inl y ↦ rw y (l, insert_entry-IsRead x es k h)
  | inr n ↦ rw n (k, (l, h))
]

pub sort_by_name-IsRead : (es : List Entry) → All IsRead es → All IsRead (sort_by_name es)
unfolding sort_by_name
sort_by_name-IsRead [] h = tt
sort_by_name-IsRead (e ∷ es) (k, h) =
    insert_entry-IsRead e (sort_by_name es) k (sort_by_name-IsRead es h)
