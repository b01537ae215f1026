-- ===== src/Fingerprints/Noticed.antt =====
-- The fingerprint of a directory in nfs-klldap-config/src/exports_fingerprint.rs, when one byte changes.
use nfs_klldap_host.Fingerprints.{
  Entry, fnv1a_seed, mix, fingerprint_bytes, fingerprint_files, contents_of, is_export,
  fingerprint_exports_dir,
}
use nfs_klldap_host.Fingerprints.Edits.{
  entry, IsEdited, this, later, append-IsEdited, retain-IsEdited, sort_by_name-IsEdited, OfBytes,
  IsRead, retain-IsRead, sort_by_name-IsRead,
}
use nfs_klldap_host.Fingerprints.Words.{IsWord, mix-IsWord, mix-left, mix-right}
use nfs_klldap_host.Prelude.{
  ℕ, ◌≡◌, ◌≢◌, refl, sym, ◌∙◌, subst, arith, true, Option, none, some, List, [], ◌∷◌, ◌++◌, Text,
  All, ◌<◌,
}

abbrev AreBytes : List ℕ → Type 0
AreBytes bytes = All (λ b. b < 256) bytes

fingerprint_bytes-IsWord : (bytes : List ℕ) (h : ℕ) → IsWord h → IsWord (fingerprint_bytes bytes h)
unfolding fingerprint_bytes
fingerprint_bytes-IsWord [] h w = w
fingerprint_bytes-IsWord (b ∷ bs) h w = fingerprint_bytes-IsWord bs (mix h b) (mix-IsWord h b)

fingerprint_bytes-left :
    (bytes : List ℕ) (g h : ℕ)
    → AreBytes bytes
    → IsWord g
    → IsWord h
    → fingerprint_bytes bytes g ≡ fingerprint_bytes bytes h
    → g ≡ h
unfolding fingerprint_bytes
fingerprint_bytes-left [] g h l p q e = e
fingerprint_bytes-left (b ∷ bs) g h (k, l) p q e =
    mix-left g h b p q (omega arith)
      (fingerprint_bytes-left bs (mix g b) (mix h b) l (mix-IsWord g b) (mix-IsWord h b) e)

fingerprint_bytes-append :
    (pre post : List ℕ) (h : ℕ)
    → fingerprint_bytes (pre ++ post) h ≡ fingerprint_bytes post (fingerprint_bytes pre h)
unfolding fingerprint_bytes
fingerprint_bytes-append [] post h = refl
fingerprint_bytes-append (b ∷ pre) post h = fingerprint_bytes-append pre post (mix h b)

fingerprint_bytes-byte :
    (pre post : List ℕ) (b c h : ℕ)
    → AreBytes post
    → b < 256
    → c < 256
    → IsWord h
    → fingerprint_bytes (pre ++ (b ∷ post)) h ≡ fingerprint_bytes (pre ++ (c ∷ post)) h
    → b ≡ c
unfolding fingerprint_bytes
fingerprint_bytes-byte pre post b c h l p q w e =
    let start = fingerprint_bytes pre h in
    mix-right start b c (fingerprint_bytes-IsWord pre h w) (omega arith) (omega arith) (
      fingerprint_bytes-left post (mix start b) (mix start c) l (mix-IsWord start b)
        (mix-IsWord start c)
        (sym (fingerprint_bytes-append pre (b ∷ post) h)
          ∙ e
          ∙ fingerprint_bytes-append pre (c ∷ post) h))

fingerprint_files-left :
    (files : List (Option (List ℕ))) (g h : ℕ)
    → All OfBytes files
    → IsWord g
    → IsWord h
    → fingerprint_files files g ≡ fingerprint_files files h
    → g ≡ h
unfolding fingerprint_files
fingerprint_files-left [] g h l p q e = e
fingerprint_files-left (none ∷ files) g h (k, l) p q e = fingerprint_files-left files g h l p q e
fingerprint_files-left (some bytes ∷ files) g h (k, l) p q e =
    let g' = fingerprint_bytes bytes g in
    let h' = fingerprint_bytes bytes h in
    fingerprint_bytes-left bytes g h k p q (
      mix-left g' h' 0xff (fingerprint_bytes-IsWord bytes g p) (fingerprint_bytes-IsWord bytes h q)
        (omega arith)
        (fingerprint_files-left files (mix g' 0xff) (mix h' 0xff) l (mix-IsWord g' 0xff)
          (mix-IsWord h' 0xff) e))

contents_of-OfBytes : (es : List Entry) → All IsRead es → All OfBytes (contents_of es)
contents_of-OfBytes [] h = tt
contents_of-OfBytes (e ∷ es) (k, h) = (k, contents_of-OfBytes es h)

-- One edited file, whose two contents no start confuses.
fingerprint_files-IsEdited :
    (name : Text) (p q : List ℕ) (es fs : List Entry) (h : ℕ)
    → ((g : ℕ) → IsWord g → fingerprint_bytes p g ≢ fingerprint_bytes q g)
    → IsEdited name p q es fs
    → All IsRead es
    → IsWord h
    → fingerprint_files (contents_of es) h ≢ fingerprint_files (contents_of fs) h
unfolding fingerprint_files
fingerprint_files-IsEdited name p q es fs h apart (this _ _ _ _ _ rest a b) read w =
    rw (a, b)
      (λ e.
        let g = fingerprint_bytes p h in
        let i = fingerprint_bytes q h in
        apart h w (
          mix-left g i 0xff (fingerprint_bytes-IsWord p h w) (fingerprint_bytes-IsWord q h w)
            (omega arith)
            (fingerprint_files-left (contents_of rest) (mix g 0xff) (mix i 0xff)
              (contents_of-OfBytes rest (subst (All IsRead) a read).1) (mix-IsWord g 0xff)
              (mix-IsWord i 0xff) e)))
fingerprint_files-IsEdited name p q es fs h apart (later _ _ _ _ _ x s t a b k) read w =
    rw (a, b)
      (step x.content
        (λ g v. fingerprint_files-IsEdited name p q s t g apart k (subst (All IsRead) a read).1 v))
  where
    step :
        (o : Option (List ℕ))
        → ((g : ℕ)
            → IsWord g
            → fingerprint_files (contents_of s) g ≢ fingerprint_files (contents_of t) g)
        → fingerprint_files (o ∷ contents_of s) h ≢ fingerprint_files (o ∷ contents_of t) h
    step none rest = rest h w
    step (some bytes) rest =
        rest (mix (fingerprint_bytes bytes h) 0xff) (mix-IsWord (fingerprint_bytes bytes h) 0xff)

-- When one byte of one file changes in a directory whose files are bytes, and the file's name ends in
-- .conf or .cfg, the fingerprint of the exports directory changes, whatever the order of the entries
-- and whatever the other entries are, unreadable ones included.
pub fingerprint_exports_dir-byte :
    (before after : List Entry) (name : Text) (pre post : List ℕ) (b c : ℕ)
    → is_export name ≡ true
    → All IsRead (before ++ (entry name (pre ++ (b ∷ post)) ∷ after))
    → AreBytes post
    → b < 256
    → c < 256
    → b ≢ c
    → fingerprint_exports_dir (some (before ++ (entry name (pre ++ (b ∷ post)) ∷ after)))
      ≢ fingerprint_exports_dir (some (before ++ (entry name (pre ++ (c ∷ post)) ∷ after)))
unfolding fingerprint_exports_dir
fingerprint_exports_dir-byte before after name pre post b c n read l p q ne =
    let old = pre ++ (b ∷ post) in
    let new = pre ++ (c ∷ post) in
    let edit = append-IsEdited name old new before after in
    let kept = retain-IsEdited is_export name old new _ _ n edit in
    fingerprint_files-IsEdited name old new _ _ fnv1a_seed
      (λ g w e. ne (fingerprint_bytes-byte pre post b c g l p q w e))
      (sort_by_name-IsEdited name old new _ _ kept)
      (sort_by_name-IsRead _ (retain-IsRead (λ e. is_export e.file_name) _ read)) (omega arith)
