-- ===== src/Identity/Principal/Normal.antt =====
-- The normal form of a principal: what nfs-klldap-identity/src/krb5/principal.rs makes of every name
-- before it is a key.
use nfs_klldap_host.Identity.Principal.{at_sign, normalize_principal, canonicalize_principal}
use nfs_klldap_host.Prelude.{
  ◌≡◌, inl, inr, true, false, none, [], ◌∷◌, ◌++◌, refl, sym, ap, ◌∙◌, Text, trim, trim_end,
  is_empty, split_once, contains, to_ascii_uppercase, Bool-cases, leads, trim_start_of_leads,
  trim-leads, trim_end-trim, trim-trim, leads-to_ascii_uppercase, trim_end-to_ascii_uppercase,
  to_ascii_uppercase-to_ascii_uppercase, split_once_at, until_at, trim_end-append, ◌⊎◌, subst, Cut,
  cut, leads-append, ℕ,
}

-- A realm as it is written into a principal.
abbrev IsRealm : Text → Type 0
IsRealm r = (leads r ≡ true) × (trim_end r ≡ r) × (to_ascii_uppercase r ≡ r)

upper_trim-IsRealm : (r : Text) → IsRealm (to_ascii_uppercase (trim r))
upper_trim-IsRealm r = (
  leads-to_ascii_uppercase (trim r) ∙ trim-leads r,
  trim_end-to_ascii_uppercase (trim r) ∙ ap to_ascii_uppercase (trim_end-trim r),
  to_ascii_uppercase-to_ascii_uppercase (trim r),
)

IsRealm-trim : (r : Text) → IsRealm r → trim r ≡ r
IsRealm-trim r (lead, end, up) = ap trim_end (trim_start_of_leads r lead) ∙ end

trim_parts :
    (l r : Text)
    → leads (l ++ at_sign ∷ r) ≡ true
    → trim_end r ≡ r
    → trim (l ++ at_sign ∷ r) ≡ l ++ at_sign ∷ r
trim_parts l r lead end =
    ap trim_end (trim_start_of_leads (l ++ at_sign ∷ r) lead)
    ∙ trim_end-append at_sign l r refl
    ∙ ap (λ z. l ++ at_sign ∷ z) end

-- A trimmed principal that is cut behind `l`.
normalize_parts :
    (p l r : Text)
    → trim p ≡ l ++ at_sign ∷ r
    → contains at_sign l ≡ false
    → normalize_principal p ≡ l ++ at_sign ∷ to_ascii_uppercase (trim r)
unfolding normalize_principal
normalize_parts p l r e without =
    let again = ap trim (sym e) ∙ trim-trim p ∙ e in
    rw (e, split_once_at at_sign l r without, again, until_at at_sign l r without) refl

normalize_uncut : (p : Text) → split_once at_sign (trim p) ≡ none → normalize_principal p ≡ trim p
unfolding normalize_principal
normalize_uncut p e = rw e refl

normal_parts :
    (l r : Text)
    → leads (l ++ at_sign ∷ r) ≡ true
    → contains at_sign l ≡ false
    → IsRealm r
    → normalize_principal (l ++ at_sign ∷ r) ≡ l ++ at_sign ∷ r
normal_parts l r lead without (first, end, up) =
    normalize_parts (l ++ at_sign ∷ r) l r (trim_parts l r lead end) without
    ∙ ap (λ z. l ++ at_sign ∷ to_ascii_uppercase z) (IsRealm-trim r (first, end, up))
    ∙ ap (λ z. l ++ at_sign ∷ z) up

leads_parts : (p l r x : Text) → trim p ≡ l ++ at_sign ∷ r → leads (l ++ at_sign ∷ x) ≡ true
leads_parts p l r x e = leads-append at_sign l x r ∙ ap leads (sym e) ∙ trim-leads p

normal_of_Cut :
    (p : Text)
    → Cut at_sign (trim p)
    → normalize_principal (normalize_principal p) ≡ normalize_principal p
normal_of_Cut p (inl (uncut, without)) =
    let same = normalize_uncut p uncut in
    ap normalize_principal same
    ∙ normalize_uncut (trim p) (ap (split_once at_sign) (trim-trim p) ∙ uncut)
    ∙ trim-trim p
    ∙ sym same
normal_of_Cut p (inr (l, r, e, without)) =
    let same = normalize_parts p l r e without in
    ap normalize_principal same
    ∙ normal_parts l (to_ascii_uppercase (trim r)) (leads_parts p l r _ e) without
        (upper_trim-IsRealm r)
    ∙ sym same

-- Normalizing a principal twice is normalizing it once.
pub normalize_principal-normalize_principal :
    (p : Text) → normalize_principal (normalize_principal p) ≡ normalize_principal p
normalize_principal-normalize_principal p = normal_of_Cut p (cut at_sign (trim p))

normalize-trim : (p : Text) → normalize_principal (trim p) ≡ normalize_principal p
unfolding normalize_principal
normalize-trim p = rw (trim-trim p) refl

-- A name with a realm that is not empty.
abbrev IsQualified : Text → Type 0
IsQualified s =
    (l : Text) × (r : Text) × (s ≡ l ++ at_sign ∷ r)
    × (contains at_sign l ≡ false)
    × (leads (l ++ at_sign ∷ r) ≡ true)
    × IsRealm r
    × (is_empty r ≡ false)

abbrev Form : Text → Type 0
Form s = (s ≡ []) ⊎ IsQualified s

is_empty-upper : (s : Text) → is_empty (to_ascii_uppercase s) ≡ is_empty s
is_empty-upper [] = refl
is_empty-upper (c ∷ s) = refl

is_empty_nil : (s : Text) → is_empty s ≡ true → s ≡ []
is_empty_nil [] h = refl
is_empty_nil (c ∷ s) h = absurd (cc h)

leads_full : (d : ℕ) (s x : Text) → is_empty s ≡ false → leads s ≡ true → leads (s ++ d ∷ x) ≡ true
leads_full d [] x h k = absurd (cc h)
leads_full d (c ∷ s) x h k = k

filled :
    (p realm : Text)
    → is_empty (to_ascii_uppercase (trim realm)) ≡ false
    → Cut at_sign (trim p)
    → Form (canonicalize_principal p realm)
unfolding canonicalize_principal
filled p realm set (inl (uncut, without)) = elim (Bool-cases (is_empty (trim p))) [
  | inl empty ↦ inl (
      rw (set, uncut, empty)
        (normalize-trim p ∙ normalize_uncut p uncut ∙ is_empty_nil (trim p) empty))
  | inr full ↦ inr (
    trim p,
    to_ascii_uppercase (trim realm),
    rw (set, uncut, full) refl,
    without,
    leads_full at_sign (trim p) _ full (trim-leads p),
    upper_trim-IsRealm realm,
    set,
  )
]
filled p realm set (inr (l, r, e, without)) =
    let cut_here = ap (split_once at_sign) e ∙ split_once_at at_sign l r without in
    elim (Bool-cases (is_empty (trim r))) [
      | inl empty ↦ inr (
        l,
        to_ascii_uppercase (trim realm),
        rw (set, cut_here, empty) refl,
        without,
        leads_parts p l r _ e,
        upper_trim-IsRealm realm,
        set,
      )
      | inr full ↦ inr (
        l,
        to_ascii_uppercase (trim r),
        rw (set, cut_here, full) (normalize-trim p ∙ normalize_parts p l r e without),
        without,
        leads_parts p l r _ e,
        upper_trim-IsRealm r,
        is_empty-upper (trim r) ∙ full,
      )
    ]

Form-normal : (s : Text) → Form s → normalize_principal s ≡ s
unfolding normalize_principal
Form-normal s (inl e) = subst (λ z. normalize_principal z ≡ z) (sym e) refl
Form-normal s (inr (l, r, e, without, lead, realm, full)) =
    subst (λ z. normalize_principal z ≡ z) (sym e) (normal_parts l r lead without realm)

qualified_again :
    (l r realm : Text)
    → contains at_sign l ≡ false
    → leads (l ++ at_sign ∷ r) ≡ true
    → IsRealm r
    → is_empty r ≡ false
    → canonicalize_principal (l ++ at_sign ∷ r) realm ≡ l ++ at_sign ∷ r
unfolding canonicalize_principal
qualified_again l r realm without lead (first, end, up) full =
    let whole = trim_parts l r lead end in
    let normal = normal_parts l r lead without (first, end, up) in
    elim (Bool-cases (is_empty (to_ascii_uppercase (trim realm)))) [
      | inl none_set ↦ rw (none_set, whole) normal
      | inr set ↦
          rw (set, whole, split_once_at at_sign l r without, IsRealm-trim r (first, end, up), full)
            normal
    ]

Form-canonical : (s realm : Text) → Form s → canonicalize_principal s realm ≡ s
unfolding canonicalize_principal normalize_principal
Form-canonical s realm (inl e) = elim (Bool-cases (is_empty (to_ascii_uppercase (trim realm)))) [
  | inl none_set ↦ rw (e, none_set) refl
  | inr set ↦ rw (e, set) refl
]
Form-canonical s realm (inr (l, r, e, without, lead, is_realm, full)) =
    subst (λ z. canonicalize_principal z realm ≡ z) (sym e)
      (qualified_again l r realm without lead is_realm full)

unset :
    (p realm : Text)
    → is_empty (to_ascii_uppercase (trim realm)) ≡ true
    → canonicalize_principal p realm ≡ normalize_principal p
unfolding canonicalize_principal
unset p realm e = rw e (normalize-trim p)

-- A canonical principal is a normal one, that is its own cache key; and canonicalizing it again with
-- the same realm changes nothing.
pub canonicalize_principal-settles :
    (p realm : Text)
    → (normalize_principal (canonicalize_principal p realm) ≡ canonicalize_principal p realm)
      × (canonicalize_principal (canonicalize_principal p realm) realm
          ≡ canonicalize_principal p realm)
canonicalize_principal-settles p realm =
    elim (Bool-cases (is_empty (to_ascii_uppercase (trim realm)))) [
      | inl none_set ↦
          let same = unset p realm none_set in
          let normal =
            ap normalize_principal same ∙ normalize_principal-normalize_principal p ∙ sym same in
          (normal, unset (canonicalize_principal p realm) realm none_set ∙ normal)
      | inr set ↦
          let form = filled p realm set (cut at_sign (trim p)) in
          (
            Form-normal (canonicalize_principal p realm) form,
            Form-canonical (canonicalize_principal p realm) realm form,
          )
    ]
