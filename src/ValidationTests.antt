-- ===== src/ValidationTests.antt =====
-- The validation of shares at concrete values.
use nfs_klldap_host.Prelude.{◌≡◌, refl, Option, none, some, List, [], ◌∷◌, map, Text}
use nfs_klldap_host.Validation.{
  ShareConfig, passed, refused, pseudo_root, duplicate_pseudo, pos, validate_shares,
}
use nfs_klldap_host.Validation.Accepted.{IsAccepted, identity_of, validate_shares-IsAccepted}
use nfs_klldap_host.Validation.Again.{validate_shares_again}

-- A share of name `a` or `b` with no settings.
abbrev share : Text → Option Text → Text → ShareConfig
share name pseudo path = record {
  name = name;
  host_path = 47 ∷ 100 ∷ [];
  pseudo_path = pseudo;
  security = none;
  squash = none;
  cache_profile = none;
  pref_read = some 512;
  pref_write = none;
  read_access_policy = some (32 ∷ 80 ∷ 79 ∷ 83 ∷ 84 ∷ []);
  container_path = path;
  source_path = some (32 ∷ []);
  attr_expiration_secs = some (pos 0);
}

-- `/x`, with the root `/x/`; ` /x/a ` and `b`.
abbrev root : Text
root = 47 ∷ 120 ∷ 47 ∷ []

abbrev given : List ShareConfig
given =
    share (97 ∷ []) (some (32 ∷ 99 ∷ [])) (32 ∷ 47 ∷ 120 ∷ 47 ∷ 97 ∷ 32 ∷ [])
    ∷ share (98 ∷ []) none (47 ∷ 120 ∷ [])
    ∷ []

abbrev settled : List ShareConfig
settled =
    record (share (97 ∷ []) (some (47 ∷ 99 ∷ [])) (47 ∷ 120 ∷ 47 ∷ 97 ∷ [])) { source_path = none }
    ∷ record (share (98 ∷ []) (some (47 ∷ 98 ∷ [])) (47 ∷ 120 ∷ [])) { source_path = none }
    ∷ []

given_passes : validate_shares root given ≡ passed settled
unfolding validate_shares
given_passes = refl

validate_shares-IsAccepted_example :
    IsAccepted root settled × (map identity_of settled ≡ map identity_of given)
validate_shares-IsAccepted_example = validate_shares-IsAccepted root given settled given_passes

validate_shares_again_example : validate_shares root settled ≡ passed settled
validate_shares_again_example =
    validate_shares_again root given settled given_passes (refl, (refl, tt))

-- A Pseudo path that is the root, and two that meet.
root_refused :
    validate_shares root (share (97 ∷ []) (some (47 ∷ [])) root ∷ [])
    ≡ refused (pseudo_root (97 ∷ []))
unfolding validate_shares
root_refused = refl

twice_refused :
    validate_shares root
      (share (97 ∷ []) (some (98 ∷ [])) root ∷ share (98 ∷ []) none (47 ∷ 120 ∷ []) ∷ [])
    ≡ refused (duplicate_pseudo (98 ∷ []))
unfolding validate_shares
twice_refused = refl

-- With a space behind its name a share passes, but its Pseudo path is another one the next time.
abbrev spaced : Text
spaced = 97 ∷ 32 ∷ []

abbrev spaced_once : ShareConfig
spaced_once = record (share spaced (some (47 ∷ spaced)) (47 ∷ 120 ∷ [])) { source_path = none }

spaced_first :
    validate_shares root (share spaced none (47 ∷ 120 ∷ []) ∷ []) ≡ passed (spaced_once ∷ [])
unfolding validate_shares
spaced_first = refl

spaced_next :
    validate_shares root (spaced_once ∷ [])
    ≡ passed (record spaced_once { pseudo_path = some (47 ∷ 97 ∷ []) } ∷ [])
unfolding validate_shares
spaced_next = refl
