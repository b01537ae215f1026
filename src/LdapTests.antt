-- ===== src/LdapTests.antt =====
-- The escaping of nfs-klldap-identity/src/ldap/filter.rs at concrete values.
use nfs_klldap_host.LdapFilter.{
  IsHarmless, plain, unescape, escape_ldap_filter, escape_ldap_filter_lem,
  unescape-escape_ldap_filter,
}
use nfs_klldap_host.Prelude.{◌≡◌, [], ◌∷◌, refl, Text, as_bytes, All, arith}

-- `a(*` and an e with an acute accent.
abbrev value : Text
value = 97 ∷ 40 ∷ 42 ∷ 233 ∷ []

escape_ldap_filter_lem_example :
    All IsHarmless (escape_ldap_filter value)
    × (unescape plain (as_bytes (escape_ldap_filter value)) ≡ as_bytes (as_bytes value))
escape_ldap_filter_lem_example = escape_ldap_filter_lem value

-- The accented letter is the two bytes 195 and 169; the bytes sent for its escaped form unescape to four.
doubled : unescape plain (as_bytes (escape_ldap_filter (233 ∷ []))) ≡ 195 ∷ 131 ∷ 194 ∷ 169 ∷ []
unfolding escape_ldap_filter
doubled = refl

-- `a(*`
ascii_survives :
    unescape plain (as_bytes (escape_ldap_filter (97 ∷ 40 ∷ 42 ∷ []))) ≡ 97 ∷ 40 ∷ 42 ∷ []
ascii_survives = unescape-escape_ldap_filter (97 ∷ 40 ∷ 42 ∷ []) (ground arith)
