-- ===== src/LdapFilter.antt =====
-- nfs-klldap-identity/src/ldap/filter.rs: the escaping of values put into LDAP search filters, with
-- the unescaping that RFC 4515 asks of the server.
use nfs_klldap_host.Prelude.{
  ℕ, ◌+◌, ◌-◌, ◌*◌, ◌/◌, ◌%◌, ◌<◌, ◌≡◌, ◌≢◌, ◌⊎◌, inl, inr, ◌≤◌, sym, subst, ◌||◌, List, [], ◌∷◌,
  ◌++◌, refl, ap, ◌∙◌, arith, if◌then◌else◌, ltb, ◌==◌, Text, utf8, as_bytes, All,
}
use mathlib.Core.List.{append_assoc, append-nil}

-- One digit of the lower-case hexadecimal format.
abbrev pub hex_char : ℕ → ℕ
hex_char d = if ltb d 10 then 48 + d else 87 + d

abbrev pub escape_byte : ℕ → Text
escape_byte b =
    if b == 42
    then 92 ∷ 50 ∷ 97 ∷ []
    else if b == 40
    then 92 ∷ 50 ∷ 56 ∷ []
    else if b == 41
    then 92 ∷ 50 ∷ 57 ∷ []
    else if b == 92
    then 92 ∷ 53 ∷ 99 ∷ []
    else if ltb b 32 || b == 127
    then 92 ∷ hex_char (b / 16) ∷ hex_char (b % 16) ∷ []
    else b ∷ []

abbrev pub escape_bytes : List ℕ → Text
escape_bytes [] = []
escape_bytes (b ∷ bytes) = escape_byte b ++ escape_bytes bytes

-- A byte that is not escaped becomes the character with its number.
unfoldable pub escape_ldap_filter : Text → Text
escape_ldap_filter s = escape_bytes (as_bytes s)

-- The server's reading of a value, byte by byte: outside an escape, after a backslash, or after its
-- first digit.
pub data Reading : Type 0 where
  plain slash : Reading
  digit : ℕ → Reading

abbrev pub hex_value : ℕ → ℕ
hex_value c = if ltb c 58 then c - 48 else c - 87

abbrev pub read_byte : Reading → ℕ → Reading × List ℕ
read_byte plain c = if c == 92 then (slash, []) else (plain, c ∷ [])
read_byte slash c = (digit (hex_value c), [])
read_byte (digit h) c = (plain, (h * 16 + hex_value c) ∷ [])

abbrev pub unescape : Reading → List ℕ → List ℕ
unescape r [] = []
unescape r (c ∷ s) = let (r', out) = read_byte r c in out ++ unescape r' s

abbrev pub IsAscii : ℕ → Type 0
IsAscii c = c < 128

as_bytes-IsAscii : (s : Text) → All IsAscii s → as_bytes s ≡ s
as_bytes-IsAscii [] h = refl
as_bytes-IsAscii (c ∷ s) (x, h) = ground (arith, as_bytes-IsAscii s h)

hex_value-hex_char : (d : ℕ) → d < 16 → hex_value (hex_char d) ≡ d
hex_value-hex_char d h = ground arith

whole : (b : ℕ) → b / 16 * 16 + b % 16 ≡ b
whole b = omega arith

-- A byte is written as itself, unless it is special, or as a backslash and its two digits.
escape_byte_cases :
    (b : ℕ)
    → ((escape_byte b ≡ b ∷ []) × (32 ≤ b) × (b ≢ 40) × (b ≢ 41) × (b ≢ 42) × (b ≢ 92) × (b ≢ 127))
      ⊎ ((b < 128) × (escape_byte b ≡ 92 ∷ hex_char (b / 16) ∷ hex_char (b % 16) ∷ []))
escape_byte_cases b = ground arith

unescape-plain :
    (b : ℕ) (rest : List ℕ) → b ≢ 92 → unescape plain (b ∷ rest) ≡ b ∷ unescape plain rest
unescape-plain b rest h = ground arith

unescape_pair :
    (b : ℕ) (rest : List ℕ)
    → b < 128
    → unescape plain (92 ∷ hex_char (b / 16) ∷ hex_char (b % 16) ∷ rest) ≡ b ∷ unescape plain rest
unescape_pair b rest h =
    rw
      (
        hex_value-hex_char (b / 16) (omega arith),
        hex_value-hex_char (b % 16) (omega arith),
        whole b,
      )
      refl

-- Plain in a filter: no ASCII control (NUL and DEL among them), no parenthesis and no star.
abbrev pub IsHarmless : ℕ → Type 0
IsHarmless c = (32 ≤ c) × (c ≢ 40) × (c ≢ 41) × (c ≢ 42) × (c ≢ 127)

hex_char-IsHarmless : (d : ℕ) → d < 16 → IsHarmless (hex_char d)
hex_char-IsHarmless d h = ground arith

hex_char-IsAscii : (d : ℕ) → d < 16 → IsAscii (hex_char d)
hex_char-IsAscii d h = ground arith

All-append_bytes : (P : ℕ → Type 0) (s t : List ℕ) → All P s → All P t → All P (s ++ t)
All-append_bytes P [] t h k = k
All-append_bytes P (c ∷ s) t (x, h) k = (x, All-append_bytes P s t h k)

escape_byte-IsHarmless : (b : ℕ) → All IsHarmless (escape_byte b)
escape_byte-IsHarmless b = elim (escape_byte_cases b) [
  | inl (same, shown, no40, no41, no42, no92, no127) ↦
      subst (All IsHarmless) (sym same) ((shown, no40, no41, no42, no127), tt)
  | inr (low, same) ↦ subst (All IsHarmless) (sym same) (
    ground arith,
    (hex_char-IsHarmless (b / 16) (omega arith), (hex_char-IsHarmless (b % 16) (omega arith), tt)),
  )
]

escape_bytes-IsHarmless : (bytes : List ℕ) → All IsHarmless (escape_bytes bytes)
escape_bytes-IsHarmless [] = tt
escape_bytes-IsHarmless (b ∷ bytes) =
    All-append_bytes IsHarmless (escape_byte b) (escape_bytes bytes) (escape_byte-IsHarmless b)
      (escape_bytes-IsHarmless bytes)

as_bytes-append : (s t : Text) → as_bytes (s ++ t) ≡ as_bytes s ++ as_bytes t
as_bytes-append [] t = refl
as_bytes-append (c ∷ s) t =
    ap (λ z. utf8 c ++ z) (as_bytes-append s t)
    ∙ sym (append_assoc (utf8 c) (as_bytes s) (as_bytes t))

-- No backslash, byte by byte.
abbrev IsVerbatim : ℕ → Type 0
IsVerbatim b = b ≢ 92

utf8-IsVerbatim : (c : ℕ) → c ≢ 92 → All IsVerbatim (utf8 c)
utf8-IsVerbatim c h = ground arith

unescape-IsVerbatim :
    (bytes rest : List ℕ)
    → All IsVerbatim bytes
    → unescape plain (bytes ++ rest) ≡ bytes ++ unescape plain rest
unescape-IsVerbatim [] rest h = refl
unescape-IsVerbatim (b ∷ bytes) rest (first, h) =
    unescape-plain b (bytes ++ rest) first ∙ ap (λ z. b ∷ z) (unescape-IsVerbatim bytes rest h)

pair-IsAscii : (b : ℕ) → b < 128 → All IsAscii (92 ∷ hex_char (b / 16) ∷ hex_char (b % 16) ∷ [])
pair-IsAscii b h = (
  omega arith,
  (hex_char-IsAscii (b / 16) (omega arith), (hex_char-IsAscii (b % 16) (omega arith), tt)),
)

utf8_low : (b : ℕ) → b < 128 → utf8 b ≡ b ∷ []
utf8_low b h = ground arith

-- One byte of the value, sent and read.
sent_byte :
    (b : ℕ) (rest : List ℕ)
    → unescape plain (as_bytes (escape_byte b) ++ rest) ≡ utf8 b ++ unescape plain rest
sent_byte b rest = elim (escape_byte_cases b) [
  | inl (same, shown, no40, no41, no42, no92, no127) ↦
      ap (λ z. unescape plain (as_bytes z ++ rest)) same
      ∙ ap (λ z. unescape plain (z ++ rest)) (append-nil (utf8 b))
      ∙ unescape-IsVerbatim (utf8 b) rest (utf8-IsVerbatim b no92)
  | inr (low, same) ↦
      ap (λ z. unescape plain (as_bytes z ++ rest)) same
      ∙ ap (λ z. unescape plain (z ++ rest))
          (as_bytes-IsAscii (92 ∷ hex_char (b / 16) ∷ hex_char (b % 16) ∷ []) (pair-IsAscii b low))
      ∙ unescape_pair b rest low
      ∙ ap (λ z. z ++ unescape plain rest) (sym (utf8_low b low))
]

sent_bytes : (bytes : List ℕ) → unescape plain (as_bytes (escape_bytes bytes)) ≡ as_bytes bytes
sent_bytes [] = refl
sent_bytes (b ∷ bytes) =
    ap (unescape plain) (as_bytes-append (escape_byte b) (escape_bytes bytes))
    ∙ sent_byte b (as_bytes (escape_bytes bytes))
    ∙ ap (λ z. utf8 b ++ z) (sent_bytes bytes)

-- For every text, non-ASCII ones included, an escaped value cannot end or widen the filter it is put
-- into: it has no parenthesis, no star and no ASCII control character, DEL included. And the server,
-- which undoes the escapes in the bytes that are sent, gets each UTF-8 byte of the text as the UTF-8
-- form of the character with its number: an ASCII text as it was, and any other encoded twice.
pub escape_ldap_filter_lem :
    (s : Text)
    → All IsHarmless (escape_ldap_filter s)
      × (unescape plain (as_bytes (escape_ldap_filter s)) ≡ as_bytes (as_bytes s))
unfolding escape_ldap_filter
escape_ldap_filter_lem s = (escape_bytes-IsHarmless (as_bytes s), sent_bytes (as_bytes s))

-- An ASCII value survives: the bytes that are sent for the escaped value unescape to the bytes of the
-- value.
pub unescape-escape_ldap_filter :
    (s : Text) → All IsAscii s → unescape plain (as_bytes (escape_ldap_filter s)) ≡ as_bytes s
unescape-escape_ldap_filter s h = (escape_ldap_filter_lem s).1 ∙ ap as_bytes (as_bytes-IsAscii s h)
