-- ===== src/Fingerprints/Words.antt =====
-- The exclusive or and the multiplication of nfs-klldap-config/src/exports_fingerprint.rs lose nothing.
use Prim.Native.Nat.{bit_xor, digits, differ, bit_xor-bitwise}
use nfs_klldap_host.Fingerprints.{fnv1a_prime, mix}
use nfs_klldap_host.Prelude.{
  ℕ, zero, suc, ◌+◌, ◌*◌, ◌/◌, ◌%◌, ◌^◌, ◌≤◌, ◌<◌, ◌≡◌, refl, sym, ap, ◌∙◌, arith,
}

-- The digits of an exclusive or, on any count that is large enough.
abbrev xor_on : ℕ → ℕ → ℕ → ℕ
xor_on count b a = digits (λ rest. rest) differ count a b

xor_on-eq : (a b i j : ℕ) → a ≤ i → a ≤ j → xor_on i b a ≡ xor_on j b a
xor_on-eq zero b zero zero p q = refl
xor_on-eq zero b zero (suc j) p q = refl
xor_on-eq zero b (suc i) zero p q = refl
xor_on-eq zero b (suc i) (suc j) p q = refl
xor_on-eq (suc a) b zero j p q = absurd (omega arith)
xor_on-eq (suc a) b (suc i) zero p q = absurd (omega arith)
xor_on-eq (suc a) b (suc i) (suc j) p q =
    ap (λ z. z * 2 + differ (suc a % 2) (b % 2))
      (xor_on-eq (suc a / 2) (b / 2) i j (omega arith) (omega arith))

bit_xor_halves : (a b : ℕ) → bit_xor a b ≡ bit_xor (a / 2) (b / 2) * 2 + differ (a % 2) (b % 2)
bit_xor_halves zero b = omega (arith, bit_xor-bitwise 0 b, bit_xor-bitwise 0 (b / 2))
bit_xor_halves (suc a) b =
    bit_xor-bitwise (suc a) b
    ∙ ap (λ z. z * 2 + differ (suc a % 2) (b % 2))
        (xor_on-eq (suc a / 2) (b / 2) a (suc a / 2) (omega arith) (omega arith)
          ∙ sym (bit_xor-bitwise (suc a / 2) (b / 2)))

differ-lt : (x y : ℕ) → x < 2 → y < 2 → differ x y < 2
differ-lt zero y h k = k
differ-lt (suc zero) zero h k = h
differ-lt (suc zero) (suc zero) h k = omega arith
differ-lt (suc zero) (suc (suc y)) h k = absurd (omega arith)
differ-lt (suc (suc x)) y h k = absurd (omega arith)

differ-left : (x y z : ℕ) → x < 2 → y < 2 → z < 2 → differ x z ≡ differ y z → x ≡ y
differ-left zero zero z h k l e = refl
differ-left (suc zero) (suc zero) z h k l e = refl
differ-left zero (suc zero) zero h k l e = e
differ-left zero (suc zero) (suc zero) h k l e = sym e
differ-left (suc zero) zero zero h k l e = e
differ-left (suc zero) zero (suc zero) h k l e = sym e
differ-left zero (suc zero) (suc (suc z)) h k l e = absurd (omega arith)
differ-left (suc zero) zero (suc (suc z)) h k l e = absurd (omega arith)
differ-left (suc (suc x)) y z h k l e = absurd (omega arith)
differ-left x (suc (suc y)) z h k l e = absurd (omega arith)

differ-right : (x y z : ℕ) → x < 2 → y < 2 → z < 2 → differ x y ≡ differ x z → y ≡ z
differ-right zero y z h k l e = e
differ-right (suc zero) zero zero h k l e = refl
differ-right (suc zero) (suc zero) (suc zero) h k l e = refl
differ-right (suc zero) zero (suc zero) h k l e = sym e
differ-right (suc zero) (suc zero) zero h k l e = sym e
differ-right (suc zero) (suc (suc y)) z h k l e = absurd (omega arith)
differ-right (suc zero) y (suc (suc z)) h k l e = absurd (omega arith)
differ-right (suc (suc x)) y z h k l e = absurd (omega arith)

half_digits : (x y d e : ℕ) → d < 2 → e < 2 → x * 2 + d ≡ y * 2 + e → (x ≡ y) × (d ≡ e)
half_digits x y d e h k eq = (omega arith, omega arith)

bit_xor-left : (n a b c : ℕ) → a ≤ n → b ≤ n → bit_xor a c ≡ bit_xor b c → a ≡ b
bit_xor-left zero a b c h k e = omega arith
bit_xor-left (suc n) a b c h k e =
    let (tops, lows) =
      half_digits (bit_xor (a / 2) (c / 2)) (bit_xor (b / 2) (c / 2)) (differ (a % 2) (c % 2))
        (differ (b % 2) (c % 2)) (differ-lt (a % 2) (c % 2) (omega arith) (omega arith))
        (differ-lt (b % 2) (c % 2) (omega arith) (omega arith))
        (sym (bit_xor_halves a c) ∙ e ∙ bit_xor_halves b c) in
    omega (
      arith,
      bit_xor-left n (a / 2) (b / 2) (c / 2) (omega arith) (omega arith) tops,
      differ-left (a % 2) (b % 2) (c % 2) (omega arith) (omega arith) (omega arith) lows,
    )

bit_xor-right : (n a b c : ℕ) → a ≤ n → bit_xor a b ≡ bit_xor a c → b ≡ c
bit_xor-right zero zero b c h e = sym (bit_xor-bitwise 0 b) ∙ e ∙ bit_xor-bitwise 0 c
bit_xor-right zero (suc a) b c h e = absurd (omega arith)
bit_xor-right (suc n) a b c h e =
    let (tops, lows) =
      half_digits (bit_xor (a / 2) (b / 2)) (bit_xor (a / 2) (c / 2)) (differ (a % 2) (b % 2))
        (differ (a % 2) (c % 2)) (differ-lt (a % 2) (b % 2) (omega arith) (omega arith))
        (differ-lt (a % 2) (c % 2) (omega arith) (omega arith))
        (sym (bit_xor_halves a b) ∙ e ∙ bit_xor_halves a c) in
    omega (
      arith,
      bit_xor-right n (a / 2) (b / 2) (c / 2) (omega arith) tops,
      differ-right (a % 2) (b % 2) (c % 2) (omega arith) (omega arith) (omega arith) lows,
    )

-- `2 ^ k`, by doubling.
abbrev bound : ℕ → ℕ
bound zero = 1
bound (suc k) = bound k * 2

bit_xor-lt : (k a b : ℕ) → a < bound k → b < bound k → bit_xor a b < bound k
bit_xor-lt zero zero zero h l = omega (arith, bit_xor-bitwise 0 0)
bit_xor-lt zero (suc a) b h l = absurd (omega arith)
bit_xor-lt zero zero (suc b) h l = absurd (omega arith)
bit_xor-lt (suc k) a b h l = omega (
  arith,
  bit_xor_halves a b,
  bit_xor-lt k (a / 2) (b / 2) (omega arith) (omega arith),
  differ-lt (a % 2) (b % 2) (omega arith) (omega arith),
)

abbrev pub IsWord : ℕ → Type 0
IsWord h = h < 2 ^ 64

pub xor-IsWord : (a b : ℕ) → IsWord a → IsWord b → IsWord (bit_xor a b)
xor-IsWord a b h l = bit_xor-lt 64 a b h l

pub mix-IsWord : (h v : ℕ) → IsWord (mix h v)
unfolding mix
mix-IsWord h v = omega arith

-- The prime has an inverse modulo 2 ^ 64.
unmultiplied : (x : ℕ) → IsWord x → x * fnv1a_prime % 2 ^ 64 * 14886173955864302971 % 2 ^ 64 ≡ x
unmultiplied x h = omega arith

mix-bit_xor :
    (g h v w : ℕ)
    → IsWord g
    → IsWord h
    → IsWord v
    → IsWord w
    → mix g v ≡ mix h w
    → bit_xor g v ≡ bit_xor h w
unfolding mix
mix-bit_xor g h v w p q r s e =
    sym (unmultiplied (bit_xor g v) (xor-IsWord g v p r))
    ∙ ap (λ z. z * 14886173955864302971 % 2 ^ 64) e
    ∙ unmultiplied (bit_xor h w) (xor-IsWord h w q s)

-- A step with the same value keeps fingerprints apart, and so does one with two values.
pub mix-left : (g h v : ℕ) → IsWord g → IsWord h → IsWord v → mix g v ≡ mix h v → g ≡ h
mix-left g h v p q r e =
    bit_xor-left (g + h) g h v (omega arith) (omega arith) (mix-bit_xor g h v v p q r r e)

pub mix-right : (h v w : ℕ) → IsWord h → IsWord v → IsWord w → mix h v ≡ mix h w → v ≡ w
mix-right h v w p r s e = bit_xor-right h h v w (omega arith) (mix-bit_xor h h v w p p r s e)
