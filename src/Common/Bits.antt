-- ===== src/Common/Bits.antt =====
-- `|` and `^` at variables: the libraries define them by a recursion on binary digits with fuel.
use Prim.Native.Nat.{
  ℕ, zero, suc, ◌+◌, ◌*◌, ◌/◌, ◌%◌, ◌^◌, ◌≤◌, ◌<◌, max, bit_or, bit_xor, differ, digits,
  bit_or-bitwise, bit_xor-bitwise,
}
use mathlib.Core.Path.{◌≡◌, refl, ap, sym, ◌∙◌}
use native.Mathlib.Nat.{pow-suc}
use native.Mathlib.Omega.{arith}

digits_fuel :
    (f : ℕ → ℕ → ℕ) (n m a b : ℕ)
    → a ≤ n
    → a ≤ m
    → digits (λ c. c) f n a b ≡ digits (λ c. c) f m a b
digits_fuel f zero zero a b p q = refl
digits_fuel f zero (suc m) zero b p q = refl
digits_fuel f zero (suc m) (suc a) b p q = absurd (omega arith)
digits_fuel f (suc n) zero zero b p q = refl
digits_fuel f (suc n) zero (suc a) b p q = absurd (omega arith)
digits_fuel f (suc n) (suc m) zero b p q = refl
digits_fuel f (suc n) (suc m) (suc a) b p q =
    omega (arith, digits_fuel f n m (suc a / 2) (b / 2) (omega arith) (omega arith))

-- The lowest digit of `|` and of `^`.
pub bit_or_step : (a b : ℕ) → bit_or a b ≡ bit_or (a / 2) (b / 2) * 2 + max (a % 2) (b % 2)
bit_or_step zero b = omega (arith, bit_or-bitwise 0 b, bit_or-bitwise 0 (b / 2))
bit_or_step (suc a) b = omega (
  arith,
  bit_or-bitwise (suc a) b,
  bit_or-bitwise (suc a / 2) (b / 2),
  digits_fuel max a (suc a / 2) (suc a / 2) (b / 2) (omega arith) (omega arith),
)

zero-bit_xor : (b : ℕ) → bit_xor 0 b ≡ b
zero-bit_xor b = bit_xor-bitwise 0 b

bit_xor_step :
    (a b : ℕ) → bit_xor (suc a) b ≡ bit_xor (suc a / 2) (b / 2) * 2 + differ (suc a % 2) (b % 2)
bit_xor_step a b = omega (
  arith,
  bit_xor-bitwise (suc a) b,
  bit_xor-bitwise (suc a / 2) (b / 2),
  digits_fuel differ a (suc a / 2) (suc a / 2) (b / 2) (omega arith) (omega arith),
)

bit_or-zero_fuel : (n a : ℕ) → a ≤ n → bit_or a 0 ≡ a
bit_or-zero_fuel n zero h = refl
bit_or-zero_fuel zero (suc a) h = absurd (omega arith)
bit_or-zero_fuel (suc n) (suc a) h =
    omega (arith, bit_or_step (suc a) 0, bit_or-zero_fuel n (suc a / 2) (omega arith))

pub bit_or-zero : (a : ℕ) → bit_or a 0 ≡ a
bit_or-zero a = bit_or-zero_fuel a a (omega arith)

-- A field shifted up by `k` bits and one that fits below it add up.
pub bit_or-shift : (k q r : ℕ) → r < 2 ^ k → bit_or (q * 2 ^ k) r ≡ q * 2 ^ k + r
bit_or-shift zero q r h = ground (arith, bit_or-zero q)
bit_or-shift (suc k) q r h = ground (
  arith,
  bit_or_step (q * 2 ^ suc k) r,
  ap (λ (t : ℕ). q * t) (pow-suc 2 k),
  bit_or-shift k q (r / 2) (omega arith),
)

zero-bit_or : (b : ℕ) → bit_or 0 b ≡ b
zero-bit_or b = bit_or-bitwise 0 b

-- The same with the field on the right.
pub bit_or-shifted : (k r q : ℕ) → r < 2 ^ k → bit_or r (q * 2 ^ k) ≡ r + q * 2 ^ k
bit_or-shifted zero r q h = ground (arith, zero-bit_or q)
bit_or-shifted (suc k) r q h = ground (
  arith,
  bit_or_step r (q * 2 ^ suc k),
  ap (λ (t : ℕ). q * t) (pow-suc 2 k),
  bit_or-shifted k (r / 2) q (omega arith),
)

differ_digits : (p q : ℕ) → p < 2 → q < 2 → (differ p (differ p q) ≡ q) × (differ p q < 2)
differ_digits zero zero hp hq = (refl, omega arith)
differ_digits zero (suc zero) hp hq = (refl, omega arith)
differ_digits (suc zero) zero hp hq = (refl, omega arith)
differ_digits (suc zero) (suc zero) hp hq = (refl, omega arith)
differ_digits (suc (suc p)) q hp hq = absurd (omega arith)
differ_digits p (suc (suc q)) hp hq = absurd (omega arith)

xor_twice_fuel : (n x a : ℕ) → x ≤ n → bit_xor x (bit_xor x a) ≡ a
xor_twice_fuel n zero a h = zero-bit_xor (bit_xor 0 a) ∙ zero-bit_xor a
xor_twice_fuel zero (suc x) a h = absurd (omega arith)
xor_twice_fuel (suc n) (suc x) a h = ground (
  arith,
  bit_xor_step x (bit_xor (suc x) a),
  bit_xor_step x a,
  differ_digits (suc x % 2) (a % 2) (omega arith) (omega arith),
  xor_twice_fuel n (suc x / 2) (a / 2) (omega arith),
)

-- `^` with the same number undoes itself.
pub xor_twice : (x a : ℕ) → bit_xor x (bit_xor x a) ≡ a
xor_twice x a = xor_twice_fuel x x a (omega arith)

-- So it is injective.
pub bit_xor-injective : (x a b : ℕ) → bit_xor x a ≡ bit_xor x b → a ≡ b
bit_xor-injective x a b h = sym (xor_twice x a) ∙ ap (bit_xor x) h ∙ xor_twice x b
