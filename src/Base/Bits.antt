-- ===== src/Base/Bits.antt =====
-- The masks and shifts of the source as arithmetic.
use Prim.Native.Nat.{
  ℕ, zero, suc, ◌+◌, ◌*◌, ◌/◌, ◌%◌, ◌^◌, ◌≤◌, ◌<◌, max, bit_and, bit_or, digits, bit_or-bitwise,
}
use mathlib.Core.Path.{◌≡◌, refl, ap}
use mathlib.Core.Bool.{Bool, true, ◌&&◌}
use native.Mathlib.Omega.{arith}
use native.Mathlib.Nat.{pow-suc}
use polymorph_iroh.Base.Tests.{eqb, eqb_iff}

check_upto : ℕ → (ℕ → Bool) → Bool
check_upto zero test = true
check_upto (suc bound) test = check_upto bound test && test bound

check_upto_lem :
    (bound : ℕ) (test : ℕ → Bool)
    → check_upto bound test ≡ true
    → (x : ℕ) → x < bound
    → test x ≡ true
unfolding check_upto
check_upto_lem zero test all x below = absurd (omega arith)
check_upto_lem (suc bound) test all x below =
    ground (arith, check_upto_lem bound test (ground arith) x)

low_six_table : check_upto 256 (λ x. eqb (bit_and x 0x3f) (x % 64)) ≡ true
unfolding check_upto
low_six_table = refl

pub low_six : (x : ℕ) → x < 256 → bit_and x 0x3f ≡ x % 64
low_six x h = (eqb_iff _ _).0 (check_upto_lem 256 _ low_six_table x h)

-- `|` from the digits that the native operation stands for.
abbrev or_digits : ℕ → ℕ → ℕ → ℕ
or_digits n a b = digits (λ b. b) max n a b

or_digits-zero : (n b : ℕ) → or_digits n 0 b ≡ b
or_digits-zero zero b = refl
or_digits-zero (suc n) b = refl

or_digits_fuel : (f g x y : ℕ) → x ≤ f → x ≤ g → or_digits f x y ≡ or_digits g x y
or_digits_fuel f g zero y in_f in_g = omega (arith, or_digits-zero f y, or_digits-zero g y)
or_digits_fuel zero g (suc x) y in_f in_g = absurd (omega arith)
or_digits_fuel (suc f) zero (suc x) y in_f in_g = absurd (omega arith)
or_digits_fuel (suc f) (suc g) (suc x) y in_f in_g =
    let half : suc x / 2 ≤ f = omega arith in
    omega (arith, or_digits_fuel f g (suc x / 2) (y / 2) half (omega arith))

-- The law for the lowest digit of `|`.
bit_or_digit : (x y : ℕ) → bit_or x y ≡ bit_or (x / 2) (y / 2) * 2 + max (x % 2) (y % 2)
bit_or_digit zero y = omega (arith, bit_or-bitwise 0 (y / 2), bit_or-bitwise 0 y)
bit_or_digit (suc x) y =
    let less = or_digits_fuel x (suc x / 2) (suc x / 2) (y / 2) (omega arith) (omega arith) in
    omega (arith, less, bit_or-bitwise (suc x / 2) (y / 2), bit_or-bitwise (suc x) y)

bit_or-zero : (f x : ℕ) → x ≤ f → bit_or x 0 ≡ x
bit_or-zero f zero in_f = refl
bit_or-zero zero (suc x) in_f = absurd (omega arith)
bit_or-zero (suc f) (suc x) in_f =
    omega (arith, bit_or-zero f (suc x / 2) (omega arith), bit_or_digit (suc x) 0)

-- A number doubled leaves the lowest digit of the other operand free.
or_double : (x b : ℕ) → bit_or (x * 2) b ≡ bit_or x (b / 2) * 2 + b % 2
or_double x b = omega (arith, bit_or_digit (x * 2) b, ap (λ (t : ℕ). bit_or t (b / 2)) (half x))
  where
    half : (x : ℕ) → x * 2 / 2 ≡ x
    half x = omega arith

double_shift : (k x : ℕ) → x * 2 ^ suc k ≡ x * 2 ^ k * 2
double_shift k x = omega (arith, ap (λ (t : ℕ). x * t) (pow-suc 2 k))

or_byte_from : (k x b : ℕ) → b < 2 ^ k → bit_or (x * 2 ^ k) b ≡ x * 2 ^ k + b
or_byte_from zero x b h = ground (arith, bit_or-zero x x)
or_byte_from (suc k) x b h =
    rw (double_shift k x)
      (omega (arith, or_double (x * 2 ^ k) b, or_byte_from k x (b / 2) (omega arith)))

-- `(x << 8) | b` appends a byte.
pub or_byte : (x b : ℕ) → b < 256 → bit_or (x * 256) b ≡ x * 256 + b
or_byte x b h = or_byte_from 8 x b h
