-- ===== src/Common/Bits.antt =====
-- Single binary digits of a number, and `bit_and` read digit by digit.
use Prim.Native.Nat.{
  ℕ, zero, suc, ◌+◌, ◌*◌, ◌/◌, ◌%◌, ◌≤◌, ◌<◌, ◌^◌, min, bit_and, digits, bit_and-bitwise,
}
use mathlib.Core.Path.{◌≡◌, refl, ap}
use native.Mathlib.Omega.{arith}

-- Digit `i` of a number.
abbrev pub bit : (w i : ℕ) → ℕ
bit w zero = w % 2
bit w (suc i) = bit (w / 2) i

pub bit_lt : (w i : ℕ) → bit w i < 2
bit_lt w zero = omega arith
bit_lt w (suc i) = bit_lt (w / 2) i

-- What `bit_and` stands for does not depend on how many digits are read, once there are enough.
same_digits :
    (fuel spare a b : ℕ)
    → a ≤ fuel
    → a ≤ spare
    → digits (λ x. zero) min fuel a b ≡ digits (λ x. zero) min spare a b
same_digits zero zero a b h k = refl
same_digits (suc fuel) zero zero b h k = refl
same_digits zero (suc spare) zero b h k = refl
same_digits (suc fuel) (suc spare) zero b h k = refl
same_digits fuel zero (suc a) b h k = absurd (omega arith)
same_digits zero (suc spare) (suc a) b h k = absurd (omega arith)
same_digits (suc fuel) (suc spare) (suc a) b h k =
    ap (λ q. q * 2 + min (suc a % 2) (b % 2))
      (same_digits fuel spare (suc a / 2) (b / 2) (omega arith) (omega arith))

and_zero : (b : ℕ) → bit_and 0 b ≡ 0
and_zero b = bit_and-bitwise 0 b

-- The law for the lowest digit.
and_digit : (a b : ℕ) → bit_and a b ≡ bit_and (a / 2) (b / 2) * 2 + min (a % 2) (b % 2)
and_digit zero b = omega (arith, and_zero b, and_zero (b / 2))
and_digit (suc a) b =
    let top = bit_and-bitwise (suc a) b in
    let next = bit_and-bitwise (suc a / 2) (b / 2) in
    omega
      (arith, top, next, same_digits a (suc a / 2) (suc a / 2) (b / 2) (omega arith) (omega arith))

and_half : (a b : ℕ) → bit_and a b / 2 ≡ bit_and (a / 2) (b / 2)
and_half a b = omega (arith, and_digit a b)

and_low : (a b : ℕ) → bit_and a b % 2 ≡ min (a % 2) (b % 2)
and_low a b = omega (arith, and_digit a b)

-- A digit of `bit_and` is that of both numbers.
pub bit-bit_and : (a b i : ℕ) → bit (bit_and a b) i ≡ min (bit a i) (bit b i)
bit-bit_and a b zero = and_low a b
bit-bit_and a b (suc i) = rw (and_half a b) (bit-bit_and (a / 2) (b / 2) i)

-- A number without digits is zero.
pub zero_of_bits : (fuel w : ℕ) → w ≤ fuel → ((i : ℕ) → bit w i ≡ 0) → w ≡ 0
zero_of_bits fuel zero le none_set = refl
zero_of_bits zero (suc w) le none_set = absurd (omega arith)
zero_of_bits (suc fuel) (suc w) le none_set =
    let half = zero_of_bits fuel (suc w / 2) (omega arith) (λ i. none_set (suc i)) in
    omega (arith, half, none_set 0)

pub bit_zero : (i : ℕ) → bit 0 i ≡ 0
bit_zero zero = refl
bit_zero (suc i) = bit_zero i

and_none : (a : ℕ) → bit_and a 0 ≡ 0
and_none a =
    zero_of_bits (bit_and a 0) (bit_and a 0) (omega arith)
      (λ i. omega (arith, bit-bit_and a 0 i, bit_zero i))

-- `w & 1 << i`, for a digit that is clear and for one that is set.
pub bit_and_clear : (w i : ℕ) → bit w i ≡ 0 → bit_and w (2 ^ i) ≡ 0
bit_and_clear w zero e = omega (arith, and_digit w 1, and_none (w / 2), e)
bit_and_clear w (suc i) e =
    let half : 2 ^ suc i / 2 ≡ 2 ^ i = omega arith in
    let even : 2 ^ suc i % 2 ≡ 0 = omega arith in
    omega (arith, rw (half, even) at (and_digit w (2 ^ suc i)), bit_and_clear (w / 2) i e)

pub bit_and_set : (w i : ℕ) → bit w i ≡ 1 → bit_and w (2 ^ i) ≡ 2 ^ i
bit_and_set w zero e = omega (arith, and_digit w 1, and_none (w / 2), e)
bit_and_set w (suc i) e =
    let half : 2 ^ suc i / 2 ≡ 2 ^ i = omega arith in
    let even : 2 ^ suc i % 2 ≡ 0 = omega arith in
    omega (arith, rw (half, even) at (and_digit w (2 ^ suc i)), bit_and_set (w / 2) i e)

pow_positive : (i : ℕ) → 0 < 2 ^ i
pow_positive zero = omega arith
pow_positive (suc i) = omega (arith, pow_positive i)

-- `w & 1 << i` is zero for a clear digit only.
pub bit_and_zero : (w i : ℕ) → bit_and w (2 ^ i) ≡ 0 → bit w i ≡ 0
bit_and_zero w i e = ground (arith, bit_lt w i, bit_and_set w i, pow_positive i)

-- A small number has no digits above.
pub bit_above : (n i w : ℕ) → w < 2 ^ n → n ≤ i → bit w i ≡ 0
bit_above zero i w lt le = let none : w ≡ 0 = omega arith in rw none (bit_zero i)
bit_above (suc n) zero w lt le = absurd (omega arith)
bit_above (suc n) (suc i) w lt le = bit_above n i (w / 2) (omega arith) (omega arith)
