-- ===== src/Base/Masks.antt =====
-- `&` with a mask of low or of high bits, and `|` of numbers that share no bit, as arithmetic.
use Prim.Native.Nat.{
  ℕ, zero, suc, ◌+◌, ◌*◌, ◌/◌, ◌%◌, ◌^◌, ◌≤◌, ◌<◌, min, max, bit_and, bit_or, digits, bitwise,
  bit_and-bitwise, bit_or-bitwise,
}
use mathlib.Core.Path.{◌≡◌, refl, sym, ap, ◌∙◌}
use native.Mathlib.Nat.{pow-suc}
use native.Mathlib.Omega.{arith}

-- Binary digits, once more: with enough fuel, the result does not depend on the fuel.
module _ (rest : ℕ → ℕ) (op : ℕ → ℕ → ℕ) where
  digits_stable : (m n x y : ℕ) → x ≤ m → x ≤ n → digits rest op m x y ≡ digits rest op n x y
  digits_stable zero zero x y p q = refl
  digits_stable zero (suc n) (suc x) y p q = absurd (omega arith)
  digits_stable zero (suc n) zero y p q = refl
  digits_stable (suc m) n zero y p q = first n
    where
      first : (n : ℕ) → rest y ≡ digits rest op n zero y
      first zero = refl
      first (suc n) = refl
  digits_stable (suc m) zero (suc x) y p q = absurd (omega arith)
  digits_stable (suc m) (suc n) (suc x) y p q =
      ap (λ t. t * 2 + op (suc x % 2) (y % 2))
        (digits_stable m n (suc x / 2) (y / 2) (omega arith) (omega arith))

  lowest_digit :
      (x y : ℕ)
      → bitwise rest op (suc x) y ≡ bitwise rest op (suc x / 2) (y / 2) * 2 + op (suc x % 2) (y % 2)
  lowest_digit x y =
      ap (λ t. t * 2 + op (suc x % 2) (y % 2))
        (digits_stable x (suc x / 2) (suc x / 2) (y / 2) (omega arith) (omega arith))

-- `&` and `|` digit by digit.
and_digit : (x y : ℕ) → bit_and x y ≡ bit_and (x / 2) (y / 2) * 2 + min (x % 2) (y % 2)
and_digit zero y = simp bit_and-bitwise (omega arith)
and_digit (suc x) y = simp bit_and-bitwise (lowest_digit (λ t. zero) min x y)

or_digit : (x y : ℕ) → bit_or x y ≡ bit_or (x / 2) (y / 2) * 2 + max (x % 2) (y % 2)
or_digit zero y = simp bit_or-bitwise (omega arith)
or_digit (suc x) y = simp bit_or-bitwise (lowest_digit (λ t. t) max x y)

-- The numbers below a bound that halves each time.
or-zero_fuel : (n x : ℕ) → x ≤ n → bit_or x 0 ≡ x
or-zero_fuel n zero h = refl
or-zero_fuel zero (suc x) h = absurd (omega arith)
or-zero_fuel (suc n) (suc x) h =
    omega (arith, or_digit (suc x) 0, or-zero_fuel n (suc x / 2) (omega arith))

or-zero : (x : ℕ) → bit_or x 0 ≡ x
or-zero x = or-zero_fuel x x (omega arith)

and-zero_fuel : (n x : ℕ) → x ≤ n → bit_and x 0 ≡ 0
and-zero_fuel n zero h = refl
and-zero_fuel zero (suc x) h = absurd (omega arith)
and-zero_fuel (suc n) (suc x) h =
    omega (arith, and_digit (suc x) 0, and-zero_fuel n (suc x / 2) (omega arith))

and-zero : (x : ℕ) → bit_and x 0 ≡ 0
and-zero x = and-zero_fuel x x (omega arith)

-- One digit of a mask, and one digit of a number that has only zeros where the other has digits.
and_one : (x y : ℕ) → bit_and x (y * 2 + 1) ≡ bit_and (x / 2) y * 2 + x % 2
and_one x y =
    let half : (y * 2 + 1) / 2 ≡ y = omega arith in rw (and_digit x (y * 2 + 1), half) (omega arith)

one_and : (x y : ℕ) → bit_and (y * 2 + 1) x ≡ bit_and y (x / 2) * 2 + x % 2
one_and x y =
    let half : (y * 2 + 1) / 2 ≡ y = omega arith in rw (and_digit (y * 2 + 1) x, half) (omega arith)

and_even : (x y : ℕ) → bit_and x (y * 2) ≡ bit_and (x / 2) y * 2
and_even x y =
    let half : (y * 2) / 2 ≡ y = omega arith in rw (and_digit x (y * 2), half) (omega arith)

or_even : (q x : ℕ) → bit_or (q * 2) x ≡ bit_or q (x / 2) * 2 + x % 2
or_even q x =
    let half : (q * 2) / 2 ≡ q = omega arith in rw (or_digit (q * 2) x, half) (omega arith)

zero_and : (x : ℕ) → bit_and 0 x ≡ 0
zero_and x = simp bit_and-bitwise

-- `0xfff & x`.
pub low_and : (x : ℕ) → bit_and 0xfff x ≡ x % 2 ^ 12
low_and x = omega (
  arith,
  one_and x 2047,
  one_and (x / 2) 1023,
  one_and (x / 2 / 2) 511,
  one_and (x / 2 / 2 / 2) 255,
  one_and (x / 2 / 2 / 2 / 2) 127,
  one_and (x / 2 / 2 / 2 / 2 / 2) 63,
  one_and (x / 2 / 2 / 2 / 2 / 2 / 2) 31,
  one_and (x / 2 / 2 / 2 / 2 / 2 / 2 / 2) 15,
  one_and (x / 2 / 2 / 2 / 2 / 2 / 2 / 2 / 2) 7,
  one_and (x / 2 / 2 / 2 / 2 / 2 / 2 / 2 / 2 / 2) 3,
  one_and (x / 2 / 2 / 2 / 2 / 2 / 2 / 2 / 2 / 2 / 2) 1,
  one_and (x / 2 / 2 / 2 / 2 / 2 / 2 / 2 / 2 / 2 / 2 / 2) 0,
  zero_and (x / 2 / 2 / 2 / 2 / 2 / 2 / 2 / 2 / 2 / 2 / 2 / 2),
)

-- `x & 0xfffff` for twenty bits.
and_ones : (x : ℕ) → bit_and x 0xfffff ≡ x % 2 ^ 20
and_ones x = omega (
  arith,
  and_one x 524287,
  and_one (x / 2) 262143,
  and_one (x / 2 / 2) 131071,
  and_one (x / 2 / 2 / 2) 65535,
  and_one (x / 2 / 2 / 2 / 2) 32767,
  and_one (x / 2 / 2 / 2 / 2 / 2) 16383,
  and_one (x / 2 / 2 / 2 / 2 / 2 / 2) 8191,
  and_one (x / 2 / 2 / 2 / 2 / 2 / 2 / 2) 4095,
  and_one (x / 2 / 2 / 2 / 2 / 2 / 2 / 2 / 2) 2047,
  and_one (x / 2 / 2 / 2 / 2 / 2 / 2 / 2 / 2 / 2) 1023,
  and_one (x / 2 / 2 / 2 / 2 / 2 / 2 / 2 / 2 / 2 / 2) 511,
  and_one (x / 2 / 2 / 2 / 2 / 2 / 2 / 2 / 2 / 2 / 2 / 2) 255,
  and_one (x / 2 / 2 / 2 / 2 / 2 / 2 / 2 / 2 / 2 / 2 / 2 / 2) 127,
  and_one (x / 2 / 2 / 2 / 2 / 2 / 2 / 2 / 2 / 2 / 2 / 2 / 2 / 2) 63,
  and_one (x / 2 / 2 / 2 / 2 / 2 / 2 / 2 / 2 / 2 / 2 / 2 / 2 / 2 / 2) 31,
  and_one (x / 2 / 2 / 2 / 2 / 2 / 2 / 2 / 2 / 2 / 2 / 2 / 2 / 2 / 2 / 2) 15,
  and_one (x / 2 / 2 / 2 / 2 / 2 / 2 / 2 / 2 / 2 / 2 / 2 / 2 / 2 / 2 / 2 / 2) 7,
  and_one (x / 2 / 2 / 2 / 2 / 2 / 2 / 2 / 2 / 2 / 2 / 2 / 2 / 2 / 2 / 2 / 2 / 2) 3,
  and_one (x / 2 / 2 / 2 / 2 / 2 / 2 / 2 / 2 / 2 / 2 / 2 / 2 / 2 / 2 / 2 / 2 / 2 / 2) 1,
  and_one (x / 2 / 2 / 2 / 2 / 2 / 2 / 2 / 2 / 2 / 2 / 2 / 2 / 2 / 2 / 2 / 2 / 2 / 2 / 2) 0,
  and-zero (x / 2 / 2 / 2 / 2 / 2 / 2 / 2 / 2 / 2 / 2 / 2 / 2 / 2 / 2 / 2 / 2 / 2 / 2 / 2 / 2),
)

-- `x & 0xfffff000`.
pub high_and : (x : ℕ) → x < 2 ^ 32 → bit_and x 0xfffff000 ≡ x / 2 ^ 12 * 2 ^ 12
high_and x h = omega (
  arith,
  and_even x 2147481600,
  and_even (x / 2) 1073740800,
  and_even (x / 2 / 2) 536870400,
  and_even (x / 2 / 2 / 2) 268435200,
  and_even (x / 2 / 2 / 2 / 2) 134217600,
  and_even (x / 2 / 2 / 2 / 2 / 2) 67108800,
  and_even (x / 2 / 2 / 2 / 2 / 2 / 2) 33554400,
  and_even (x / 2 / 2 / 2 / 2 / 2 / 2 / 2) 16777200,
  and_even (x / 2 / 2 / 2 / 2 / 2 / 2 / 2 / 2) 8388600,
  and_even (x / 2 / 2 / 2 / 2 / 2 / 2 / 2 / 2 / 2) 4194300,
  and_even (x / 2 / 2 / 2 / 2 / 2 / 2 / 2 / 2 / 2 / 2) 2097150,
  and_even (x / 2 / 2 / 2 / 2 / 2 / 2 / 2 / 2 / 2 / 2 / 2) 1048575,
  and_ones (x / 2 / 2 / 2 / 2 / 2 / 2 / 2 / 2 / 2 / 2 / 2 / 2),
)

-- `q * 2 ^ k | x` where `x` has only the lowest `k` digits.
pub or_low : (k q x : ℕ) → x < 2 ^ k → bit_or (q * 2 ^ k) x ≡ q * 2 ^ k + x
or_low zero q x h =
    let none_left : x ≡ 0 = omega arith in rw (none_left, or-zero (q * 2 ^ 0)) (omega arith)
or_low (suc k) q x h =
    let twice : q * 2 ^ suc k ≡ q * 2 ^ k * 2 =
      omega (arith, ap (λ (t : ℕ). q * t) (pow-suc 2 k)) in
    rw (twice, or_even (q * 2 ^ k) x)
      (omega (arith, or_low k q (x / 2) (omega (arith, pow-suc 2 k))))

zero_or : (x : ℕ) → bit_or 0 x ≡ x
zero_or x = simp bit_or-bitwise

or_comm_fuel : (n x y : ℕ) → x ≤ n → bit_or x y ≡ bit_or y x
or_comm_fuel n zero y h = zero_or y ∙ sym (or-zero y)
or_comm_fuel zero (suc x) y h = absurd (omega arith)
or_comm_fuel (suc n) (suc x) y h = omega (
  arith,
  or_digit (suc x) y,
  or_digit y (suc x),
  or_comm_fuel n (suc x / 2) (y / 2) (omega arith),
)

pub or_comm : (x y : ℕ) → bit_or x y ≡ bit_or y x
or_comm x y = or_comm_fuel x x y (omega arith)
