-- ===== src/Prelude/Bits.antt =====
-- Single bits of a native number, and how the bit operations act on each of them.
use Prim.Native.Nat.{
  ℕ, zero, suc, ◌+◌, ◌-◌, ◌*◌, ◌/◌, ◌%◌, ◌^◌, ◌≤◌, ◌<◌, min, max, bit_and, bit_or, digits,
  bit_and-bitwise, bit_or-bitwise,
}
use mathlib.Core.Path.{◌≡◌, refl, sym, ap, ap₂, ◌∙◌}
use mathlib.Core.Logic.{◌≢◌}
use native.Mathlib.Nat.{pow-suc, one-le-pow, le_refl, div-div-eq-div-mul, mul_comm}
use native.Mathlib.Omega.{arith}

-- `(w >> k) & 1`
abbrev pub bit : ℕ → ℕ → ℕ
bit w k = w / 2 ^ k % 2

pub bit-zero : (w : ℕ) → bit w 0 ≡ w % 2
bit-zero w = omega arith

pub bit-suc : (w k : ℕ) → bit w (suc k) ≡ bit (w / 2) k
bit-suc w k = rw (pow-suc 2 k, mul_comm (2 ^ k) 2, ← div-div-eq-div-mul w 2 (2 ^ k)) refl

pub bit-le : (w k : ℕ) → bit w k ≤ 1
bit-le w k = omega arith

-- The fuel of the native definition is irrelevant once it covers the first operand.
more_fuel :
    (z : ℕ → ℕ) (f : ℕ → ℕ → ℕ) (n m a b : ℕ) → a ≤ n → a ≤ m → digits z f n a b ≡ digits z f m a b
more_fuel z f zero zero a b p q = refl
more_fuel z f zero (suc m) zero b p q = refl
more_fuel z f zero (suc m) (suc a) b p q = absurd (omega arith)
more_fuel z f (suc n) zero zero b p q = refl
more_fuel z f (suc n) zero (suc a) b p q = absurd (omega arith)
more_fuel z f (suc n) (suc m) zero b p q = refl
more_fuel z f (suc n) (suc m) (suc a) b p q =
    omega (arith, more_fuel z f n m (suc a / 2) (b / 2) (omega arith) (omega arith))

-- one digit at a time
pub bit_or_digit : (a b : ℕ) → bit_or a b ≡ 2 * bit_or (a / 2) (b / 2) + max (a % 2) (b % 2)
bit_or_digit zero b = omega (arith, bit_or-bitwise 0 b, bit_or-bitwise 0 (b / 2))
bit_or_digit (suc a) b = omega (
  arith,
  bit_or-bitwise (suc a) b,
  bit_or-bitwise (suc a / 2) (b / 2),
  more_fuel (λ y. y) max a (suc a / 2) (suc a / 2) (b / 2) (omega arith) (le_refl _),
)

pub bit_and_digit : (a b : ℕ) → bit_and a b ≡ 2 * bit_and (a / 2) (b / 2) + min (a % 2) (b % 2)
bit_and_digit zero b = omega (arith, bit_and-bitwise 0 b, bit_and-bitwise 0 (b / 2))
bit_and_digit (suc a) b = omega (
  arith,
  bit_and-bitwise (suc a) b,
  bit_and-bitwise (suc a / 2) (b / 2),
  more_fuel (λ y. 0) min a (suc a / 2) (suc a / 2) (b / 2) (omega arith) (le_refl _),
)

half_digit : (q r : ℕ) → r < 2 → (2 * q + r) / 2 ≡ q
half_digit q r h = omega arith

pub bit-bit_or : (k a b : ℕ) → bit (bit_or a b) k ≡ max (bit a k) (bit b k)
bit-bit_or zero a b = omega (arith, bit_or_digit a b)
bit-bit_or (suc k) a b =
    let h : bit_or a b / 2 ≡ bit_or (a / 2) (b / 2) = omega (arith, bit_or_digit a b) in
    rw (bit-suc (bit_or a b) k, h, bit-suc a k, bit-suc b k) (bit-bit_or k (a / 2) (b / 2))

pub bit-bit_and : (k a b : ℕ) → bit (bit_and a b) k ≡ min (bit a k) (bit b k)
bit-bit_and zero a b = omega (arith, bit_and_digit a b)
bit-bit_and (suc k) a b =
    let h : bit_and a b / 2 ≡ bit_and (a / 2) (b / 2) = omega (arith, bit_and_digit a b) in
    rw (bit-suc (bit_and a b) k, h, bit-suc a k, bit-suc b k) (bit-bit_and k (a / 2) (b / 2))

-- `~w` on n bits
abbrev pub complement : ℕ → ℕ → ℕ
complement n w = 2 ^ n - 1 - w

pub bit-complement : (k n w : ℕ) → k < n → w < 2 ^ n → bit (complement n w) k ≡ 1 - bit w k
bit-complement k zero w h p = elim h [ ]
bit-complement zero (suc n) w h p = omega (arith, pow-suc 2 n, one-le-pow n 2)
bit-complement (suc k) (suc n) w h p =
    let e : complement (suc n) w / 2 ≡ complement n (w / 2) = omega (arith, pow-suc 2 n) in
    rw (bit-suc (complement (suc n) w) k, e, bit-suc w k)
      (bit-complement k n (w / 2) (omega arith) (omega (arith, pow-suc 2 n)))

-- The bits of `1 << i`.
pub bit-pow_self : (k : ℕ) → bit (2 ^ k) k ≡ 1
bit-pow_self zero = refl
bit-pow_self (suc k) =
    let e : 2 ^ suc k / 2 ≡ 2 ^ k = omega (arith, pow-suc 2 k) in
    rw (bit-suc (2 ^ suc k) k, e) (bit-pow_self k)

bit_of_zero : (k : ℕ) → bit 0 k ≡ 0
bit_of_zero zero = refl
bit_of_zero (suc k) = rw (bit-suc 0 k) (bit_of_zero k)

pub bit-pow_ne : (i k : ℕ) → i ≢ k → bit (2 ^ i) k ≡ 0
bit-pow_ne zero zero h = absurd (h refl)
bit-pow_ne zero (suc k) h = rw (bit-suc 1 k) (bit_of_zero k)
bit-pow_ne (suc i) zero h = omega (arith, pow-suc 2 i)
bit-pow_ne (suc i) (suc k) h =
    let e : 2 ^ suc i / 2 ≡ 2 ^ i = omega (arith, pow-suc 2 i) in
    rw (bit-suc (2 ^ suc i) k, e) (bit-pow_ne i k (omega arith))

pub bit_zero_word : (k : ℕ) → bit 0 k ≡ 0
bit_zero_word = bit_of_zero

-- A number of n bits is determined by them.
pub eq_of_bits : (n a b : ℕ) → a < 2 ^ n → b < 2 ^ n → ((k : ℕ) → k < n → bit a k ≡ bit b k) → a ≡ b
eq_of_bits zero a b p q h = omega arith
eq_of_bits (suc n) a b p q h =
    let low : a % 2 ≡ b % 2 = omega (arith, h 0 (omega arith)) in
    let high : a / 2 ≡ b / 2 =
      eq_of_bits n (a / 2) (b / 2) (omega (arith, pow-suc 2 n)) (omega (arith, pow-suc 2 n))
        (λ k l. sym (bit-suc a k) ∙ h (suc k) (omega arith) ∙ bit-suc b k) in
    omega arith

pub bit_or-lt : (n a b : ℕ) → a < 2 ^ n → b < 2 ^ n → bit_or a b < 2 ^ n
bit_or-lt zero a b p q =
    let e : a ≡ 0 = omega arith in let f : b ≡ 0 = omega arith in rw (e, f) (omega arith)
bit_or-lt (suc n) a b p q = omega (
  arith,
  bit_or_digit a b,
  pow-suc 2 n,
  bit_or-lt n (a / 2) (b / 2) (omega (arith, pow-suc 2 n)) (omega (arith, pow-suc 2 n)),
)

pub bit_and-lt : (n a b : ℕ) → a < 2 ^ n → bit_and a b < 2 ^ n
bit_and-lt zero a b p = let e : a ≡ 0 = omega arith in rw e (omega (arith, bit_and-bitwise 0 b))
bit_and-lt (suc n) a b p = omega (
  arith,
  bit_and_digit a b,
  pow-suc 2 n,
  bit_and-lt n (a / 2) (b / 2) (omega (arith, pow-suc 2 n)),
)

pub complement-lt : (n w : ℕ) → complement n w < 2 ^ n
complement-lt n w = omega (arith, one-le-pow n 2)

pub pow-lt : (i n : ℕ) → i < n → 2 ^ i < 2 ^ n
pow-lt i zero h = elim h [ ]
pow-lt zero (suc n) h = omega (arith, pow-suc 2 n, one-le-pow n 2)
pow-lt (suc i) (suc n) h = omega (arith, pow-suc 2 i, pow-suc 2 n, pow-lt i n (omega arith))

pub half-lt : (k w : ℕ) → w < 2 ^ suc k → w / 2 < 2 ^ k
half-lt k w h = omega (arith, pow-suc 2 k)

pub zero-bit_or : (b : ℕ) → bit_or 0 b ≡ b
zero-bit_or b = bit_or-bitwise 0 b

bit_or-zero_below : (n a : ℕ) → a ≤ n → bit_or a 0 ≡ a
bit_or-zero_below zero a h = let e : a ≡ 0 = omega arith in rw e refl
bit_or-zero_below (suc n) zero h = refl
bit_or-zero_below (suc n) (suc a) h =
    omega (arith, bit_or_digit (suc a) 0, bit_or-zero_below n (suc a / 2) (omega arith))

pub bit_or-zero : (a : ℕ) → bit_or a 0 ≡ a
bit_or-zero a = bit_or-zero_below a a (le_refl _)

pow_double : (q k : ℕ) → q * 2 ^ suc k ≡ 2 * (q * 2 ^ k)
pow_double q k = omega (arith, ap (λ (t : ℕ). q * t) (pow-suc 2 k))

-- Fields above and below bit k do not interact.
pub bit_or_split :
    (k q r s t : ℕ)
    → r < 2 ^ k
    → t < 2 ^ k
    → bit_or (q * 2 ^ k + r) (s * 2 ^ k + t) ≡ bit_or q s * 2 ^ k + bit_or r t
bit_or_split zero q r s t p h =
    let e : r ≡ 0 = omega arith in
    let f : t ≡ 0 = omega arith in
    let a : q * 2 ^ 0 + r ≡ q = omega arith in
    let b : s * 2 ^ 0 + t ≡ s = omega arith in rw (a, b, e, f) (omega arith)
bit_or_split (suc k) q r s t p h =
    let a : (q * 2 ^ suc k + r) / 2 ≡ q * 2 ^ k + r / 2 = omega (arith, pow_double q k) in
    let b : (s * 2 ^ suc k + t) / 2 ≡ s * 2 ^ k + t / 2 = omega (arith, pow_double s k) in
    let whole = bit_or_digit (q * 2 ^ suc k + r) (s * 2 ^ suc k + t) in
    let rest =
      bit_or_split k q (r / 2) s (t / 2) (omega (arith, pow-suc 2 k))
        (omega (arith, pow-suc 2 k)) in
    let m = rw (a, b, rest) at whole in
    omega (arith, m, bit_or_digit r t, pow_double q k, pow_double s k, pow_double (bit_or q s) k)

-- `(q << k) | r` where `r` has k bits
pub bit_or_fields : (k q r : ℕ) → r < 2 ^ k → bit_or (q * 2 ^ k) r ≡ q * 2 ^ k + r
bit_or_fields k q r h =
    let a : q * 2 ^ k + 0 ≡ q * 2 ^ k = omega arith in
    let b : 0 * 2 ^ k + r ≡ r = omega arith in
    let m = rw (a, b) at (bit_or_split k q 0 0 r (one-le-pow k 2 (omega arith)) h) in
    m ∙ ap₂ (λ (x y : ℕ). x * 2 ^ k + y) (bit_or-zero q) (zero-bit_or r)

-- The same with the low field first.
pub bit_or_fields_flip : (k r s : ℕ) → r < 2 ^ k → bit_or r (s * 2 ^ k) ≡ s * 2 ^ k + r
bit_or_fields_flip k r s h =
    let a : s * 2 ^ k + 0 ≡ s * 2 ^ k = omega arith in
    let b : 0 * 2 ^ k + r ≡ r = omega arith in
    let m = rw (a, b) at (bit_or_split k 0 r s 0 h (one-le-pow k 2 (omega arith))) in
    m ∙ ap₂ (λ (x y : ℕ). x * 2 ^ k + y) (zero-bit_or s) (bit_or-zero r)
