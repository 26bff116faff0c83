-- ===== src/Charset/Count.antt =====
-- `vm_charset_count` against a count over the 256 bytes.
use libpeg.Prelude.{
  ℕ, zero, suc, ◌+◌, ◌*◌, ◌/◌, ◌%◌, ◌^◌, ◌≤◌, ◌<◌, ◌≡◌, refl, arith, ◌==◌, if◌then◌else◌,
}
use libpeg.Prelude.Bits.{bit, bit-suc, bit-le, half-lt}
use libpeg.Charset.{Charset, bits, has, count_loop, count}
use libpeg.Charset.Words.{IsCharset}

-- how many of the bytes below `n` are in the set
unfoldable pub members : ℕ → Charset → ℕ
members zero s = 0
members (suc c) s = members c s + (if has s c then 1 else 0)

-- the ones among the lowest `n` bits of a word
ones : ℕ → ℕ → ℕ
ones zero w = 0
ones (suc k) w = ones k w + bit w k

ones_low : (k w : ℕ) → ones (suc k) w ≡ w % 2 + ones k (w / 2)
unfolding ones
ones_low zero w = omega arith
ones_low (suc k) w = omega (arith, ones_low k w, bit-suc w k)

ones_of_zero : (k w : ℕ) → w ≡ 0 → ones k w ≡ 0
unfolding ones
ones_of_zero zero w e = refl
ones_of_zero (suc k) w e = rw (ones_low k w) (omega (arith, ones_of_zero k (w / 2) (omega arith)))

count_loop-ones : (k w n : ℕ) → w < 2 ^ k → count_loop k w n ≡ n + ones k w
unfolding count_loop ones
count_loop-ones zero w n h = omega arith
count_loop-ones (suc k) w n h = ground (
  arith,
  count_loop-ones k (w / 2) (n + w % 2) (half-lt k w h),
  ones_low k w,
  ones_of_zero (suc k) w,
)

has-index : (s : Charset) (i k : ℕ) → k < 64 → has s (64 * i + k) ≡ (bit (bits s i) k == 1)
unfolding has
has-index s i k h =
    let hi : (64 * i + k) / 64 ≡ i = omega arith in
    let lo : (64 * i + k) % 64 ≡ k = omega arith in rw (hi, lo) refl

members_none : (s : Charset) → members 0 s ≡ 0
unfolding members
members_none s = refl

members_word :
    (s : Charset) (i k start end : ℕ)
    → k ≤ 64
    → start ≡ 64 * i
    → end ≡ start + k
    → members end s ≡ members start s + ones k (bits s i)
unfolding members ones
members_word s i zero start end h e f = let e' : end ≡ start = omega arith in rw e' (omega arith)
members_word s i (suc k) start end h e f =
    let e' : end ≡ suc (64 * i + k) = omega arith in
    rw e' (
      ground (
        arith,
        members_word s i k start (64 * i + k) (omega arith) e (omega arith),
        has-index s i k (omega arith),
        bit-le (bits s i) k,
      ))

four_words :
    (s : Charset)
    → 0 + ones 64 s.bits0 + ones 64 s.bits1 + ones 64 s.bits2 + ones 64 s.bits3 ≡ members 256 s
unfolding bits
four_words s = omega (
  arith,
  members_none s,
  members_word s 0 64 0 64 (omega arith) refl refl,
  members_word s 1 64 64 128 (omega arith) refl refl,
  members_word s 2 64 128 192 (omega arith) refl refl,
  members_word s 3 64 192 256 (omega arith) refl refl,
)

-- `vm_charset_count` is the number of bytes in a set of 64-bit words.
pub count_lem : (s : Charset) → IsCharset s → count s ≡ members 256 s
unfolding count
count_lem s v =
    rw
      (
        count_loop-ones 64 s.bits0 0 v.fits0,
        count_loop-ones 64 s.bits1 (0 + ones 64 s.bits0) v.fits1,
        count_loop-ones 64 s.bits2 (0 + ones 64 s.bits0 + ones 64 s.bits1) v.fits2,
        count_loop-ones 64 s.bits3 (0 + ones 64 s.bits0 + ones 64 s.bits1 + ones 64 s.bits2)
            v.fits3,
      )
      (four_words s)
