-- ===== src/Charset.antt =====
-- The byte sets of include/peg/vm.h (`vm_charset` and its inline functions): a 256-bit bitmap of
-- four `uint64_t` words. A byte is a number below 256, a word a number below 2 ^ 64.
pub mod Words
pub mod Members
pub mod Count
mod Tests
use libpeg.Prelude.{
  ℕ, zero, suc, ◌+◌, ◌-◌, ◌/◌, ◌%◌, ◌^◌, ◌≡◌, Bool, true, false, List, [], ◌∷◌, ◌&&◌, ◌==◌,
  if◌then◌else◌,
}
use libpeg.Prelude.Bits.{bit, complement}
use Prim.Native.Nat.{bit_and, bit_or}

-- `uint64_t bits[4]`
pub record Charset : Type 0 where
  pub bits0 : ℕ
  pub bits1 : ℕ
  pub bits2 : ℕ
  pub bits3 : ℕ

-- `s->bits[i]`, for i below 4
unfoldable pub bits : Charset → ℕ → ℕ
bits s zero = s.bits0
bits s (suc zero) = s.bits1
bits s (suc (suc zero)) = s.bits2
bits s (suc (suc (suc _))) = s.bits3

-- `s->bits[i] = w`
unfoldable pub set_bits : Charset → ℕ → ℕ → Charset
set_bits s zero w = record s { bits0 = w }
set_bits s (suc zero) w = record s { bits1 = w }
set_bits s (suc (suc zero)) w = record s { bits2 = w }
set_bits s (suc (suc (suc _))) w = record s { bits3 = w }

-- `for (i = 0; i < 4; i++) out->bits[i] = f i`
abbrev pub each_word : (ℕ → ℕ) → Charset
each_word f = record { bits0 = f 0; bits1 = f 1; bits2 = f 2; bits3 = f 3 }

abbrev pub empty : Charset
empty = each_word (λ _. 0)

unfoldable pub has : Charset → ℕ → Bool
unfolding bits
has s c = bit (bits s (c / 64)) (c % 64) == 1

unfoldable pub set : Charset → ℕ → Bool → Charset
unfolding bits set_bits
set s c on =
    let w = bits s (c / 64) in
    let one = 2 ^ (c % 64) in
    set_bits s (c / 64) (if on then bit_or w one else bit_and w (complement 64 one))

-- the second loop of `vm_charset_fill`
unfoldable pub fill_loop : List ℕ → Charset → Charset
unfolding set
fill_loop [] s = s
fill_loop (c ∷ cs) s = fill_loop cs (set s c true)

unfoldable pub fill : List ℕ → Charset
unfolding fill_loop
fill cs = fill_loop cs empty

-- the second loop of `vm_charset_range`, with the rounds that are left
unfoldable pub range_loop : ℕ → ℕ → Charset → Charset
unfolding set
range_loop zero c s = s
range_loop (suc left) c s = range_loop left (c + 1) (set s c true)

unfoldable pub range : ℕ → ℕ → Charset
unfolding range_loop
range lo hi = range_loop (hi + 1 - lo) lo empty

unfoldable pub negate : Charset → Charset
unfolding bits
negate s = each_word (λ i. complement 64 (bits s i))

unfoldable pub sub : Charset → Charset → Charset
unfolding bits
sub a b = each_word (λ i. bit_and (bits a i) (complement 64 (bits b i)))

unfoldable pub union : Charset → Charset → Charset
unfolding bits
union a b = each_word (λ i. bit_or (bits a i) (bits b i))

-- `while (w) { n += w & 1; w >>= 1; }`; a word is empty after 64 rounds
unfoldable pub count_loop : ℕ → ℕ → ℕ → ℕ
count_loop zero w n = n
count_loop (suc left) w n =
    let rest = count_loop left (w / 2) (n + w % 2) in if w == 0 then n else rest

unfoldable pub count : Charset → ℕ
count s =
    count_loop 64 s.bits3 (count_loop 64 s.bits2 (count_loop 64 s.bits1 (count_loop 64 s.bits0 0)))

unfoldable pub eq : Charset → Charset → Bool
eq a b = a.bits0 == b.bits0 && a.bits1 == b.bits1 && a.bits2 == b.bits2 && a.bits3 == b.bits3
