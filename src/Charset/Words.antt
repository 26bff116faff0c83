-- ===== src/Charset/Words.antt =====
-- The word-level lemmas on the byte sets, and the invariant that every word fits 64 bits.
use libpeg.Prelude.{
  ℕ, zero, suc, ◌+◌, ◌/◌, ◌%◌, ◌^◌, ◌<◌, ◌≡◌, ◌≢◌, refl, Bool, true, false, List, [], ◌∷◌, arith,
}
use libpeg.Prelude.Bits.{bit_or-lt, bit_and-lt, complement-lt, pow-lt}
use libpeg.Charset.{
  Charset, bits, set_bits, each_word, empty, set, fill_loop, range_loop, negate, sub, union,
}

pub record IsCharset (s : Charset) : Type 0 where
  pub fits0 : s.bits0 < 2 ^ 64
  pub fits1 : s.bits1 < 2 ^ 64
  pub fits2 : s.bits2 < 2 ^ 64
  pub fits3 : s.bits3 < 2 ^ 64

pub bits-lt : (s : Charset) (i : ℕ) → IsCharset s → bits s i < 2 ^ 64
unfolding bits
bits-lt s zero v = v.fits0
bits-lt s (suc zero) v = v.fits1
bits-lt s (suc (suc zero)) v = v.fits2
bits-lt s (suc (suc (suc i))) v = v.fits3

pub bits-each_word : (f : ℕ → ℕ) (i : ℕ) → i < 4 → bits (each_word f) i ≡ f i
unfolding bits
bits-each_word f zero h = refl
bits-each_word f (suc zero) h = refl
bits-each_word f (suc (suc zero)) h = refl
bits-each_word f (suc (suc (suc zero))) h = refl
bits-each_word f (suc (suc (suc (suc i)))) h = absurd (omega arith)

pub bits-set_bits_self : (s : Charset) (i w : ℕ) → bits (set_bits s i w) i ≡ w
unfolding bits set_bits
bits-set_bits_self s zero w = refl
bits-set_bits_self s (suc zero) w = refl
bits-set_bits_self s (suc (suc zero)) w = refl
bits-set_bits_self s (suc (suc (suc i))) w = refl

pub bits-set_bits_ne :
    (s : Charset) (i j w : ℕ) → i < 4 → j < 4 → i ≢ j → bits (set_bits s i w) j ≡ bits s j
unfolding bits set_bits
bits-set_bits_ne s zero zero w p q n = absurd (n refl)
bits-set_bits_ne s zero (suc zero) w p q n = refl
bits-set_bits_ne s zero (suc (suc zero)) w p q n = refl
bits-set_bits_ne s zero (suc (suc (suc j))) w p q n = refl
bits-set_bits_ne s (suc zero) zero w p q n = refl
bits-set_bits_ne s (suc zero) (suc zero) w p q n = absurd (n refl)
bits-set_bits_ne s (suc zero) (suc (suc zero)) w p q n = refl
bits-set_bits_ne s (suc zero) (suc (suc (suc j))) w p q n = refl
bits-set_bits_ne s (suc (suc zero)) zero w p q n = refl
bits-set_bits_ne s (suc (suc zero)) (suc zero) w p q n = refl
bits-set_bits_ne s (suc (suc zero)) (suc (suc zero)) w p q n = absurd (n refl)
bits-set_bits_ne s (suc (suc zero)) (suc (suc (suc j))) w p q n = refl
bits-set_bits_ne s (suc (suc (suc i))) zero w p q n = refl
bits-set_bits_ne s (suc (suc (suc i))) (suc zero) w p q n = refl
bits-set_bits_ne s (suc (suc (suc i))) (suc (suc zero)) w p q n = refl
bits-set_bits_ne s (suc (suc (suc i))) (suc (suc (suc j))) w p q n = absurd (n (omega arith))

set_bits-IsCharset : (s : Charset) (i w : ℕ) → IsCharset s → w < 2 ^ 64 → IsCharset (set_bits s i w)
unfolding set_bits
set_bits-IsCharset s zero w v h = record {
  fits0 = h;
  fits1 = v.fits1;
  fits2 = v.fits2;
  fits3 = v.fits3;
}
set_bits-IsCharset s (suc zero) w v h = record {
  fits0 = v.fits0;
  fits1 = h;
  fits2 = v.fits2;
  fits3 = v.fits3;
}
set_bits-IsCharset s (suc (suc zero)) w v h = record {
  fits0 = v.fits0;
  fits1 = v.fits1;
  fits2 = h;
  fits3 = v.fits3;
}
set_bits-IsCharset s (suc (suc (suc i))) w v h = record {
  fits0 = v.fits0;
  fits1 = v.fits1;
  fits2 = v.fits2;
  fits3 = h;
}

pub set-IsCharset : (s : Charset) (c : ℕ) (on : Bool) → IsCharset s → IsCharset (set s c on)
unfolding set
set-IsCharset s c true v =
    set_bits-IsCharset s (c / 64) _ v
      (bit_or-lt 64 _ _ (bits-lt s (c / 64) v) (pow-lt (c % 64) 64 (omega arith)))
set-IsCharset s c false v =
    set_bits-IsCharset s (c / 64) _ v (bit_and-lt 64 _ _ (bits-lt s (c / 64) v))

pub empty-IsCharset : IsCharset empty
empty-IsCharset = omega arith

pub fill_loop-IsCharset : (cs : List ℕ) (s : Charset) → IsCharset s → IsCharset (fill_loop cs s)
unfolding fill_loop
fill_loop-IsCharset [] s v = v
fill_loop-IsCharset (c ∷ cs) s v = fill_loop-IsCharset cs (set s c true) (set-IsCharset s c true v)

pub range_loop-IsCharset : (n c : ℕ) (s : Charset) → IsCharset s → IsCharset (range_loop n c s)
unfolding range_loop
range_loop-IsCharset zero c s v = v
range_loop-IsCharset (suc n) c s v =
    range_loop-IsCharset n (c + 1) (set s c true) (set-IsCharset s c true v)

pub negate-IsCharset : (s : Charset) → IsCharset (negate s)
unfolding negate
negate-IsCharset s = record {
  fits0 = complement-lt 64 _;
  fits1 = complement-lt 64 _;
  fits2 = complement-lt 64 _;
  fits3 = complement-lt 64 _;
}

pub sub-IsCharset : (a b : Charset) → IsCharset a → IsCharset (sub a b)
unfolding sub
sub-IsCharset a b v = record {
  fits0 = bit_and-lt 64 _ _ v.fits0;
  fits1 = bit_and-lt 64 _ _ v.fits1;
  fits2 = bit_and-lt 64 _ _ v.fits2;
  fits3 = bit_and-lt 64 _ _ v.fits3;
}

pub union-IsCharset : (a b : Charset) → IsCharset a → IsCharset b → IsCharset (union a b)
unfolding union
union-IsCharset a b v w = record {
  fits0 = bit_or-lt 64 _ _ v.fits0 w.fits0;
  fits1 = bit_or-lt 64 _ _ v.fits1 w.fits1;
  fits2 = bit_or-lt 64 _ _ v.fits2 w.fits2;
  fits3 = bit_or-lt 64 _ _ v.fits3 w.fits3;
}
