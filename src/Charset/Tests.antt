-- ===== src/Charset/Tests.antt =====
-- The byte-set functions on concrete sets, and the theorems at them.
use libpeg.Prelude.{◌≡◌, refl, ◌↔◌, ◌<◌, ℕ, true, false, not, ◌||◌, ◌&&◌, [], ◌∷◌, arith}
use libpeg.Charset.{Charset, has, set, fill, range, negate, sub, union, count_loop, count, eq}
use libpeg.Charset.Words.{IsCharset}
use libpeg.Charset.Members.{
  has-negate, has-union, has-sub, has-set, contains, has-fill, has-range, eq_iff,
}
use libpeg.Charset.Count.{members, count_lem}

-- the letters a to z
abbrev letters : Charset
letters = record { bits0 = 0; bits1 = 0x7fffffe00000000; bits2 = 0; bits3 = 0 }

abbrev digits : Charset
digits = record { bits0 = 0x3ff000000000000; bits1 = 0; bits2 = 0; bits3 = 0 }

letters-IsCharset : IsCharset letters
letters-IsCharset = omega arith

digits-IsCharset : IsCharset digits
digits-IsCharset = omega arith

test_range : range b'a' b'z' ≡ letters
unfolding range
test_range = refl

test_count : count letters ≡ 26
unfolding count count_loop
test_count = refl

negate_empty : eq (negate (fill [])) (range 0 255) ≡ true
unfolding eq negate fill range
negate_empty = refl

has-negate_example : has (negate letters) b'a' ≡ not (has letters b'a')
has-negate_example = has-negate letters b'a' letters-IsCharset (omega arith)

has-union_example : has (union letters digits) b'7' ≡ (has letters b'7' || has digits b'7')
has-union_example = has-union letters digits b'7' (omega arith)

has-sub_example : has (sub letters digits) b'q' ≡ (has letters b'q' && not (has digits b'q'))
has-sub_example = has-sub letters digits b'q' digits-IsCharset (omega arith)

has-set_example : has (set letters b'q' false) b'q' ≡ false
has-set_example = has-set letters b'q' b'q' false (omega arith) (omega arith)

has-fill_example : has (fill (b'x' ∷ b'y' ∷ [])) b'y' ≡ true
unfolding contains
has-fill_example = has-fill (b'x' ∷ b'y' ∷ []) b'y' (omega arith) (omega arith)

has-range_example : has (range b'0' b'9') b'5' ≡ true
has-range_example = has-range b'0' b'9' b'5' (omega arith) (omega arith) (omega arith)

eq_iff_example : (eq letters digits ≡ true) ↔ ((c : ℕ) → c < 256 → has letters c ≡ has digits c)
eq_iff_example = eq_iff letters digits letters-IsCharset digits-IsCharset

count_lem_example : count letters ≡ members 256 letters
count_lem_example = count_lem letters letters-IsCharset
