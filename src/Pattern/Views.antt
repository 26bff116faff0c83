-- ===== src/Pattern/Views.antt =====
-- The tests that src/pattern.c makes of the kind of a pattern, as views of the pattern.
use libpeg.Prelude.{ℕ, ◌≡◌, refl, sym, ap, arith, true, [], ◌∷◌, none, some}
use mathlib.Core.Bool.{true≢false}
use mathlib.Core.Option.{some-ne-none, some-injective}
use libpeg.Charset.{Charset}
use libpeg.Pattern.Ast.{
  Pat, alt, seq, star, plus, optional, not_pat, and_pat, search, cap, memo, check, grammar, repeat,
  char_class, literal, nonterm, inlined, dot, error, error_or, empty_op, empty,
}
use libpeg.Pattern.Simplify.{
  Matcher, of_byte, of_set, other, pat_matcher, is_empty, is_star, is_any_byte, negated,
}
use libpeg.Pattern.Compile.{memoized}
use libpeg.Pattern.Core.{Core}

-- what the tests of `get_pat` on the kind of a pattern show
pub data MatcherView : Pat → Matcher → Type 0 where
  byte_view : (b : ℕ) → MatcherView (literal (b ∷ [])) (of_byte b)
  set_view : (set : Charset) → MatcherView (char_class set) (of_set set)
  other_view : (p : Pat) → MatcherView p other

pub matcher_view : (p : Pat) → MatcherView p (pat_matcher p)
matcher_view (literal []) = other_view (literal [])
matcher_view (literal (b ∷ [])) = byte_view b
matcher_view (literal (b ∷ c ∷ bs)) = other_view (literal (b ∷ c ∷ bs))
matcher_view (char_class set) = set_view set
matcher_view (alt l r) = other_view (alt l r)
matcher_view (seq l r) = other_view (seq l r)
matcher_view (star p) = other_view (star p)
matcher_view (plus p) = other_view (plus p)
matcher_view (optional p) = other_view (optional p)
matcher_view (not_pat p) = other_view (not_pat p)
matcher_view (and_pat p) = other_view (and_pat p)
matcher_view (search p) = other_view (search p)
matcher_view (cap p id) = other_view (cap p id)
matcher_view (memo p id) = other_view (memo p id)
matcher_view (check p f id flag) = other_view (check p f id flag)
matcher_view (grammar start ds) = other_view (grammar start ds)
matcher_view (repeat p n) = other_view (repeat p n)
matcher_view (nonterm name) = other_view (nonterm name)
matcher_view (inlined name p) = other_view (inlined name p)
matcher_view (dot n) = other_view (dot n)
matcher_view (error msg) = other_view (error msg)
matcher_view (error_or msg p) = other_view (error_or msg p)
matcher_view (empty_op op) = other_view (empty_op op)
matcher_view empty = other_view empty

pub is_empty_lem : (p : Pat) → is_empty p ≡ true → p ≡ empty
is_empty_lem (alt l r) h = absurd (true≢false (sym h))
is_empty_lem (seq l r) h = absurd (true≢false (sym h))
is_empty_lem (star p) h = absurd (true≢false (sym h))
is_empty_lem (plus p) h = absurd (true≢false (sym h))
is_empty_lem (optional p) h = absurd (true≢false (sym h))
is_empty_lem (not_pat p) h = absurd (true≢false (sym h))
is_empty_lem (and_pat p) h = absurd (true≢false (sym h))
is_empty_lem (search p) h = absurd (true≢false (sym h))
is_empty_lem (cap p id) h = absurd (true≢false (sym h))
is_empty_lem (memo p id) h = absurd (true≢false (sym h))
is_empty_lem (check p f id flag) h = absurd (true≢false (sym h))
is_empty_lem (grammar start ds) h = absurd (true≢false (sym h))
is_empty_lem (repeat p n) h = absurd (true≢false (sym h))
is_empty_lem (nonterm name) h = absurd (true≢false (sym h))
is_empty_lem (inlined name p) h = absurd (true≢false (sym h))
is_empty_lem (dot n) h = absurd (true≢false (sym h))
is_empty_lem (error msg) h = absurd (true≢false (sym h))
is_empty_lem (error_or msg p) h = absurd (true≢false (sym h))
is_empty_lem (empty_op op) h = absurd (true≢false (sym h))
is_empty_lem empty h = refl
is_empty_lem (literal bs) h = absurd (true≢false (sym h))
is_empty_lem (char_class set) h = absurd (true≢false (sym h))

pub is_star_lem : (p : Pat) → is_star p ≡ true → (q : Pat) × (p ≡ star q)
is_star_lem (alt l r) h = absurd (true≢false (sym h))
is_star_lem (seq l r) h = absurd (true≢false (sym h))
is_star_lem (star p) h = (p, refl)
is_star_lem (plus p) h = absurd (true≢false (sym h))
is_star_lem (optional p) h = absurd (true≢false (sym h))
is_star_lem (not_pat p) h = absurd (true≢false (sym h))
is_star_lem (and_pat p) h = absurd (true≢false (sym h))
is_star_lem (search p) h = absurd (true≢false (sym h))
is_star_lem (cap p id) h = absurd (true≢false (sym h))
is_star_lem (memo p id) h = absurd (true≢false (sym h))
is_star_lem (check p f id flag) h = absurd (true≢false (sym h))
is_star_lem (grammar start ds) h = absurd (true≢false (sym h))
is_star_lem (repeat p n) h = absurd (true≢false (sym h))
is_star_lem (nonterm name) h = absurd (true≢false (sym h))
is_star_lem (inlined name p) h = absurd (true≢false (sym h))
is_star_lem (dot n) h = absurd (true≢false (sym h))
is_star_lem (error msg) h = absurd (true≢false (sym h))
is_star_lem (error_or msg p) h = absurd (true≢false (sym h))
is_star_lem (empty_op op) h = absurd (true≢false (sym h))
is_star_lem empty h = absurd (true≢false (sym h))
is_star_lem (literal bs) h = absurd (true≢false (sym h))
is_star_lem (char_class set) h = absurd (true≢false (sym h))

pub is_any_byte_lem : (p : Pat) → is_any_byte p ≡ true → p ≡ dot 1
is_any_byte_lem (alt l r) h = absurd (true≢false (sym h))
is_any_byte_lem (seq l r) h = absurd (true≢false (sym h))
is_any_byte_lem (star p) h = absurd (true≢false (sym h))
is_any_byte_lem (plus p) h = absurd (true≢false (sym h))
is_any_byte_lem (optional p) h = absurd (true≢false (sym h))
is_any_byte_lem (not_pat p) h = absurd (true≢false (sym h))
is_any_byte_lem (and_pat p) h = absurd (true≢false (sym h))
is_any_byte_lem (search p) h = absurd (true≢false (sym h))
is_any_byte_lem (cap p id) h = absurd (true≢false (sym h))
is_any_byte_lem (memo p id) h = absurd (true≢false (sym h))
is_any_byte_lem (check p f id flag) h = absurd (true≢false (sym h))
is_any_byte_lem (grammar start ds) h = absurd (true≢false (sym h))
is_any_byte_lem (repeat p n) h = absurd (true≢false (sym h))
is_any_byte_lem (nonterm name) h = absurd (true≢false (sym h))
is_any_byte_lem (inlined name p) h = absurd (true≢false (sym h))
is_any_byte_lem (dot n) h = let e : n ≡ 1 = ground arith in ap dot e
is_any_byte_lem (error msg) h = absurd (true≢false (sym h))
is_any_byte_lem (error_or msg p) h = absurd (true≢false (sym h))
is_any_byte_lem (empty_op op) h = absurd (true≢false (sym h))
is_any_byte_lem empty h = absurd (true≢false (sym h))
is_any_byte_lem (literal bs) h = absurd (true≢false (sym h))
is_any_byte_lem (char_class set) h = absurd (true≢false (sym h))

pub negated_lem : (p : Pat) {q : Pat} → negated p ≡ some q → p ≡ not_pat q
negated_lem (alt l r) {q = q} h = absurd (some-ne-none q (sym h))
negated_lem (seq l r) {q = q} h = absurd (some-ne-none q (sym h))
negated_lem (star p) {q = q} h = absurd (some-ne-none q (sym h))
negated_lem (plus p) {q = q} h = absurd (some-ne-none q (sym h))
negated_lem (optional p) {q = q} h = absurd (some-ne-none q (sym h))
negated_lem (not_pat p) {q = q} h = ap not_pat (some-injective p q h)
negated_lem (and_pat p) {q = q} h = absurd (some-ne-none q (sym h))
negated_lem (search p) {q = q} h = absurd (some-ne-none q (sym h))
negated_lem (cap p id) {q = q} h = absurd (some-ne-none q (sym h))
negated_lem (memo p id) {q = q} h = absurd (some-ne-none q (sym h))
negated_lem (check p f id flag) {q = q} h = absurd (some-ne-none q (sym h))
negated_lem (grammar start ds) {q = q} h = absurd (some-ne-none q (sym h))
negated_lem (repeat p n) {q = q} h = absurd (some-ne-none q (sym h))
negated_lem (nonterm name) {q = q} h = absurd (some-ne-none q (sym h))
negated_lem (inlined name p) {q = q} h = absurd (some-ne-none q (sym h))
negated_lem (dot n) {q = q} h = absurd (some-ne-none q (sym h))
negated_lem (error msg) {q = q} h = absurd (some-ne-none q (sym h))
negated_lem (error_or msg p) {q = q} h = absurd (some-ne-none q (sym h))
negated_lem (empty_op op) {q = q} h = absurd (some-ne-none q (sym h))
negated_lem empty {q = q} h = absurd (some-ne-none q (sym h))
negated_lem (literal bs) {q = q} h = absurd (some-ne-none q (sym h))
negated_lem (char_class set) {q = q} h = absurd (some-ne-none q (sym h))

pub memoized_lem : (p : Pat) → Core p → memoized p ≡ none
memoized_lem (alt l r) v = refl
memoized_lem (seq l r) v = refl
memoized_lem (star p) v = refl
memoized_lem (plus p) v = refl
memoized_lem (optional p) v = refl
memoized_lem (not_pat p) v = refl
memoized_lem (and_pat p) v = refl
memoized_lem (search p) v = refl
memoized_lem (cap p id) v = refl
memoized_lem (memo p id) v = absurd v
memoized_lem (check p f id flag) v = refl
memoized_lem (grammar start ds) v = refl
memoized_lem (repeat p n) v = refl
memoized_lem (nonterm name) v = refl
memoized_lem (inlined name p) v = refl
memoized_lem (dot n) v = refl
memoized_lem (error msg) v = refl
memoized_lem (error_or msg p) v = refl
memoized_lem (empty_op op) v = refl
memoized_lem empty v = refl
memoized_lem (literal bs) v = refl
memoized_lem (char_class set) v = refl
