-- ===== src/Pattern/Core.antt =====
-- The patterns whose code is shown to be right: no captures, memos, checks, grammars, searches, counted
-- repetitions and errors.
use libpeg.Prelude.{ℕ, ◌+◌, ◌≤◌, ◌≡◌, arith, Bool, true, false, ◌||◌}
use libpeg.Charset.Words.{IsCharset}
use libpeg.Charset.Members.{AreBytes}
use libpeg.Pattern.Ast.{
  Pat, alt, seq, star, plus, optional, not_pat, and_pat, search, cap, memo, check, grammar, repeat,
  char_class, literal, nonterm, inlined, dot, error, error_or, empty_op, empty,
}

-- whether a pattern is more than a sequence of empty patterns
unfoldable pub solid : Pat → Bool
solid empty = false
solid (seq l r) = solid l || solid r
solid p = true

-- The left side of an alternative is not empty: `get_pat` would take the right side for the whole.
abbrev pub Core : Pat → Type 0
Core (alt l r) = Core l × Core r × (solid l ≡ true)
Core (seq l r) = Core l × Core r
Core (star p) = Core p
Core (plus p) = Core p
Core (optional p) = Core p
Core (not_pat p) = Core p
Core (and_pat p) = Core p
Core (char_class set) = IsCharset set
Core (literal bs) = AreBytes bs
Core (dot n) = Unit
Core empty = Unit
Core p = ⊥

-- How deep the compilation of a pattern recurs: enough fuel for it, also after `get_pat`.
unfoldable pub needs : Pat → ℕ
needs (alt l r) = needs l + needs r + 3
needs (seq l r) = needs l + needs r + 1
needs (star p) = needs p + 1
needs (plus p) = needs p + 2
needs (optional p) = needs p + 3
needs (not_pat p) = needs p + 1
needs (and_pat p) = needs p + 1
needs p = 1

pub needs-pos : (p : Pat) → 1 ≤ needs p
unfolding needs
needs-pos (alt l r) = omega arith
needs-pos (seq l r) = omega arith
needs-pos (star p) = omega arith
needs-pos (plus p) = omega arith
needs-pos (optional p) = omega arith
needs-pos (not_pat p) = omega arith
needs-pos (and_pat p) = omega arith
needs-pos (search p) = omega arith
needs-pos (cap p id) = omega arith
needs-pos (memo p id) = omega arith
needs-pos (check p f id flag) = omega arith
needs-pos (grammar start ds) = omega arith
needs-pos (repeat p n) = omega arith
needs-pos (nonterm name) = omega arith
needs-pos (inlined name p) = omega arith
needs-pos (dot n) = omega arith
needs-pos (error msg) = omega arith
needs-pos (error_or msg p) = omega arith
needs-pos (empty_op op) = omega arith
needs-pos empty = omega arith
needs-pos (literal bs) = omega arith
needs-pos (char_class set) = omega arith

-- The same of a pattern that is not simplified itself.
abbrev pub TopCore : Pat → Type 0
TopCore (alt l r) = Core l × Core r
TopCore p = Core p

unfoldable pub top_needs : Pat → ℕ
unfolding needs
top_needs (alt l r) = needs l + needs r + 1
top_needs p = needs p

pub Core-TopCore : (p : Pat) → Core p → TopCore p
Core-TopCore (alt l r) c = (c.0, c.1)
Core-TopCore (seq l r) c = c
Core-TopCore (star p) c = c
Core-TopCore (plus p) c = c
Core-TopCore (optional p) c = c
Core-TopCore (not_pat p) c = c
Core-TopCore (and_pat p) c = c
Core-TopCore (search p) c = c
Core-TopCore (cap p id) c = c
Core-TopCore (memo p id) c = c
Core-TopCore (check p f id flag) c = c
Core-TopCore (grammar start ds) c = c
Core-TopCore (repeat p n) c = c
Core-TopCore (nonterm name) c = c
Core-TopCore (inlined name p) c = c
Core-TopCore (dot n) c = c
Core-TopCore (error msg) c = c
Core-TopCore (error_or msg p) c = c
Core-TopCore (empty_op op) c = c
Core-TopCore empty c = c
Core-TopCore (literal bs) c = c
Core-TopCore (char_class set) c = c

pub top_needs-pos : (p : Pat) → 1 ≤ top_needs p
unfolding top_needs needs
top_needs-pos (alt l r) = omega arith
top_needs-pos (seq l r) = omega arith
top_needs-pos (star p) = omega arith
top_needs-pos (plus p) = omega arith
top_needs-pos (optional p) = omega arith
top_needs-pos (not_pat p) = omega arith
top_needs-pos (and_pat p) = omega arith
top_needs-pos (search p) = omega arith
top_needs-pos (cap p id) = omega arith
top_needs-pos (memo p id) = omega arith
top_needs-pos (check p f id flag) = omega arith
top_needs-pos (grammar start ds) = omega arith
top_needs-pos (repeat p n) = omega arith
top_needs-pos (nonterm name) = omega arith
top_needs-pos (inlined name p) = omega arith
top_needs-pos (dot n) = omega arith
top_needs-pos (error msg) = omega arith
top_needs-pos (error_or msg p) = omega arith
top_needs-pos (empty_op op) = omega arith
top_needs-pos empty = omega arith
top_needs-pos (literal bs) = omega arith
top_needs-pos (char_class set) = omega arith

pub top_needs-le : (p : Pat) → top_needs p ≤ needs p
unfolding top_needs needs
top_needs-le (alt l r) = omega arith
top_needs-le (seq l r) = omega arith
top_needs-le (star p) = omega arith
top_needs-le (plus p) = omega arith
top_needs-le (optional p) = omega arith
top_needs-le (not_pat p) = omega arith
top_needs-le (and_pat p) = omega arith
top_needs-le (search p) = omega arith
top_needs-le (cap p id) = omega arith
top_needs-le (memo p id) = omega arith
top_needs-le (check p f id flag) = omega arith
top_needs-le (grammar start ds) = omega arith
top_needs-le (repeat p n) = omega arith
top_needs-le (nonterm name) = omega arith
top_needs-le (inlined name p) = omega arith
top_needs-le (dot n) = omega arith
top_needs-le (error msg) = omega arith
top_needs-le (error_or msg p) = omega arith
top_needs-le (empty_op op) = omega arith
top_needs-le empty = omega arith
top_needs-le (literal bs) = omega arith
top_needs-le (char_class set) = omega arith
