-- ===== src/Pattern/Simplify.antt =====
-- `combine` and `get_pat` of src/pattern.c.
use libpeg.Prelude.{
  ℕ, zero, suc, Bool, true, false, [], ◌∷◌, Option, none, some, ◌==◌, if◌then◌else◌,
}
use libpeg.Charset
use libpeg.Charset.{Charset}
use libpeg.Pattern.Ast.{
  Pat, alt, seq, star, optional, not_pat, char_class, literal, inlined, dot, empty, nodes,
}

-- the set of one byte
abbrev pub single : ℕ → Charset
single b = Charset.fill (b ∷ [])

-- a pattern, or an instruction, as a matcher of one byte
pub data Matcher : Type 0 where
  of_byte : ℕ → Matcher
  of_set : Charset → Matcher
  other : Matcher

abbrev pub pat_matcher : Pat → Matcher
pat_matcher (literal (b ∷ [])) = of_byte b
pat_matcher (char_class set) = of_set set
pat_matcher p = other

abbrev pub combined : Matcher → Matcher → Option Charset
combined (of_byte b) (of_set set) = some (Charset.union set (single b))
combined (of_byte b) (of_byte c) = some (Charset.set (single b) c true)
combined (of_set set) (of_set set') = some (Charset.union set set')
combined (of_set set) (of_byte c) = some (Charset.union set (single c))
combined m n = none

-- the set that matches the bytes of two matchers of one byte, if they are such
unfoldable pub combine : Pat → Pat → Option Charset
combine p q = combined (pat_matcher p) (pat_matcher q)

abbrev pub is_empty : Pat → Bool
is_empty empty = true
is_empty p = false

-- `get_pat` of an alternative, of two simplified patterns; `opt` simplifies an option
abbrev pub get_alt : (Pat → Pat) → Pat → Pat → Pat → Pat
get_alt opt p l r = elim (is_empty l) [
  | true ↦ r
  | false ↦ elim (is_empty r) [
    | true ↦ opt l
    | false ↦ elim (combine l r) [ some set ↦ char_class set | none ↦ p ]
  ]
]

abbrev pub is_star : Pat → Bool
is_star (star p) = true
is_star p = false

-- `get_pat` of an option over a simplified pattern
abbrev pub get_optional : Pat → Pat → Pat
get_optional p q = if is_star q then q else p

-- the set of a matcher
abbrev pub one_byte : Matcher → Option Charset
one_byte (of_byte b) = some (single b)
one_byte (of_set set) = some set
one_byte other = none

abbrev pub is_any_byte : Pat → Bool
is_any_byte (dot n) = n == 1
is_any_byte p = false

-- a negated set before a simplified pattern
abbrev pub less_set : Pat → Charset → Pat → Pat
less_set p set r = elim (is_any_byte r) [
  | true ↦ char_class (Charset.negate set)
  | false ↦ elim (one_byte (pat_matcher r)) [
    | some set' ↦ char_class (Charset.sub set' set)
    | none ↦ p
  ]
]

-- the pattern under a negation
abbrev pub negated : Pat → Option Pat
negated (not_pat q) = some q
negated p = none

abbrev pub get_negated : Pat → Option Pat → Pat → Pat
get_negated p none r = p
get_negated p (some q) r = elim (one_byte (pat_matcher q)) [
  | some set ↦ less_set p set r
  | none ↦ p
]

-- `get_pat` of a sequence, of two simplified patterns
abbrev pub get_seq : Pat → Pat → Pat → Pat
get_seq p l r = elim (is_empty r) [
  | true ↦ l
  | false ↦ elim (is_empty l) [ true ↦ r | false ↦ get_negated p (negated l) r ]
]

-- On fuel, which `nodes` bounds: a simplified pattern is no larger. Out of it the pattern is as it was.
unfoldable pub get_pat_loop : ℕ → Pat → Pat
unfolding combine
get_pat_loop zero p = p
get_pat_loop (suc fuel) (inlined name p) = p
get_pat_loop (suc fuel) (alt l r) =
    get_alt (λ q. get_optional (optional q) (get_pat_loop fuel q)) (alt l r) (get_pat_loop fuel l)
      (get_pat_loop fuel r)
get_pat_loop (suc fuel) (optional p) = get_optional (optional p) (get_pat_loop fuel p)
get_pat_loop (suc fuel) (seq l r) = get_seq (seq l r) (get_pat_loop fuel l) (get_pat_loop fuel r)
get_pat_loop (suc fuel) p = p

unfoldable pub get_pat : Pat → Pat
unfolding get_pat_loop nodes
get_pat p = get_pat_loop (nodes p) p
