-- ===== src/Pattern/Ast.antt =====
-- The pattern trees of src/pattern.c (`struct pat`) and their constructors.
use libpeg.Prelude.{ℕ, zero, suc, ◌+◌, List, [], ◌∷◌, Option, if◌then◌else◌}
use libpeg.Prelude.Int.{ℤ, pos, negsuc, ltb_ℤ, ◌+ℤ◌}
use libpeg.Charset.{Charset}
use libpeg.Machine.State.{Checker}

-- a string, as its bytes
abbrev pub Name : Type 0
Name = List ℕ

-- A non-terminal whose `inlined` is not NULL is `inlined`; an error pattern whose `recover` is not
-- NULL is `error_or`.
mutual
  pub data Pat : Type 0 where
    alt seq : Pat → Pat → Pat
    star plus optional not_pat and_pat search : Pat → Pat
    cap memo : Pat → ℤ → Pat
    check : Pat → Option Checker → ℤ → ℤ → Pat
    grammar : Name → Defs → Pat
    repeat : Pat → ℕ → Pat
    char_class : Charset → Pat
    literal : List ℕ → Pat
    nonterm : Name → Pat
    inlined : Name → Pat → Pat
    dot : ℕ → Pat
    error : Name → Pat
    error_or : Name → Pat → Pat
    empty_op : ℕ → Pat
    empty : Pat

  pub data Defs : Type 0 where
    end : Defs
    def : Name → Pat → Defs → Defs

-- `pat_concat`: the chain leans to the left
abbrev concat_onto : Pat → List Pat → Pat
concat_onto acc [] = acc
concat_onto acc (p ∷ ps) = concat_onto (seq acc p) ps

unfoldable pub pat_concat : List Pat → Pat
pat_concat [] = empty
pat_concat (p ∷ ps) = concat_onto p ps

-- `pat_or`: the chain leans to the right
unfoldable pub pat_or : List Pat → Pat
pat_or [] = empty
pat_or (p ∷ []) = p
pat_or (p ∷ q ∷ ps) = alt p (pat_or (q ∷ ps))

unfoldable pub pat_repeat : Pat → ℤ → Pat
pat_repeat p (pos zero) = empty
pat_repeat p (pos (suc n)) = repeat p (suc n)
pat_repeat p (negsuc n) = empty

-- `pat_memo_id`, with the counter before and after
unfoldable pub pat_memo_id : ℤ → Pat → ℤ → Pat × ℤ
pat_memo_id counter p id = (memo p id, if ltb_ℤ counter id then id +ℤ pos 1 else counter)

unfoldable pub pat_memo : ℤ → Pat → Pat × ℤ
unfolding pat_memo_id
pat_memo counter p = pat_memo_id (counter +ℤ pos 1) p counter

-- `pat_cap_grammar`: every definition is captured under its index
abbrev cap_defs : ℕ → Defs → Defs
cap_defs i end = end
cap_defs i (def name p ds) = def name (cap p (pos i)) (cap_defs (i + 1) ds)

unfoldable pub pat_cap_grammar : Name → Defs → Pat
pat_cap_grammar start ds = grammar start (cap_defs 0 ds)

-- the number of nodes
unfoldable mutual
  pub nodes : Pat → ℕ
  nodes (alt l r) = nodes l + nodes r + 1
  nodes (seq l r) = nodes l + nodes r + 1
  nodes (star p) = nodes p + 1
  nodes (plus p) = nodes p + 1
  nodes (optional p) = nodes p + 1
  nodes (not_pat p) = nodes p + 1
  nodes (and_pat p) = nodes p + 1
  nodes (search p) = nodes p + 1
  nodes (cap p id) = nodes p + 1
  nodes (memo p id) = nodes p + 1
  nodes (check p f id flag) = nodes p + 1
  nodes (grammar start ds) = nodes_defs ds + 1
  nodes (repeat p n) = nodes p + 1
  nodes (inlined name p) = nodes p + 1
  nodes (error_or msg p) = nodes p + 1
  nodes p = 1

  pub nodes_defs : Defs → ℕ
  nodes_defs end = 0
  nodes_defs (def name p ds) = nodes p + nodes_defs ds
