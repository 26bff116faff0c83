-- ===== src/Pattern/Inline.antt =====
-- The inlining of small definitions in src/pattern.c. `walk_pat` visits a pattern in preorder, with
-- the bodies of inlined non-terminals; it does not enter a repetition.
use libpeg.Prelude.{
  ℕ, zero, suc, ◌+◌, Bool, true, false, ◌&&◌, ◌||◌, List, [], ◌∷◌, ◌++◌, Option, none, some, ltb,
  if◌then◌else◌, length,
}
use libpeg.Pattern.Ast.{
  Name, Pat, alt, seq, star, plus, optional, not_pat, and_pat, search, cap, memo, check, grammar,
  nonterm, inlined, error_or, Defs, end, def,
}
use libpeg.Pattern.Ir.{find_def}

-- the nodes that a walk visits: `size` of `count_size_leaf_fn`
unfoldable mutual
  pub walked : Pat → ℕ
  walked (alt l r) = 1 + (walked l + walked r)
  walked (seq l r) = 1 + (walked l + walked r)
  walked (star p) = 1 + walked p
  walked (plus p) = 1 + walked p
  walked (optional p) = 1 + walked p
  walked (not_pat p) = 1 + walked p
  walked (and_pat p) = 1 + walked p
  walked (search p) = 1 + walked p
  walked (cap p id) = 1 + walked p
  walked (memo p id) = 1 + walked p
  walked (check p f id flag) = 1 + walked p
  walked (error_or msg p) = 1 + walked p
  walked (grammar start ds) = 1 + walked_defs ds
  walked (inlined name p) = 1 + walked p
  walked p = 1

  pub walked_defs : Defs → ℕ
  walked_defs end = 0
  walked_defs (def name p ds) = walked p + walked_defs ds

-- the names of the unresolved non-terminals that a walk visits, as `collect_used_fn` sees them
unfoldable mutual
  pub unresolved : Pat → List Name
  unresolved (alt l r) = unresolved l ++ unresolved r
  unresolved (seq l r) = unresolved l ++ unresolved r
  unresolved (star p) = unresolved p
  unresolved (plus p) = unresolved p
  unresolved (optional p) = unresolved p
  unresolved (not_pat p) = unresolved p
  unresolved (and_pat p) = unresolved p
  unresolved (search p) = unresolved p
  unresolved (cap p id) = unresolved p
  unresolved (memo p id) = unresolved p
  unresolved (check p f id flag) = unresolved p
  unresolved (error_or msg p) = unresolved p
  unresolved (grammar start ds) = unresolved_defs ds
  unresolved (inlined name p) = unresolved p
  unresolved (nonterm name) = name ∷ []
  unresolved p = []

  pub unresolved_defs : Defs → List Name
  unresolved_defs end = []
  unresolved_defs (def name p ds) = unresolved p ++ unresolved_defs ds

-- PAT_INLINE_THRESHOLD
abbrev pub inline_threshold : ℕ
inline_threshold = 100

abbrev pub is_none : List Name → Bool
is_none [] = true
is_none (n ∷ ns) = false

-- `leaf` of `count_size_leaf_fn`
abbrev pub is_leaf : Pat → Bool
is_leaf p = is_none (unresolved p)

-- the definition that replaces a non-terminal of this name, if one does
unfoldable pub inline_target : Defs → Name → Option Pat
unfolding find_def walked unresolved
inline_target ds name = elim (find_def ds name 0) [
  | none ↦ none
  | some (i, p) ↦ if ltb (walked p) inline_threshold && is_leaf p then some p else none
]

-- The walk with `inline_fn`; `ds` are the definitions before the pass. A definition that is put in is
-- a leaf, in which the walk finds nothing to do.
unfoldable mutual
  pub inline_pat : Defs → Pat → Pat
  inline_pat ds (alt l r) = alt (inline_pat ds l) (inline_pat ds r)
  inline_pat ds (seq l r) = seq (inline_pat ds l) (inline_pat ds r)
  inline_pat ds (star p) = star (inline_pat ds p)
  inline_pat ds (plus p) = plus (inline_pat ds p)
  inline_pat ds (optional p) = optional (inline_pat ds p)
  inline_pat ds (not_pat p) = not_pat (inline_pat ds p)
  inline_pat ds (and_pat p) = and_pat (inline_pat ds p)
  inline_pat ds (search p) = search (inline_pat ds p)
  inline_pat ds (cap p id) = cap (inline_pat ds p) id
  inline_pat ds (memo p id) = memo (inline_pat ds p) id
  inline_pat ds (check p f id flag) = check (inline_pat ds p) f id flag
  inline_pat ds (error_or msg p) = error_or msg (inline_pat ds p)
  inline_pat ds (grammar start es) = grammar start (inline_defs ds es)
  inline_pat ds (inlined name p) = inlined name (inline_pat ds p)
  inline_pat ds (nonterm name) = elim (inline_target ds name) [
    | none ↦ nonterm name
    | some p ↦ inlined name p
  ]
  inline_pat ds p = p

  pub inline_defs : Defs → Defs → Defs
  inline_defs ds end = end
  inline_defs ds (def name p es) = def name (inline_pat ds p) (inline_defs ds es)

abbrev pub inlines : Option Pat → Bool
inlines none = false
inlines (some p) = true

-- whether a pass over these unresolved non-terminals replaces one: `did`
unfoldable pub any_target : Defs → List Name → Bool
unfolding inline_target
any_target ds [] = false
any_target ds (n ∷ ns) = inlines (inline_target ds n) || any_target ds ns

-- `grammar_inline_once`: the definitions after the pass, and its result
unfoldable pub grammar_inline_once : Defs → Defs × Bool
unfolding inline_defs any_target unresolved_defs
grammar_inline_once ds = (inline_defs ds ds, any_target ds (unresolved_defs ds))

-- the loop of `grammar_inline`, on fuel
unfoldable pub grammar_inline_loop : ℕ → Defs → Defs
unfolding grammar_inline_once
grammar_inline_loop zero ds = ds
grammar_inline_loop (suc fuel) ds =
    let (ds', did) = grammar_inline_once ds in
    let rest = grammar_inline_loop fuel ds' in if did then rest else ds'

-- A pass that replaces leaves fewer non-terminals to replace, so their number is enough fuel.
unfoldable pub grammar_inline : Defs → Defs
unfolding grammar_inline_loop unresolved_defs
grammar_inline ds = grammar_inline_loop (length (unresolved_defs ds) + 1) ds
