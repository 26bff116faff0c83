-- ===== src/Pattern/Grammar.antt =====
-- `compile_grammar` of src/pattern.c, over the function that compiles a pattern.
use libpeg.Prelude.{
  ℕ, zero, suc, ◌+◌, Bool, true, false, ◌||◌, List, [], ◌∷◌, ◌++◌, Option, none, some, ◌>>=◌,
  get_elem?, length, ◌==◌, if◌then◌else◌,
}
use libpeg.Prelude.{set as set_at}
use libpeg.Code.Op.{Op}
use libpeg.Pattern.Ast.{Name, Pat, Defs, end, def}
use libpeg.Pattern.Ir.{
  vm, pir_opencall, Pir, insn_basic, insn_label, insn_jump, insn_opencall, next_insn_label_idx, Ctx,
  set_err, fresh, find_def,
}
use libpeg.Pattern.Inline.{unresolved_defs, grammar_inline}

-- whether a definition of this index is among those that the names refer to: `used`
unfoldable pub is_used : Defs → List Name → ℕ → Bool
unfolding find_def
is_used ds [] i = false
is_used ds (n ∷ ns) i =
    elim (find_def ds n 0) [ none ↦ false | some (j, p) ↦ j == i ] || is_used ds ns i

-- the second loop, from definition `i` on: the code, and the label of each definition
unfoldable pub compile_defs :
    (Ctx → Pat → Option (List Pir × Ctx))
    → (ℕ → Bool)
    → ℕ
    → Defs
    → Ctx
    → Option (List Pir × List (Option ℕ) × Ctx)
compile_defs comp live i end c = some ([], [], c)
compile_defs comp live i (def name p ds) c = elim (live i) [
  | false ↦ do
    (rest, labels, c') ← compile_defs comp live (i + 1) ds c
    some (rest, none ∷ labels, c')
  | true ↦ do
    (fn, c1) ← comp (fresh 1 c) p
    (rest, labels, c2) ← compile_defs comp live (i + 1) ds c1
    some (insn_label c.nlabels ∷ (fn ++ (insn_basic Op.return ∷ rest)), some c.nlabels ∷ labels, c2)
]

-- the label of the definition of a name, if it has one
unfoldable pub label_of_name : Defs → List (Option ℕ) → Option Name → Option ℕ
unfolding find_def
label_of_name ds labels none = none
label_of_name ds labels (some name) = elim (find_def ds name 0) [
  | none ↦ none
  | some (i, p) ↦ elim (get_elem? labels i) [ none ↦ none | some l ↦ l ]
]

-- whether the instruction at an index is a return
abbrev is_return : List Pir → ℕ → Bool
is_return code i = elim (get_elem? code i) [
  | none ↦ false
  | some x ↦ elim x.op [ vm Op.return ↦ true | _ ↦ false ]
]

-- an open call at an index becomes a call of this label, or a jump to it if a return follows; a
-- return that no label stands before is then a nop
unfoldable pub resolve_call : List Pir → ℕ → ℕ → List Pir
unfolding next_insn_label_idx
resolve_call code i l =
    let (ri, hadlabel) = next_insn_label_idx code (i + 1) in
    let jumps = set_at code i (insn_jump Op.jump l) in
    elim (is_return code ri) [
      | false ↦ set_at code i (insn_jump Op.call l)
      | true ↦ if hadlabel then jumps else set_at jumps ri (insn_basic Op.nop)
    ]

-- The loop that resolves open calls, with the rounds that are left; the name is that of a call
-- that has no definition, at which the loop stops.
unfoldable pub resolve_loop :
    Defs → List (Option ℕ) → ℕ → ℕ → List Pir → List Pir × Option (Option Name)
unfolding resolve_call label_of_name
resolve_loop ds labels zero i code = (code, none)
resolve_loop ds labels (suc left) i code = elim (get_elem? code i) [
  | none ↦ (code, none)
  | some x ↦ elim x.op [
    | pir_opencall ↦ elim (label_of_name ds labels x.name) [
      | none ↦ (code, some x.name)
      | some l ↦ resolve_loop ds labels left (i + 1) (resolve_call code i l)
    ]
    | _ ↦ resolve_loop ds labels left (i + 1) code
  ]
]

abbrev set_err_name : Ctx → Option Name → Ctx
set_err_name c none = c
set_err_name c (some name) = set_err c name

abbrev close : List Pir × Option (Option Name) → ℕ → Ctx → List Pir × Ctx
close (code, some name) lend c = (code, set_err_name c name)
close (code, none) lend c = (code ++ (insn_label lend ∷ []), c)

-- the code of inlined definitions, of which some are called
unfoldable pub compile_calls :
    (Ctx → Pat → Option (List Pir × Ctx)) → Name → ℕ → Defs → Ctx → Option (List Pir × Ctx)
unfolding compile_defs resolve_loop is_used unresolved_defs
compile_calls comp start si ds c = do
  (fns, labels, c') ←
      compile_defs comp (λ i. i == si || is_used ds (unresolved_defs ds) i) 0 ds (fresh 1 c)
  let code = insn_opencall start ∷ insn_jump Op.jump c.nlabels ∷ fns
  some (close (resolve_loop ds labels (length code) 0 code) c.nlabels c')

unfoldable pub compile_grammar :
    (Ctx → Pat → Option (List Pir × Ctx)) → Name → Defs → Ctx → Option (List Pir × Ctx)
unfolding compile_calls grammar_inline find_def unresolved_defs
compile_grammar comp start defs c =
    let ds = grammar_inline defs in
    elim (find_def ds start 0) [
      | none ↦ some ([], set_err c start)
      | some (si, p) ↦ elim (unresolved_defs ds) [
        | [] ↦ comp c p
        | _ ∷ _ ↦ compile_calls comp start si ds c
      ]
    ]
