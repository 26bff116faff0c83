-- ===== src/Pattern/Compile.antt =====
-- `compile_pat` of src/pattern.c.
use libpeg.Prelude.{ℕ, zero, suc, List, [], ◌∷◌, ◌++◌, Option, none, some, ◌>>=◌}
use libpeg.Prelude.Int.{ℤ, pos, ◌+ℤ◌}
use libpeg.Code.Op
use libpeg.Pattern.Ast.{
  Pat, alt, seq, star, plus, optional, not_pat, and_pat, search, cap, memo, check, grammar, repeat,
  char_class, literal, nonterm, inlined, dot, error, error_or, empty_op, empty,
}
use libpeg.Pattern.Simplify.{combine, get_pat, of_byte, of_set, other, pat_matcher}
use libpeg.Pattern.Ir.{
  Pir, insn_set, insn_u8, insn_label, insn_test_set, insn_test_char, insn_opencall, Ctx, fresh,
}
use libpeg.Pattern.Shapes.{
  alt_code, star_code, tree_code, not_code, and_code, cap_code, memo_code, check_code, error_code,
  literal_code, skip_set, search_name, search_defs,
}
use libpeg.Pattern.Grammar.{compile_grammar}

abbrev pub Compiler : Type 0
Compiler = Ctx → Pat → Option (List Pir × Ctx)

-- The cases, each over the function that compiles a part, and of simplified parts.
unfoldable pub compile_alt : Compiler → Ctx → Pat → Pat → Option (List Pir × Ctx)
unfolding combine alt_code
compile_alt comp c l r = elim (combine l r) [
  | some set ↦ some (insn_set Op.set set ∷ [], c)
  | none ↦ do
    (lc, c1) ← comp c l
    (rc, c2) ← comp c1 r
    some (alt_code lc rc c2.nlabels, fresh 2 c2)
]

unfoldable pub compile_seq : Compiler → Ctx → Pat → Pat → Option (List Pir × Ctx)
compile_seq comp c l r = do (lc, c1) ← comp c l; (rc, c2) ← comp c1 r; some (lc ++ rc, c2)

abbrev pub memoized : Pat → Option (Pat × ℤ)
memoized (memo p id) = some (p, id)
memoized p = none

unfoldable pub compile_star : Compiler → Ctx → Pat → Option (List Pir × Ctx)
unfolding star_code tree_code get_pat
compile_star comp c p = elim (pat_matcher p) [
  | of_set set ↦ some (insn_set Op.span set ∷ [], c)
  | _ ↦ elim (memoized p) [
    | some (q, id) ↦ do
      (sub, c1) ← comp c (get_pat q)
      let counter = c1.memo_counter
      some (
        tree_code sub c1.nlabels counter,
        record (fresh 4 c1) { memo_counter = counter +ℤ pos 1 },
      )
    | none ↦ do (sub, c1) ← comp c p; some (star_code sub c1.nlabels, fresh 2 c1)
  ]
]

-- the star first
unfoldable pub compile_plus : Compiler → Ctx → Pat → Option (List Pir × Ctx)
compile_plus comp c p = do (rep, c1) ← comp c (star p); (sub, c2) ← comp c1 p; some (sub ++ rep, c2)

unfoldable pub compile_optional : Compiler → Ctx → Pat → Option (List Pir × Ctx)
compile_optional comp c p = elim (pat_matcher p) [
  | of_byte b ↦
      some (insn_test_char Op.test_char_nochoice b c.nlabels ∷ insn_label c.nlabels ∷ [], fresh 1 c)
  | of_set set ↦
      some (insn_test_set Op.test_set_nochoice set c.nlabels ∷ insn_label c.nlabels ∷ [], fresh 1 c)
  | other ↦ comp c (alt p empty)
]

-- the code of a part under one label that is taken after it, and under one that is taken before
abbrev pub label_after :
    Compiler → (List Pir → ℕ → List Pir) → ℕ → Ctx → Pat → Option (List Pir × Ctx)
label_after comp around n c p = do (sub, c1) ← comp c p; some (around sub c1.nlabels, fresh n c1)

abbrev pub label_before : Compiler → (List Pir → ℕ → List Pir) → Ctx → Pat → Option (List Pir × Ctx)
label_before comp around c p = do (sub, c1) ← comp (fresh 1 c) p; some (around sub c.nlabels, c1)

unfoldable pub compile_search : Compiler → Ctx → Pat → Option (List Pir × Ctx)
unfolding compile_grammar skip_set search_defs
compile_search comp c p = do
  (sub, c1) ← comp c p
  compile_grammar comp search_name (search_defs p (skip_set sub)) c1

unfoldable pub compile_repeat : Compiler → ℕ → Ctx → Pat → Option (List Pir × Ctx)
compile_repeat comp zero c p = some ([], c)
compile_repeat comp (suc n) c p = do
  (sub, c1) ← comp c p
  (rest, c2) ← compile_repeat comp n c1 p
  some (sub ++ rest, c2)

-- On fuel; `none` if it runs out.
unfoldable pub compile_pat : ℕ → Ctx → Pat → Option (List Pir × Ctx)
unfolding compile_alt compile_seq compile_star compile_plus compile_optional compile_search
    compile_repeat compile_grammar get_pat not_code and_code cap_code memo_code check_code
compile_pat zero c p = none
compile_pat (suc fuel) c (alt l r) = compile_alt (compile_pat fuel) c (get_pat l) (get_pat r)
compile_pat (suc fuel) c (seq l r) = compile_seq (compile_pat fuel) c (get_pat l) (get_pat r)
compile_pat (suc fuel) c (star p) = compile_star (compile_pat fuel) c (get_pat p)
compile_pat (suc fuel) c (plus p) = compile_plus (compile_pat fuel) c (get_pat p)
compile_pat (suc fuel) c (optional p) = compile_optional (compile_pat fuel) c (get_pat p)
compile_pat (suc fuel) c (not_pat p) = label_after (compile_pat fuel) not_code 1 c (get_pat p)
compile_pat (suc fuel) c (and_pat p) = label_after (compile_pat fuel) and_code 2 c (get_pat p)
compile_pat (suc fuel) c (cap p id) =
    label_after (compile_pat fuel) (λ sub l. cap_code sub id) 0 c (get_pat p)
compile_pat (suc fuel) c (memo p id) =
    label_before (compile_pat fuel) (λ sub l. memo_code sub l id) c (get_pat p)
compile_pat (suc fuel) c (check p f id flag) =
    label_before (compile_pat fuel) (λ sub l. check_code sub l f id flag) c (get_pat p)
compile_pat (suc fuel) c (search p) = compile_search (compile_pat fuel) c (get_pat p)
compile_pat (suc fuel) c (grammar start ds) = compile_grammar (compile_pat fuel) start ds c
compile_pat (suc fuel) c (repeat p n) = compile_repeat (compile_pat fuel) n c p
compile_pat (suc fuel) c (char_class set) = some (insn_set Op.set set ∷ [], c)
compile_pat (suc fuel) c (literal str) = some (literal_code str, c)
compile_pat (suc fuel) c (nonterm name) = some (insn_opencall name ∷ [], c)
compile_pat (suc fuel) c (inlined name p) = compile_pat fuel c p
compile_pat (suc fuel) c (dot n) = some (insn_u8 Op.any (pos n) ∷ [], c)
compile_pat (suc fuel) c (error msg) = some (error_code msg none, c)
compile_pat (suc fuel) c (error_or msg p) = do
  (rec, c1) ← compile_pat fuel c p
  some (error_code msg (some rec), c1)
compile_pat (suc fuel) c (empty_op op) = some (insn_u8 Op.empty (pos op) ∷ [], c)
compile_pat (suc fuel) c empty = some ([], c)
