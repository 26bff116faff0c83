-- ===== src/Pattern/Tests.antt =====
-- Small patterns, compiled and run.
use libpeg.Prelude.{false, ℕ, ◌≡◌, refl, true, List, [], ◌∷◌, none, some, ltb, if◌then◌else◌, arith}
use libpeg.Prelude.Int.{pos, negsuc}
use libpeg.Code.Op
use libpeg.Code.Insn.{Insn, insn}
use libpeg.Memo.Heap
use libpeg.Machine.State.{Run, State}
use libpeg.Machine.Exec.{run_loop, start}
use libpeg.Machine.Runs.{Does}
use libpeg.Pattern.Ast.{Pat, seq, star, literal, not_pat, dot, nodes}
use libpeg.Code.Builder.{same_bytes}
use libpeg.Pattern.Ir.{find_def}
use libpeg.Pattern.Ast.{nonterm, inlined, Defs, end, def}
use libpeg.Pattern.Inline.{
  grammar_inline, grammar_inline_loop, grammar_inline_once, unresolved_defs, unresolved, any_target,
  inline_target, inline_defs, inline_pat, walked,
}
use libpeg.Pattern.Inlined.{grammar_inline_lem}
use libpeg.Pattern.Semantics.{
  Matches, literal_end, literal_in, literal_out, star_end, star_more, seq_in, not_out, dot_in,
}
use libpeg.Pattern.Simplify.{get_pat, get_pat_loop}
use libpeg.Pattern.Ir.{Pir, Ctx, insn_jump, insn_label, insn_u8}
use libpeg.Pattern.Shapes.{star_code}
use libpeg.Pattern.Compile.{compile_pat, compile_star}
use libpeg.Pattern.Core.{needs}
use libpeg.Pattern.Promise.{
  compile_pat-Does, compile_pat_total, get_pat-Matches, compile_pat-run_loop, stop_of, StopsAt,
  start-At,
}

-- 'a'*
abbrev as_pat : Pat
as_pat = star (literal (97 ∷ []))

abbrev no_labels : Ctx
no_labels = record { nlabels = 0; memo_counter = pos 0; err = none }

abbrev two_labels : Ctx
two_labels = record { nlabels = 2; memo_counter = pos 0; err = none }

abbrev as_code : List Pir
as_code =
    insn_jump Op.choice 1
    ∷ insn_label 0
    ∷ insn_u8 Op.char (pos 97)
    ∷ insn_jump Op.partial_commit 0
    ∷ insn_label 1
    ∷ []

abbrev as_place : ℕ → ℕ
as_place l = if ltb l 1 then 1 else 3

abbrev as_prog : List Insn
as_prog =
    record (insn Op.choice) { a = pos 3 }
    ∷ record (insn Op.char) { a = pos 97 }
    ∷ record (insn Op.partial_commit) { a = pos 1 }
    ∷ insn Op.end
    ∷ []

abbrev as_run : Run
as_run = record {
  prog = as_prog;
  errors = [];
  checkers = [];
  table = true;
  window_low = negsuc 0;
  window_high = pos 0;
}

-- "ab"
abbrev ab : List ℕ
ab = 97 ∷ 98 ∷ []

as_compiled : compile_pat 2 no_labels as_pat ≡ some (as_code, two_labels)
unfolding compile_pat compile_star get_pat get_pat_loop nodes star_code
as_compiled = refl

as_matched : Matches ab as_pat 0 (some 1)
as_matched = star_more (literal_in refl literal_end) (star_end (literal_out refl))

compile_pat_total_example :
    (code : List Pir) × (c' : Ctx) × (compile_pat 2 no_labels as_pat ≡ some (code, c'))
unfolding needs
compile_pat_total_example = compile_pat_total 2 no_labels as_pat (omega arith, tt) (omega arith)

compile_pat-Does_example : Does ab as_run (start (Heap.new (pos 0)) (λ c. 0) ab) 3 [] (some 1)
unfolding needs
compile_pat-Does_example =
    compile_pat-Does ab as_run as_place 2 no_labels two_labels as_pat as_code 0 3 0
      (start (Heap.new (pos 0)) (λ c. 0) ab) [] (some 1) (omega arith, (omega arith, tt))
      (omega arith, tt) (omega arith) as_compiled (refl, (refl, (refl, (refl, (refl, refl)))))
      as_matched (start-At (Heap.new (pos 0)) (λ c. 0) ab)

compile_pat-run_loop_example :
    (rounds : ℕ) × (s' : State) × (run_loop rounds as_run (start (Heap.new (pos 0)) (λ c. 0) ab)
      ≡ some (s', stop_of (some 1)))
    × StopsAt s' (some 1)
unfolding needs
compile_pat-run_loop_example =
    compile_pat-run_loop ab as_run as_place 2 no_labels two_labels as_pat as_code 3
      (Heap.new (pos 0)) (λ c. 0) (some 1) (omega arith, (omega arith, tt)) (omega arith, tt)
      (omega arith) as_compiled (refl, (refl, (refl, (refl, (refl, refl))))) refl as_matched

-- !'b' . on "ab"
abbrev not_b : Pat
not_b = seq (not_pat (literal (98 ∷ []))) (dot 1)

get_pat-Matches_example : Matches ab (get_pat not_b) 0 (some 1)
get_pat-Matches_example =
    get_pat-Matches ab not_b 0 (some 1) (omega arith, (omega arith, tt)) ((omega arith, tt), tt)
      (seq_in (not_out (literal_out refl)) (dot_in (omega arith)))

-- S <- A 'b'; A <- 'a'
abbrev two_defs : Defs
two_defs =
    def (83 ∷ []) (seq (nonterm (65 ∷ [])) (literal (98 ∷ [])))
      (def (65 ∷ []) (literal (97 ∷ [])) end)

abbrev two_inlined : Defs
two_inlined =
    def (83 ∷ []) (seq (inlined (65 ∷ []) (literal (97 ∷ []))) (literal (98 ∷ [])))
      (def (65 ∷ []) (literal (97 ∷ [])) end)

two_are_inlined : grammar_inline two_defs ≡ two_inlined
unfolding grammar_inline grammar_inline_loop grammar_inline_once unresolved_defs unresolved
    any_target inline_target find_def same_bytes inline_defs inline_pat walked
two_are_inlined = refl

grammar_inline_lem_example :
    grammar_inline_once (grammar_inline two_defs) ≡ (grammar_inline two_defs, false)
grammar_inline_lem_example = grammar_inline_lem two_defs
