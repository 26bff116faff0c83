-- ===== src/Pattern/Sound/Choice.antt =====
-- Choices and lookaheads: the code of `compile_alt`, `not_code` and `and_code`.
use libpeg.Prelude.{
  ℕ, ◌+◌, ◌<◌, ◌≡◌, refl, sym, ◌∙◌, Bool, List, [], ◌∷◌, Option, none, some, get_elem?, ◌==◌, inl,
  inr,
}
use libpeg.Prelude.Int.{pos}
use mathlib.Core.Option.{some-ne-none}
use libpeg.Charset
use libpeg.Charset.{Charset}
use libpeg.Code.Op
use libpeg.Code.Insn.{Insn}
use libpeg.Machine.Stack.{Kind, btrack}
use libpeg.Machine.State.{Run, State}
use libpeg.Machine.Match.{exec_match, test_byte_nochoice}
use libpeg.Machine.Control.{exec_control}
use libpeg.Machine.Exec.{exec}
use libpeg.Machine.Runs.{At, Does, fails, Does-then, Does-catch, goes}
use libpeg.Machine.Effects.{test-Goes, test_jumps, chooses, commits_back, fails_here, fails_two}
use libpeg.Pattern.Ast.{Pat, optional, not_pat, and_pat, char_class, literal}
use libpeg.Pattern.Semantics.{Matches, optional_in, optional_out, not_in, not_out, and_in, and_out}
use libpeg.Pattern.Ir.{Pir, insn_basic, insn_label, insn_jump, insn_test_set, insn_test_char}
use libpeg.Pattern.Shapes.{not_code, and_code}
use libpeg.Pattern.OneByte.{OneByte, class_OneByte, byte_OneByte}
use libpeg.Pattern.Placed.{Placed-append}
use libpeg.Pattern.Sound.{Runs, Sound, ends, mod_byte}

module _ (bytes : List ℕ) (r : Run) (place : ℕ → ℕ) where
  not-Runs :
      (p : Pat) (sub : List Pir) (l1 : ℕ)
      → Runs bytes r place p sub
      → Runs bytes r place (not_pat p) (not_code sub l1)
  unfolding exec exec_control not_code
  not-Runs p sub l1 f ip end i s ks o (get, rest) (not_in {j = j} m) a =
      let tail = insn_basic Op.fail_twice ∷ insn_label l1 ∷ [] in
      let (mid, hs, ht) = Placed-append place r.prog (ip + 1) sub tail end rest in
      goes r (chooses r _ (place l1) refl get a) (λ s' a'.
        Does-then r (f (ip + 1) mid i s' (btrack (pos (place l1)) (pos i) ∷ ks) (some j) hs m a')
          (λ s'' b. fails (fails_two r _ refl ht.0 b)))
  not-Runs p sub l1 f ip end i s ks o (get, rest) (not_out m) a =
      let tail = insn_basic Op.fail_twice ∷ insn_label l1 ∷ [] in
      let (mid, hs, ht) = Placed-append place r.prog (ip + 1) sub tail end rest in
      goes r (chooses r _ (place l1) refl get a) (λ s' a'.
        Does-catch r (f (ip + 1) mid i s' (btrack (pos (place l1)) (pos i) ∷ ks) none hs m a')
          (λ s'' b. ends bytes r place b (ht.1.0 ∙ ht.1.1)))

  pub Sound-not :
      (p : Pat) (sub : List Pir) (l1 : ℕ)
      → Sound bytes r place p sub
      → Sound bytes r place (not_pat p) (not_code sub l1)
  unfolding not_code
  Sound-not p sub l1 (f, b) = (not-Runs p sub l1 f, (refl, tt))

  and_Runs :
      (p : Pat) (sub : List Pir) (l1 : ℕ)
      → Runs bytes r place p sub
      → Runs bytes r place (and_pat p) (and_code sub l1)
  unfolding exec exec_control and_code
  and_Runs p sub l1 f ip end i s ks o (get, rest) (and_in {j = j} m) a =
      let tail =
        insn_jump Op.back_commit (l1 + 1)
        ∷ insn_label l1
        ∷ insn_basic Op.fail
        ∷ insn_label (l1 + 1)
        ∷ [] in
      let (mid, hs, ht) = Placed-append place r.prog (ip + 1) sub tail end rest in
      goes r (chooses r _ (place l1) refl get a) (λ s' a'.
        Does-then r (f (ip + 1) mid i s' (btrack (pos (place l1)) (pos i) ∷ ks) (some j) hs m a')
          (λ s'' b.
            goes r (commits_back r _ (place (l1 + 1)) refl ht.0 b)
              (λ s3 c. ends bytes r place c (ht.1.1.1.0 ∙ ht.1.1.1.1))))
  and_Runs p sub l1 f ip end i s ks o (get, rest) (and_out m) a =
      let tail =
        insn_jump Op.back_commit (l1 + 1)
        ∷ insn_label l1
        ∷ insn_basic Op.fail
        ∷ insn_label (l1 + 1)
        ∷ [] in
      let (mid, hs, ht) = Placed-append place r.prog (ip + 1) sub tail end rest in
      goes r (chooses r _ (place l1) refl get a) (λ s' a'.
        Does-catch r (f (ip + 1) mid i s' (btrack (pos (place l1)) (pos i) ∷ ks) none hs m a')
          (λ s'' b. fails (
            fails_here r _ refl ht.1.1.0
              (record { reads = b.reads; ip = b.ip ∙ ht.1.0; stack = b.stack }))))

  pub Sound-and :
      (p : Pat) (sub : List Pir) (l1 : ℕ)
      → Sound bytes r place p sub
      → Sound bytes r place (and_pat p) (and_code sub l1)
  unfolding and_code
  Sound-and p sub l1 (f, b) = (and_Runs p sub l1 f, (refl, tt))

  -- An option over one byte is a test that jumps to where it stands.
  option_runs :
      (p : Pat) (x : Insn) (l : ℕ) (test : ℕ → Bool)
      → OneByte bytes p test
      → ((s : State) → exec r x s ≡ test_byte_nochoice test (pos (place l)) s)
      → (ip end i : ℕ) (s : State) (ks : List Kind) (o : Option ℕ) → get_elem? r.prog ip ≡ some x
      → place l ≡ ip + 1
      → ip + 1 ≡ end
      → Matches bytes (optional p) i o
      → At bytes s ip i ks
      → Does bytes r s end ks o
  option_runs p x l test one ran ip end i s ks o get e e' (optional_in {j = j} m) a =
      elim (one i (some j) m) [
        | inl (ok, q) ↦
            rw q
              (goes r (test-Goes r x test _ (ran s) get a ok) (λ s' a'. ends bytes r place a' e'))
        | inr (out, q) ↦ absurd (some-ne-none j q)
      ]
  option_runs p x l test one ran ip end i s ks o get e e' (optional_out m) a = elim (one i none m) [
    | inl (ok, q) ↦ absurd (some-ne-none (i + 1) (sym q))
    | inr (out, q) ↦
        goes r (test_jumps r x test (place l) (ran s) get a out)
          (λ s' a'. ends bytes r place a' (e ∙ e'))
  ]

  pub Sound-option_class :
      (set : Charset) (l : ℕ)
      → Sound bytes r place
          (optional (char_class set))
          (insn_test_set Op.test_set_nochoice set l ∷ insn_label l ∷ [])
  unfolding exec exec_match
  Sound-option_class set l = (run, (refl, tt))
    where
      run :
          Runs bytes r place
            (optional (char_class set))
            (insn_test_set Op.test_set_nochoice set l ∷ insn_label l ∷ [])
      run ip end i s ks o (get, rest) m a =
          option_runs (char_class set) _ l (Charset.has set) (class_OneByte bytes set) (λ s'. refl)
            ip end i s ks o get rest.0 rest.1 m a

  pub Sound-option_byte :
      (b l : ℕ)
      → b < 256
      → Sound bytes r place
          (optional (literal (b ∷ [])))
          (insn_test_char Op.test_char_nochoice b l ∷ insn_label l ∷ [])
  unfolding exec exec_match
  Sound-option_byte b l v = (run, (refl, tt))
    where
      run :
          Runs bytes r place
            (optional (literal (b ∷ [])))
            (insn_test_char Op.test_char_nochoice b l ∷ insn_label l ∷ [])
      run ip end i s ks o (get, rest) m a =
          option_runs (literal (b ∷ [])) _ l (λ c. c == b) (byte_OneByte bytes b)
            (λ s'. rw (mod_byte b v) refl) ip end i s ks o get rest.0 rest.1 m a
