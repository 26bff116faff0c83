-- ===== src/Pattern/Sound/Alternative.antt =====
-- The code of an alternative: `compile_alt`.
use libpeg.Prelude.{
  ℕ, ◌+◌, ◌≡◌, refl, sym, ◌∙◌, ap, Bool, true, false, List, [], ◌∷◌, ◌++◌, Option, none, some,
  get_elem?, ◌==◌, arith, Bool-cases, inl, inr, not,
}
use libpeg.Prelude.Int.{pos}
use mathlib.Core.Path.{subst}
use mathlib.Core.Bool.{true≢false}
use mathlib.Core.Option.{some-ne-none}
use libpeg.Charset
use libpeg.Charset.{Charset}
use libpeg.Code.Op
use libpeg.Code.Insn.{Insn}
use libpeg.Machine.Stack.{Kind, btrack}
use libpeg.Machine.State.{Run, State, passes}
use libpeg.Machine.Match.{exec_match, test_byte_nochoice}
use libpeg.Machine.Control.{exec_control}
use libpeg.Machine.Exec.{exec}
use libpeg.Machine.Runs.{At, Does, Does-then, Does-none, Does-catch, goes}
use libpeg.Machine.Effects.{test-Goes, test_jumps, jumps, chooses, commits}
use libpeg.Pattern.Ast.{Pat, alt}
use libpeg.Pattern.Semantics.{Matches, alt_left, alt_right}
use libpeg.Pattern.Ir.{Pir, insn_basic, insn_label, insn_jump, skipped, skip, next_insn_idx}
use libpeg.Pattern.Simplify.{Matcher, of_byte, of_set, other}
use libpeg.Pattern.Shapes.{matcher, disjoint, test_insn, head_insn, alt_test, alt_code}
use libpeg.Pattern.Placed.{Placed, Placed-append}
use libpeg.Pattern.Sound.{Runs, Ahead, Tested, Sound, ends, mod_byte}

-- Code that begins with an instruction has it for its first.
head_insn_lem : (x : Pir) (rest : List Pir) → skipped x ≡ false → head_insn (x ∷ rest) ≡ some x
unfolding next_insn_idx skip
head_insn_lem x rest h =
    let e : next_insn_idx (x ∷ rest) 0 ≡ 0 = unfold next_insn_idx in unfold skip in rw h refl in
    rw e refl

alt_test_one :
    (x : Pir) (rest : List Pir) (l1 : ℕ)
    → skipped x ≡ false
    → alt_test (x ∷ rest) [] l1 ≡ (insn_basic Op.nop, false)
alt_test_one x rest l1 h = rw (head_insn_lem x rest h, alt_test) refl

alt_test_two :
    (x : Pir) (rest : List Pir) (y : Pir) (ys : List Pir) (l1 : ℕ)
    → skipped x ≡ false
    → skipped y ≡ false
    → alt_test (x ∷ rest) (y ∷ ys) l1 ≡ (test_insn (matcher x) l1, disjoint (matcher x) (matcher y))
alt_test_two x rest y ys l1 h k = rw (head_insn_lem x rest h, head_insn_lem y ys k, alt_test) refl

abbrev choice : List Pir → List Pir → ℕ → List Pir
choice l r l1 =
    insn_jump Op.choice l1
    ∷ (l ++ (insn_jump Op.commit (l1 + 1) ∷ insn_label l1 ∷ (r ++ (insn_label (l1 + 1) ∷ []))))

alt_code-choice :
    (l r : List Pir) (l1 : ℕ) {t : Pir}
    → alt_test l r l1 ≡ (t, false)
    → alt_code l r l1 ≡ choice l r l1
unfolding alt_code
alt_code-choice l r l1 h = rw (h, alt_code) refl

alt_code-test :
    (x : Pir) (rest r : List Pir) (l1 : ℕ) {t : Pir}
    → alt_test (x ∷ rest) r l1 ≡ (t, true)
    → alt_code (x ∷ rest) r l1
      ≡ t
        ∷ (rest ++ (insn_jump Op.jump (l1 + 1) ∷ insn_label l1 ∷ (r ++ (insn_label (l1 + 1) ∷ []))))
unfolding alt_code
alt_code-test x rest r l1 {t = t} h =
    rw (h, alt_code)
      (ap
        (λ (z : Pir × Bool).
          z.0
          ∷ (rest
              ++ (insn_jump Op.jump (l1 + 1) ∷ insn_label l1 ∷ (r ++ (insn_label (l1 + 1) ∷ [])))))
        h)

bytes_apart :
    (a b : ℕ)
    → not (a == b) ≡ true
    → (c : Option ℕ) → passes (λ x. x == a) c ≡ true
    → passes (λ x. x == b) c ≡ false
bytes_apart a b d none h = refl
bytes_apart a b d (some c) h = ground arith

byte_apart :
    (a : ℕ) (set : Charset)
    → not (Charset.has set a) ≡ true
    → (c : Option ℕ) → passes (λ x. x == a) c ≡ true
    → passes (Charset.has set) c ≡ false
byte_apart a set d none h = refl
byte_apart a set d (some c) h = let e : c ≡ a = ground arith in rw e (ground arith)

set_apart :
    (set : Charset) (b : ℕ)
    → not (Charset.has set b) ≡ true
    → (c : Option ℕ) → passes (Charset.has set) c ≡ true
    → passes (λ x. x == b) c ≡ false
set_apart set b d none h = refl
set_apart set b d (some c) h = elim (Bool-cases (c == b)) [
  | inl e ↦ let e' : c ≡ b = ground arith in absurd (true≢false (sym h ∙ rw e' (ground arith)))
  | inr e ↦ e
]

module _ (bytes : List ℕ) (r : Run) (place : ℕ → ℕ) (p q : Pat) where
  -- a choice
  choice-Runs :
      (pc qc : List Pir) (l1 : ℕ)
      → Runs bytes r place p pc
      → Runs bytes r place q qc
      → Runs bytes r place (alt p q) (
          insn_jump Op.choice l1
          ∷ (pc
              ++ (insn_jump Op.commit (l1 + 1)
                  ∷ insn_label l1
                  ∷ (qc ++ (insn_label (l1 + 1) ∷ [])))))
  unfolding exec exec_control
  choice-Runs pc qc l1 f g ip end i s ks o (get, rest) m a =
      let (mid, hp, ht) = Placed-append place r.prog (ip + 1) pc _ end rest in
      let (mid', hq, he) = Placed-append place r.prog (mid + 1) qc _ end ht.1.1 in
      goes r (chooses r _ (place l1) refl get a) (λ s' a'. after mid mid' hp ht.0 ht.1.0 hq he m a')
    where
      after :
          (mid mid' : ℕ) {s' : State}
          → Placed place r.prog (ip + 1) pc mid
          → get_elem? r.prog mid
            ≡ some (record { op = Op.commit; a = pos (place (l1 + 1)); b = pos 0; set = none })
          → place l1 ≡ mid + 1
          → Placed place r.prog (mid + 1) qc mid'
          → Placed place r.prog mid' (insn_label (l1 + 1) ∷ []) end
          → {o : Option ℕ} → Matches bytes (alt p q) i o
          → At bytes s' (ip + 1) i (btrack (pos (place l1)) (pos i) ∷ ks)
          → Does bytes r s' end ks o
      after mid mid' {s' = s'} hp get' e hq he (alt_left {j = j} n) a' =
          Does-then r (f (ip + 1) mid i s' (btrack (pos (place l1)) (pos i) ∷ ks) (some j) hp n a')
            (λ s'' b.
              goes r (commits r _ (place (l1 + 1)) refl get' b)
                (λ s3 c. ends bytes r place c (he.0 ∙ he.1)))
      after mid mid' {s' = s'} hp get' e hq he {o = o'} (alt_right n n') a' =
          Does-catch r (f (ip + 1) mid i s' (btrack (pos (place l1)) (pos i) ∷ ks) none hp n a')
            (λ s'' b.
              subst (λ x. Does bytes r s'' x ks o') he.1
                (g (mid + 1) mid' i s'' ks o' hq n'
                  (record { reads = b.reads; ip = b.ip ∙ e; stack = b.stack })))

  -- A test in place of the first instruction of the left code, and no choice: where the test passes the
  -- right pattern fails.
  test-Runs :
      (x : Insn) (t u : ℕ → Bool) (rest ys qc : List Pir) (l1 : ℕ)
      → ((s : State) → exec r x s ≡ test_byte_nochoice t (pos (place l1)) s)
      → ((c : Option ℕ) → passes t c ≡ true → passes u c ≡ false)
      → Ahead bytes r place p t rest
      → Ahead bytes r place q u ys
      → Runs bytes r place q qc
      → (ip end i : ℕ) (s : State) (ks : List Kind) (o : Option ℕ) → get_elem? r.prog ip ≡ some x
      → Placed place r.prog
          (ip + 1)
          (rest
            ++ (insn_jump Op.jump (l1 + 1) ∷ insn_label l1 ∷ (qc ++ (insn_label (l1 + 1) ∷ []))))
          end
      → Matches bytes (alt p q) i o
      → At bytes s ip i ks
      → Does bytes r s end ks o
  unfolding exec exec_control
  test-Runs x t u rest ys qc l1 ran apart f f' g ip end i s ks o get h m a =
      let (mid, hp, ht) = Placed-append place r.prog (ip + 1) rest _ end h in
      let (mid', hq, he) = Placed-append place r.prog (mid + 1) qc _ end ht.1.1 in
      elim (Bool-cases (passes t (get_elem? bytes i))) [
        | inl ok ↦
            goes r (test-Goes r x t (pos (place l1)) (ran s) get a ok)
              (λ s' a'. within mid hp ht.0 (he.0 ∙ he.1) ok m a')
        | inr out ↦ goes r (test_jumps r x t (place l1) (ran s) get a out) (λ s' a'.
            subst (λ y. Does bytes r s' y ks o) he.1
              (g (mid + 1) mid' i s' ks o hq (right out m)
                (record { reads = a'.reads; ip = a'.ip ∙ ht.1.0; stack = a'.stack })))
      ]
    where
      within :
          (mid : ℕ) {s' : State} {o : Option ℕ}
          → Placed place r.prog (ip + 1) rest mid
          → get_elem? r.prog mid
            ≡ some (record { op = Op.jump; a = pos (place (l1 + 1)); b = pos 0; set = none })
          → place (l1 + 1) ≡ end
          → passes t (get_elem? bytes i) ≡ true
          → Matches bytes (alt p q) i o
          → At bytes s' (ip + 1) (i + 1) ks
          → Does bytes r s' end ks o
      within mid {s' = s'} hp get' e ok (alt_left {j = j} n) a' =
          Does-then r ((f i (some j) n).1 ok (ip + 1) mid s' ks hp a') (λ s'' b.
            goes r (jumps r _ (place (l1 + 1)) refl get' b) (λ s3 c. ends bytes r place c e))
      within mid {s' = s'} {o = o'} hp get' e ok (alt_right n n') a' =
          rw ((f' i o' n').0 (apart (get_elem? bytes i) ok))
            (Does-none r ((f i none n).1 ok (ip + 1) mid s' ks hp a'))

      right :
          {o : Option ℕ}
          → passes t (get_elem? bytes i) ≡ false
          → Matches bytes (alt p q) i o
          → Matches bytes q i o
      right out (alt_left {j = j} n) = absurd (some-ne-none j ((f i (some j) n).0 out))
      right out (alt_right n n') = n'

  -- the test of two disjoint matchers
  apart-Runs :
      (m n : Matcher) (rest ys qc : List Pir) (l1 : ℕ)
      → disjoint m n ≡ true
      → Tested bytes r place p m rest
      → Tested bytes r place q n ys
      → Runs bytes r place q qc
      → Runs bytes r place (alt p q) (
          test_insn m l1
          ∷ (rest
              ++ (insn_jump Op.jump (l1 + 1) ∷ insn_label l1 ∷ (qc ++ (insn_label (l1 + 1) ∷ [])))))
  unfolding exec exec_match
  apart-Runs (of_byte a) (of_byte b) rest ys qc l1 d (v, f) (w, f') g = λ ip end i s ks o h m a'.
      test-Runs _ (λ c. c == a) (λ c. c == b) rest ys qc l1 (λ s'. rw (mod_byte a v) refl)
        (bytes_apart a b d) f f' g ip end i s ks o h.0 h.1 m a'
  apart-Runs (of_byte a) (of_set set) rest ys qc l1 d (v, f) f' g = λ ip end i s ks o h m a'.
      test-Runs _ (λ c. c == a) (Charset.has set) rest ys qc l1 (λ s'. rw (mod_byte a v) refl)
        (byte_apart a set d) f f' g ip end i s ks o h.0 h.1 m a'
  apart-Runs (of_set set) (of_byte b) rest ys qc l1 d f (w, f') g = λ ip end i s ks o h m a'.
      test-Runs _ (Charset.has set) (λ c. c == b) rest ys qc l1 (λ s'. refl) (set_apart set b d) f
        f' g ip end i s ks o h.0 h.1 m a'
  apart-Runs (of_byte a) other rest ys qc l1 d f f' g = absurd (true≢false (sym d))
  apart-Runs (of_set set) (of_set set') rest ys qc l1 d f f' g = absurd (true≢false (sym d))
  apart-Runs (of_set set) other rest ys qc l1 d f f' g = absurd (true≢false (sym d))
  apart-Runs other n rest ys qc l1 d f f' g = absurd (true≢false (sym d))

  apart_begins :
      (m n : Matcher) (rest ys qc : List Pir) (l1 : ℕ)
      → disjoint m n ≡ true
      → Tested bytes r place p m rest
      → Tested bytes r place q n ys
      → Runs bytes r place q qc
      → Sound bytes r place (alt p q) (
          test_insn m l1
          ∷ (rest
              ++ (insn_jump Op.jump (l1 + 1) ∷ insn_label l1 ∷ (qc ++ (insn_label (l1 + 1) ∷ [])))))
  apart_begins (of_byte a) n rest ys qc l1 d f f' g =
      (apart-Runs (of_byte a) n rest ys qc l1 d f f' g, (refl, tt))
  apart_begins (of_set set) n rest ys qc l1 d f f' g =
      (apart-Runs (of_set set) n rest ys qc l1 d f f' g, (refl, tt))
  apart_begins other n rest ys qc l1 d f f' g = absurd (true≢false (sym d))

  pub Sound-alt :
      (pc qc : List Pir) (l1 : ℕ)
      → Sound bytes r place p pc
      → Sound bytes r place q qc
      → Sound bytes r place (alt p q) (alt_code pc qc l1)
  unfolding alt_code
  Sound-alt [] qc l1 (f, b) (g, c) = (choice-Runs [] qc l1 f g, (refl, tt))
  Sound-alt (x ∷ rest) [] l1 (f, b) (g, c) =
      rw (alt_code-choice (x ∷ rest) [] l1 (alt_test_one x rest l1 b.0))
        (choice-Runs (x ∷ rest) [] l1 f g, (refl, tt))
  Sound-alt (x ∷ rest) (y ∷ ys) l1 (f, b) (g, c) =
      let e = alt_test_two x rest y ys l1 b.0 c.0 in
      elim (Bool-cases (disjoint (matcher x) (matcher y))) [
        | inl d ↦
            rw (alt_code-test x rest (y ∷ ys) l1 {t = test_insn (matcher x) l1} (e ∙ rw d refl))
              (apart_begins (matcher x) (matcher y) rest ys (y ∷ ys) l1 d b.1 c.1 g)
        | inr d ↦
            rw
              (alt_code-choice (x ∷ rest) (y ∷ ys) l1 {t = test_insn (matcher x) l1}
                (e ∙ rw d refl))
              (choice-Runs (x ∷ rest) (y ∷ ys) l1 f g, (refl, tt))
      ]
