-- ===== src/Pattern/Sound/Repeat.antt =====
-- Repetitions: the code of `compile_star` and `compile_plus`.
use libpeg.Prelude.{
  ℕ, zero, suc, ◌+◌, ◌≡◌, refl, sym, ◌∙◌, ap, true, false, List, [], ◌∷◌, ◌++◌, Option, none, some,
  get_elem?, drop, arith,
}
use libpeg.Prelude.Int.{pos}
use mathlib.Core.Path.{subst}
use mathlib.Core.Bool.{true≢false}
use libpeg.Charset
use libpeg.Charset.{Charset}
use libpeg.Input.Flat.{run_length}
use libpeg.Code.Op
use libpeg.Machine.Stack.{Kind, btrack}
use libpeg.Machine.State.{Run, State, passes}
use libpeg.Machine.Match.{exec_match}
use libpeg.Machine.Control.{exec_control}
use libpeg.Machine.Exec.{exec}
use libpeg.Machine.Runs.{At, Does, Does-then, Does-catch, goes}
use libpeg.Machine.Effects.{chooses, spans, renews}
use libpeg.Pattern.Ast.{Pat, seq, star, plus, char_class}
use libpeg.Pattern.Semantics.{
  Matches, class_in, class_out, seq_in, seq_out, star_end, star_more, plus_in, plus_out,
}
use libpeg.Pattern.Ir.{Pir, insn_label, insn_jump, insn_set}
use libpeg.Pattern.Shapes.{star_code}
use libpeg.Pattern.Placed.{Placed, Placed-append}
use libpeg.Pattern.Sound.{Runs, Sound, Sound-via, Sound-seq, ends}

run_length_in :
    (set : Charset) (xs : List ℕ) (i : ℕ)
    → passes (Charset.has set) (get_elem? xs i) ≡ true
    → run_length set (drop i xs) ≡ suc (run_length set (drop (suc i) xs))
unfolding run_length
run_length_in set [] i h = absurd (true≢false (sym h))
run_length_in set (x ∷ xs) zero h = rw h refl
run_length_in set (x ∷ xs) (suc i) h = run_length_in set xs i h

run_length_out :
    (set : Charset) (xs : List ℕ) (i : ℕ)
    → passes (Charset.has set) (get_elem? xs i) ≡ false
    → run_length set (drop i xs) ≡ 0
unfolding run_length
run_length_out set [] zero h = refl
run_length_out set [] (suc i) h = refl
run_length_out set (x ∷ xs) zero h = rw h refl
run_length_out set (x ∷ xs) (suc i) h = run_length_out set xs i h

module _ (bytes : List ℕ) (r : Run) (place : ℕ → ℕ) where
  -- The loop, entered at its label: a choice that leads to the end is on the stack.
  loop-Runs :
      (p : Pat) (sub : List Pir) (l1 ip mid end : ℕ)
      → Runs bytes r place p sub
      → Placed place r.prog ip sub mid
      → place l1 ≡ ip
      → get_elem? r.prog mid
        ≡ some (record { op = Op.partial_commit; a = pos (place l1); b = pos 0; set = none })
      → {i : ℕ} {o : Option ℕ} {s : State} {ks : List Kind} {off : ℕ} → Matches bytes (star p) i o
      → off ≡ i
      → At bytes s ip i (btrack (pos end) (pos off) ∷ ks)
      → Does bytes r s end ks o
  unfolding exec exec_control
  loop-Runs p sub l1 ip mid end f h e get {i = i} {s = s} {ks = ks} {off = off} (star_end m) q a =
      Does-catch r (f ip mid i s (btrack (pos end) (pos off) ∷ ks) none h m a) (λ s' a'.
        ends bytes r place (record { reads = rw⁻¹ q a'.reads; ip = a'.ip; stack = a'.stack }) refl)
  loop-Runs p sub l1 ip mid end f h e get {i = i} {o = o} {s = s} {ks = ks} {off = off}
        (star_more {j = j} m n) q a =
      Does-then r (f ip mid i s (btrack (pos end) (pos off) ∷ ks) (some j) h m a) (λ s' a'.
        goes r (renews r _ (place l1) refl get a') (λ s'' b.
          loop-Runs p sub l1 ip mid end f h e get n refl
            (record { reads = b.reads; ip = b.ip ∙ e; stack = b.stack })))

  star-Runs :
      (p : Pat) (sub : List Pir) (l1 : ℕ)
      → Runs bytes r place p sub
      → Runs bytes r place (star p) (star_code sub l1)
  unfolding exec exec_control star_code
  star-Runs p sub l1 f ip end i s ks o (get, rest) m a =
      let tail = insn_jump Op.partial_commit l1 ∷ insn_label (l1 + 1) ∷ [] in
      let (mid, hs, ht) = Placed-append place r.prog (ip + 1) sub tail end rest.1 in
      let exit : place (l1 + 1) ≡ end = ht.1.0 ∙ ht.1.1 in
      goes r (chooses r _ (place (l1 + 1)) refl get a) (λ s' a'.
        loop-Runs p sub l1 (ip + 1) mid end f hs rest.0 ht.0 m refl
          (record { reads = a'.reads; ip = a'.ip; stack = rw exit at a'.stack }))

  pub Sound-star :
      (p : Pat) (sub : List Pir) (l1 : ℕ)
      → Sound bytes r place p sub
      → Sound bytes r place (star p) (star_code sub l1)
  unfolding star_code
  Sound-star p sub l1 (f, b) = (star-Runs p sub l1 f, (refl, tt))

  pub Sound-plus :
      (p : Pat) (sub rep : List Pir)
      → Sound bytes r place p sub
      → Sound bytes r place (star p) rep
      → Sound bytes r place (plus p) (sub ++ rep)
  Sound-plus p sub rep f g =
      Sound-via bytes r place (plus p) (seq p (star p)) (sub ++ rep) unrolled
        (Sound-seq bytes r place p (star p) sub rep f g)
    where
      unrolled :
          (i : ℕ) (o : Option ℕ) → Matches bytes (plus p) i o → Matches bytes (seq p (star p)) i o
      unrolled i o (plus_in m n) = seq_in m n
      unrolled i o (plus_out m) = seq_out m

  -- A repetition of a set matches the longest run of its bytes.
  span_length :
      (set : Charset) {i : ℕ} {o : Option ℕ}
      → Matches bytes (star (char_class set)) i o
      → o ≡ some (i + run_length set (drop i bytes))
  unfolding run_length
  span_length set {i = i} {o = o} (star_end (class_out h)) =
      ap some (omega (arith, run_length_out set bytes i h))
  span_length set {i = i} {o = o} (star_more (class_in h) n) =
      let e : i + 1 ≡ suc i = omega arith in
      let k : suc i + run_length set (drop (suc i) bytes) ≡ i + run_length set (drop i bytes) =
        omega (arith, run_length_in set bytes i h) in
      subst (λ x. o ≡ some (x + run_length set (drop x bytes))) e (span_length set n) ∙ ap some k

  pub Sound-span :
      (set : Charset) → Sound bytes r place (star (char_class set)) (insn_set Op.span set ∷ [])
  unfolding exec exec_match
  Sound-span set = (run, (refl, tt))
    where
      run : Runs bytes r place (star (char_class set)) (insn_set Op.span set ∷ [])
      run ip end i s ks o (get, e) m a =
          let done : Does bytes r s end ks (some (i + run_length set (drop i bytes))) =
            goes r (spans r _ set refl get a) (λ s' a'. ends bytes r place a' e) in
          rw (span_length set m) done
