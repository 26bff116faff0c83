-- ===== src/Pattern/Sound.antt =====
-- When code of src/pattern.c does in `vm_exec` what its pattern means, and that the code around the
-- parts of a pattern keeps this.
pub mod Repeat
pub mod Choice
pub mod Alternative
use libpeg.Prelude.{
  ℕ, zero, suc, ◌+◌, ◌%◌, ◌≤◌, ◌<◌, ◌≡◌, refl, sym, ◌∙◌, ap, Bool, true, false, List, [], ◌∷◌, ◌++◌,
  Option, none, some, get_elem?, length, drop, ◌==◌, arith, Bool-cases, inl, inr,
}
use libpeg.Prelude.Int.{ℤ, pos}
use mathlib.Core.Path.{subst}
use mathlib.Core.Bool.{true≢false}
use mathlib.Core.Option.{some-ne-none, some-injective}
use libpeg.Charset.Members.{AreBytes}
use libpeg.Charset
use libpeg.Charset.{Charset}
use libpeg.Input.Flat.{run_length}
use libpeg.Code.Op
use libpeg.Code.Insn.{Insn}
use libpeg.Machine.Stack.{Kind, btrack}
use libpeg.Machine.State.{Run, State, passes, byte_of}
use libpeg.Machine.Match.{exec_match}
use libpeg.Machine.Control.{exec_control}
use libpeg.Machine.Exec.{exec}
use libpeg.Machine.Runs.{At, Does, arrives, fails, steps, Does-then, Does-none, Does-catch, goes}
use libpeg.Machine.Effects.{
  byte-Goes, byte_fails, test-Goes, test_jumps, any-Goes, any_fails, jumps, chooses, commits,
  commits_back, fails_here, fails_two, spans, renews,
}
use libpeg.Pattern.Ast.{
  Pat, alt, seq, star, plus, optional, not_pat, and_pat, char_class, literal, dot, empty,
}
use libpeg.Pattern.Semantics.{
  Matches, nothing, dot_in, dot_out, class_in, class_out, literal_end, literal_in, literal_out,
  seq_in, seq_out, alt_left, alt_right, star_end, star_more, plus_in, plus_out, optional_in,
  optional_out, not_in, not_out, and_in, and_out,
}
use libpeg.Pattern.Ir.{
  PirOp, vm, Pir, insn_basic, insn_label, insn_jump, insn_u8, insn_set, insn_test_set,
  insn_test_char, skipped,
}
use libpeg.Pattern.Simplify.{Matcher, of_byte, of_set, other}
use libpeg.Pattern.Shapes.{matcher, star_code, not_code, and_code, alt_code, literal_code}
use libpeg.Pattern.Placed.{Slot, insn, slot, Placed, Placed-append}

module _ (bytes : List ℕ) (r : Run) (place : ℕ → ℕ) where
  -- The run of the code, wherever it is placed, ends as the pattern does, and fails where it fails.
  abbrev pub Runs : Pat → List Pir → Type 0
  Runs p code =
      (ip end i : ℕ) (s : State) (ks : List Kind) (o : Option ℕ)
      → Placed place r.prog ip code end
      → Matches bytes p i o
      → At bytes s ip i ks
      → Does bytes r s end ks o

  -- A pattern whose code begins with a test fails on other bytes, and goes on after it as the rest of
  -- the code does.
  abbrev pub Ahead : Pat → (ℕ → Bool) → List Pir → Type 0
  Ahead p test rest =
      (i : ℕ) (o : Option ℕ)
      → Matches bytes p i o
      → (passes test (get_elem? bytes i) ≡ false → o ≡ none)
        × (passes test (get_elem? bytes i) ≡ true
            → (ip end : ℕ) (s : State) (ks : List Kind) → Placed place r.prog ip rest end
            → At bytes s ip (i + 1) ks
            → Does bytes r s end ks o)

  -- Code begins with an instruction, and code that has none matches nothing.
  abbrev pub Tested : Pat → Matcher → List Pir → Type 0
  Tested p other rest = Unit
  Tested p (of_byte b) rest = (b < 256) × Ahead p (λ c. c == b) rest
  Tested p (of_set set) rest = Ahead p (Charset.has set) rest

  abbrev pub Begins : Pat → List Pir → Type 0
  Begins p [] = (i : ℕ) (o : Option ℕ) → Matches bytes p i o → o ≡ some i
  Begins p (x ∷ rest) = (skipped x ≡ false) × Tested p (matcher x) rest

  abbrev pub Sound : Pat → List Pir → Type 0
  Sound p code = Runs p code × Begins p code

pub mod_byte : (b : ℕ) → b < 256 → b % 256 ≡ b
mod_byte b h = omega arith

module _ (bytes : List ℕ) (r : Run) (place : ℕ → ℕ) where
  Tested-via :
      (p q : Pat) (rest : List Pir) (m : Matcher)
      → ((i : ℕ) (o : Option ℕ) → Matches bytes p i o → Matches bytes q i o)
      → Tested bytes r place q m rest
      → Tested bytes r place p m rest
  Tested-via p q rest other f a = a
  Tested-via p q rest (of_byte b) f (v, a) = (v, λ i o m. a i o (f i o m))
  Tested-via p q rest (of_set set) f a = λ i o m. a i o (f i o m)

  Begins-via :
      (p q : Pat) (code : List Pir)
      → ((i : ℕ) (o : Option ℕ) → Matches bytes p i o → Matches bytes q i o)
      → Begins bytes r place q code
      → Begins bytes r place p code
  Begins-via p q [] f b = λ i o m. b i o (f i o m)
  Begins-via p q (x ∷ rest) f b = (b.0, Tested-via p q rest (matcher x) f b.1)

  -- Code for a pattern that matches whatever this one does is code for this one.
  pub Sound-via :
      (p q : Pat) (code : List Pir)
      → ((i : ℕ) (o : Option ℕ) → Matches bytes p i o → Matches bytes q i o)
      → Sound bytes r place q code
      → Sound bytes r place p code
  Sound-via p q code f (g, b) =
      (λ ip end i s ks o h m a. g ip end i s ks o h (f i o m) a, Begins-via p q code f b)

  pub ends :
      {s : State} {ip end i : ℕ} {ks : List Kind}
      → At bytes s ip i ks
      → ip ≡ end
      → Does bytes r s end ks (some i)
  ends a e = arrives (record { reads = a.reads; ip = a.ip ∙ e; stack = a.stack })

  pub Sound-empty : Sound bytes r place empty []
  Sound-empty = (run, begin)
    where
      run : Runs bytes r place empty []
      run ip end i s ks o h nothing a = ends a h

      begin : Begins bytes r place empty []
      begin i o nothing = refl

  Ahead-set : (set : Charset) → Ahead bytes r place (char_class set) (Charset.has set) []
  Ahead-set set i o (class_in h) =
      (λ n. absurd (true≢false (sym h ∙ n)), λ _ ip end s ks p a. ends a p)
  Ahead-set set i o (class_out h) = (λ _. refl, λ n. absurd (true≢false (sym n ∙ h)))

  pub Sound-set : (set : Charset) → Sound bytes r place (char_class set) (insn_set Op.set set ∷ [])
  unfolding exec exec_match
  Sound-set set = (run, (refl, Ahead-set set))
    where
      run : Runs bytes r place (char_class set) (insn_set Op.set set ∷ [])
      run ip end i s ks o (get, e) (class_in h) a =
          goes r (byte-Goes r _ (Charset.has set) refl get a h) (λ s' a'. ends a' e)
      run ip end i s ks o (get, e) (class_out h) a =
          fails (byte_fails r _ (Charset.has set) refl get a h)

  pub Sound-dot : (n : ℕ) → Sound bytes r place (dot n) (insn_u8 Op.any (pos n) ∷ [])
  unfolding exec exec_match
  Sound-dot n = (run, (refl, tt))
    where
      run : Runs bytes r place (dot n) (insn_u8 Op.any (pos n) ∷ [])
      run ip end i s ks o (get, e) (dot_in h) a =
          goes r (any-Goes r _ n refl get a h) (λ s' a'. ends a' e)
      run ip end i s ks o (get, e) (dot_out h) a = fails (any_fails r _ n refl get a h)

  literal-Runs : (bs : List ℕ) → AreBytes bs → Runs bytes r place (literal bs) (literal_code bs)
  unfolding exec exec_match
  literal-Runs [] v ip end i s ks o h literal_end a = ends a h
  literal-Runs (b ∷ bs) (v, vs) ip end i s ks o (get, rest) (literal_in h m) a =
      goes r (byte-Goes r _ (λ c. c == b) (rw (mod_byte b v) refl) get a h)
        (λ s' a'. literal-Runs bs vs (ip + 1) end (i + 1) s' ks o rest m a')
  literal-Runs (b ∷ bs) (v, vs) ip end i s ks o (get, rest) (literal_out h) a =
      fails (byte_fails r _ (λ c. c == b) (rw (mod_byte b v) refl) get a h)

  literal-Ahead :
      (b : ℕ) (bs : List ℕ)
      → AreBytes bs
      → Ahead bytes r place (literal (b ∷ bs)) (λ c. c == b) (literal_code bs)
  literal-Ahead b bs vs i o (literal_in h m) = (
    λ n. absurd (true≢false (sym h ∙ n)),
    λ _ ip end s ks p a. literal-Runs bs vs ip end (i + 1) s ks o p m a,
  )
  literal-Ahead b bs vs i o (literal_out h) = (λ _. refl, λ n. absurd (true≢false (sym n ∙ h)))

  pub Sound-literal :
      (bs : List ℕ) → AreBytes bs → Sound bytes r place (literal bs) (literal_code bs)
  Sound-literal [] v = (literal-Runs [] v, λ i o m. begin i o m)
    where
      begin : Begins bytes r place (literal []) []
      begin i o literal_end = refl
  Sound-literal (b ∷ bs) (v, vs) =
      (literal-Runs (b ∷ bs) (v, vs), (refl, rw (mod_byte b v) (v, literal-Ahead b bs vs)))

  -- a sequence
  module _ (p q : Pat) where
    seq-Runs :
        (pc qc : List Pir)
        → Runs bytes r place p pc
        → Runs bytes r place q qc
        → Runs bytes r place (seq p q) (pc ++ qc)
    seq-Runs pc qc f g ip end i s ks o h (seq_in {j = j} m n) a =
        let (mid, hp, hq) = Placed-append place r.prog ip pc qc end h in
        Does-then r (f ip mid i s ks (some j) hp m a) (λ s' a'. g mid end j s' ks o hq n a')
    seq-Runs pc qc f g ip end i s ks o h (seq_out m) a =
        let (mid, hp, hq) = Placed-append place r.prog ip pc qc end h in
        Does-none r (f ip mid i s ks none hp m a)

    seq-Ahead :
        (rest qc : List Pir) (t : ℕ → Bool)
        → Ahead bytes r place p t rest
        → Runs bytes r place q qc
        → Ahead bytes r place (seq p q) t (rest ++ qc)
    seq-Ahead rest qc t f g i o (seq_in {j = j} m n) = (
      λ out. absurd (some-ne-none j ((f i (some j) m).0 out)),
      λ ok ip end s ks h a.
          let (mid, hp, hq) = Placed-append place r.prog ip rest qc end h in
          Does-then r ((f i (some j) m).1 ok ip mid s ks hp a)
            (λ s' a'. g mid end j s' ks o hq n a'),
    )
    seq-Ahead rest qc t f g i o (seq_out m) = (
      λ _. refl,
      λ ok ip end s ks h a.
          let (mid, hp, hq) = Placed-append place r.prog ip rest qc end h in
          Does-none r ((f i none m).1 ok ip mid s ks hp a),
    )

    seq-Tested :
        (rest qc : List Pir) (m : Matcher)
        → Tested bytes r place p m rest
        → Runs bytes r place q qc
        → Tested bytes r place (seq p q) m (rest ++ qc)
    seq-Tested rest qc other f g = tt
    seq-Tested rest qc (of_byte b) (v, f) g = (v, seq-Ahead rest qc (λ c. c == b) f g)
    seq-Tested rest qc (of_set set) f g = seq-Ahead rest qc (Charset.has set) f g

    seq_after_nothing :
        Begins bytes r place p []
        → (i : ℕ) (o : Option ℕ) → Matches bytes (seq p q) i o
        → Matches bytes q i o
    seq_after_nothing b i o (seq_in {j = j} m n) =
        subst (λ k. Matches bytes q k o) (some-injective j i (b i (some j) m)) n
    seq_after_nothing b i o (seq_out m) = absurd (some-ne-none i (sym (b i none m)))

    pub Sound-seq :
        (pc qc : List Pir)
        → Sound bytes r place p pc
        → Sound bytes r place q qc
        → Sound bytes r place (seq p q) (pc ++ qc)
    Sound-seq [] qc (f, b) (g, c) =
        (seq-Runs [] qc f g, Begins-via (seq p q) q qc (seq_after_nothing b) c)
    Sound-seq (x ∷ rest) qc (f, b) (g, c) =
        (seq-Runs (x ∷ rest) qc f g, (b.0, seq-Tested rest qc (matcher x) b.1 g))
