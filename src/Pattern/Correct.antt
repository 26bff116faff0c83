-- ===== src/Pattern/Correct.antt =====
-- `compile_pat` of src/pattern.c makes code that the machine runs as the pattern means.
use libpeg.Prelude.{
  ℕ, zero, suc, ◌≤◌, ◌≡◌, refl, List, [], ◌∷◌, ◌++◌, Option, some, arith, Option-cases, inl, inr,
}
use libpeg.Charset.Members.{AreBytes}
use libpeg.Code.Op
use libpeg.Machine.State.{Run}
use libpeg.Machine.Exec.{start}
use libpeg.Pattern.Ast.{
  Pat, alt, seq, star, plus, optional, not_pat, and_pat, char_class, literal, dot, empty, search,
  cap, memo, check, grammar, repeat, nonterm, inlined, error, error_or, empty_op,
}
use libpeg.Pattern.Simplify.{Matcher, pat_matcher, combined, combine, get_pat}
use libpeg.Pattern.Ir.{Pir, Ctx, fresh, insn_set, insn_test_set, insn_test_char, insn_label}
use libpeg.Pattern.Shapes.{alt_code, star_code, not_code, and_code}
use libpeg.Pattern.Compile.{
  Compiler, compile_alt, compile_seq, compile_star, compile_plus, compile_optional, compile_pat,
}
use libpeg.Pattern.Sound.{
  Sound, Sound-via, Sound-seq, Sound-empty, Sound-set, Sound-dot, Sound-literal,
}
use libpeg.Pattern.Sound.Repeat.{Sound-star, Sound-plus, Sound-span}
use libpeg.Pattern.Sound.Choice.{Sound-not, Sound-and, Sound-option_class, Sound-option_byte}
use libpeg.Pattern.Sound.Alternative.{Sound-alt}
use libpeg.Pattern.Core.{needs, Core, TopCore, top_needs, top_needs-le, top_needs-pos, Core-TopCore}
use libpeg.Pattern.Views.{MatcherView, byte_view, set_view, other_view, matcher_view, memoized_lem}
use libpeg.Pattern.Simplified.{
  Simplified, alt_means, seq_means, star_means, plus_means, optional_means, optional_alt, not_means,
  and_means,
}
use libpeg.Pattern.Merged.{combined_lem}
use libpeg.Pattern.Kept.{get_pat-Simplified}

module _ (bytes : List ℕ) (v : AreBytes bytes) where
  -- a compilation that returns code for a pattern
  abbrev pub Makes : Pat → Option (List Pir × Ctx) → Type 0
  Makes p result =
      (code : List Pir) × (c : Ctx) × (result ≡ some (code, c))
      × ((r : Run) (place : ℕ → ℕ) → Sound bytes r place p code)

  simple : (p : Pat) → Core p → Simplified bytes p (get_pat p)
  simple p c = get_pat-Simplified bytes v p c

  alt-Makes :
      (comp : Compiler) (c : Ctx) (p q p' q' : Pat)
      → Simplified bytes p p'
      → Simplified bytes q q'
      → ((c' : Ctx) → Makes p' (comp c' p'))
      → ((c' : Ctx) → Makes q' (comp c' q'))
      → Makes (alt p q) (compile_alt comp c p' q')
  unfolding compile_alt combine
  alt-Makes comp c p q p' q' z y f g =
      elim (Option-cases (combined (pat_matcher p') (pat_matcher q'))) [
        | inr (set, e) ↦
            let (cs, h) =
              combined_lem bytes v set (matcher_view p') (matcher_view q') z.core y.core e in
            (
              insn_set Op.set set ∷ [],
              c,
              rw (e, compile_alt) refl,
              λ r place.
                  Sound-via bytes r place (alt p q) (char_class set) (insn_set Op.set set ∷ [])
                    (λ i o m. h i o (alt_means bytes z y i o m)) (Sound-set bytes r place set),
            )
        | inl e ↦
            let (lc, c1, el, sl) = f c in
            let (rc, c2, er, sr) = g c1 in
            (
              alt_code lc rc c2.nlabels,
              fresh 2 c2,
              rw (e, el, er, compile_alt) refl,
              λ r place.
                  Sound-via bytes r place (alt p q) (alt p' q') (alt_code lc rc c2.nlabels)
                    (alt_means bytes z y)
                    (Sound-alt bytes r place p' q' lc rc c2.nlabels (sl r place) (sr r place)),
            )
      ]

  seq-Makes :
      (comp : Compiler) (c : Ctx) (p q p' q' : Pat)
      → Simplified bytes p p'
      → Simplified bytes q q'
      → ((c' : Ctx) → Makes p' (comp c' p'))
      → ((c' : Ctx) → Makes q' (comp c' q'))
      → Makes (seq p q) (compile_seq comp c p' q')
  unfolding compile_seq
  seq-Makes comp c p q p' q' z y f g =
      let (lc, c1, el, sl) = f c in
      let (rc, c2, er, sr) = g c1 in
      (
        lc ++ rc,
        c2,
        rw (el, er, compile_seq) refl,
        λ r place.
            Sound-via bytes r place (seq p q) (seq p' q') (lc ++ rc) (seq_means bytes z y)
              (Sound-seq bytes r place p' q' lc rc (sl r place) (sr r place)),
      )

  star-Core :
      (comp : Compiler) (c : Ctx) (q : Pat) (m : Matcher)
      → pat_matcher q ≡ m
      → MatcherView q m
      → Core q
      → ((c' : Ctx) → Makes q (comp c' q))
      → Makes (star q) (compile_star comp c q)
  unfolding compile_star
  star-Core comp c _ _ e (set_view set) k f =
      (insn_set Op.span set ∷ [], c, refl, λ r place. Sound-span bytes r place set)
  star-Core comp c _ _ e (byte_view b) k f =
      let (sub, c1, es, s) = f c in
      (
        star_code sub c1.nlabels,
        fresh 2 c1,
        rw es refl,
        λ r place. Sound-star bytes r place (literal (b ∷ [])) sub c1.nlabels (s r place),
      )
  star-Core comp c _ _ e (other_view q) k f =
      let (sub, c1, es, s) = f c in
      (
        star_code sub c1.nlabels,
        fresh 2 c1,
        rw (e, memoized_lem q k, es, compile_star) refl,
        λ r place. Sound-star bytes r place q sub c1.nlabels (s r place),
      )

  star-Makes :
      (comp : Compiler) (c : Ctx) (p q : Pat)
      → Simplified bytes p q
      → ((c' : Ctx) → Makes q (comp c' q))
      → Makes (star p) (compile_star comp c q)
  star-Makes comp c p q z f =
      let (code, c', e, s) = star-Core comp c q (pat_matcher q) refl (matcher_view q) z.core f in
      (
        code,
        c',
        e,
        λ r place.
            Sound-via bytes r place (star p) (star q) code (λ i o m. star_means bytes z m)
              (s r place),
      )

  optional-Core :
      (comp : Compiler) (c : Ctx) (q : Pat) (m : Matcher)
      → pat_matcher q ≡ m
      → MatcherView q m
      → Core q
      → ((c' : Ctx) → Makes (alt q empty) (comp c' (alt q empty)))
      → Makes (optional q) (compile_optional comp c q)
  unfolding compile_optional
  optional-Core comp c _ _ e (set_view set) k f = (
    insn_test_set Op.test_set_nochoice set c.nlabels ∷ insn_label c.nlabels ∷ [],
    fresh 1 c,
    refl,
    λ r place. Sound-option_class bytes r place set c.nlabels,
  )
  optional-Core comp c _ _ e (byte_view b) k f = (
    insn_test_char Op.test_char_nochoice b c.nlabels ∷ insn_label c.nlabels ∷ [],
    fresh 1 c,
    refl,
    λ r place. Sound-option_byte bytes r place b c.nlabels k.0,
  )
  optional-Core comp c _ _ e (other_view q) k f =
      let (sub, c1, es, s) = f c in
      (
        sub,
        c1,
        rw (e, es, compile_optional) refl,
        λ r place.
            Sound-via bytes r place (optional q) (alt q empty) sub (optional_alt bytes q)
              (s r place),
      )

  optional-Makes :
      (comp : Compiler) (c : Ctx) (p q : Pat)
      → Simplified bytes p q
      → ((c' : Ctx) → Makes (alt q empty) (comp c' (alt q empty)))
      → Makes (optional p) (compile_optional comp c q)
  optional-Makes comp c p q z f =
      let (code, c', e, s) =
        optional-Core comp c q (pat_matcher q) refl (matcher_view q) z.core f in
      (
        code,
        c',
        e,
        λ r place.
            Sound-via bytes r place (optional p) (optional q) code (optional_means bytes z)
              (s r place),
      )

  plus-Makes :
      (comp : Compiler) (c : Ctx) (p q : Pat)
      → Simplified bytes p q
      → ((c' : Ctx) → Makes (star q) (comp c' (star q)))
      → ((c' : Ctx) → Makes q (comp c' q))
      → Makes (plus p) (compile_plus comp c q)
  unfolding compile_plus
  plus-Makes comp c p q z f g =
      let (rep, c1, er, sr) = f c in
      let (sub, c2, es, ss) = g c1 in
      (
        sub ++ rep,
        c2,
        rw (er, es, compile_plus) refl,
        λ r place.
            Sound-via bytes r place (plus p) (plus q) (sub ++ rep) (plus_means bytes z)
              (Sound-plus bytes r place q sub rep (ss r place) (sr r place)),
      )

  -- Enough fuel compiles a pattern.
  pub compiles :
      (fuel : ℕ) (c : Ctx) (p : Pat)
      → TopCore p
      → top_needs p ≤ fuel
      → Makes p (compile_pat fuel c p)
  unfolding compile_pat needs top_needs
  compiles zero c p k h = absurd (omega (arith, h, top_needs-pos p))
  compiles (suc fuel) c (alt p q) k h =
      let z = simple p k.0 in
      let y = simple q k.1 in
      alt-Makes (compile_pat fuel) c p q (get_pat p) (get_pat q) z y
        (λ c'.
          compiles fuel c' (get_pat p) (Core-TopCore (get_pat p) z.core)
            (omega (arith, h, z.cheaper, top_needs-le (get_pat p))))
        (λ c'.
          compiles fuel c' (get_pat q) (Core-TopCore (get_pat q) y.core)
            (omega (arith, h, y.cheaper, top_needs-le (get_pat q))))
  compiles (suc fuel) c (seq p q) k h =
      let z = simple p k.0 in
      let y = simple q k.1 in
      seq-Makes (compile_pat fuel) c p q (get_pat p) (get_pat q) z y
        (λ c'.
          compiles fuel c' (get_pat p) (Core-TopCore (get_pat p) z.core)
            (omega (arith, h, z.cheaper, top_needs-le (get_pat p))))
        (λ c'.
          compiles fuel c' (get_pat q) (Core-TopCore (get_pat q) y.core)
            (omega (arith, h, y.cheaper, top_needs-le (get_pat q))))
  compiles (suc fuel) c (star p) k h =
      let z = simple p k in
      star-Makes (compile_pat fuel) c p (get_pat p) z (λ c'.
        compiles fuel c' (get_pat p) (Core-TopCore (get_pat p) z.core)
          (omega (arith, h, z.cheaper, top_needs-le (get_pat p))))
  compiles (suc fuel) c (plus p) k h =
      let z = simple p k in
      plus-Makes (compile_pat fuel) c p (get_pat p) z
        (λ c'. compiles fuel c' (star (get_pat p)) z.core (omega (arith, h, z.cheaper)))
        (λ c'.
          compiles fuel c' (get_pat p) (Core-TopCore (get_pat p) z.core)
            (omega (arith, h, z.cheaper, top_needs-le (get_pat p))))
  compiles (suc fuel) c (optional p) k h =
      let z = simple p k in
      optional-Makes (compile_pat fuel) c p (get_pat p) z
        (λ c'. compiles fuel c' (alt (get_pat p) empty) (z.core, tt) (omega (arith, h, z.cheaper)))
  compiles (suc fuel) c (not_pat p) k h =
      let z = simple p k in
      let (sub, c1, e, s) =
        compiles fuel c (get_pat p) (Core-TopCore (get_pat p) z.core)
          (omega (arith, h, z.cheaper, top_needs-le (get_pat p))) in
      (
        not_code sub c1.nlabels,
        fresh 1 c1,
        rw e refl,
        λ r place.
            Sound-via bytes r place (not_pat p) (not_pat (get_pat p)) (not_code sub c1.nlabels)
              (not_means bytes z) (Sound-not bytes r place (get_pat p) sub c1.nlabels (s r place)),
      )
  compiles (suc fuel) c (and_pat p) k h =
      let z = simple p k in
      let (sub, c1, e, s) =
        compiles fuel c (get_pat p) (Core-TopCore (get_pat p) z.core)
          (omega (arith, h, z.cheaper, top_needs-le (get_pat p))) in
      (
        and_code sub c1.nlabels,
        fresh 2 c1,
        rw e refl,
        λ r place.
            Sound-via bytes r place (and_pat p) (and_pat (get_pat p)) (and_code sub c1.nlabels)
              (and_means bytes z) (Sound-and bytes r place (get_pat p) sub c1.nlabels (s r place)),
      )
  compiles (suc fuel) c (dot n) k h = (_, c, refl, λ r place. Sound-dot bytes r place n)
  compiles (suc fuel) c (literal bs) k h = (_, c, refl, λ r place. Sound-literal bytes r place bs k)
  compiles (suc fuel) c (char_class set) k h = (_, c, refl, λ r place. Sound-set bytes r place set)
  compiles (suc fuel) c empty k h = (_, c, refl, λ r place. Sound-empty bytes r place)
  compiles (suc fuel) c (search p) k h = absurd k
  compiles (suc fuel) c (cap p id) k h = absurd k
  compiles (suc fuel) c (memo p id) k h = absurd k
  compiles (suc fuel) c (check p f id flag) k h = absurd k
  compiles (suc fuel) c (grammar start ds) k h = absurd k
  compiles (suc fuel) c (repeat p n) k h = absurd k
  compiles (suc fuel) c (nonterm name) k h = absurd k
  compiles (suc fuel) c (inlined name p) k h = absurd k
  compiles (suc fuel) c (error msg) k h = absurd k
  compiles (suc fuel) c (error_or msg p) k h = absurd k
  compiles (suc fuel) c (empty_op op) k h = absurd k
