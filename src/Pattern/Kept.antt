-- ===== src/Pattern/Kept.antt =====
-- `get_pat` of src/pattern.c keeps the meaning of a pattern.
use libpeg.Prelude.{
  ℕ, zero, suc, ◌+◌, ◌≤◌, ◌≡◌, inl, inr, refl, sym, true, ◌||◌, List, Option, none, some, arith,
  Bool-cases, Option-cases,
}
use mathlib.Core.Path.{subst}
use mathlib.Core.Bool.{true≢false}
use mathlib.Core.Option.{some-ne-none}
use libpeg.Charset.Members.{AreBytes}
use libpeg.Pattern.Ast.{
  Pat, alt, seq, star, plus, optional, not_pat, and_pat, char_class, literal, dot, empty, nodes,
  search, cap, memo, check, grammar, repeat, nonterm, inlined, error, error_or, empty_op,
}
use libpeg.Pattern.Semantics.{
  Matches, alt_left, alt_right, seq_in, seq_out, star_end, star_more, optional_in, optional_out,
  nothing,
}
use libpeg.Pattern.Simplify.{
  pat_matcher, combined, combine, is_empty, is_star, negated, get_alt, get_optional, get_negated,
  get_seq, get_pat_loop, get_pat,
}
use libpeg.Pattern.Core.{solid, needs, needs-pos, Core}
use libpeg.Pattern.Views.{matcher_view, is_empty_lem, is_star_lem, negated_lem}
use libpeg.Pattern.Simplified.{Simplified, same, or_solid, seq_means, alt_means}
use libpeg.Pattern.Merged.{get_negated_lem, combined_lem}

module _ (bytes : List ℕ) (v : AreBytes bytes) where
  seq_empty :
      (p : Pat) {i : ℕ} {o : Option ℕ} → Matches bytes (seq p empty) i o → Matches bytes p i o
  seq_empty p (seq_in m nothing) = m
  seq_empty p (seq_out m) = m

  empty_seq :
      (p : Pat) {i : ℕ} {o : Option ℕ} → Matches bytes (seq empty p) i o → Matches bytes p i o
  empty_seq p (seq_in nothing m) = m
  empty_seq p (seq_out m) = elim m [ ]

  get_seq_lem :
      (w l r : Pat)
      → Core w
      → Core l
      → Core r
      → (solid w ≡ true → (solid l || solid r) ≡ true)
      → needs l + needs r + 1 ≤ needs w
      → ((i : ℕ) (o : Option ℕ) → Matches bytes w i o → Matches bytes (seq l r) i o)
      → Simplified bytes w (get_seq w l r)
  unfolding solid needs
  get_seq_lem w l r cw cl cr so le m = elim (Bool-cases (is_empty r)) [
    | inl e ↦
        let e' = is_empty_lem r e in
        rw (e, get_seq)
          (record {
            core = cl;
            solid = λ h. let k : (solid l || solid empty) ≡ true = rw e' at so h in ground arith;
            cheaper = omega (arith, le);
            means = λ i o n. seq_empty l (subst (λ x. Matches bytes (seq l x) i o) e' (m i o n));
          })
    | inr e ↦
        rw (e, get_seq)
          (elim (Bool-cases (is_empty l)) [
            | inl d ↦
                let d' = is_empty_lem l d in
                rw d (record {
                  core = cr;
                  solid = λ h. let k : (solid empty || solid r) ≡ true = rw d' at so h in k;
                  cheaper = omega (arith, le);
                  means =
                      λ i o n. empty_seq r (subst (λ x. Matches bytes (seq x r) i o) d' (m i o n));
                })
            | inr d ↦ rw d (elim (Option-cases (negated l)) [
              | inl f ↦ rw (f, get_negated) (same bytes w cw)
              | inr (q, f) ↦
                  let f' = negated_lem l f in
                  rw f (
                    get_negated_lem bytes v w q r cw (subst Core f' cl) cr
                      (λ i o n. subst (λ x. Matches bytes (seq x r) i o) f' (m i o n)))
            ])
          ])
  ]

  star_matches :
      (p : Pat) {i : ℕ} {o : Option ℕ} → Matches bytes (star p) i o → (j : ℕ) × (o ≡ some j)
  star_matches p (star_end {i = i} m) = (i, refl)
  star_matches p (star_more m n) = star_matches p n

  get_optional_lem :
      (l q : Pat)
      → Core l
      → Simplified bytes l q
      → Simplified bytes (optional l) (get_optional (optional l) q)
  unfolding solid needs
  get_optional_lem l q c z = elim (Bool-cases (is_star q)) [
    | inr e ↦ rw (e, get_optional) (same bytes (optional l) c)
    | inl e ↦
        let (p, e') = is_star_lem q e in
        rw (e, get_optional)
          (record {
            core = z.core;
            solid = λ h. rw e' refl;
            cheaper = omega (arith, z.cheaper);
            means = λ i o n. option p e' n;
          })
  ]
    where
      option :
          (p : Pat)
          → q ≡ star p
          → {i : ℕ} {o : Option ℕ} → Matches bytes (optional l) i o
          → Matches bytes q i o
      option p e {i = i} (optional_in {j = j} n) = z.means i (some j) n
      option p e {i = i} (optional_out n) = absurd (
          some-ne-none _
            (sym (star_matches p (subst (λ x. Matches bytes x i none) e (z.means i none n))).1))

  alt_empty :
      (p : Pat) {i : ℕ} {o : Option ℕ}
      → Matches bytes (alt p empty) i o
      → Matches bytes (optional p) i o
  alt_empty p (alt_left m) = optional_in m
  alt_empty p (alt_right m nothing) = optional_out m

  get_alt_lem :
      (w l r : Pat) (opt : Pat → Pat)
      → Core w
      → Core l
      → Core r
      → solid l ≡ true
      → needs l + needs r + 3 ≤ needs w
      → Simplified bytes (optional l) (opt l)
      → ((i : ℕ) (o : Option ℕ) → Matches bytes w i o → Matches bytes (alt l r) i o)
      → Simplified bytes w (get_alt opt w l r)
  unfolding solid combine needs
  get_alt_lem w l r opt cw cl cr so le z m = elim (Bool-cases (is_empty l)) [
    | inl e ↦
        let k : solid empty ≡ true = rw (is_empty_lem l e) at so in absurd (true≢false (sym k))
    | inr e ↦
        rw (e, get_alt)
          (elim (Bool-cases (is_empty r)) [
            | inl d ↦ rw d (record {
              core = z.core;
              solid = λ h. z.solid refl;
              cheaper = omega (arith, z.cheaper, le);
              means = λ i o n. z.means i o (
                  alt_empty l
                    (subst (λ x. Matches bytes (alt l x) i o) (is_empty_lem r d) (m i o n)));
            })
            | inr d ↦ rw d (elim (Option-cases (combined (pat_matcher l) (pat_matcher r))) [
              | inl f ↦ rw f (same bytes w cw)
              | inr (set, f) ↦
                  let (cs, g) =
                    combined_lem bytes v set (matcher_view l) (matcher_view r) cl cr f in
                  rw f (record {
                    core = cs;
                    solid = λ h. refl;
                    cheaper = needs-pos w;
                    means = λ i o n. g i o (m i o n);
                  })
            ])
          ])
  ]

  simplifies : (fuel : ℕ) (p : Pat) → Core p → Simplified bytes p (get_pat_loop fuel p)
  unfolding get_pat_loop solid needs
  simplifies zero p c = same bytes p c
  simplifies (suc fuel) (alt l r) c =
      let z = simplifies fuel l c.0 in
      let y = simplifies fuel r c.1 in
      get_alt_lem (alt l r) (get_pat_loop fuel l) (get_pat_loop fuel r)
        (λ q. get_optional (optional q) (get_pat_loop fuel q)) c z.core y.core (z.solid c.2)
        (omega (arith, z.cheaper, y.cheaper))
        (get_optional_lem (get_pat_loop fuel l) _ z.core
          (simplifies fuel (get_pat_loop fuel l) z.core))
        (alt_means bytes z y)
  simplifies (suc fuel) (seq l r) c =
      let z = simplifies fuel l c.0 in
      let y = simplifies fuel r c.1 in
      get_seq_lem (seq l r) (get_pat_loop fuel l) (get_pat_loop fuel r) c z.core y.core
        (or_solid bytes z y) (omega (arith, z.cheaper, y.cheaper)) (seq_means bytes z y)
  simplifies (suc fuel) (optional p) c =
      get_optional_lem p (get_pat_loop fuel p) c (simplifies fuel p c)
  simplifies (suc fuel) (star p) c = same bytes (star p) c
  simplifies (suc fuel) (plus p) c = same bytes (plus p) c
  simplifies (suc fuel) (not_pat p) c = same bytes (not_pat p) c
  simplifies (suc fuel) (and_pat p) c = same bytes (and_pat p) c
  simplifies (suc fuel) (dot n) c = same bytes (dot n) c
  simplifies (suc fuel) (literal bs) c = same bytes (literal bs) c
  simplifies (suc fuel) (char_class set) c = same bytes (char_class set) c
  simplifies (suc fuel) empty c = same bytes empty c
  simplifies (suc fuel) (search p) c = absurd c
  simplifies (suc fuel) (cap p id) c = absurd c
  simplifies (suc fuel) (memo p id) c = absurd c
  simplifies (suc fuel) (check p f id flag) c = absurd c
  simplifies (suc fuel) (grammar start ds) c = absurd c
  simplifies (suc fuel) (repeat p n) c = absurd c
  simplifies (suc fuel) (nonterm name) c = absurd c
  simplifies (suc fuel) (inlined name p) c = absurd c
  simplifies (suc fuel) (error msg) c = absurd c
  simplifies (suc fuel) (error_or msg p) c = absurd c
  simplifies (suc fuel) (empty_op op) c = absurd c

-- `get_pat` of a pattern with no empty left alternative matches whatever the pattern does, and fails
-- where it fails, over any bytes.
pub get_pat-Simplified :
    (bytes : List ℕ) → AreBytes bytes → (p : Pat) → Core p → Simplified bytes p (get_pat p)
unfolding get_pat
get_pat-Simplified bytes v p c = simplifies bytes v (nodes p) p c
