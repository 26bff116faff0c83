-- ===== src/Pattern/Merged.antt =====
-- The sets that `get_pat` of src/pattern.c makes of alternatives and of a negated set with what follows it.
use libpeg.Prelude.{
  ℕ, ◌<◌, ◌≡◌, inl, inr, refl, sym, ◌∙◌, Bool, true, ◌||◌, List, [], ◌∷◌, Option, some, ◌==◌, arith,
  Bool-cases, Option-cases,
}
use mathlib.Core.Path.{subst}
use mathlib.Core.Option.{some-ne-none, some-injective}
use libpeg.Charset
use libpeg.Charset.{Charset}
use libpeg.Charset.Words.{
  IsCharset, negate-IsCharset, sub-IsCharset, union-IsCharset, set-IsCharset,
}
use libpeg.Charset.Members.{AreBytes, has-negate, has-union, has-sub, has-set}
use libpeg.Pattern.Ast.{Pat, alt, seq, not_pat, char_class, literal, dot}
use libpeg.Pattern.Semantics.{Matches}
use libpeg.Pattern.Simplify.{
  single, Matcher, pat_matcher, combined, one_byte, is_any_byte, less_set, get_negated,
}
use libpeg.Pattern.Core.{solid, needs, needs-pos, Core}
use libpeg.Pattern.Views.{
  MatcherView, byte_view, set_view, other_view, matcher_view, is_any_byte_lem,
}
use libpeg.Pattern.OneByte.{
  OneByte, class_OneByte, byte_OneByte, dot_OneByte, join, less, has-single, single-IsCharset,
  retest,
}
use libpeg.Pattern.Simplified.{Simplified, same}

module _ (bytes : List ℕ) (v : AreBytes bytes) where
  -- a set in place of a matcher
  abbrev Stands : Pat → Charset → Type 0
  Stands p set =
      IsCharset set
      × ((i : ℕ) (o : Option ℕ) → Matches bytes p i o → Matches bytes (char_class set) i o)

  union_stands :
      (p q : Pat) (t u : ℕ → Bool) (x y : Charset)
      → OneByte bytes p t
      → OneByte bytes q u
      → IsCharset x
      → IsCharset y
      → ((c : ℕ) → c < 256 → (Charset.has x c || Charset.has y c) ≡ (t c || u c))
      → Stands (alt p q) (Charset.union x y)
  union_stands p q t u x y f g cx cy h = (
    union-IsCharset x y cx cy,
    join bytes v p q t u (Charset.union x y) f g (λ c l. has-union x y c l ∙ h c l),
  )

  pub combined_lem :
      {p q : Pat} {m n : Matcher} (set : Charset)
      → MatcherView p m
      → MatcherView q n
      → Core p
      → Core q
      → combined m n ≡ some set
      → Stands (alt p q) set
  combined_lem set (byte_view b) (set_view s) cp cq e =
      subst (λ x. Stands (alt (literal (b ∷ [])) (char_class s)) x) (some-injective _ _ e)
        (union_stands (literal (b ∷ [])) (char_class s) (λ c. c == b) (Charset.has s) s (single b)
          (byte_OneByte bytes b) (class_OneByte bytes s) cq (single-IsCharset b)
          (λ c l. rw (has-single b c cp.0 l) (ground arith)))
  combined_lem set (byte_view b) (byte_view d) cp cq e =
      subst (λ x. Stands (alt (literal (b ∷ [])) (literal (d ∷ []))) x) (some-injective _ _ e)
        (
          set-IsCharset (single b) d true (single-IsCharset b),
          join bytes v (literal (b ∷ [])) (literal (d ∷ [])) (λ c. c == b) (λ c. c == d) _
              (byte_OneByte bytes b) (byte_OneByte bytes d)
              (λ c l.
                has-set (single b) d c true cq.0 l ∙ rw (has-single b c cp.0 l) (ground arith)),
        )
  combined_lem set (set_view s) (set_view s') cp cq e =
      subst (λ x. Stands (alt (char_class s) (char_class s')) x) (some-injective _ _ e)
        (union_stands (char_class s) (char_class s') (Charset.has s) (Charset.has s') s s'
          (class_OneByte bytes s) (class_OneByte bytes s') cp cq (λ c l. refl))
  combined_lem set (set_view s) (byte_view d) cp cq e =
      subst (λ x. Stands (alt (char_class s) (literal (d ∷ []))) x) (some-injective _ _ e)
        (union_stands (char_class s) (literal (d ∷ [])) (Charset.has s) (λ c. c == d) s (single d)
          (class_OneByte bytes s) (byte_OneByte bytes d) cp (single-IsCharset d)
          (λ c l. rw (has-single d c cq.0 l) refl))
  combined_lem set (byte_view b) (other_view q) cp cq e = absurd (some-ne-none set (sym e))
  combined_lem set (set_view s) (other_view q) cp cq e = absurd (some-ne-none set (sym e))
  combined_lem set (other_view p) n cp cq e = absurd (some-ne-none set (sym e))

  -- the test of a matcher of one byte, by its set
  matcher_lem :
      {p : Pat} {m : Matcher} (set : Charset)
      → MatcherView p m
      → Core p
      → one_byte m ≡ some set
      → IsCharset set × OneByte bytes p (Charset.has set)
  matcher_lem set (byte_view b) c e =
      subst (λ x. IsCharset x × OneByte bytes (literal (b ∷ [])) (Charset.has x))
        (some-injective _ _ e)
        (
          single-IsCharset b,
          λ i o m.
              retest bytes v (λ x. x == b) (Charset.has (single b)) i
                (λ d l. sym (has-single b d c.0 l)) (byte_OneByte bytes b i o m),
        )
  matcher_lem set (set_view s) c e =
      subst (λ x. IsCharset x × OneByte bytes (char_class s) (Charset.has x)) (some-injective _ _ e)
        (c, class_OneByte bytes s)
  matcher_lem set (other_view p) c e = absurd (some-ne-none set (sym e))

  -- A negated set before a simplified pattern, where the whole is `w`.
  less_lem :
      (w q r : Pat) (set : Charset)
      → Core w
      → Core r
      → IsCharset set
      → OneByte bytes q (Charset.has set)
      → ((i : ℕ) (o : Option ℕ) → Matches bytes w i o → Matches bytes (seq (not_pat q) r) i o)
      → Simplified bytes w (less_set w set r)
  unfolding solid needs
  less_lem w q r set cw cr cs f m = elim (Bool-cases (is_any_byte r)) [
    | inl a ↦
        rw (a, less_set)
          (record {
            core = negate-IsCharset set;
            solid = λ h. refl;
            cheaper = needs-pos w;
            means = λ i o n.
                less bytes v q (dot 1) (Charset.has set) (λ c. true) (Charset.negate set) f
                  (dot_OneByte bytes) (λ c l. has-negate set c cs l ∙ ground arith) i o
                  (subst (λ x. Matches bytes (seq (not_pat q) x) i o) (is_any_byte_lem r a)
                    (m i o n));
          })
    | inr a ↦
        rw (a, less_set)
          (elim (Option-cases (one_byte (pat_matcher r))) [
            | inl e ↦ rw e (same bytes w cw)
            | inr (set', e) ↦
                let (cs', g) = matcher_lem set' (matcher_view r) cr e in
                rw e (record {
                  core = sub-IsCharset set' set cs';
                  solid = λ h. refl;
                  cheaper = needs-pos w;
                  means = λ i o n.
                      less bytes v q r (Charset.has set) (Charset.has set') (Charset.sub set' set) f
                        g (λ c l. has-sub set' set c cs l) i o (m i o n);
                })
          ])
  ]

  pub get_negated_lem :
      (w q r : Pat)
      → Core w
      → Core q
      → Core r
      → ((i : ℕ) (o : Option ℕ) → Matches bytes w i o → Matches bytes (seq (not_pat q) r) i o)
      → Simplified bytes w (get_negated w (some q) r)
  get_negated_lem w q r cw cq cr m = elim (Option-cases (one_byte (pat_matcher q))) [
    | inl e ↦ rw (e, get_negated) (same bytes w cw)
    | inr (set, e) ↦
        let (cs, f) = matcher_lem set (matcher_view q) cq e in
        rw (e, get_negated) (less_lem w q r set cw cr cs f m)
  ]
