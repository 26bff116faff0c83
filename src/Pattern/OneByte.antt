-- ===== src/Pattern/OneByte.antt =====
-- Patterns that match one byte, and the sets that `combine` and `get_pat` of src/pattern.c make of them.
use libpeg.Prelude.{
  ℕ, zero, suc, ◌+◌, ◌≤◌, ◌<◌, ◌≡◌, ◌⊎◌, inl, inr, refl, sym, ◌∙◌, Bool, true, false, not, ◌&&◌,
  ◌||◌, List, [], ◌∷◌, Option, none, some, get_elem?, length, ◌==◌, arith,
}
use mathlib.Core.Option.{some-ne-none}
use libpeg.Charset
use libpeg.Charset.{Charset}
use libpeg.Charset.Words.{IsCharset, fill_loop-IsCharset, empty-IsCharset}
use libpeg.Charset.Members.{AreBytes, has-fill, contains}
use libpeg.Machine.State.{passes}
use libpeg.Pattern.Ast.{Pat, alt, seq, not_pat, char_class, literal, dot}
use libpeg.Pattern.Semantics.{
  Matches, dot_in, dot_out, class_in, class_out, literal_end, literal_in, literal_out, seq_in,
  seq_out, alt_left, alt_right, not_in, not_out,
}
use libpeg.Pattern.Simplify.{single}

agree :
    (f g : ℕ → Bool) (bytes : List ℕ) (i : ℕ)
    → ((c : ℕ) → c < 256 → f c ≡ g c)
    → AreBytes bytes
    → passes f (get_elem? bytes i) ≡ passes g (get_elem? bytes i)
agree f g [] i h v = refl
agree f g (b ∷ bs) zero h v = h b v.0
agree f g (b ∷ bs) (suc i) h v = agree f g bs i h v.1

passes-true :
    (bytes : List ℕ) (i : ℕ) → i < length bytes → passes (λ c. true) (get_elem? bytes i) ≡ true
passes-true [] i h = elim h [ ]
passes-true (b ∷ bs) zero h = refl
passes-true (b ∷ bs) (suc i) h = passes-true bs i (omega arith)

passes_past :
    (f : ℕ → Bool) (bytes : List ℕ) (i : ℕ)
    → length bytes ≤ i
    → passes f (get_elem? bytes i) ≡ false
passes_past f [] i h = refl
passes_past f (b ∷ bs) zero h = elim h [ ]
passes_past f (b ∷ bs) (suc i) h = passes_past f bs i (omega arith)

pub has-single : (b c : ℕ) → b < 256 → c < 256 → Charset.has (single b) c ≡ (c == b)
unfolding contains
has-single b c v h = has-fill (b ∷ []) c (v, tt) h ∙ ground arith

pub single-IsCharset : (b : ℕ) → IsCharset (single b)
unfolding Charset.fill
single-IsCharset b = fill_loop-IsCharset (b ∷ []) Charset.empty empty-IsCharset

passes_or :
    (t u : ℕ → Bool) (x : Option ℕ) → passes (λ c. t c || u c) x ≡ (passes t x || passes u x)
passes_or t u none = refl
passes_or t u (some c) = refl

passes_without :
    (t u : ℕ → Bool) (x : Option ℕ)
    → passes (λ c. u c && not (t c)) x ≡ (passes u x && not (passes t x))
passes_without t u none = refl
passes_without t u (some c) = refl

module _ (bytes : List ℕ) where
  -- a pattern that matches one byte, by a test
  abbrev pub OneByte : Pat → (ℕ → Bool) → Type 0
  OneByte p test =
      (i : ℕ) (o : Option ℕ)
      → Matches bytes p i o
      → ((passes test (get_elem? bytes i) ≡ true) × (o ≡ some (i + 1)))
        ⊎ ((passes test (get_elem? bytes i) ≡ false) × (o ≡ none))

  pub class_OneByte : (set : Charset) → OneByte (char_class set) (Charset.has set)
  class_OneByte set i o (class_in h) = inl (h, refl)
  class_OneByte set i o (class_out h) = inr (h, refl)

  pub byte_OneByte : (b : ℕ) → OneByte (literal (b ∷ [])) (λ c. c == b)
  byte_OneByte b i o (literal_in h literal_end) = inl (h, refl)
  byte_OneByte b i o (literal_out h) = inr (h, refl)

  pub dot_OneByte : OneByte (dot 1) (λ c. true)
  dot_OneByte i o (dot_in h) = inl (passes-true bytes i (omega arith), refl)
  dot_OneByte i o (dot_out h) = inr (passes_past (λ c. true) bytes i (omega arith), refl)

  class_of :
      AreBytes bytes
      → (set : Charset) (test : ℕ → Bool) {i : ℕ} {o : Option ℕ}
      → ((c : ℕ) → c < 256 → Charset.has set c ≡ test c)
      → ((passes test (get_elem? bytes i) ≡ true) × (o ≡ some (i + 1)))
        ⊎ ((passes test (get_elem? bytes i) ≡ false) × (o ≡ none))
      → Matches bytes (char_class set) i o
  class_of v set test {i = i} h (inl (ok, e)) =
      rw e (class_in (agree (Charset.has set) test bytes i h v ∙ ok))
  class_of v set test {i = i} h (inr (out, e)) =
      rw e (class_out (agree (Charset.has set) test bytes i h v ∙ out))

  -- two alternatives of one byte are a set
  pub join :
      AreBytes bytes
      → (p q : Pat) (t u : ℕ → Bool) (set : Charset) → OneByte p t
      → OneByte q u
      → ((c : ℕ) → c < 256 → Charset.has set c ≡ (t c || u c))
      → (i : ℕ) (o : Option ℕ) → Matches bytes (alt p q) i o
      → Matches bytes (char_class set) i o
  join v p q t u set f g h i o (alt_left {j = j} m) =
      class_of v set (λ c. t c || u c) h
        (elim (f i (some j) m) [
          | inl (ok, e) ↦ inl (passes_or t u (get_elem? bytes i) ∙ rw ok refl, e)
          | inr (out, e) ↦ absurd (some-ne-none j e)
        ])
  join v p q t u set f g h i o (alt_right m n) =
      class_of v set (λ c. t c || u c) h
        (elim (f i none m) [
          | inl (ok, e) ↦ absurd (some-ne-none (i + 1) (sym e))
          | inr (out, e) ↦ elim (g i o n) [
            | inl (ok, e') ↦ inl (passes_or t u (get_elem? bytes i) ∙ rw (out, ok) refl, e')
            | inr (out', e') ↦ inr (passes_or t u (get_elem? bytes i) ∙ rw (out, out') refl, e')
          ]
        ])

  -- a negated byte before a byte is a set
  pub less :
      AreBytes bytes
      → (p q : Pat) (t u : ℕ → Bool) (set : Charset) → OneByte p t
      → OneByte q u
      → ((c : ℕ) → c < 256 → Charset.has set c ≡ (u c && not (t c)))
      → (i : ℕ) (o : Option ℕ) → Matches bytes (seq (not_pat p) q) i o
      → Matches bytes (char_class set) i o
  less v p q t u set f g h i o (seq_in (not_out m) n) =
      class_of v set (λ c. u c && not (t c)) h
        (elim (f i none m) [
          | inl (ok, e) ↦ absurd (some-ne-none (i + 1) (sym e))
          | inr (out, e) ↦ elim (g i o n) [
            | inl (ok, e') ↦ inl (passes_without t u (get_elem? bytes i) ∙ rw (out, ok) refl, e')
            | inr (out', e') ↦
                inr (passes_without t u (get_elem? bytes i) ∙ rw (out, out') refl, e')
          ]
        ])
  less v p q t u set f g h i o (seq_out (not_in {j = j} m)) =
      class_of v set (λ c. u c && not (t c)) h
        (elim (f i (some j) m) [
          | inl (ok, e) ↦ inr (passes_without t u (get_elem? bytes i) ∙ rw ok (ground arith), refl)
          | inr (out, e) ↦ absurd (some-ne-none j e)
        ])

  pub retest :
      AreBytes bytes
      → (t u : ℕ → Bool) (i : ℕ) {o : Option ℕ} → ((c : ℕ) → c < 256 → t c ≡ u c)
      → ((passes t (get_elem? bytes i) ≡ true) × (o ≡ some (i + 1)))
        ⊎ ((passes t (get_elem? bytes i) ≡ false) × (o ≡ none))
      → ((passes u (get_elem? bytes i) ≡ true) × (o ≡ some (i + 1)))
        ⊎ ((passes u (get_elem? bytes i) ≡ false) × (o ≡ none))
  retest v t u i h (inl (ok, e)) = inl (sym (agree t u bytes i h v) ∙ ok, e)
  retest v t u i h (inr (out, e)) = inr (sym (agree t u bytes i h v) ∙ out, e)
