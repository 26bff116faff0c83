-- ===== src/Pattern/Simplified.antt =====
-- A pattern that `get_pat` of src/pattern.c may put in the place of another, and the patterns that have it as a part.
use libpeg.Prelude.{
  ℕ, ◌≤◌, ◌≡◌, inl, inr, refl, true, ◌||◌, List, Option, none, some, arith, Bool-cases,
}
use libpeg.Pattern.Ast.{Pat, alt, seq, star, plus, optional, not_pat, and_pat, empty}
use libpeg.Pattern.Semantics.{
  Matches, alt_left, alt_right, seq_in, seq_out, star_end, star_more, plus_in, plus_out,
  optional_in, optional_out, not_in, not_out, and_in, and_out, nothing,
}
use libpeg.Pattern.Core.{solid, needs, Core}

module _ (bytes : List ℕ) where
  -- A simplified pattern matches what the pattern does.
  pub record Simplified (p q : Pat) : Type 0 where
    pub core : Core q
    pub solid : solid p ≡ true → solid q ≡ true
    pub cheaper : needs q ≤ needs p
    pub means : (i : ℕ) (o : Option ℕ) → Matches bytes p i o → Matches bytes q i o

module _ (bytes : List ℕ) where
  pub same : (p : Pat) → Core p → Simplified bytes p p
  same p c = record { core = c; solid = λ h. h; cheaper = omega arith; means = λ i o m. m }

  pub seq_means :
      {l l' r r' : Pat}
      → Simplified bytes l l'
      → Simplified bytes r r'
      → (i : ℕ) (o : Option ℕ) → Matches bytes (seq l r) i o
      → Matches bytes (seq l' r') i o
  seq_means z y i o (seq_in {j = j} m n) = seq_in (z.means i (some j) m) (y.means j o n)
  seq_means z y i o (seq_out m) = seq_out (z.means i none m)

  pub alt_means :
      {l l' r r' : Pat}
      → Simplified bytes l l'
      → Simplified bytes r r'
      → (i : ℕ) (o : Option ℕ) → Matches bytes (alt l r) i o
      → Matches bytes (alt l' r') i o
  alt_means z y i o (alt_left {j = j} m) = alt_left (z.means i (some j) m)
  alt_means z y i o (alt_right m n) = alt_right (z.means i none m) (y.means i o n)

  pub or_solid :
      {l l' r r' : Pat}
      → Simplified bytes l l'
      → Simplified bytes r r'
      → (solid l || solid r) ≡ true
      → (solid l' || solid r') ≡ true
  or_solid {l = l} {r = r} z y h = elim (Bool-cases (solid l)) [
    | inl e ↦ rw (z.solid e) refl
    | inr e ↦ let k : solid r ≡ true = rw e at h in rw (y.solid k) (ground arith)
  ]

  -- A part in another pattern may be simplified.
  pub star_means :
      {p p' : Pat}
      → Simplified bytes p p'
      → {i : ℕ} {o : Option ℕ} → Matches bytes (star p) i o
      → Matches bytes (star p') i o
  star_means z {i = i} (star_end m) = star_end (z.means i none m)
  star_means z {i = i} (star_more {j = j} m n) = star_more (z.means i (some j) m) (star_means z n)

  pub plus_means :
      {p p' : Pat}
      → Simplified bytes p p'
      → (i : ℕ) (o : Option ℕ) → Matches bytes (plus p) i o
      → Matches bytes (plus p') i o
  plus_means z i o (plus_in {j = j} m n) = plus_in (z.means i (some j) m) (star_means z n)
  plus_means z i o (plus_out m) = plus_out (z.means i none m)

  pub optional_means :
      {p p' : Pat}
      → Simplified bytes p p'
      → (i : ℕ) (o : Option ℕ) → Matches bytes (optional p) i o
      → Matches bytes (optional p') i o
  optional_means z i o (optional_in {j = j} m) = optional_in (z.means i (some j) m)
  optional_means z i o (optional_out m) = optional_out (z.means i none m)

  pub optional_alt :
      (p : Pat) (i : ℕ) (o : Option ℕ)
      → Matches bytes (optional p) i o
      → Matches bytes (alt p empty) i o
  optional_alt p i o (optional_in m) = alt_left m
  optional_alt p i o (optional_out m) = alt_right m nothing

  pub not_means :
      {p p' : Pat}
      → Simplified bytes p p'
      → (i : ℕ) (o : Option ℕ) → Matches bytes (not_pat p) i o
      → Matches bytes (not_pat p') i o
  not_means z i o (not_in {j = j} m) = not_in (z.means i (some j) m)
  not_means z i o (not_out m) = not_out (z.means i none m)

  pub and_means :
      {p p' : Pat}
      → Simplified bytes p p'
      → (i : ℕ) (o : Option ℕ) → Matches bytes (and_pat p) i o
      → Matches bytes (and_pat p') i o
  and_means z i o (and_in {j = j} m) = and_in (z.means i (some j) m)
  and_means z i o (and_out m) = and_out (z.means i none m)
