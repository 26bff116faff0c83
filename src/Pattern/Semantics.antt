-- ===== src/Pattern/Semantics.antt =====
-- What parsing expressions mean: the reference for the code that src/pattern.c makes of them.
use libpeg.Prelude.{
  ℕ, ◌+◌, ◌≤◌, ◌<◌, ◌≡◌, true, false, List, [], ◌∷◌, Option, none, some, ◌==◌, length, get_elem?,
}
use libpeg.Charset
use libpeg.Machine.State.{passes}
use libpeg.Pattern.Ast.{
  Pat, alt, seq, star, plus, optional, not_pat, and_pat, char_class, literal, dot, empty,
}

-- `Matches bytes p i (some j)`: at position `i` the pattern matches the bytes up to `j`;
-- `Matches bytes p i none`: it fails there. A repetition of what matches nothing has no derivation.
pub data Matches (bytes : List ℕ) : Pat → ℕ → Option ℕ → Type 0 where
  nothing : {i : ℕ} → Matches bytes empty i (some i)
  dot_in : {n i : ℕ} → i + n ≤ length bytes → Matches bytes (dot n) i (some (i + n))
  dot_out : {n i : ℕ} → length bytes < i + n → Matches bytes (dot n) i none
  class_in :
      {set : Charset.Charset} {i : ℕ}
      → passes (Charset.has set) (get_elem? bytes i) ≡ true
      → Matches bytes (char_class set) i (some (i + 1))
  class_out :
      {set : Charset.Charset} {i : ℕ}
      → passes (Charset.has set) (get_elem? bytes i) ≡ false
      → Matches bytes (char_class set) i none
  literal_end : {i : ℕ} → Matches bytes (literal []) i (some i)
  literal_in :
      {b : ℕ} {bs : List ℕ} {i : ℕ} {o : Option ℕ}
      → passes (λ c. c == b) (get_elem? bytes i) ≡ true
      → Matches bytes (literal bs) (i + 1) o
      → Matches bytes (literal (b ∷ bs)) i o
  literal_out :
      {b : ℕ} {bs : List ℕ} {i : ℕ}
      → passes (λ c. c == b) (get_elem? bytes i) ≡ false
      → Matches bytes (literal (b ∷ bs)) i none
  seq_in :
      {l r : Pat} {i j : ℕ} {o : Option ℕ}
      → Matches bytes l i (some j)
      → Matches bytes r j o
      → Matches bytes (seq l r) i o
  seq_out : {l r : Pat} {i : ℕ} → Matches bytes l i none → Matches bytes (seq l r) i none
  alt_left : {l r : Pat} {i j : ℕ} → Matches bytes l i (some j) → Matches bytes (alt l r) i (some j)
  alt_right :
      {l r : Pat} {i : ℕ} {o : Option ℕ}
      → Matches bytes l i none
      → Matches bytes r i o
      → Matches bytes (alt l r) i o
  star_end : {p : Pat} {i : ℕ} → Matches bytes p i none → Matches bytes (star p) i (some i)
  star_more :
      {p : Pat} {i j : ℕ} {o : Option ℕ}
      → Matches bytes p i (some j)
      → Matches bytes (star p) j o
      → Matches bytes (star p) i o
  plus_in :
      {p : Pat} {i j : ℕ} {o : Option ℕ}
      → Matches bytes p i (some j)
      → Matches bytes (star p) j o
      → Matches bytes (plus p) i o
  plus_out : {p : Pat} {i : ℕ} → Matches bytes p i none → Matches bytes (plus p) i none
  optional_in :
      {p : Pat} {i j : ℕ} → Matches bytes p i (some j) → Matches bytes (optional p) i (some j)
  optional_out : {p : Pat} {i : ℕ} → Matches bytes p i none → Matches bytes (optional p) i (some i)
  not_in : {p : Pat} {i j : ℕ} → Matches bytes p i (some j) → Matches bytes (not_pat p) i none
  not_out : {p : Pat} {i : ℕ} → Matches bytes p i none → Matches bytes (not_pat p) i (some i)
  and_in : {p : Pat} {i j : ℕ} → Matches bytes p i (some j) → Matches bytes (and_pat p) i (some i)
  and_out : {p : Pat} {i : ℕ} → Matches bytes p i none → Matches bytes (and_pat p) i none
