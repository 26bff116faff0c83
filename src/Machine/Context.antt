-- ===== src/Machine/Context.antt =====
-- The flags of `empty_op_context`.
use libpeg.Prelude.{
  ℕ, ◌≡◌, refl, ◌||◌, not, Bool, true, false, Option, none, some, Bool-cases, inl, inr, ◌==◌, arith,
}
use libpeg.Prelude.Bits.{bit}
use libpeg.Machine.{is_word_byte, is_newline, is_absent, combine, empty_op_context}

-- the outcomes of the three tests that are possible for one byte
data Kind : Bool → Bool → Bool → Type 0 where
  word : Kind true false false
  newline : Kind false true false
  absent : Kind false false true
  other : Kind false false false

word_or_newline : (r : ℕ) → is_word_byte (some r) ≡ true → is_newline (some r) ≡ false
unfolding is_word_byte is_newline
word_or_newline r h = ground arith

kind : (r : Option ℕ) → Kind (is_word_byte r) (is_newline r) (is_absent r)
unfolding is_word_byte is_newline
kind none = absent
kind (some r) = elim (Bool-cases (is_word_byte (some r))) [
  | inl w ↦ rw (w, word_or_newline r w) word
  | inr v ↦ elim (Bool-cases (is_newline (some r))) [
    | inl n ↦ rw (v, n) newline
    | inr m ↦ rw (v, m) other
  ]
]

abbrev pub xor : Bool → Bool → Bool
xor true b = not b
xor false b = b

-- the flag of this bit value
abbrev pub flag : ℕ → ℕ → Bool
flag op k = bit op k == 1

abbrev Flags : ℕ → Bool → Bool → Bool → Bool → Bool → Bool → Type 0
Flags op w1 n1 a1 w2 n2 a2 =
    (flag op 0 ≡ (n1 || a1))
    × (flag op 1 ≡ (n2 || a2))
    × (flag op 2 ≡ a1)
    × (flag op 3 ≡ a2)
    × (flag op 4 ≡ xor w1 w2)
    × (flag op 5 ≡ not (xor w1 w2))

combine-Flags :
    {w1 n1 a1 w2 n2 a2 : Bool}
    → Kind w1 n1 a1
    → Kind w2 n2 a2
    → Flags (combine w1 n1 a1 w2 n2 a2) w1 n1 a1 w2 n2 a2
unfolding combine
combine-Flags word word = (refl, refl, refl, refl, refl, refl)
combine-Flags word newline = (refl, refl, refl, refl, refl, refl)
combine-Flags word absent = (refl, refl, refl, refl, refl, refl)
combine-Flags word other = (refl, refl, refl, refl, refl, refl)
combine-Flags newline word = (refl, refl, refl, refl, refl, refl)
combine-Flags newline newline = (refl, refl, refl, refl, refl, refl)
combine-Flags newline absent = (refl, refl, refl, refl, refl, refl)
combine-Flags newline other = (refl, refl, refl, refl, refl, refl)
combine-Flags absent word = (refl, refl, refl, refl, refl, refl)
combine-Flags absent newline = (refl, refl, refl, refl, refl, refl)
combine-Flags absent absent = (refl, refl, refl, refl, refl, refl)
combine-Flags absent other = (refl, refl, refl, refl, refl, refl)
combine-Flags other word = (refl, refl, refl, refl, refl, refl)
combine-Flags other newline = (refl, refl, refl, refl, refl, refl)
combine-Flags other absent = (refl, refl, refl, refl, refl, refl)
combine-Flags other other = (refl, refl, refl, refl, refl, refl)

-- Between two bytes, or at an end of the text: a line begins after a newline and at the begin of the
-- text, and ends before a newline and at the end of the text; the text begins or ends where there is
-- no byte; a word boundary is where exactly one of the two is a word byte, and the last flag is set
-- everywhere else.
pub empty_op_context_lem :
    (r1 r2 : Option ℕ)
    → let op = empty_op_context r1 r2 in
      (flag op 0 ≡ (is_newline r1 || is_absent r1))
      × (flag op 1 ≡ (is_newline r2 || is_absent r2))
      × (flag op 2 ≡ is_absent r1)
      × (flag op 3 ≡ is_absent r2)
      × (flag op 4 ≡ xor (is_word_byte r1) (is_word_byte r2))
      × (flag op 5 ≡ not (xor (is_word_byte r1) (is_word_byte r2)))
unfolding empty_op_context
empty_op_context_lem r1 r2 = combine-Flags (kind r1) (kind r2)
