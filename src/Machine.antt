-- ===== src/Machine.antt =====
-- `vm_exec` of src/vm.c: here the helpers that do not touch its state, below it the rest.
use Prim.Native.Nat.{bit_or, bit_xor}
use libpeg.Prelude.{
  ℕ, ◌||◌, ◌&&◌, Bool, true, false, List, [], ◌∷◌, ◌++◌, Option, none, some, ◌==◌, leb,
  if◌then◌else◌,
}
use libpeg.Prelude.Int.{ℤ, ltb_ℤ}
pub mod Stack
pub mod State
pub mod Match
pub mod Control
pub mod Capturing
pub mod Memoize
pub mod Exec
pub mod Runs
pub mod Effects
mod Unwound
mod Ownership
mod Context
mod Tests

-- `none` is -1, the position before the first byte or behind the last.
unfoldable pub is_word_byte : Option ℕ → Bool
is_word_byte none = false
is_word_byte (some r) =
    leb b'a' r && leb r b'z' || leb b'A' r && leb r b'Z' || leb b'0' r && leb r b'9' || r == b'_'

-- `r == '\n'`
unfoldable pub is_newline : Option ℕ → Bool
is_newline none = false
is_newline (some r) = r == 10

-- `r < 0`
abbrev pub is_absent : Option ℕ → Bool
is_absent none = true
is_absent (some r) = false

-- The two chains of tests, on their outcomes for the byte before and the byte after.
unfoldable pub combine : Bool → Bool → Bool → Bool → Bool → Bool → ℕ
combine word1 newline1 absent1 word2 newline2 absent2 =
    let boundary1 = if word1 then 1 else 0 in
    let op1 =
      if word1
      then 32
      else if newline1
      then bit_or 32 1
      else if absent1
      then bit_or 32 (bit_or 4 1)
      else 32 in
    let boundary = if word2 then bit_xor boundary1 1 else boundary1 in
    let op =
      if word2
      then op1
      else if newline2
      then bit_or op1 2
      else if absent2
      then bit_or op1 (bit_or 8 2)
      else op1 in
    if boundary == 0 then op else bit_xor op (bit_or 16 32)

unfoldable pub empty_op_context : Option ℕ → Option ℕ → ℕ
unfolding is_word_byte is_newline combine
empty_op_context r1 r2 =
    combine (is_word_byte r1) (is_newline r1) (is_absent r1) (is_word_byte r2) (is_newline r2)
      (is_absent r2)

-- `vm_error`: a message, as its bytes, and a position
pub record VmError : Type 0 where
  pub message : List ℕ
  pub pos : ℤ

unfoldable pub errlist_add : List VmError → ℤ → List ℕ → List VmError
errlist_add l at msg = l ++ (record { message = msg; pos = at } ∷ [])

unfoldable pub overlaps : ℤ → ℤ → ℤ → ℤ → Bool
overlaps wl wh low2 high2 = ltb_ℤ wl high2 && ltb_ℤ low2 wh
