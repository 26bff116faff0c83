-- ===== src/Code/Operands.antt =====
-- Decoding one laid-out line gives back the instruction that it stands for, whatever stands
-- before and after it in the stream.
use libpeg.Prelude.{
  ℕ, suc, ◌+◌, ◌^◌, ◌<◌, ◌≡◌, refl, some, List, [], ◌∷◌, ◌++◌, arith, length, get_elem?, get_or,
}
use libpeg.Prelude.Int.{pos}
use libpeg.Charset.{Charset}
use libpeg.Code.Bytes.{decode_u24, decode_i16, decode_u24-u24, decode_i16-i16}
use libpeg.Code.Op.{Op}
use libpeg.Code.Insn.{insn}
use libpeg.Code.Decode.{byte_at, u24_at, i16_at, operands}
use libpeg.Code.Assembler.{
  no_args, u8_arg, label_arg, i16_arg, label_i16_args, u8_label_args, u24_arg, i16_i16_args,
  u8_i16_args, set_arg, set_label_args, shape, Line, plain, byte, target, word, target_word,
  byte_target, wide, words, byte_word, with_set, set_target, IsLine, set_index, layout, meaning,
}
use libpeg.Code.Tables.{HasSet}

pub get_or-append {ℓ} :
    {A : Type ℓ} (xs ys : List A) (k : ℕ) (d : A)
    → get_or (xs ++ ys) (length xs + k) d ≡ get_or ys k d
get_or-append [] ys k d = let e : 0 + k ≡ k = omega arith in rw e refl
get_or-append (x ∷ xs) ys k d =
    let e : suc (length xs) + k ≡ suc (length xs + k) = omega arith in
    rw e (get_or-append xs ys k d)

module _ (pre xs : List ℕ) (k : ℕ) where
  byte_at-append : byte_at (pre ++ xs) (length pre) k ≡ get_or xs k 0
  unfolding byte_at
  byte_at-append = get_or-append pre xs k 0

module _ (pre xs : List ℕ) (k : ℕ) where
  u24_at-append :
      u24_at (pre ++ xs) (length pre) k
      ≡ pos (decode_u24 (get_or xs k 0) (get_or xs (k + 1) 0) (get_or xs (k + 2) 0))
  unfolding u24_at
  u24_at-append =
      rw (get_or-append pre xs k 0, get_or-append pre xs (k + 1) 0, get_or-append pre xs (k + 2) 0)
        refl

  i16_at-append :
      i16_at (pre ++ xs) (length pre) k ≡ decode_i16 (get_or xs k 0) (get_or xs (k + 1) 0)
  unfolding i16_at
  i16_at-append = rw (get_or-append pre xs k 0, get_or-append pre xs (k + 1) 0) refl

-- The operand switch, by layout.
module _ (sets : List Charset) (bs : List ℕ) (ip : ℕ) where
  operands_plain : (op : Op) → shape op ≡ no_args → operands sets bs ip op ≡ insn op
  unfolding operands shape
  operands_plain Op.nop h = refl
  operands_plain op h = ground arith

  operands_u8 :
      (op : Op)
      → shape op ≡ u8_arg
      → operands sets bs ip op ≡ record (insn op) { a = pos (byte_at bs ip 1) }
  unfolding operands shape
  operands_u8 Op.char h = refl
  operands_u8 op h = ground arith

  operands_label :
      (op : Op)
      → shape op ≡ label_arg
      → operands sets bs ip op ≡ record (insn op) { a = u24_at bs ip 1 }
  unfolding operands shape
  operands_label Op.jump h = refl
  operands_label op h = ground arith

  operands_i16 :
      (op : Op)
      → shape op ≡ i16_arg
      → operands sets bs ip op ≡ record (insn op) { a = i16_at bs ip 2 }
  unfolding operands shape
  operands_i16 Op.capture_begin h = refl
  operands_i16 op h = ground arith

  operands_label_i16 :
      (op : Op)
      → shape op ≡ label_i16_args
      → operands sets bs ip op ≡ record (insn op) { a = u24_at bs ip 1; b = i16_at bs ip 4 }
  unfolding operands shape
  operands_label_i16 Op.memo_open h = refl
  operands_label_i16 op h = ground arith

  operands_u8_label :
      (op : Op)
      → shape op ≡ u8_label_args
      → operands sets bs ip op ≡ record (insn op) { b = pos (byte_at bs ip 2); a = u24_at bs ip 3 }
  unfolding operands shape
  operands_u8_label Op.test_char h = refl
  operands_u8_label op h = ground arith

  operands_u24 :
      (op : Op)
      → shape op ≡ u24_arg
      → operands sets bs ip op ≡ record (insn op) { a = u24_at bs ip 1 }
  unfolding operands shape
  operands_u24 Op.error h = refl
  operands_u24 op h = ground arith

  operands_i16_i16 :
      (op : Op)
      → shape op ≡ i16_i16_args
      → operands sets bs ip op ≡ record (insn op) { a = i16_at bs ip 2; b = i16_at bs ip 4 }
  unfolding operands shape
  operands_i16_i16 Op.check_begin h = refl
  operands_i16_i16 op h = ground arith

  operands_u8_i16 :
      (op : Op)
      → shape op ≡ u8_i16_args
      → operands sets bs ip op ≡ record (insn op) { b = pos (byte_at bs ip 1); a = i16_at bs ip 2 }
  unfolding operands shape
  operands_u8_i16 Op.capture_late h = refl
  operands_u8_i16 op h = ground arith

  operands_set :
      (op : Op)
      → shape op ≡ set_arg
      → operands sets bs ip op ≡ record (insn op) { set = get_elem? sets (byte_at bs ip 1) }
  unfolding operands shape
  operands_set Op.set h = refl
  operands_set op h = ground arith

  operands_set_label :
      (op : Op)
      → shape op ≡ set_label_args
      → operands sets bs ip op
        ≡ record (insn op) { set = get_elem? sets (byte_at bs ip 2); a = u24_at bs ip 3 }
  unfolding operands shape
  operands_set_label Op.test_set h = refl
  operands_set_label op h = ground arith

-- What a line needs of the table and of the placement of its label.
unfoldable pub IsPlaced : List Charset → (ℕ → ℕ) → Line → Type 0
IsPlaced sets place (target op l) = place l < 2 ^ 24
IsPlaced sets place (target_word op l b) = place l < 2 ^ 24
IsPlaced sets place (byte_target op c l) = place l < 2 ^ 24
IsPlaced sets place (with_set op s) = HasSet sets s
IsPlaced sets place (set_target op s l) = HasSet sets s × (place l < 2 ^ 24)
IsPlaced sets place i = Unit

unfoldable pub op_of_line : Line → Op
op_of_line (plain op) = op
op_of_line (byte op a) = op
op_of_line (target op l) = op
op_of_line (word op a) = op
op_of_line (target_word op l b) = op
op_of_line (byte_target op c l) = op
op_of_line (wide op a) = op
op_of_line (words op a b) = op
op_of_line (byte_word op b a) = op
op_of_line (with_set op s) = op
op_of_line (set_target op s l) = op

HasSet-index :
    (sets : List Charset) (s : Charset) → HasSet sets s → get_elem? sets (set_index sets s) ≡ some s
unfolding set_index
HasSet-index sets s h = rw (h.found, set_index) h.holds

module _ (sets : List Charset) (place : ℕ → ℕ) (pre post : List ℕ) where
  abbrev stream : Line → List ℕ
  stream i = pre ++ (layout sets place i ++ post)

  pub operands-layout :
      (i : Line)
      → IsLine i
      → IsPlaced sets place i
      → operands sets (stream i) (length pre) (op_of_line i) ≡ meaning place i
  unfolding IsLine IsPlaced op_of_line meaning layout
  operands-layout (plain op) h p = operands_plain sets (stream (plain op)) (length pre) op h
  operands-layout (byte op a) h p =
      rw (operands_u8 sets (stream (byte op a)) (length pre) op h.0, byte_at-append pre _ 1) refl
  operands-layout (target op l) h p =
      rw
        (
          operands_label sets (stream (target op l)) (length pre) op h,
          u24_at-append pre _ 1,
          decode_u24-u24 (place l) p,
        )
        refl
  operands-layout (word op a) h p =
      rw
        (
          operands_i16 sets (stream (word op a)) (length pre) op h.0,
          i16_at-append pre _ 2,
          decode_i16-i16 a h.1,
        )
        refl
  operands-layout (target_word op l b) h p =
      rw
        (
          operands_label_i16 sets (stream (target_word op l b)) (length pre) op h.0,
          u24_at-append pre _ 1,
          i16_at-append pre _ 4,
          decode_u24-u24 (place l) p,
          decode_i16-i16 b h.1,
        )
        refl
  operands-layout (byte_target op c l) h p =
      rw
        (
          operands_u8_label sets (stream (byte_target op c l)) (length pre) op h.0,
          byte_at-append pre _ 2,
          u24_at-append pre _ 3,
          decode_u24-u24 (place l) p,
        )
        refl
  operands-layout (wide op a) h p =
      rw
        (
          operands_u24 sets (stream (wide op a)) (length pre) op h.0,
          u24_at-append pre _ 1,
          decode_u24-u24 a h.1,
        )
        refl
  operands-layout (words op a b) h p =
      rw
        (
          operands_i16_i16 sets (stream (words op a b)) (length pre) op h.0,
          i16_at-append pre _ 2,
          i16_at-append pre _ 4,
          decode_i16-i16 a h.1,
          decode_i16-i16 b h.2,
        )
        refl
  operands-layout (byte_word op b a) h p =
      rw
        (
          operands_u8_i16 sets (stream (byte_word op b a)) (length pre) op h.0,
          byte_at-append pre _ 1,
          i16_at-append pre _ 2,
          decode_i16-i16 a h.2,
        )
        refl
  operands-layout (with_set op s) h p =
      rw
        (
          operands_set sets (stream (with_set op s)) (length pre) op h,
          byte_at-append pre _ 1,
          HasSet-index sets s p,
        )
        refl
  operands-layout (set_target op s l) h p =
      rw
        (
          operands_set_label sets (stream (set_target op s l)) (length pre) op h,
          byte_at-append pre _ 2,
          u24_at-append pre _ 3,
          decode_u24-u24 (place l) p.1,
          HasSet-index sets s p.0,
        )
        refl
