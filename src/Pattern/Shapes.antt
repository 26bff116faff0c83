-- ===== src/Pattern/Shapes.antt =====
-- What `compile_pat` of src/pattern.c puts around the code of the parts.
use libpeg.Prelude.{
  ℕ, suc, ◌+◌, Bool, true, false, not, ◌||◌, List, [], ◌∷◌, ◌++◌, Option, none, some, get_elem?,
  take, drop, length, map, leb, ltb, ◌==◌, if◌then◌else◌,
}
use libpeg.Prelude.Int.{ℤ, pos, pos_part}
use libpeg.Charset
use libpeg.Charset.{Charset}
use libpeg.Code.Op.{Op}
use libpeg.Machine.State.{Checker, byte_of}
use libpeg.Pattern.Ast.{Name, Pat, alt, seq, star, dot, char_class, nonterm, Defs, end, def}
use libpeg.Pattern.Ir.{
  vm, Pir, insn_basic, insn_label, insn_jump, insn_u8, insn_test_set, insn_test_char, next_insn_idx,
}
use libpeg.Pattern.Simplify.{single, Matcher, of_byte, of_set, other}

-- the first instruction of a list of code, after labels and nops
abbrev pub head_insn : List Pir → Option Pir
head_insn code = get_elem? code (next_insn_idx code 0)

-- an instruction as a matcher of one byte
abbrev pub matcher : Pir → Matcher
matcher i = elim i.op [ vm Op.char ↦ of_byte (byte_of i.a) | vm Op.set ↦ of_set i.set | _ ↦ other ]

-- whether a byte that the left one matches shows that the right one does not
abbrev pub disjoint : Matcher → Matcher → Bool
disjoint (of_set set) (of_byte b) = not (Charset.has set b)
disjoint (of_byte a) (of_byte b) = not (a == b)
disjoint (of_byte a) (of_set set) = not (Charset.has set a)
disjoint l r = false

-- the test instruction of a matcher, which jumps to a label
abbrev pub test_insn : Matcher → ℕ → Pir
test_insn (of_set set) l1 = insn_test_set Op.test_set_nochoice set l1
test_insn (of_byte b) l1 = insn_test_char Op.test_char_nochoice b l1
test_insn other l1 = insn_basic Op.nop

-- The test of two alternatives, by their first instructions, with the label of the right one: the
-- test instruction, and whether the two are disjoint.
abbrev pub alt_test : List Pir → List Pir → ℕ → Pir × Bool
alt_test l r l1 = elim (head_insn l) [
  | none ↦ (insn_basic Op.nop, false)
  | some li ↦ elim (head_insn r) [
    | none ↦ (insn_basic Op.nop, false)
    | some ri ↦ (test_insn (matcher li) l1, disjoint (matcher li) (matcher ri))
  ]
]

-- the code of an alternative; its labels are `l1` and `l1 + 1`
unfoldable pub alt_code : List Pir → List Pir → ℕ → List Pir
alt_code l r l1 =
    let (test, disjoint) = alt_test l r l1 in
    let right = insn_label l1 ∷ (r ++ (insn_label (l1 + 1) ∷ [])) in
    elim disjoint [
      | true ↦ test ∷ (drop 1 l ++ (insn_jump Op.jump (l1 + 1) ∷ right))
      | false ↦ insn_jump Op.choice l1 ∷ (l ++ (insn_jump Op.commit (l1 + 1) ∷ right))
    ]

-- the code of a repetition; its labels are `l1` and `l1 + 1`
unfoldable pub star_code : List Pir → ℕ → List Pir
star_code sub l1 =
    insn_jump Op.choice (l1 + 1)
    ∷ insn_label l1
    ∷ (sub ++ (insn_jump Op.partial_commit l1 ∷ insn_label (l1 + 1) ∷ []))

-- the code of a repetition of a memoized pattern; its labels are the four from `l1` on
unfoldable pub tree_code : List Pir → ℕ → ℤ → List Pir
tree_code sub l1 id =
    insn_label l1
    ∷ record (insn_jump Op.memo_tree_open (l1 + 2)) { b = id }
    ∷ insn_jump Op.choice (l1 + 1)
    ∷ (sub
        ++ (insn_jump Op.commit (l1 + 3)
            ∷ insn_label (l1 + 3)
            ∷ insn_basic Op.memo_tree_insert
            ∷ insn_label (l1 + 2)
            ∷ insn_basic Op.memo_tree
            ∷ insn_jump Op.jump l1
            ∷ insn_label (l1 + 1)
            ∷ insn_u8 Op.memo_tree_close id
            ∷ []))

-- the code of a negation, with its label
unfoldable pub not_code : List Pir → ℕ → List Pir
not_code sub l1 = insn_jump Op.choice l1 ∷ (sub ++ (insn_basic Op.fail_twice ∷ insn_label l1 ∷ []))

-- the code of a lookahead; its labels are `l1` and `l1 + 1`
unfoldable pub and_code : List Pir → ℕ → List Pir
and_code sub l1 =
    insn_jump Op.choice l1
    ∷ (sub
        ++ (insn_jump Op.back_commit (l1 + 1)
            ∷ insn_label l1
            ∷ insn_basic Op.fail
            ∷ insn_label (l1 + 1)
            ∷ []))

-- the width of a matcher of constant width; `none` for any other instruction
abbrev pub width : Pir → Option ℕ
width i = elim i.op [
  | vm Op.char ↦ some 1
  | vm Op.set ↦ some 1
  | vm Op.any ↦ some (pos_part i.a)
  | _ ↦ none
]

-- the leading run of such matchers: their number and the sum of their widths
unfoldable pub leading : List Pir → ℕ × ℕ
leading [] = (0, 0)
leading (i ∷ is) =
    let (n, back) = leading is in elim (width i) [ none ↦ (0, 0) | some w ↦ (suc n, w + back) ]

-- the code of a capture
unfoldable pub cap_code : List Pir → ℤ → List Pir
unfolding leading
cap_code sub id =
    let (i, back) = leading sub in
    elim (i == 0 || leb 256 back) [
      | true ↦ insn_u8 Op.capture_begin id ∷ (sub ++ (insn_basic Op.capture_end ∷ []))
      | false ↦ elim (i == length sub) [
        | true ↦ sub ++ (record (insn_u8 Op.capture_full id) { b = pos back } ∷ [])
        | false ↦
            take i sub
            ++ (record (insn_u8 Op.capture_late id) { b = pos back }
                ∷ (drop i sub ++ (insn_basic Op.capture_end ∷ [])))
      ]
    ]

-- the code of a memoized pattern, with its label
unfoldable pub memo_code : List Pir → ℕ → ℤ → List Pir
memo_code sub l1 id =
    record (insn_jump Op.memo_open l1) { b = id }
    ∷ (sub ++ (insn_basic Op.memo_close ∷ insn_label l1 ∷ []))

-- the code of a checked pattern, with its label
unfoldable pub check_code : List Pir → ℕ → Option Checker → ℤ → ℤ → List Pir
check_code sub l1 f id flag =
    record (insn_u8 Op.check_begin id) { b = flag }
    ∷ (sub ++ (record (insn_basic Op.check_end) { fn = f } ∷ insn_label l1 ∷ []))

-- the code of an error, with that of its recovery if it has one
abbrev pub error_code : List ℕ → Option (List Pir) → List Pir
error_code msg recover =
    record (insn_basic Op.error) { msg = some msg }
    ∷ elim recover [ none ↦ insn_u8 Op.end (pos 1) ∷ [] | some rec ↦ rec ]

abbrev pub literal_code : List ℕ → List Pir
literal_code str = map (λ c. insn_u8 Op.char (pos c)) str

-- the bytes that a search may pass over, by the first instruction of what it searches
unfoldable pub skip_set : List Pir → Option Charset
skip_set sub = elim (head_insn sub) [
  | none ↦ none
  | some i ↦ elim (matcher i) [
    | of_byte b ↦ some (Charset.negate (single b))
    | of_set set ↦ if ltb (Charset.count set) 10 then some (Charset.negate set) else none
    | other ↦ none
  ]
]

-- "S"
abbrev pub search_name : Name
search_name = 83 ∷ []

-- what is matched after a byte that a search passes over
abbrev rsearch : Option Charset → Pat
rsearch none = nonterm search_name
rsearch (some set) = seq (star (char_class set)) (nonterm search_name)

-- the grammar of a search: `S <- p / . S`, or `S <- p / . [skip]* S`
unfoldable pub search_defs : Pat → Option Charset → Defs
search_defs p opt = def search_name (alt p (seq (dot 1) (rsearch opt))) end
