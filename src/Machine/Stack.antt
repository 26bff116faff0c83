-- ===== src/Machine/Stack.antt =====
-- The value stack of src/vm.c. A capture is its pointer, a number; `refs` has the reference counts.
use libpeg.Prelude.{ℕ, ◌+◌, Bool, List, [], ◌∷◌, ◌++◌, Option, none, some, ◌==◌, if◌then◌else◌}
use libpeg.Prelude.Int.{ℤ}

-- the kind of an entry, with the fields that its push writes
pub data Kind : Type 0 where
  ret : ℤ → Kind
  btrack : ℤ → ℤ → Kind
  memo : ℤ → ℤ → Kind
  memo_tree : ℤ → ℤ → ℤ → Kind
  capt : ℤ → ℤ → Kind
  check : ℤ → ℤ → ℤ → Kind

pub record Entry : Type 0 where
  pub kind : Kind
  pub capts : List ℕ

-- The top entry comes first. `capts` is the list below every entry.
pub record Stack : Type 0 where
  pub entries : List Entry
  pub capts : List ℕ
  pub refs : ℕ → ℕ

-- `memo_capture_ref` of each
unfoldable pub ref_all : List ℕ → (ℕ → ℕ) → ℕ → ℕ
ref_all [] refs c = refs c
ref_all (d ∷ ds) refs c = ref_all ds refs c + (if c == d then 1 else 0)

-- `stack_grow` and a push helper
unfoldable pub push : Kind → Stack → Stack
push k s = record s { entries = record { kind = k; capts = [] } ∷ s.entries }

-- the append of `entry_add_capt`
unfoldable pub entry_add_capt : Entry → List ℕ → Entry
entry_add_capt e cs = record e { capts = e.capts ++ cs }

unfoldable pub stack_add_capt : Stack → List ℕ → Stack
unfolding ref_all entry_add_capt
stack_add_capt s cs = elim s.entries [
  | [] ↦ record s { capts = s.capts ++ cs; refs = ref_all cs s.refs }
  | e ∷ es ↦ record s { entries = entry_add_capt e cs ∷ es; refs = ref_all cs s.refs }
]

unfoldable pub stack_prop_capt : Stack → Stack
stack_prop_capt s = elim s.entries [
  | [] ↦ s
  | e ∷ es ↦ elim es [
    | [] ↦ record s { entries = record e { capts = [] } ∷ []; capts = s.capts ++ e.capts }
    | b ∷ bs ↦ record s {
      entries = record e { capts = [] } ∷ record b { capts = b.capts ++ e.capts } ∷ bs;
    }
  ]
]

-- `none` is an empty stack.
unfoldable pub stack_pop : Stack → Bool → Option (Stack × Entry)
unfolding stack_add_capt
stack_pop s propagate = elim s.entries [
  | [] ↦ none
  | e ∷ es ↦
      let below = record s { entries = es } in
      some ((if propagate then stack_add_capt below e.capts else below), e)
]
