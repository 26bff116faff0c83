-- ===== src/Peg/Tests.antt =====
-- Edits of a small buffer.
use libpeg.Prelude.{◌≡◌, ◌⊎◌, refl, [], ◌∷◌, none, some, arith}
use libpeg.Prelude.Int.{pos, ◌≤ℤ◌, ◌<ℤ◌}
use libpeg.Peg.{Buffer, edit, load, subject}
use libpeg.Peg.Splice.{IsBuffer, edit_lem, load_lem}

-- "abc" and a spare byte
abbrev abc : Buffer
abc = record { buf = 97 ∷ 98 ∷ 99 ∷ 0 ∷ []; len = 3; cap = 4 }

abc-IsBuffer : IsBuffer abc
abc-IsBuffer = record { allocated = refl; fits = omega arith }

-- "b" is replaced by "xyz", which does not fit the old allocation.
edit_lem_example :
    (pos 0 ≤ℤ pos 1
      → pos 1 ≤ℤ pos 2
      → pos 2 ≤ℤ pos 3
      → (h : Buffer) × (edit abc (pos 1) (pos 2) (120 ∷ 121 ∷ 122 ∷ []) ≡ some h)
        × IsBuffer h
        × (subject h ≡ 97 ∷ 120 ∷ 121 ∷ 122 ∷ 99 ∷ []))
    × ((pos 1 <ℤ pos 0) ⊎ (pos 2 <ℤ pos 1) ⊎ (pos 3 <ℤ pos 2)
        → edit abc (pos 1) (pos 2) (120 ∷ 121 ∷ 122 ∷ []) ≡ none)
edit_lem_example = edit_lem abc (pos 1) (pos 2) (120 ∷ 121 ∷ 122 ∷ []) abc-IsBuffer

load_lem_example :
    IsBuffer (load abc (104 ∷ 105 ∷ [])) × (subject (load abc (104 ∷ 105 ∷ [])) ≡ 104 ∷ 105 ∷ [])
load_lem_example = load_lem abc (104 ∷ 105 ∷ []) abc-IsBuffer
