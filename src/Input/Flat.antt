-- ===== src/Input/Flat.antt =====
-- A cursor over the flat subject, with the furthest position as src/vm.c tracks it: `input_advance`
-- leaves it as it is.
use libpeg.Prelude.{
  ℕ, suc, ◌+◌, Bool, Option, List, [], ◌∷◌, max, leb, if◌then◌else◌, length, get_elem?, drop,
}
use libpeg.Charset.{Charset, has}

pub record Flat : Type 0 where
  pub at : ℕ
  pub seen : ℕ

-- how many leading bytes are in the set
unfoldable pub run_length : Charset → List ℕ → ℕ
run_length set [] = 0
run_length set (c ∷ cs) = if has set c then suc (run_length set cs) else 0

unfoldable pub flat_peek : List ℕ → Flat → Flat × Option ℕ
flat_peek bytes f = (record f { seen = max f.seen f.at }, get_elem? bytes f.at)

unfoldable pub flat_advance : List ℕ → Flat → ℕ → Flat × Bool
flat_advance bytes f n = (record f { at = f.at + n }, leb (f.at + n) (length bytes))

unfoldable pub flat_seek : Flat → ℕ → Flat
flat_seek f pos = record f { at = pos }

unfoldable pub flat_span : List ℕ → Flat → Charset → Flat
unfolding run_length
flat_span bytes f set =
    let end = f.at + run_length set (drop f.at bytes) in record { at = end; seen = max f.seen end }
