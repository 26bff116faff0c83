-- ===== src/Input/Tests.antt =====
-- The input wrapper at concrete subjects, and the theorems at them.
use libpeg.Prelude.{ℕ, ◌≡◌, refl, false, none, some, List, [], ◌∷◌, get_elem?}
use libpeg.Charset.{has, range}
use libpeg.Input.{Input, new, position, peek, advance, seek_to, span}
use libpeg.Input.Inv.{new-IsInput, peek_lem}
use libpeg.Input.Span.{Spanned, span-Spanned}
use mathlib.Core.Option
use libpeg.Input.Examined.{tracker, furthest_of, examined, tracker_lem}
use libpeg.Input.Refine.{
  Access, at_peek, at_advance, at_seek, at_span, byte, moved, done, perform, observe, plain_observe,
  answers, observe-new,
}

abbrev subject : List ℕ
subject = b'a' ∷ b'b' ∷ b'1' ∷ []

abbrev accesses : List Access
accesses = at_peek ∷ at_span (range b'a' b'z') ∷ at_advance 2 ∷ at_peek ∷ at_seek 1 ∷ []

test_observe :
    observe (new subject) accesses
    ≡ some (
        (byte (some b'a'), record { at = 0; seen = 0 })
        ∷ (done, record { at = 2; seen = 2 })
        ∷ (moved false, record { at = 4; seen = 2 })
        ∷ (byte none, record { at = 4; seen = 4 })
        ∷ (done, record { at = 1; seen = 4 })
        ∷ [])
unfolding observe perform new peek advance seek_to span range has
test_observe = refl

observe-new_example :
    Option.map answers (observe (new subject) accesses) ≡ some (plain_observe subject 0 accesses)
observe-new_example = observe-new subject accesses

tracker_lem_example :
    Option.map (tracker 0) (observe (new subject) accesses)
    ≡ some (furthest_of 0 (examined subject 0 accesses))
tracker_lem_example = tracker_lem subject accesses

span-Spanned_example :
    (j : Input) × (span (new subject) (range b'a' b'z') ≡ some j)
    × Spanned (range b'a' b'z') (new subject) j
span-Spanned_example = span-Spanned (new subject) (range b'a' b'z') (new-IsInput subject)

peek_lem_example : (peek (new subject)).1 ≡ get_elem? (new subject).bytes (position (new subject))
peek_lem_example = peek_lem (new subject) (new-IsInput subject)
