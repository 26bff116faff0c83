-- ===== src/Input/Examined.antt =====
-- The furthest position that the input of src/vm.c tracks.
use libpeg.Prelude.{ℕ, ◌+◌, ◌≡◌, refl, ap, max, some, List, [], ◌∷◌, drop}
use mathlib.Core.Option.{some-injective}
use libpeg.Input.{new}
use libpeg.Input.Flat.{Flat, run_length, flat_peek, flat_advance, flat_seek, flat_span}
use libpeg.Input.Refine.{
  Access, at_peek, at_advance, at_seek, at_span, View, observe, observe-tracked, flat_observe,
  flat_perform,
}
use mathlib.Core.Option

-- the position of each read, and the end of each span, from a position on
unfoldable pub examined : List ℕ → ℕ → List Access → List ℕ
unfolding run_length
examined bytes p [] = []
examined bytes p (at_peek ∷ as') = p ∷ examined bytes p as'
examined bytes p (at_advance n ∷ as') = examined bytes (p + n) as'
examined bytes p (at_seek q ∷ as') = examined bytes q as'
examined bytes p (at_span set ∷ as') =
    let end = p + run_length set (drop p bytes) in end ∷ examined bytes end as'

abbrev pub furthest_of : ℕ → List ℕ → ℕ
furthest_of m [] = m
furthest_of m (p ∷ ps) = furthest_of (max m p) ps

-- the tracker after the last call, if there is one
abbrev pub tracker : ℕ → List View → ℕ
tracker m [] = m
tracker m ((r, f) ∷ vs) = tracker f.seen vs

tracker-flat_observe :
    (bytes : List ℕ) (as' : List Access) (f : Flat)
    → tracker f.seen (flat_observe bytes f as') ≡ furthest_of f.seen (examined bytes f.at as')
unfolding flat_observe flat_perform examined flat_peek flat_advance flat_seek flat_span
tracker-flat_observe bytes [] f = refl
tracker-flat_observe bytes (at_peek ∷ as') f = tracker-flat_observe bytes as' _
tracker-flat_observe bytes (at_advance n ∷ as') f = tracker-flat_observe bytes as' _
tracker-flat_observe bytes (at_seek q ∷ as') f = tracker-flat_observe bytes as' _
tracker-flat_observe bytes (at_span set ∷ as') f = tracker-flat_observe bytes as' _

-- After any sequence of reads, advances, seeks and spans the tracker of the input is the furthest
-- position at which a read stood or a span ended, whatever seeks came in between. An advance does
-- not count, although the comment on the input asks for it.
pub tracker_lem :
    (bytes : List ℕ) (as' : List Access)
    → Option.map (tracker 0) (observe (new bytes) as') ≡ some (furthest_of 0 (examined bytes 0 as'))
tracker_lem bytes as' =
    rw (observe-tracked bytes as')
      (ap some (tracker-flat_observe bytes as' (record { at = 0; seen = 0 })))
