-- ===== src/Input/Refine.antt =====
-- The chunked input of src/vm.c against a position in the flat subject.
use mathlib.Core.Option
use libpeg.Prelude.{
  ℕ, max, ◌≡◌, refl, ap, Bool, Option, none, some, List, [], ◌∷◌, arith, ltb, if◌then◌else◌, ◌+◌,
  leb, length, get_elem?, drop,
}
use libpeg.Charset.{Charset}
use libpeg.Input.{Input, new, position, peek, advance, seek_to, span}
use libpeg.Input.Flat.{Flat, run_length, flat_peek, flat_advance, flat_seek, flat_span}
use libpeg.Input.Inv.{
  IsInput, new-IsInput, peek-IsInput, peek_lem, advance-IsInput, seek_to-IsInput,
}
use libpeg.Input.Span.{span-Spanned}

-- the calls that the interpreter makes
pub data Access : Type 0 where
  at_peek : Access
  at_advance : ℕ → Access
  at_seek : ℕ → Access
  at_span : Charset → Access

pub data Reply : Type 0 where
  byte : Option ℕ → Reply
  moved : Bool → Reply
  done : Reply

-- One call; `none` would be a span that ran out of rounds.
unfoldable pub perform : Input → Access → Option (Input × Reply)
perform i at_peek = let (j, b) = peek i in some (j, byte b)
perform i (at_advance n) = let (j, b) = advance i n in some (j, moved b)
perform i (at_seek p) = some (seek_to i p, done)
perform i (at_span set) = Option.map (λ j. (j, done)) (span i set)

unfoldable pub flat_perform : List ℕ → Flat → Access → Flat × Reply
flat_perform bytes f at_peek = let (g, b) = flat_peek bytes f in (g, byte b)
flat_perform bytes f (at_advance n) = let (g, b) = flat_advance bytes f n in (g, moved b)
flat_perform bytes f (at_seek p) = (flat_seek f p, done)
flat_perform bytes f (at_span set) = (flat_span bytes f set, done)

-- what a caller sees of each call: the reply, and the cursor and tracker after it
abbrev pub View : Type 0
View = Reply × Flat

abbrev pub view : Input → Flat
view i = record { at = position i; seen = i.furthest }

unfoldable pub observe : Input → List Access → Option (List View)
observe i [] = some []
observe i (a ∷ as') = elim (perform i a) [
  | none ↦ none
  | some (j, r) ↦ Option.map (λ rest. (r, view j) ∷ rest) (observe j as')
]

unfoldable pub flat_observe : List ℕ → Flat → List Access → List View
flat_observe bytes f [] = []
flat_observe bytes f (a ∷ as') =
    let (g, r) = flat_perform bytes f a in (r, g) ∷ flat_observe bytes g as'

-- One call on the cache is that call on the flat subject.
record Performed (i : Input) (a : Access) (j : Input) (r : Reply) : Type 0 where
  valid : IsInput j
  bytes_kept : j.bytes ≡ i.bytes
  cursor : view j ≡ (flat_perform i.bytes (view i) a).0
  reply : r ≡ (flat_perform i.bytes (view i) a).1

track-max : (a b : ℕ) → (if ltb a b then b else a) ≡ max a b
track-max a b = ground arith

perform-flat :
    (i : Input) (a : Access)
    → IsInput i
    → (j : Input) × (r : Reply) × (perform i a ≡ some (j, r)) × Performed i a j r
unfolding perform flat_perform
perform-flat i at_peek v = (
  (peek i).0,
  byte (peek i).1,
  refl,
  record {
    valid = peek-IsInput i v;
    bytes_kept = unfold peek in refl;
    cursor = unfold peek flat_peek in ground (arith, track-max i.furthest (position i));
    reply = unfold flat_peek in ap byte (peek_lem i v);
  },
)
perform-flat i (at_advance n) v = (
  (advance i n).0,
  moved (advance i n).1,
  refl,
  record {
    valid = advance-IsInput i n v;
    bytes_kept = unfold advance in ground arith;
    cursor = unfold advance flat_advance in ground arith;
    reply = unfold advance flat_advance in ground arith;
  },
)
perform-flat i (at_seek p) v = (
  seek_to i p,
  done,
  refl,
  record {
    valid = seek_to-IsInput i p v;
    bytes_kept = unfold seek_to in ground arith;
    cursor = unfold seek_to flat_seek in ground arith;
    reply = refl;
  },
)
perform-flat i (at_span set) v =
    let (j, e, s) = span-Spanned i set v in
    (
      j,
      done,
      rw e refl,
      record {
        valid = s.valid;
        bytes_kept = s.same;
        cursor = unfold flat_span in ground (arith, s.moved, s.tracked);
        reply = refl;
      },
    )

observe-flat :
    (i : Input) (as' : List Access)
    → IsInput i
    → observe i as' ≡ some (flat_observe i.bytes (view i) as')
unfolding observe flat_observe
observe-flat i [] v = refl
observe-flat i (a ∷ as') v =
    let (j, r, e, d) = perform-flat i a v in
    rw (e, observe) (rw (observe-flat j as' d.valid, d.bytes_kept, d.cursor, d.reply) refl)

pub observe-tracked :
    (bytes : List ℕ) (as' : List Access)
    → observe (new bytes) as' ≡ some (flat_observe bytes (record { at = 0; seen = 0 }) as')
observe-tracked bytes as' = unfold new in observe-flat (new bytes) as' (new-IsInput bytes)

-- What the input promises: a position in the flat subject.
unfoldable pub plain_perform : List ℕ → ℕ → Access → ℕ × Reply
unfolding run_length
plain_perform bytes p at_peek = (p, byte (get_elem? bytes p))
plain_perform bytes p (at_advance n) = (p + n, moved (leb (p + n) (length bytes)))
plain_perform bytes p (at_seek q) = (q, done)
plain_perform bytes p (at_span set) = (p + run_length set (drop p bytes), done)

unfoldable pub plain_observe : List ℕ → ℕ → List Access → List (Reply × ℕ)
plain_observe bytes p [] = []
plain_observe bytes p (a ∷ as') =
    let (q, r) = plain_perform bytes p a in (r, q) ∷ plain_observe bytes q as'

-- the replies, each with the position after the call
abbrev pub answers : List View → List (Reply × ℕ)
answers [] = []
answers ((r, f) ∷ vs) = (r, f.at) ∷ answers vs

plain-flat :
    (bytes : List ℕ) (a : Access) (f : Flat)
    → plain_perform bytes f.at a ≡ ((flat_perform bytes f a).0.at, (flat_perform bytes f a).1)
unfolding flat_perform plain_perform flat_peek flat_advance flat_seek flat_span
plain-flat bytes at_peek f = refl
plain-flat bytes (at_advance n) f = refl
plain-flat bytes (at_seek q) f = refl
plain-flat bytes (at_span set) f = refl

answers-flat_observe :
    (bytes : List ℕ) (as' : List Access) (f : Flat)
    → answers (flat_observe bytes f as') ≡ plain_observe bytes f.at as'
unfolding flat_observe plain_observe
answers-flat_observe bytes [] f = refl
answers-flat_observe bytes (a ∷ as') f =
    let g = (flat_perform bytes f a).0 in
    let e : (plain_perform bytes f.at a) ≡ (g.at, (flat_perform bytes f a).1) =
      plain-flat bytes a f in
    rw e (ap (λ rest. ((flat_perform bytes f a).1, g.at) ∷ rest) (answers-flat_observe bytes as' g))

-- Any sequence of reads, advances, seeks and spans over the chunk cache returns, and each call gives
-- the reply and the position that it has over the flat subject: a read the byte or the end, an
-- advance whether it stays in the subject, a span the end of the longest run.
pub observe-new :
    (bytes : List ℕ) (as' : List Access)
    → Option.map answers (observe (new bytes) as') ≡ some (plain_observe bytes 0 as')
observe-new bytes as' =
    rw (observe-tracked bytes as')
      (ap some (answers-flat_observe bytes as' (record { at = 0; seen = 0 })))
