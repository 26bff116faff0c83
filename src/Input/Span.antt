-- ===== src/Input/Span.antt =====
-- `input_span` consumes exactly the longest run of bytes in the set, across chunk boundaries, and
-- its loop ends.
use libpeg.Prelude.{
  ℕ, zero, suc, ◌+◌, ◌-◌, ◌≤◌, ◌<◌, max, ◌≡◌, inl, inr, refl, sym, ◌∙◌, ap, true, false, ◌||◌, some,
  List, [], ◌∷◌, arith, ltb, ◌==◌, Bool-cases, length, get_elem?, get_or, drop,
}
use libpeg.Charset.{Charset, has}
use libpeg.Input.{Input, refill, position, scan, span_round, span_loop, span}
use libpeg.Input.Flat.{run_length}
use libpeg.Input.Inv.{IsInput, chunk_read, refill-IsInput}

drop_step : (xs : List ℕ) (p c : ℕ) → get_elem? xs p ≡ some c → drop p xs ≡ c ∷ drop (suc p) xs
drop_step [] p c h = ground arith
drop_step (x ∷ xs) zero c h = ground arith
drop_step (x ∷ xs) (suc p) c h = drop_step xs p c h

drop_past : (xs : List ℕ) (p : ℕ) → length xs ≤ p → drop p xs ≡ []
drop_past [] zero h = refl
drop_past [] (suc p) h = refl
drop_past (x ∷ xs) zero h = elim h [ ]
drop_past (x ∷ xs) (suc p) h = drop_past xs p (omega arith)

module _ (set : Charset) (bytes : List ℕ) where
  -- the run that starts at a position
  abbrev run_at : ℕ → ℕ
  run_at p = run_length set (drop p bytes)

  run_at_past : (p : ℕ) → length bytes ≤ p → run_at p ≡ 0
  unfolding run_length
  run_at_past p h = rw (drop_past bytes p h) refl

  run_at_hit :
      (p c : ℕ) → get_elem? bytes p ≡ some c → has set c ≡ true → run_at p ≡ suc (run_at (suc p))
  unfolding run_length
  run_at_hit p c e h = rw (drop_step bytes p c e, run_length, h) refl

  run_at_miss : (p c : ℕ) → get_elem? bytes p ≡ some c → has set c ≡ false → run_at p ≡ 0
  unfolding run_length
  run_at_miss p c e h = rw (drop_step bytes p c e, run_length, h) refl

-- What the inner loop finds: it stops inside the chunk only where the run ends.
record Scanned (set : Charset) (i : Input) (from to : ℕ) : Type 0 where
  forward : from ≤ to
  within : to ≤ i.nchunk
  consumed : run_at set i.bytes (i.base + from) ≡ (to - from) + run_at set i.bytes (i.base + to)
  stopped : to < i.nchunk → run_at set i.bytes (i.base + to) ≡ 0

scan-Scanned :
    (set : Charset) (i : Input) (left from : ℕ)
    → IsInput i
    → from + left ≡ i.nchunk
    → Scanned set i from (scan set i.chunk left from)
unfolding scan
scan-Scanned set i zero from v e = record {
  forward = omega arith;
  within = omega arith;
  consumed = omega arith;
  stopped = λ h. absurd (omega arith);
}
scan-Scanned set i (suc left) from v e =
    let c : ℕ = get_or i.chunk from 0 in
    let there = chunk_read i from v (omega arith) in
    let e' : i.base + (from + 1) ≡ suc (i.base + from) = omega arith in
    elim (Bool-cases (has set c)) [
      | inl hit ↦
          let rest = scan-Scanned set i left (from + 1) v (omega arith) in
          let more = run_at_hit set i.bytes (i.base + from) c (sym there) hit in
          rw hit (record {
            forward = omega (arith, rest.forward);
            within = rest.within;
            consumed = omega (arith, more, rw e' at (rest.consumed), rest.forward);
            stopped = rest.stopped;
          })
      | inr miss ↦
          let ends = run_at_miss set i.bytes (i.base + from) c (sym there) miss in
          rw miss (record {
            forward = omega arith;
            within = omega arith;
            consumed = omega arith;
            stopped = λ h. ends;
          })
    ]

-- The outcome of a span that started in `i`.
pub record Spanned (set : Charset) (i j : Input) : Type 0 where
  pub valid : IsInput j
  pub same : j.bytes ≡ i.bytes
  pub moved : position j ≡ position i + run_length set (drop (position i) i.bytes)
  pub tracked : j.furthest ≡ max i.furthest (position j)

-- What one round of the outer loop does.
record Rounded (set : Charset) (i j : Input) : Type 0 where
  bytes_kept : j.bytes ≡ i.bytes
  chunk_kept : j.chunk ≡ i.chunk
  nchunk_kept : j.nchunk ≡ i.nchunk
  base_kept : j.base ≡ i.base
  scanned : Scanned set i i.coff j.coff
  tracked : j.furthest ≡ max i.furthest (position j)

span_round-Rounded : (set : Charset) (i : Input) → IsInput i → Rounded set i (span_round set i)
unfolding span_round
span_round-Rounded set i v = record {
  bytes_kept = refl;
  chunk_kept = refl;
  nchunk_kept = refl;
  base_kept = refl;
  scanned = scan-Scanned set i (i.nchunk - i.coff) i.coff v (ground (arith, v.cursor));
  tracked = ground arith;
}

-- The last round: the run ended inside the chunk, or the subject is exhausted.
last_round :
    (set : Charset) (i j : Input)
    → IsInput i
    → Rounded set i j
    → (ltb j.coff j.nchunk || j.nchunk == 0) ≡ true
    → Spanned set i j
last_round set i j v r stop = record {
  valid = record {
    window =
        λ k h. rw (r.chunk_kept, r.bytes_kept, r.base_kept) (v.window k (rw (← r.nchunk_kept) h));
    inside =
        ground (arith, v.inside, r.base_kept, r.nchunk_kept, ap (length {0} {A = ℕ}) r.bytes_kept);
    cursor = ground (arith, v.cursor, ap (length {0} {A = ℕ}) r.bytes_kept);
  };
  same = r.bytes_kept;
  moved = ground (
    arith,
    v.cursor,
    run_at_past set i.bytes (i.base + j.coff),
    r.scanned.consumed,
    r.scanned.stopped,
  );
  tracked = r.tracked;
}

-- A round that exhausts the chunk, the refill, and a span from there.
next_round :
    (set : Charset) (i j k : Input)
    → IsInput i
    → Rounded set i j
    → (ltb j.coff j.nchunk || j.nchunk == 0) ≡ false
    → Spanned set (refill j (position j)) k
    → Spanned set i k
unfolding refill
next_round set i j k v r go s = record {
  valid = s.valid;
  same = s.same ∙ r.bytes_kept;
  moved =
      let e : position j + 0 ≡ i.base + j.coff = omega (arith, r.base_kept) in
      let rest = rw (e, r.bytes_kept) at s.moved in
      omega (arith, rest, r.scanned.consumed, r.scanned.forward, r.base_kept);
  tracked = omega (arith, s.tracked, r.tracked, s.moved);
}

-- Such a round had bytes to consume, so the cursor moved forward inside the subject.
left_over :
    (set : Charset) (i j : Input)
    → IsInput i
    → Rounded set i j
    → (ltb j.coff j.nchunk || j.nchunk == 0) ≡ false
    → (position i < position j) × (position i < length i.bytes)
left_over set i j v r go = (
  ground (arith, v.cursor, v.inside, r.scanned.within, r.base_kept, r.nchunk_kept),
  ground (arith, v.cursor, v.inside, r.scanned.within, r.base_kept, r.nchunk_kept),
)

later :
    (fuel : ℕ) (set : Charset) (i j : Input)
    → IsInput i
    → Rounded set i j
    → (ltb j.coff j.nchunk || j.nchunk == 0) ≡ false
    → length i.bytes < position i + suc fuel
    → length j.bytes < position (refill j (position j)) + fuel
unfolding refill
later fuel set i j v r go h =
    omega (arith, left_over set i j v r go, ap (length {0} {A = ℕ}) r.bytes_kept)

span_loop-Spanned :
    (fuel : ℕ) (set : Charset) (i : Input)
    → IsInput i
    → 0 < fuel
    → length i.bytes < position i + fuel
    → (j : Input) × (span_loop fuel set i ≡ some j) × Spanned set i j
unfolding span_loop
span_loop-Spanned zero set i v p h = elim p [ ]
span_loop-Spanned (suc fuel) set i v p h =
    let j = span_round set i in
    let r = span_round-Rounded set i v in
    elim (Bool-cases (ltb j.coff j.nchunk || j.nchunk == 0)) [
      | inl stop ↦ (j, rw stop refl, last_round set i j v r stop)
      | inr go ↦
          let k = refill j (position j) in
          let gap = left_over set i j v r go in
          let (l, e, s) =
            span_loop-Spanned fuel set k (refill-IsInput j (position j)) (omega (arith, gap))
              (later fuel set i j v r go h) in
          (l, rw go e, next_round set i j l v r go s)
    ]

-- A span of a well-formed input returns: it keeps the input well formed and its subject, consumes the
-- longest run of bytes of the set that starts at the cursor, and tracks the position where it ends.
pub span-Spanned :
    (i : Input) (set : Charset) → IsInput i → (j : Input) × (span i set ≡ some j) × Spanned set i j
unfolding span
span-Spanned i set v = span_loop-Spanned (length i.bytes + 2) set i v (omega arith) (omega arith)
