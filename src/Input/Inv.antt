-- ===== src/Input/Inv.antt =====
-- The invariant of the chunk cache, and what `new`, `peek`, `advance` and `seek_to` do under it.
use libpeg.Prelude.{
  ℕ, zero, suc, ◌+◌, ◌-◌, ◌≤◌, ◌<◌, ◌≡◌, ◌⊎◌, inl, inr, refl, sym, ◌∙◌, ◌&&◌, none, some, List, [],
  ◌∷◌, arith, ltb, leb, lt→ltb, if◌then◌else◌, length, get_elem?, get_or, take, drop, Bool-cases,
}
use libpeg.Input.{Input, chunk_size, new, refill, position, peek, advance, seek_to}

-- The cache is a window of the subject, and the cursor stands in it or at the end of the subject.
pub record IsInput (i : Input) : Type 0 where
  pub window : (k : ℕ) → k < i.nchunk → get_elem? i.chunk k ≡ get_elem? i.bytes (i.base + k)
  pub inside : i.base + i.nchunk ≤ length i.bytes ⊎ i.nchunk ≡ 0
  pub cursor : (i.coff < i.nchunk) ⊎ ((i.coff ≡ 0) × (i.nchunk ≡ 0) × (length i.bytes ≤ i.base))

get_elem?-drop {ℓ} :
    {A : Type ℓ} (n : ℕ) (xs : List A) (k : ℕ) → get_elem? (drop n xs) k ≡ get_elem? xs (n + k)
get_elem?-drop zero xs k = let e : 0 + k ≡ k = omega arith in rw e refl
get_elem?-drop (suc n) [] k = refl
get_elem?-drop (suc n) (x ∷ xs) k =
    let e : suc n + k ≡ suc (n + k) = omega arith in rw e (get_elem?-drop n xs k)

get_elem?-take {ℓ} :
    {A : Type ℓ} (n : ℕ) (xs : List A) (k : ℕ) → k < n → get_elem? (take n xs) k ≡ get_elem? xs k
get_elem?-take zero xs k h = elim h [ ]
get_elem?-take (suc n) [] k h = refl
get_elem?-take (suc n) (x ∷ xs) zero h = refl
get_elem?-take (suc n) (x ∷ xs) (suc k) h = get_elem?-take n xs k (omega arith)

pub get_elem?-get_or {ℓ} :
    {A : Type ℓ} (xs : List A) (k : ℕ) (d : A)
    → k < length xs
    → get_elem? xs k ≡ some (get_or xs k d)
get_elem?-get_or [] k d h = elim h [ ]
get_elem?-get_or (x ∷ xs) zero d h = refl
get_elem?-get_or (x ∷ xs) (suc k) d h = get_elem?-get_or xs k d (omega arith)

pub get_elem?_past {ℓ} : {A : Type ℓ} (xs : List A) (k : ℕ) → length xs ≤ k → get_elem? xs k ≡ none
get_elem?_past [] k h = refl
get_elem?_past (x ∷ xs) zero h = elim h [ ]
get_elem?_past (x ∷ xs) (suc k) h = get_elem?_past xs k (omega arith)

get_or_of_get_elem? {ℓ} :
    {A : Type ℓ} (xs : List A) (k : ℕ) (d a : A) → get_elem? xs k ≡ some a → get_or xs k d ≡ a
get_or_of_get_elem? [] k d a h = ground arith
get_or_of_get_elem? (x ∷ xs) zero d a h = ground arith
get_or_of_get_elem? (x ∷ xs) (suc k) d a h = get_or_of_get_elem? xs k d a h

-- Under the invariant a read through the cache is a read of the subject.
pub chunk_read :
    (i : Input) (k : ℕ)
    → IsInput i
    → k < i.nchunk
    → some (get_or i.chunk k 0) ≡ get_elem? i.bytes (i.base + k)
chunk_read i k v h =
    let in_range : i.base + k < length i.bytes = ground (arith, v.inside) in
    let there = get_elem?-get_or i.bytes (i.base + k) 0 in_range in
    let here = get_or_of_get_elem? i.chunk k 0 _ (v.window k h ∙ there) in rw here (sym there)

chunk_size-le : (n : ℕ) → chunk_size n ≤ n
chunk_size-le n = ground arith

chunk_size_cases : (n : ℕ) → (0 < chunk_size n) ⊎ ((chunk_size n ≡ 0) × (n ≡ 0))
chunk_size_cases n = ground arith

-- The window that a refill reads, whatever was cached before.
refill_window :
    (n pos : ℕ) (bytes old : List ℕ) (k : ℕ)
    → k < n
    → get_elem? (if ltb 0 n then take n (drop pos bytes) else old) k ≡ get_elem? bytes (pos + k)
refill_window zero pos bytes old k h = elim h [ ]
refill_window (suc n) pos bytes old k h =
    rw (lt→ltb 0 (suc n) (omega arith))
      (get_elem?-take (suc n) (drop pos bytes) k h ∙ get_elem?-drop pos bytes k)

-- A refill establishes the invariant from any state.
pub refill-IsInput : (i : Input) (pos : ℕ) → IsInput (refill i pos)
unfolding refill
refill-IsInput i pos = record {
  window = λ k h. refill_window (chunk_size (length i.bytes - pos)) pos i.bytes i.chunk k h;
  inside = ground (arith, chunk_size-le (length i.bytes - pos));
  cursor = ground arith;
}

pub new-IsInput : (bytes : List ℕ) → IsInput (new bytes)
unfolding new
new-IsInput bytes = record {
  window = λ k h. let e : 0 + k ≡ k = omega arith in rw e (get_elem?-take _ bytes k h);
  inside = ground arith;
  cursor = ground arith;
}

pub peek-IsInput : (i : Input) → IsInput i → IsInput (peek i).0
unfolding peek
peek-IsInput i v = record { window = v.window; inside = v.inside; cursor = v.cursor }

-- A peek of a well-formed input yields the byte of the subject at the cursor, and none past its end.
pub peek_lem : (i : Input) → IsInput i → (peek i).1 ≡ get_elem? i.bytes (position i)
unfolding peek
peek_lem i v = elim v.cursor [
  | inl h ↦ ground (arith, chunk_read i i.coff v h)
  | inr h ↦ ground (arith, get_elem?_past i.bytes (i.base + i.coff))
]

pub advance-IsInput : (i : Input) (n : ℕ) → IsInput i → IsInput (advance i n).0
unfolding advance
advance-IsInput i n v = elim (Bool-cases (leb i.nchunk (i.coff + n))) [
  | inl past ↦ rw past (refill-IsInput (record i { coff = i.coff + n }) (position i + n))
  | inr within ↦
      rw within (record { window = v.window; inside = v.inside; cursor = inl (ground arith) })
]

pub position-advance : (i : Input) (n : ℕ) → position (advance i n).0 ≡ position i + n
unfolding advance
position-advance i n = ground arith

pub seek_to-IsInput : (i : Input) (pos : ℕ) → IsInput i → IsInput (seek_to i pos)
unfolding seek_to
seek_to-IsInput i pos v = elim (Bool-cases (ltb pos (i.base + i.nchunk) && leb i.base pos)) [
  | inl cached ↦
      rw cached (record { window = v.window; inside = v.inside; cursor = inl (ground arith) })
  | inr miss ↦ rw miss (refill-IsInput i pos)
]

pub position-seek_to : (i : Input) (pos : ℕ) → position (seek_to i pos) ≡ pos
unfolding seek_to
position-seek_to i pos = ground arith
