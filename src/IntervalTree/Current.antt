-- ===== src/IntervalTree/Current.antt =====
-- A node that has been brought up to date stays as it is: the second replay of the log is idle,
-- whatever `max` and the height become in between.
use libpeg.Prelude.{
  ℕ, zero, suc, ◌-◌, ◌≤◌, ◌<◌, ◌≡◌, refl, sym, ap, ◌∙◌, true, false, List, [], ◌∷◌, some, drop,
  get_elem?, length, arith, Bool-cases, inl, inr,
}
use libpeg.IntervalTree.Node.{Key, Ivals, Node, Tree, Shift, update_max}
use libpeg.IntervalTree.Shifts.{
  absorb, apply_shift, newer, first_pending, apply_each, replay, apply_shifts,
}

-- the node has absorbed the newest shift
abbrev pub IsCurrent : List Shift → Node → Type 0
IsCurrent log n = newer (get_elem? log (length log - 1)) n.tstamp ≡ false

absorb_tstamp : (n : Node) (s : Shift) → (absorb n s).tstamp ≡ n.tstamp
unfolding absorb
absorb_tstamp n s = ground arith

apply_shift_tstamp :
    (n : Node) (s : Shift)
    → (n.tstamp ≤ (apply_shift n s).tstamp) × (s.tstamp ≤ (apply_shift n s).tstamp)
unfolding apply_shift
apply_shift_tstamp n s = ground (arith, absorb_tstamp (record n { tstamp = s.tstamp }) s)

apply_each-grows : (ss : List Shift) (n : Node) → n.tstamp ≤ (apply_each n ss).tstamp
unfolding apply_each
apply_each-grows [] n = omega arith
apply_each-grows (s ∷ ss) n =
    omega (arith, (apply_shift_tstamp n s).0, apply_each-grows ss (apply_shift n s))

-- The replay from index `j` on absorbs the shift at a later index.
apply_each-absorbs :
    (ss : List Shift) (j k : ℕ) (s : Shift) (n : Node)
    → j ≤ k
    → get_elem? ss k ≡ some s
    → s.tstamp ≤ (apply_each n (drop j ss)).tstamp
unfolding apply_each
apply_each-absorbs [] j k s n h e = absurd (ground arith)
apply_each-absorbs (t ∷ ss) zero zero s n h e =
    let same : t ≡ s = ground arith in
    let grows = apply_each-grows ss (apply_shift n t) in
    rw (sym same) (omega (arith, (apply_shift_tstamp n t).1, grows))
apply_each-absorbs (t ∷ ss) zero (suc k) s n h e =
    apply_each-absorbs ss zero k s (apply_shift n t) (omega arith) e
apply_each-absorbs (t ∷ ss) (suc j) zero s n h e = absurd (omega arith)
apply_each-absorbs (t ∷ ss) (suc j) (suc k) s n h e = apply_each-absorbs ss j k s n (omega arith) e

pub first_pending-le : (log : List Shift) (ts j : ℕ) → first_pending log ts j ≤ j
unfolding first_pending
first_pending-le log ts zero = omega arith
first_pending-le log ts (suc j) = ground (arith, first_pending-le log ts j)

newer-false : (s : Shift) (ts : ℕ) → s.tstamp ≤ ts → newer (some s) ts ≡ false
newer-false s ts h = ground arith

first_pending_start :
    (log : List Shift) (ts k : ℕ)
    → newer (get_elem? log k) ts ≡ true
    → first_pending log ts (suc k) ≤ k
unfolding first_pending
first_pending_start log ts k more = rw (more, first_pending) (first_pending-le log ts k)

replay-last :
    (log : List Shift) (n : Node) (k j : ℕ) (s : Shift)
    → j ≤ k
    → get_elem? log k ≡ some s
    → newer (get_elem? log k) (apply_each n (drop j log)).tstamp ≡ false
replay-last log n k j s h e = rw e (newer-false s _ (apply_each-absorbs log j k s n h e))

pub get_elem?-inside :
    (log : List Shift) (k : ℕ) → k < length log → (s : Shift) × (get_elem? log k ≡ some s)
get_elem?-inside [] k h = absurd (omega arith)
get_elem?-inside (s ∷ ss) zero h = (s, refl)
get_elem?-inside (s ∷ ss) (suc k) h = get_elem?-inside ss k (omega arith)

pub replay_more :
    (log : List Shift) (n : Node)
    → newer (get_elem? log (length log - 1)) n.tstamp ≡ true
    → replay log n ≡ apply_each n (drop (first_pending log n.tstamp (length log)) log)
unfolding replay
replay_more log n more = rw (more, replay) refl

-- Replaying over a current node changes nothing.
pub replay_done : (log : List Shift) (n : Node) → IsCurrent log n → replay log n ≡ n
unfolding replay
replay_done log n c = rw (c, replay) refl

pub replay-IsCurrent : (log : List Shift) (n : Node) → IsCurrent log (replay log n)
replay-IsCurrent [] n = refl
replay-IsCurrent (s ∷ ss) n =
    let log : List Shift = s ∷ ss in
    let k = length ss in
    let last : length log - 1 ≡ k = omega arith in
    elim (Bool-cases (newer (get_elem? log (length log - 1)) n.tstamp)) [
      | inr done ↦ rw (replay_done log n done) done
      | inl more ↦
          let (t, e) = get_elem?-inside log k (omega arith) in
          let start = first_pending_start log n.tstamp k (rw last at more) in
          rw (replay_more log n more, last) (replay-last log n k _ t start e)
    ]

-- what a node holds, and what it holds after the replay of its shifts
pub record Group : Type 0 where
  pub key : Key
  pub iv : Ivals

abbrev pub held : Node → Group
held n = record { key = n.key; iv = n.iv }

abbrev pub group : List Shift → Node → Group
group log n = held (replay log n)

pub held-apply_shifts :
    (log : List Shift) (n : Node) (l r : Tree) → held (apply_shifts log n l r) ≡ group log n
unfolding apply_shifts update_max replay
held-apply_shifts [] n l r = refl
held-apply_shifts (s ∷ ss) n l r = refl

pub apply_shifts-IsCurrent :
    (log : List Shift) (n : Node) (l r : Tree) → IsCurrent log (apply_shifts log n l r)
unfolding apply_shifts update_max
apply_shifts-IsCurrent [] n l r = refl
apply_shifts-IsCurrent (s ∷ ss) n l r = replay-IsCurrent (s ∷ ss) n

pub group-apply_shifts :
    (log : List Shift) (n : Node) (l r : Tree) → group log (apply_shifts log n l r) ≡ group log n
group-apply_shifts log n l r =
    ap held (replay_done log _ (apply_shifts-IsCurrent log n l r)) ∙ held-apply_shifts log n l r
