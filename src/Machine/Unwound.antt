-- ===== src/Machine/Unwound.antt =====
-- The unwinding after a failure in `vm_exec` (src/vm.c).
use libpeg.Prelude.{ℕ, suc, ◌≡◌, refl, sym, ◌∙◌, true, false, List, [], ◌∷◌, ◌++◌, some, length}
use libpeg.Prelude.Int.{pos}
use libpeg.Input
use libpeg.Machine.Stack
use libpeg.Machine.Stack.{Entry, Kind, ret, btrack, memo, memo_tree, capt, check, stack_pop}
use libpeg.Machine.State
use libpeg.Machine.State.{Run, State, release, unref_all}
use libpeg.Machine.Exec.{unwind}
use libpeg.Machine.Runs.{kinds, Reads, At, Reads-seek_to, popped, unwind-btrack}

-- the entries that a failure only drops
abbrev pub Dropped : List Kind → Type 0
Dropped [] = Unit
Dropped (btrack back off ∷ ks) = ⊥
Dropped (memo id start ∷ ks) = ⊥
Dropped (k ∷ ks) = Dropped ks

unwind-drop :
    (fuel : ℕ) (r : Run) (s : State) {st : Stack.Stack} {e : Entry} (k : Kind) (ks : List Kind)
    → Dropped (k ∷ ks)
    → stack_pop s.stack false ≡ some (st, e)
    → e.kind ≡ k
    → unwind (suc fuel) r s ≡ unwind fuel r (release e.capts (record s { stack = st }))
unfolding unwind
unwind-drop fuel r s (ret back) ks d h kind = rw (h, kind, unwind, State.pop) refl
unwind-drop fuel r s (btrack back off) ks d h kind = absurd d
unwind-drop fuel r s (memo id start) ks d h kind = absurd d
unwind-drop fuel r s (memo_tree id start count) ks d h kind = rw (h, kind, unwind, State.pop) refl
unwind-drop fuel r s (capt id start) ks d h kind = rw (h, kind, unwind, State.pop) refl
unwind-drop fuel r s (check id start flag) ks d h kind = rw (h, kind, unwind, State.pop) refl

Dropped-rest : (k : Kind) (ks : List Kind) → Dropped (k ∷ ks) → Dropped ks
Dropped-rest (ret back) ks d = d
Dropped-rest (btrack back off) ks d = absurd d
Dropped-rest (memo id start) ks d = absurd d
Dropped-rest (memo_tree id start count) ks d = d
Dropped-rest (capt id start) ks d = d
Dropped-rest (check id start flag) ks d = d

back_to :
    (bytes : List ℕ) (r : Run) (fuel : ℕ) (s : State) (above ks : List Kind) (ip off at : ℕ)
    → Dropped above
    → kinds s.stack.entries ≡ above ++ (btrack (pos ip) (pos off) ∷ ks)
    → length s.stack.entries ≡ fuel
    → Reads bytes s.input at
    → (s' : State) × (unwind fuel r s ≡ some (s', true))
      × At bytes s' ip off ks
      × (s'.heap ≡ s.heap)
unfolding release
back_to bytes r fuel s [] ks ip off at d stack size reads =
    let (st, e, here, kind, below, height) = popped s.stack false s.stack.entries refl stack in
    (
      record (release e.capts (record s { stack = st })) {
        input = Input.seek_to s.input off;
        ip = ip;
      },
      rw (sym size ∙ height) (unwind-btrack (length st.entries) r s here kind),
      record { reads = Reads-seek_to s.input off reads; ip = refl; stack = below },
      refl,
    )
back_to bytes r fuel s (k ∷ above) ks ip off at d stack size reads =
    let (st, e, here, kind, below, height) = popped s.stack false s.stack.entries refl stack in
    let (s', ran, a, heap) =
      back_to bytes r (length st.entries) (release e.capts (record s { stack = st })) above ks ip
        off at (Dropped-rest k above d) below refl reads in
    (
      s',
      rw (sym size ∙ height) (unwind-drop (length st.entries) r s k above d here kind ∙ ran),
      a,
      heap,
    )

-- A failure over a well-formed input, with a choice on the stack and no memo entry above it: the
-- unwinding drops what is above the choice, goes back to its instruction and its position, leaves the
-- entries below it, by their kinds, and keeps the subject, the captures and the memo table.
pub unwind-At :
    (bytes : List ℕ) (r : Run) (s : State) (above ks : List Kind) (ip off at : ℕ)
    → Dropped above
    → kinds s.stack.entries ≡ above ++ (btrack (pos ip) (pos off) ∷ ks)
    → Reads bytes s.input at
    → (s' : State) × (unwind (length s.stack.entries) r s ≡ some (s', true))
      × At bytes s' ip off ks
      × (s'.heap ≡ s.heap)
unwind-At bytes r s above ks ip off at d stack reads =
    back_to bytes r (length s.stack.entries) s above ks ip off at d stack refl reads
