-- ===== src/Machine/Runs.antt =====
-- Runs of the loop of `vm_exec` (src/vm.c), seen from the instruction pointer, the position and the
-- kinds of the entries on the stack.
use libpeg.Prelude.{
  ℕ, suc, ◌≡◌, refl, ◌∙◌, Bool, true, false, List, [], ◌∷◌, map, Option, none, some, get_elem?,
  length, arith,
}
use libpeg.Prelude.Int.{pos}
use libpeg.Input
use libpeg.Input.{Input, position}
use libpeg.Input.Inv.{IsInput, seek_to-IsInput, position-seek_to}
use libpeg.Code.Insn.{Insn}
use libpeg.Machine.Stack.{Entry, Kind, btrack, Stack, stack_pop, stack_add_capt, entry_add_capt}
use libpeg.Machine.State
use libpeg.Machine.State.{
  Run, State, Outcome, loop, fail, done, release, unref_all, drop_top, seek, goto, at,
}
use libpeg.Machine.Exec.{exec, unwind, step}

abbrev pub kinds : List Entry → List Kind
kinds es = map (λ e. e.kind) es

-- a well-formed input over these bytes, at this position
pub record Reads (bytes : List ℕ) (i : Input) (at : ℕ) : Type 0 where
  pub valid : IsInput i
  pub subject : i.bytes ≡ bytes
  pub position : position i ≡ at

-- a state between two instructions
pub record At (bytes : List ℕ) (s : State) (target at : ℕ) (ks : List Kind) : Type 0 where
  pub reads : Reads bytes s.input at
  pub ip : s.ip ≡ target
  pub stack : kinds s.stack.entries ≡ ks

-- a state in which the machine unwinds
pub record Lost (bytes : List ℕ) (s : State) (ks : List Kind) : Type 0 where
  pub at : ℕ
  pub reads : Reads bytes s.input at
  pub stack : kinds s.stack.entries ≡ ks

module _ (bytes : List ℕ) (r : Run) where
  -- one round of the loop goes from `s` to such a state
  abbrev pub Goes : State → ℕ → ℕ → List Kind → Type 0
  Goes s ip at ks = (s' : State) × (step r s ≡ some (s', none)) × At bytes s' ip at ks

  -- the instruction at `s` fails
  abbrev pub Failing : State → List Kind → Type 0
  Failing s ks =
      (i : Insn) × (s' : State) × (get_elem? r.prog s.ip ≡ some i)
      × (exec r i s ≡ some (fail s'))
      × Lost bytes s' ks

  -- From `s` the loop gets past some code: to its end `ip`, or to an instruction that fails. The
  -- entries that were on the stack are there again.
  pub data Does : State → ℕ → List Kind → Option ℕ → Type 0 where
    arrives :
        {s : State} {ip at : ℕ} {ks : List Kind} → At bytes s ip at ks → Does s ip ks (some at)
    fails : {s : State} {ip : ℕ} {ks : List Kind} → Failing s ks → Does s ip ks none
    steps :
        {s s' : State} {ip : ℕ} {ks : List Kind} {o : Option ℕ}
        → step r s ≡ some (s', none)
        → Does s' ip ks o
        → Does s ip ks o

-- A pop takes the top entry, and leaves the kinds of the others.
pub popped :
    (st : Stack) (propagate : Bool) (es : List Entry) {k : Kind} {ks : List Kind}
    → st.entries ≡ es
    → kinds es ≡ k ∷ ks
    → (st' : Stack) × (e : Entry) × (stack_pop st propagate ≡ some (st', e))
      × (e.kind ≡ k)
      × (kinds st'.entries ≡ ks)
      × (length st.entries ≡ suc (length st'.entries))
unfolding stack_pop stack_add_capt entry_add_capt
popped st propagate [] h m = absurd (cc m)
popped st false (e ∷ es) h m = (record st { entries = es }, e, rw h refl, cc m, cc m, rw h refl)
popped st true (e ∷ []) h m =
    (stack_add_capt (record st { entries = [] }) e.capts, e, rw h refl, cc m, cc m, rw h refl)
popped st true (e ∷ b ∷ es) h m =
    (stack_add_capt (record st { entries = b ∷ es }) e.capts, e, rw h refl, cc m, cc m, rw h refl)

-- A pop takes the top entry, by its kind, and changes nothing but the stack.
pub drop_top_lem :
    (s : State) (propagate : Bool) {k : Kind} {ks : List Kind}
    → kinds s.stack.entries ≡ k ∷ ks
    → (st : Stack) × (drop_top propagate s ≡ some (record s { stack = st }, k))
      × (kinds st.entries ≡ ks)
unfolding release
drop_top_lem s propagate m =
    let (st, e, here, kind, stack, _) = popped s.stack propagate s.stack.entries refl m in
    (record st { refs = unref_all e.capts st.refs }, rw (here, kind) refl, stack)

pub unwind-btrack :
    (fuel : ℕ) (r : Run) (s : State) {st : Stack} {e : Entry} {ip off : ℕ}
    → stack_pop s.stack false ≡ some (st, e)
    → e.kind ≡ btrack (pos ip) (pos off)
    → unwind (suc fuel) r s
      ≡ some (
        record (release e.capts (record s { stack = st })) {
          input = Input.seek_to s.input off;
          ip = ip;
        },
        true,
      )
unfolding unwind release
unwind-btrack fuel r s h k = rw (h, k, unwind, State.pop) refl

bytes-seek_to : (i : Input) (to : ℕ) → (Input.seek_to i to).bytes ≡ i.bytes
unfolding Input.seek_to Input.refill
bytes-seek_to i to = ground arith

pub Reads-seek_to :
    {bytes : List ℕ} (i : Input) (to : ℕ) {at : ℕ}
    → Reads bytes i at
    → Reads bytes (Input.seek_to i to) to
Reads-seek_to i to v = record {
  valid = seek_to-IsInput i to v.valid;
  subject = bytes-seek_to i to ∙ v.subject;
  position = position-seek_to i to;
}

module _ {bytes : List ℕ} (r : Run) where
  -- The run goes on where some code was left behind.
  pub Does-then :
      {s : State} {ip ip' at : ℕ} {ks ks' : List Kind} {o : Option ℕ}
      → Does bytes r s ip ks (some at)
      → ((s' : State) → At bytes s' ip at ks → Does bytes r s' ip' ks' o)
      → Does bytes r s ip' ks' o
  Does-then (arrives a) k = k _ a
  Does-then (steps h d) k = steps h (Does-then d k)

  -- A failure does not depend on where the code ends.
  pub Does-none :
      {s : State} {ip ip' : ℕ} {ks : List Kind}
      → Does bytes r s ip ks none
      → Does bytes r s ip' ks none
  Does-none (fails f) = fails f
  Does-none (steps h d) = steps h (Does-none d)

  pub goes :
      {s : State} {ip ip' at : ℕ} {ks ks' : List Kind} {o : Option ℕ}
      → Goes bytes r s ip at ks
      → ((s' : State) → At bytes s' ip at ks → Does bytes r s' ip' ks' o)
      → Does bytes r s ip' ks' o
  goes (s', h, a) k = steps h (k s' a)

  unwind_lem :
      (s : State) {ip off : ℕ} {ks : List Kind}
      → Lost bytes s (btrack (pos ip) (pos off) ∷ ks)
      → (s' : State) × (unwind (length s.stack.entries) r s ≡ some (s', true))
        × At bytes s' ip off ks
  unfolding release
  unwind_lem s {ip = ip} {off = off} l =
      let (st, e, here, kind, stack, height) = popped s.stack false s.stack.entries refl l.stack in
      (
        record (release e.capts (record s { stack = st })) {
          input = Input.seek_to s.input off;
          ip = ip;
        },
        rw height (unwind-btrack (length st.entries) r s here kind),
        record { reads = Reads-seek_to s.input off l.reads; ip = refl; stack = stack },
      )

  -- A failure goes back to the choice on the top of the stack.
  catches :
      (s : State) {ip off : ℕ} {ks : List Kind}
      → Failing bytes r s (btrack (pos ip) (pos off) ∷ ks)
      → Goes bytes r s ip off ks
  unfolding step
  catches s (i, s', get, ran, lost) =
      let (s'', h, a) = unwind_lem s' lost in (s'', rw (get, ran, h) refl, a)

  pub Does-catch :
      {s : State} {ip ip' a off : ℕ} {ks : List Kind} {o : Option ℕ}
      → Does bytes r s ip (btrack (pos a) (pos off) ∷ ks) none
      → ((s' : State) → At bytes s' a off ks → Does bytes r s' ip' ks o)
      → Does bytes r s ip' ks o
  Does-catch (fails f) k = goes (catches _ f) k
  Does-catch (steps h d) k = steps h (Does-catch d k)
