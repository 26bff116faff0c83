-- ===== src/Machine/Effects.antt =====
-- What single instructions of `vm_exec` (src/vm.c) do to the instruction pointer, the position and the
-- kinds of the entries on the stack.
use libpeg.Prelude.{
  ℕ, ◌+◌, ◌≤◌, ◌<◌, ◌≡◌, refl, ◌∙◌, Bool, true, false, List, [], ◌∷◌, some, get_elem?, length, drop,
  arith, leb,
}
use libpeg.Prelude.Int.{ℤ, pos}
use libpeg.Charset.{Charset}
use libpeg.Input
use libpeg.Input.{Input, position}
use libpeg.Input.Inv.{peek-IsInput, peek_lem, advance-IsInput, position-advance}
use libpeg.Code.Insn.{Insn}
use libpeg.Machine.Stack
use libpeg.Machine.Stack.{Entry, Kind, btrack, stack_prop_capt}
use libpeg.Machine.State
use libpeg.Machine.State.{Run, State, Outcome, loop, fail, passes, peek_test, at}
use libpeg.Machine.Match.{match_byte, test_byte_nochoice, match_any, match_span}
use libpeg.Machine.Control.{commit, partial_commit, back_commit, fail_twice}
use libpeg.Input.Flat.{run_length}
use libpeg.Input.Span.{span-Spanned}
use libpeg.Machine.Exec.{exec, step}
use libpeg.Machine.Runs.{kinds, Reads, At, Lost, Goes, Failing, drop_top_lem, Reads-seek_to}

module _ {bytes : List ℕ} where
  Reads-peek : (i : Input) {p : ℕ} → Reads bytes i p → Reads bytes (Input.peek i).0 p
  unfolding Input.peek
  Reads-peek i v = record {
    valid = peek-IsInput i v.valid;
    subject = v.subject;
    position = v.position;
  }

  pub Reads-advance :
      (i : Input) (n : ℕ) {p : ℕ} → Reads bytes i p → Reads bytes (Input.advance i n).0 (p + n)
  unfolding Input.advance Input.refill
  Reads-advance i n v = record {
    valid = advance-IsInput i n v.valid;
    subject = ground (arith, v.subject);
    position = omega (arith, position-advance i n, v.position);
  }

  peek_test_lem :
      (test : ℕ → Bool) (s : State) {p : ℕ}
      → Reads bytes s.input p
      → (peek_test test s).1 ≡ passes test (get_elem? bytes p)
  unfolding peek_test
  peek_test_lem test s v = rw (peek_lem s.input v.valid, v.subject, v.position) refl

abbrev peeked : State → State
peeked s = record s { input = (Input.peek s.input).0 }

abbrev advanced : ℕ → State → State
advanced n s = record s { input = (Input.advance s.input n).0 }

le→leb : (a b : ℕ) → a ≤ b → leb a b ≡ true
le→leb a b h = ground arith

lt→leb : (a b : ℕ) → b < a → leb a b ≡ false
lt→leb a b h = ground arith

module _ {bytes : List ℕ} (r : Run) {s : State} {ip p : ℕ} where
  -- An instruction that stays in the loop, and one that fails.
  Goes-on :
      {i : Insn} {s' : State} {ip' p' : ℕ} {ks ks' : List Kind}
      → At bytes s ip p ks
      → get_elem? r.prog ip ≡ some i
      → exec r i s ≡ some (loop s')
      → At bytes s' ip' p' ks'
      → Goes bytes r s ip' p' ks'
  unfolding step
  Goes-on {i = i} {s' = s'} a get ran a' =
      let g : get_elem? r.prog s.ip ≡ some i = rw a.ip get in (s', rw (g, ran) refl, a')

  stops :
      {i : Insn} {s' : State} {ks ks' : List Kind}
      → At bytes s ip p ks
      → get_elem? r.prog ip ≡ some i
      → exec r i s ≡ some (fail s')
      → Lost bytes s' ks'
      → Failing bytes r s ks'
  stops {i = i} {s' = s'} a get ran l = (i, s', rw (a.ip) get, ran, l)

  pub byte-Goes :
      {ks : List Kind} (i : Insn) (test : ℕ → Bool)
      → exec r i s ≡ match_byte test s
      → get_elem? r.prog ip ≡ some i
      → At bytes s ip p ks
      → passes test (get_elem? bytes p) ≡ true
      → Goes bytes r s (ip + 1) (p + 1) ks
  unfolding match_byte peek_test
  byte-Goes i test ran get a ok =
      Goes-on {s' = record (State.consume (peeked s)) { ip = s.ip + 1 }} a get
        (ran ∙ rw (peek_test_lem test s a.reads ∙ ok, match_byte) refl)
        (record {
          reads = Reads-advance _ 1 (Reads-peek s.input a.reads);
          ip = omega (arith, a.ip);
          stack = a.stack;
        })

  pub byte_fails :
      {ks : List Kind} (i : Insn) (test : ℕ → Bool)
      → exec r i s ≡ match_byte test s
      → get_elem? r.prog ip ≡ some i
      → At bytes s ip p ks
      → passes test (get_elem? bytes p) ≡ false
      → Failing bytes r s ks
  unfolding match_byte peek_test
  byte_fails i test ran get a out =
      stops {s' = peeked s} a get (ran ∙ rw (peek_test_lem test s a.reads ∙ out, match_byte) refl)
        (record { at = p; reads = Reads-peek s.input a.reads; stack = a.stack })

  -- a test of a byte that goes on past it
  pub test-Goes :
      {ks : List Kind} (i : Insn) (test : ℕ → Bool) (to : ℤ)
      → exec r i s ≡ test_byte_nochoice test to s
      → get_elem? r.prog ip ≡ some i
      → At bytes s ip p ks
      → passes test (get_elem? bytes p) ≡ true
      → Goes bytes r s (ip + 1) (p + 1) ks
  unfolding test_byte_nochoice peek_test
  test-Goes i test to ran get a ok =
      Goes-on {s' = record (State.consume (peeked s)) { ip = s.ip + 1 }} a get
        (ran ∙ rw (peek_test_lem test s a.reads ∙ ok, test_byte_nochoice) refl)
        (record {
          reads = Reads-advance _ 1 (Reads-peek s.input a.reads);
          ip = omega (arith, a.ip);
          stack = a.stack;
        })

  -- a test of a byte that jumps
  pub test_jumps :
      {ks : List Kind} (i : Insn) (test : ℕ → Bool) (to : ℕ)
      → exec r i s ≡ test_byte_nochoice test (pos to) s
      → get_elem? r.prog ip ≡ some i
      → At bytes s ip p ks
      → passes test (get_elem? bytes p) ≡ false
      → Goes bytes r s to p ks
  unfolding test_byte_nochoice peek_test
  test_jumps i test to ran get a out =
      Goes-on {s' = record (peeked s) { ip = to }} a get
        (ran ∙ rw (peek_test_lem test s a.reads ∙ out, test_byte_nochoice) refl)
        (record { reads = Reads-peek s.input a.reads; ip = refl; stack = a.stack })

  pub any-Goes :
      {ks : List Kind} (i : Insn) (n : ℕ)
      → exec r i s ≡ match_any (pos n) s
      → get_elem? r.prog ip ≡ some i
      → At bytes s ip p ks
      → p + n ≤ length bytes
      → Goes bytes r s (ip + 1) (p + n) ks
  unfolding match_any Input.advance
  any-Goes i n ran get a h =
      let inside : leb (position s.input + n) (length s.input.bytes) ≡ true =
        rw (a.reads.position, a.reads.subject) (le→leb _ _ h) in
      Goes-on {s' = record (advanced n s) { ip = s.ip + 1 }} a get
        (ran ∙ rw (inside, match_any) refl)
        (record {
          reads = Reads-advance s.input n a.reads;
          ip = omega (arith, a.ip);
          stack = a.stack;
        })

  pub any_fails :
      {ks : List Kind} (i : Insn) (n : ℕ)
      → exec r i s ≡ match_any (pos n) s
      → get_elem? r.prog ip ≡ some i
      → At bytes s ip p ks
      → length bytes < p + n
      → Failing bytes r s ks
  unfolding match_any Input.advance
  any_fails i n ran get a h =
      let outside : leb (position s.input + n) (length s.input.bytes) ≡ false =
        rw (a.reads.position, a.reads.subject) (lt→leb _ _ h) in
      stops {s' = advanced n s} a get (ran ∙ rw (outside, match_any) refl)
        (record { at = p + n; reads = Reads-advance s.input n a.reads; stack = a.stack })

  pub jumps :
      {ks : List Kind} (i : Insn) (to : ℕ)
      → exec r i s ≡ some (loop (record s { ip = to }))
      → get_elem? r.prog ip ≡ some i
      → At bytes s ip p ks
      → Goes bytes r s to p ks
  jumps i to ran get a = Goes-on a get ran (record { reads = a.reads; ip = refl; stack = a.stack })

  pub chooses :
      {ks : List Kind} (i : Insn) (to : ℕ)
      → exec r i s ≡ State.next (State.push (btrack (pos to) (at s)) s)
      → get_elem? r.prog ip ≡ some i
      → At bytes s ip p ks
      → Goes bytes r s (ip + 1) p (btrack (pos to) (pos p) ∷ ks)
  unfolding Stack.push
  chooses i to ran get a = Goes-on a get ran (record {
    reads = a.reads;
    ip = omega (arith, a.ip);
    stack = rw (a.reads.position, a.stack) refl;
  })

  pub commits :
      {k : Kind} {ks : List Kind} (i : Insn) (to : ℕ)
      → exec r i s ≡ commit (pos to) s
      → get_elem? r.prog ip ≡ some i
      → At bytes s ip p (k ∷ ks)
      → Goes bytes r s to p ks
  unfolding commit
  commits i to ran get a =
      let (st, e, stack) = drop_top_lem s true a.stack in
      Goes-on {s' = record s { stack = st; ip = to }} a get (ran ∙ rw (e, commit) refl)
        (record { reads = a.reads; ip = refl; stack = stack })

  pub commits_back :
      {to' off : ℕ} {ks : List Kind} (i : Insn) (to : ℕ)
      → exec r i s ≡ back_commit (pos to) s
      → get_elem? r.prog ip ≡ some i
      → At bytes s ip p (btrack (pos to') (pos off) ∷ ks)
      → Goes bytes r s to off ks
  unfolding back_commit
  commits_back {off = off} i to ran get a =
      let (st, e, stack) = drop_top_lem s true a.stack in
      Goes-on {s' = record s { stack = st; ip = to; input = Input.seek_to s.input off }} a get
        (ran ∙ rw (e, back_commit) refl)
        (record { reads = Reads-seek_to s.input off a.reads; ip = refl; stack = stack })

  pub fails_here :
      {ks : List Kind} (i : Insn)
      → exec r i s ≡ some (fail s)
      → get_elem? r.prog ip ≡ some i
      → At bytes s ip p ks
      → Failing bytes r s ks
  fails_here i ran get a = stops a get ran (record { at = p; reads = a.reads; stack = a.stack })

  pub fails_two :
      {k : Kind} {ks : List Kind} (i : Insn)
      → exec r i s ≡ fail_twice s
      → get_elem? r.prog ip ≡ some i
      → At bytes s ip p (k ∷ ks)
      → Failing bytes r s ks
  unfolding fail_twice
  fails_two i ran get a =
      let (st, e, stack) = drop_top_lem s false a.stack in
      stops {s' = record s { stack = st }} a get (ran ∙ rw (e, fail_twice) refl)
        (record { at = p; reads = a.reads; stack = stack })

  pub spans :
      {ks : List Kind} (i : Insn) (set : Charset)
      → exec r i s ≡ match_span set s
      → get_elem? r.prog ip ≡ some i
      → At bytes s ip p ks
      → Goes bytes r s (ip + 1) (p + run_length set (drop p bytes)) ks
  unfolding match_span
  spans i set ran get a =
      let (j, h, v) = span-Spanned s.input set a.reads.valid in
      Goes-on {s' = record s { input = j; ip = s.ip + 1 }} a get (ran ∙ rw (h, match_span) refl)
        (record {
          reads = record {
            valid = v.valid;
            subject = v.same ∙ a.reads.subject;
            position = v.moved ∙ rw (a.reads.position, a.reads.subject) refl;
          };
          ip = omega (arith, a.ip);
          stack = a.stack;
        })

partial :
    (s : State) (to : ℕ) (es : List Entry) {p back off : ℕ} {ks : List Kind}
    → s.stack.entries ≡ es
    → position s.input ≡ p
    → kinds es ≡ btrack (pos back) (pos off) ∷ ks
    → (st : Stack.Stack) × (partial_commit (pos to) s
        ≡ some (loop (record s { stack = st; ip = to })))
      × (kinds st.entries ≡ btrack (pos back) (pos p) ∷ ks)
unfolding partial_commit stack_prop_capt
partial s to [] h q m = absurd (cc m)
partial s to (e ∷ []) {back = back} {off = off} h q m =
    let k : e.kind ≡ btrack (pos back) (pos off) = cc m in
    (
      stack_prop_capt
          (record s.stack { entries = record e { kind = btrack (pos back) (at s) } ∷ [] }),
      rw (h, k, partial_commit) refl,
      rw q (cc m),
    )
partial s to (e ∷ b ∷ bs) {back = back} {off = off} h q m =
    let k : e.kind ≡ btrack (pos back) (pos off) = cc m in
    (
      stack_prop_capt
          (record s.stack { entries = record e { kind = btrack (pos back) (at s) } ∷ b ∷ bs }),
      rw (h, k, partial_commit) refl,
      rw q (cc m),
    )

-- The choice on the top of the stack is renewed here.
pub renews :
    {bytes : List ℕ} (r : Run) {s : State} {ip p back off : ℕ} {ks : List Kind} (i : Insn) (to : ℕ)
    → exec r i s ≡ partial_commit (pos to) s
    → get_elem? r.prog ip ≡ some i
    → At bytes s ip p (btrack (pos back) (pos off) ∷ ks)
    → Goes bytes r s to p (btrack (pos back) (pos p) ∷ ks)
renews r {s = s} i to ran get a =
    let (st, e, stack) = partial s to s.stack.entries refl a.reads.position a.stack in
    Goes-on r {s' = record s { stack = st; ip = to }} a get (ran ∙ e)
      (record { reads = a.reads; ip = refl; stack = stack })
