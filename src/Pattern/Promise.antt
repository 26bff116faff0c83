-- ===== src/Pattern/Promise.antt =====
-- What `compile_pat` and `get_pat` of src/pattern.c promise, and runs of compiled programs.
use libpeg.Prelude.{
  ℕ, suc, ◌≤◌, ◌≡◌, refl, sym, ◌∙◌, ap, true, List, [], ◌∷◌, Option, none, some, get_elem?, arith,
}
use mathlib.Core.Option.{some-injective}
use libpeg.Charset.Members.{AreBytes}
use libpeg.Input
use libpeg.Input.{position}
use libpeg.Input.Inv.{new-IsInput}
use libpeg.Code.Op
use libpeg.Code.Insn.{insn}
use libpeg.Memo.Heap.{Heap}
use libpeg.Machine.Stack.{Entry, Kind}
use libpeg.Machine.State.{Run, State}
use libpeg.Machine.Control.{exec_control}
use libpeg.Machine.Exec.{Stop, ended, failed, unwind, exec, step, run_loop, start}
use libpeg.Machine.Runs.{kinds, At, Does, arrives, fails, steps}
use libpeg.Pattern.Ast.{Pat}
use libpeg.Pattern.Semantics.{Matches}
use libpeg.Pattern.Simplify.{get_pat}
use libpeg.Pattern.Kept.{get_pat-Simplified}
use libpeg.Pattern.Ir.{Pir, Ctx}
use libpeg.Pattern.Compile.{compile_pat}
use libpeg.Pattern.Placed.{Placed}
use libpeg.Pattern.Core.{needs, Core, top_needs-le, Core-TopCore}
use libpeg.Pattern.Correct.{compiles}

-- Over bytes: the code of a pattern with no empty left alternative and none of the left out kinds, on
-- enough fuel and placed anywhere in a program, runs as the pattern means. Started at a position where
-- the pattern matches, it arrives at its end with the position where the match ends; where the
-- pattern fails, it reaches an instruction that fails; the entries that were on the stack are there
-- again, by their kinds.
pub compile_pat-Does :
    (bytes : List ℕ) (r : Run) (place : ℕ → ℕ) (fuel : ℕ) (c c' : Ctx) (p : Pat) (code : List Pir)
    (ip end i : ℕ) (s : State) (ks : List Kind) (o : Option ℕ)
    → AreBytes bytes
    → Core p
    → needs p ≤ fuel
    → compile_pat fuel c p ≡ some (code, c')
    → Placed place r.prog ip code end
    → Matches bytes p i o
    → At bytes s ip i ks
    → Does bytes r s end ks o
compile_pat-Does bytes r place fuel c c' p code ip end i s ks o v k h e placed m a =
    let (code', c2, e', sound) =
      compiles bytes v fuel c p (Core-TopCore p k) (omega (arith, h, top_needs-le p)) in
    let same : code' ≡ code = ap (λ x. x.0) (some-injective _ _ (sym e' ∙ e)) in
    (sound r place).0 ip end i s ks o (rw same placed) m a

-- A pattern of these kinds compiles on the fuel that `needs` counts, or more.
pub compile_pat_total :
    (fuel : ℕ) (c : Ctx) (p : Pat)
    → Core p
    → needs p ≤ fuel
    → (code : List Pir) × (c' : Ctx) × (compile_pat fuel c p ≡ some (code, c'))
compile_pat_total fuel c p k h =
    let (code, c', e, _) =
      compiles [] tt fuel c p (Core-TopCore p k) (omega (arith, h, top_needs-le p)) in
    (code, c', e)

-- Over bytes, `get_pat` of a pattern with no empty left alternative and none of the left out kinds
-- matches and fails where the pattern does.
pub get_pat-Matches :
    (bytes : List ℕ) (p : Pat) (i : ℕ) (o : Option ℕ)
    → AreBytes bytes
    → Core p
    → Matches bytes p i o
    → Matches bytes (get_pat p) i o
get_pat-Matches bytes p i o v k m = (get_pat-Simplified bytes v p k).means i o m

abbrev pub stop_of : Option ℕ → Stop
stop_of none = failed
stop_of (some j) = ended true

abbrev pub StopsAt : State → Option ℕ → Type 0
StopsAt s none = Unit
StopsAt s (some j) = position s.input ≡ j

no_entries : (es : List Entry) → kinds es ≡ [] → es ≡ []
no_entries [] h = refl
no_entries (e ∷ es) h = absurd (cc h)

run_of_Does :
    (bytes : List ℕ) (r : Run) (end : ℕ) {s : State} {o : Option ℕ}
    → get_elem? r.prog end ≡ some (insn Op.end)
    → Does bytes r s end [] o
    → (fuel : ℕ) × (s' : State) × (run_loop fuel r s ≡ some (s', stop_of o)) × StopsAt s' o
unfolding run_loop step exec exec_control unwind
run_of_Does bytes r end {s = s} get (arrives a) =
    let g : get_elem? r.prog s.ip ≡ some (insn Op.end) = rw a.ip get in
    (1, s, rw g refl, a.reads.position)
run_of_Does bytes r end {s = s} get (fails (i, s', g, e, lost)) =
    (1, s', rw (g, e, no_entries s'.stack.entries lost.stack) refl, tt)
run_of_Does bytes r end {s = s} get (steps h d) =
    let (fuel, s', e, at) = run_of_Does bytes r end get d in (suc fuel, s', rw h e, at)

pub start-At : (h : Heap) (refs : ℕ → ℕ) (bytes : List ℕ) → At bytes (start h refs bytes) 0 0 []
unfolding Input.new
start-At h refs bytes = record {
  reads = record { valid = new-IsInput bytes; subject = refl; position = refl };
  ip = refl;
  stack = refl;
}

-- Over bytes: a program that has the code of a pattern at its begin and an End after it stops, where
-- the pattern has no empty left alternative, and no captures, memos, checks, grammars, searches,
-- counted repetitions, errors or position tests, and is compiled on enough fuel. It ends with success
-- at the position where the match from 0 ends, and fails where the pattern fails.
pub compile_pat-run_loop :
    (bytes : List ℕ) (r : Run) (place : ℕ → ℕ) (fuel : ℕ) (c c' : Ctx) (p : Pat) (code : List Pir)
    (end : ℕ) (h : Heap) (refs : ℕ → ℕ) (o : Option ℕ)
    → AreBytes bytes
    → Core p
    → needs p ≤ fuel
    → compile_pat fuel c p ≡ some (code, c')
    → Placed place r.prog 0 code end
    → get_elem? r.prog end ≡ some (insn Op.end)
    → Matches bytes p 0 o
    → (rounds : ℕ) × (s' : State) × (run_loop rounds r (start h refs bytes) ≡ some (s', stop_of o))
      × StopsAt s' o
compile_pat-run_loop bytes r place fuel c c' p code end h refs o v k le e placed get m =
    run_of_Does bytes r end get (
      compile_pat-Does bytes r place fuel c c' p code 0 end 0 (start h refs bytes) [] o v k le e
        placed m (start-At h refs bytes))
