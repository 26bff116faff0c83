-- ===== src/Pattern/Placed.antt =====
-- Where the code of src/pattern.c stands in a program, once its labels are resolved.
use libpeg.Prelude.{
  ℕ, ◌+◌, ◌≡◌, refl, Bool, true, false, List, [], ◌∷◌, ◌++◌, none, some, get_elem?, if◌then◌else◌,
}
use libpeg.Prelude.Int.{pos, pos_part}
use libpeg.Code.Op.{Op}
use libpeg.Code.Insn.{Insn}
use libpeg.Pattern.Ir.{vm, pir_label, pir_opencall, Pir}

-- what an entry of the list comes to: a place, an unresolved call, nothing, or an instruction
pub data Slot : Type 0 where
  mark : ℕ → Slot
  call gap : Slot
  insn : Op → Slot

abbrev pub slot : Pir → Slot
slot x = elim x.op [
  | pir_label ↦ mark (pos_part x.a)
  | pir_opencall ↦ call
  | vm Op.nop ↦ gap
  | vm op ↦ insn op
]

-- whether the instruction has a set
abbrev has_set : Op → Bool
has_set Op.set = true
has_set Op.span = true
has_set Op.test_set = true
has_set Op.test_set_nochoice = true
has_set op = false

module _ (place : ℕ → ℕ) where
  -- the instruction of an entry: its jump is to the place of its label
  abbrev pub lowered : Op → Pir → Insn
  lowered op x = record {
    op = op;
    a = elim x.label [ none ↦ x.a | some l ↦ pos (place l) ];
    b = x.b;
    set = if has_set op then some x.set else none;
  }

  -- an entry in a program at `ip`, with what is true of the place after it
  abbrev pub Stands : List Insn → ℕ → Pir → Slot → (ℕ → Type 0) → Type 0
  Stands prog ip x (mark l) After = (place l ≡ ip) × After ip
  Stands prog ip x call After = ⊥
  Stands prog ip x gap After = After ip
  Stands prog ip x (insn op) After = (get_elem? prog ip ≡ some (lowered op x)) × After (ip + 1)

  -- `Placed prog ip code end`: the program has the code from `ip` on, up to `end`.
  abbrev pub Placed : List Insn → ℕ → List Pir → ℕ → Type 0
  Placed prog ip [] end = ip ≡ end
  Placed prog ip (x ∷ xs) end = Stands prog ip x (slot x) (λ ip'. Placed prog ip' xs end)

  Stands-split :
      {P : ℕ → Type 0} {Q : ℕ → ℕ → Type 0} {R : ℕ → Type 0} (prog : List Insn) (ip : ℕ) (x : Pir)
      (sl : Slot)
      → ((ip' : ℕ) → P ip' → (mid : ℕ) × Q ip' mid × R mid)
      → Stands prog ip x sl P
      → (mid : ℕ) × Stands prog ip x sl (λ ip'. Q ip' mid) × R mid
  Stands-split prog ip x (mark l) f (h, p) = let (mid, q, r) = f ip p in (mid, (h, q), r)
  Stands-split prog ip x call f h = absurd h
  Stands-split prog ip x gap f p = f ip p
  Stands-split prog ip x (insn op) f (h, p) = let (mid, q, r) = f (ip + 1) p in (mid, (h, q), r)

  -- Code that follows other code begins where that ends.
  pub Placed-append :
      (prog : List Insn) (ip : ℕ) (xs ys : List Pir) (end : ℕ)
      → Placed prog ip (xs ++ ys) end
      → (mid : ℕ) × Placed prog ip xs mid × Placed prog mid ys end
  Placed-append prog ip [] ys end h = (ip, refl, h)
  Placed-append prog ip (x ∷ xs) ys end h =
      Stands-split prog ip x (slot x) (λ ip' p. Placed-append prog ip' xs ys end p) h
