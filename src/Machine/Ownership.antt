-- ===== src/Machine/Ownership.antt =====
-- Every list of captures on the stack holds one reference for each of its pointers.
use libpeg.Prelude.{
  ℕ, ◌+◌, ◌≡◌, refl, Bool, true, false, List, [], ◌∷◌, ◌++◌, some, ◌==◌, if◌then◌else◌, arith,
}
use libpeg.Machine.Stack.{
  Entry, Stack, ref_all, entry_add_capt, stack_add_capt, stack_prop_capt, stack_pop,
}

-- how often a capture stands in a list
abbrev pub times : ℕ → List ℕ → ℕ
times c [] = 0
times c (d ∷ ds) = times c ds + (if c == d then 1 else 0)

abbrev pub times_entries : ℕ → List Entry → ℕ
times_entries c [] = 0
times_entries c (e ∷ es) = times c e.capts + times_entries c es

-- how often it stands on the stack
abbrev pub times_on : ℕ → Stack → ℕ
times_on c s = times_entries c s.entries + times c s.capts

times-append : (c : ℕ) (xs ys : List ℕ) → times c (xs ++ ys) ≡ times c xs + times c ys
times-append c [] ys = omega arith
times-append c (x ∷ xs) ys = omega (arith, times-append c xs ys)

ref_all_lem : (cs : List ℕ) (refs : ℕ → ℕ) (c : ℕ) → ref_all cs refs c ≡ refs c + times c cs
unfolding ref_all
ref_all_lem [] refs c = omega arith
ref_all_lem (d ∷ ds) refs c = omega (arith, ref_all_lem ds refs c)

add_entries :
    (es : List Entry) (l cs : List ℕ) (refs : ℕ → ℕ) (c : ℕ)
    → let s : Stack = record { entries = es; capts = l; refs = refs } in
      let t = stack_add_capt s cs in
      (t.refs c ≡ refs c + times c cs) × (times_on c t ≡ times_on c s + times c cs)
unfolding stack_add_capt entry_add_capt
add_entries [] l cs refs c = (ref_all_lem cs refs c, omega (arith, times-append c l cs))
add_entries (e ∷ es) l cs refs c = (ref_all_lem cs refs c, omega (arith, times-append c e.capts cs))

prop_entries :
    (es : List Entry) (l : List ℕ) (refs : ℕ → ℕ) (c : ℕ)
    → let s : Stack = record { entries = es; capts = l; refs = refs } in
      ((stack_prop_capt s).refs c ≡ refs c) × (times_on c (stack_prop_capt s) ≡ times_on c s)
unfolding stack_prop_capt
prop_entries [] l refs c = (refl, refl)
prop_entries (e ∷ []) l refs c = (refl, omega (arith, times-append c l e.capts))
prop_entries (e ∷ b ∷ bs) l refs c = (refl, omega (arith, times-append c b.capts e.capts))

pop_entries :
    (e : Entry) (es : List Entry) (l : List ℕ) (refs : ℕ → ℕ) (p : Bool) (c : ℕ)
    → let s : Stack = record { entries = e ∷ es; capts = l; refs = refs } in
      (t : Stack) × (stack_pop s p ≡ some (t, e))
      × (t.refs c + times_on c s ≡ refs c + (times_on c t + times c e.capts))
unfolding stack_pop
pop_entries e es l refs false c =
    (record { entries = es; capts = l; refs = refs }, refl, omega arith)
pop_entries e es l refs true c =
    let (r, h) = add_entries es l e.capts refs c in
    (stack_add_capt (record { entries = es; capts = l; refs = refs }) e.capts, refl, omega arith)

-- Adding captures to the stack and propagating those of the top entry keep the count of references
-- to each capture equal to what the lists of the stack hold, over the same rest; so does popping an
-- entry, with or without propagation, when the list of the popped entry counts as well. A stack that
-- is not empty pops.
pub stack_lem :
    (s : Stack) (cs : List ℕ) (c : ℕ)
    → let t = stack_add_capt s cs in
      let u = stack_prop_capt s in
      (t.refs c + times_on c s ≡ s.refs c + times_on c t)
      × (u.refs c + times_on c s ≡ s.refs c + times_on c u)
      × ((e : Entry) (es : List Entry) (p : Bool)
          → (v : Stack) × (stack_pop (record s { entries = e ∷ es }) p ≡ some (v, e))
            × (v.refs c + times_on c (record s { entries = e ∷ es })
                ≡ s.refs c + (times_on c v + times c e.capts)))
stack_lem s cs c =
    let (r, h) = add_entries s.entries s.capts cs s.refs c in
    let (same, kept) = prop_entries s.entries s.capts s.refs c in
    (omega arith, omega arith, λ e es p. pop_entries e es s.capts s.refs p c)
