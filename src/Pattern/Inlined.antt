-- ===== src/Pattern/Inlined.antt =====
-- The inlining of src/pattern.c ends at definitions that a further pass leaves as they are.
use libpeg.Prelude.{
  ℕ, zero, suc, ◌+◌, ◌<◌, ◌≤◌, ◌≡◌, refl, sym, ◌∙◌, ap, Bool, true, false, ◌&&◌, ◌||◌, List, [],
  ◌∷◌, ◌++◌, Option, none, some, length, ltb, arith, Bool-cases, Option-cases, inl, inr,
}
use mathlib.Core.Path.{subst}
use mathlib.Core.Bool.{true≢false}
use mathlib.Core.Option.{some-ne-none, some-injective}
use libpeg.Pattern.Ast.{
  Name, Pat, alt, seq, star, plus, optional, not_pat, and_pat, search, cap, memo, check, grammar,
  repeat, char_class, literal, nonterm, inlined, dot, error, error_or, empty_op, empty, Defs, end,
  def,
}
use libpeg.Pattern.Ir.{find_def}
use libpeg.Pattern.Inline.{
  walked, unresolved, unresolved_defs, is_none, is_leaf, inline_threshold, inline_target,
  inline_pat, inline_defs, inlines, any_target, grammar_inline_once, grammar_inline_loop,
  grammar_inline,
}

and_right : (a b : Bool) → (a && b) ≡ true → b ≡ true
and_right true b h = h
and_right false b h = absurd (true≢false (sym h))

or_assoc : (a b c : Bool) → (a || (b || c)) ≡ ((a || b) || c)
or_assoc true b c = refl
or_assoc false b c = refl

is_none_lem : (ns : List Name) → is_none ns ≡ true → ns ≡ []
is_none_lem [] h = refl
is_none_lem (n ∷ ns) h = absurd (true≢false (sym h))

-- A definition that is put in refers to nothing.
target_leaf : (ds : Defs) (n : Name) {q : Pat} → inline_target ds n ≡ some q → unresolved q ≡ []
unfolding inline_target
target_leaf ds n {q = q} h = elim (Option-cases (find_def ds n 0)) [
  | inl e ↦ let k : none ≡ some q = rw (e, inline_target) at h in absurd (some-ne-none q (sym k))
  | inr (d, e) ↦ elim (Bool-cases (ltb (walked d.1) inline_threshold && is_leaf d.1)) [
    | inl t ↦
        let k : some d.1 ≡ some q = rw (e, t, inline_target) at h in
        let leaf : is_leaf d.1 ≡ true = and_right _ (is_leaf d.1) t in
        subst (λ x. unresolved x ≡ []) (some-injective d.1 q k) (is_none_lem (unresolved d.1) leaf)
    | inr t ↦
        let k : none ≡ some q = rw (e, t, inline_target) at h in absurd (some-ne-none q (sym k))
  ]
]

abbrev kept : Option Pat → Name → List Name → List Name
kept none n rest = n ∷ rest
kept (some p) n rest = rest

module _ (ds : Defs) where
  -- the names that a pass leaves
  abbrev keep : List Name → List Name
  keep [] = []
  keep (n ∷ ns) = kept (inline_target ds n) n (keep ns)

  kept-append :
      (o : Option Pat) (n : Name) (xs ys : List Name) → kept o n (xs ++ ys) ≡ kept o n xs ++ ys
  kept-append none n xs ys = refl
  kept-append (some p) n xs ys = refl

  keep-append : (xs ys : List Name) → keep (xs ++ ys) ≡ keep xs ++ keep ys
  keep-append [] ys = refl
  keep-append (n ∷ xs) ys =
      ap (kept (inline_target ds n) n) (keep-append xs ys)
      ∙ kept-append (inline_target ds n) n (keep xs) (keep ys)

  any_target-append :
      (xs ys : List Name) → any_target ds (xs ++ ys) ≡ (any_target ds xs || any_target ds ys)
  unfolding any_target
  any_target-append [] ys = refl
  any_target-append (n ∷ xs) ys =
      rw (any_target-append xs ys, any_target)
        (or_assoc (inlines (inline_target ds n)) (any_target ds xs) (any_target ds ys))

  nonterm_left : (name : Name) → unresolved (inline_pat ds (nonterm name)) ≡ keep (name ∷ [])
  unfolding unresolved inline_pat
  nonterm_left name = elim (Option-cases (inline_target ds name)) [
    | inl e ↦ rw (e, inline_pat) refl
    | inr (q, e) ↦ rw (e, inline_pat) (target_leaf ds name e)
  ]

  mutual
    unfolding unresolved inline_pat unresolved_defs inline_defs

    unresolved-inline_pat : (p : Pat) → unresolved (inline_pat ds p) ≡ keep (unresolved p)
    unresolved-inline_pat (alt l r) =
        rw (unresolved-inline_pat l, unresolved-inline_pat r)
          (sym (keep-append (unresolved l) (unresolved r)))
    unresolved-inline_pat (seq l r) =
        rw (unresolved-inline_pat l, unresolved-inline_pat r)
          (sym (keep-append (unresolved l) (unresolved r)))
    unresolved-inline_pat (star p) = unresolved-inline_pat p
    unresolved-inline_pat (plus p) = unresolved-inline_pat p
    unresolved-inline_pat (optional p) = unresolved-inline_pat p
    unresolved-inline_pat (not_pat p) = unresolved-inline_pat p
    unresolved-inline_pat (and_pat p) = unresolved-inline_pat p
    unresolved-inline_pat (search p) = unresolved-inline_pat p
    unresolved-inline_pat (cap p id) = unresolved-inline_pat p
    unresolved-inline_pat (memo p id) = unresolved-inline_pat p
    unresolved-inline_pat (check p f id flag) = unresolved-inline_pat p
    unresolved-inline_pat (error_or msg p) = unresolved-inline_pat p
    unresolved-inline_pat (inlined name p) = unresolved-inline_pat p
    unresolved-inline_pat (grammar start es) = unresolved-inline_defs es
    unresolved-inline_pat (nonterm name) = nonterm_left name
    unresolved-inline_pat (repeat p n) = refl
    unresolved-inline_pat (dot n) = refl
    unresolved-inline_pat (error msg) = refl
    unresolved-inline_pat (empty_op op) = refl
    unresolved-inline_pat empty = refl
    unresolved-inline_pat (literal bs) = refl
    unresolved-inline_pat (char_class set) = refl

    unresolved-inline_defs :
        (es : Defs) → unresolved_defs (inline_defs ds es) ≡ keep (unresolved_defs es)
    unresolved-inline_defs end = refl
    unresolved-inline_defs (def name p es) =
        rw (unresolved-inline_pat p, unresolved-inline_defs es)
          (sym (keep-append (unresolved p) (unresolved_defs es)))

  or_false : {a b : Bool} → (a || b) ≡ false → (a ≡ false) × (b ≡ false)
  or_false {a = true} h = absurd (true≢false h)
  or_false {a = false} h = (refl, h)

  both_left :
      (xs ys : List Name)
      → any_target ds (xs ++ ys) ≡ false
      → (any_target ds xs ≡ false) × (any_target ds ys ≡ false)
  both_left xs ys h = or_false (sym (any_target-append xs ys) ∙ h)

  nonterm_kept :
      (name : Name)
      → any_target ds (name ∷ []) ≡ false
      → inline_pat ds (nonterm name) ≡ nonterm name
  unfolding inline_pat any_target
  nonterm_kept name h = elim (Option-cases (inline_target ds name)) [
    | inl e ↦ rw (e, inline_pat) refl
    | inr (q, e) ↦ let k : true ≡ false = rw (e, any_target) at h in absurd (true≢false k)
  ]

  -- A pass that replaces nothing changes nothing.
  mutual
    unfolding unresolved inline_pat unresolved_defs inline_defs any_target

    inline_pat_kept : (p : Pat) → any_target ds (unresolved p) ≡ false → inline_pat ds p ≡ p
    inline_pat_kept (alt l r) h =
        let (a, b) = both_left (unresolved l) (unresolved r) h in
        rw (inline_pat_kept l a, inline_pat_kept r b) refl
    inline_pat_kept (seq l r) h =
        let (a, b) = both_left (unresolved l) (unresolved r) h in
        rw (inline_pat_kept l a, inline_pat_kept r b) refl
    inline_pat_kept (star p) h = rw (inline_pat_kept p h) refl
    inline_pat_kept (plus p) h = rw (inline_pat_kept p h) refl
    inline_pat_kept (optional p) h = rw (inline_pat_kept p h) refl
    inline_pat_kept (not_pat p) h = rw (inline_pat_kept p h) refl
    inline_pat_kept (and_pat p) h = rw (inline_pat_kept p h) refl
    inline_pat_kept (search p) h = rw (inline_pat_kept p h) refl
    inline_pat_kept (cap p id) h = rw (inline_pat_kept p h) refl
    inline_pat_kept (memo p id) h = rw (inline_pat_kept p h) refl
    inline_pat_kept (check p f id flag) h = rw (inline_pat_kept p h) refl
    inline_pat_kept (error_or msg p) h = rw (inline_pat_kept p h) refl
    inline_pat_kept (inlined name p) h = rw (inline_pat_kept p h) refl
    inline_pat_kept (grammar start es) h = rw (inline_defs_kept es h) refl
    inline_pat_kept (nonterm name) h = nonterm_kept name h
    inline_pat_kept (repeat p n) h = refl
    inline_pat_kept (dot n) h = refl
    inline_pat_kept (error msg) h = refl
    inline_pat_kept (empty_op op) h = refl
    inline_pat_kept empty h = refl
    inline_pat_kept (literal bs) h = refl
    inline_pat_kept (char_class set) h = refl

    inline_defs_kept :
        (es : Defs) → any_target ds (unresolved_defs es) ≡ false → inline_defs ds es ≡ es
    inline_defs_kept end h = refl
    inline_defs_kept (def name p es) h =
        let (a, b) = both_left (unresolved p) (unresolved_defs es) h in
        rw (inline_pat_kept p a, inline_defs_kept es b) refl

  keep-le : (ns : List Name) → length (keep ns) ≤ length ns
  keep-le [] = omega arith
  keep-le (n ∷ ns) = elim (Option-cases (inline_target ds n)) [
    | inl e ↦ rw e (omega (arith, keep-le ns))
    | inr (q, e) ↦ rw e (omega (arith, keep-le ns))
  ]

  keep-lt : (ns : List Name) → any_target ds ns ≡ true → length (keep ns) < length ns
  unfolding any_target
  keep-lt [] h = absurd (true≢false (sym h))
  keep-lt (n ∷ ns) h = elim (Option-cases (inline_target ds n)) [
    | inl e ↦
        let k : any_target ds ns ≡ true = rw (e, any_target) at h in
        rw e (omega (arith, keep-lt ns k))
    | inr (q, e) ↦ rw e (omega (arith, keep-le ns))
  ]

loop_ends :
    (fuel : ℕ) (ds : Defs)
    → length (unresolved_defs ds) < fuel
    → let out = grammar_inline_loop fuel ds in any_target out (unresolved_defs out) ≡ false
unfolding grammar_inline_loop grammar_inline_once
loop_ends zero ds h = absurd (omega (arith, h))
loop_ends (suc fuel) ds h = elim (Bool-cases (any_target ds (unresolved_defs ds))) [
  | inl e ↦
      let less = keep-lt ds (unresolved_defs ds) e in
      let fewer : length (unresolved_defs (inline_defs ds ds)) < fuel =
        rw (unresolved-inline_defs ds ds) (omega (arith, h, less)) in
      rw (e, grammar_inline_loop) (loop_ends fuel (inline_defs ds ds) fewer)
  | inr e ↦
      let k : inline_defs ds ds ≡ ds = inline_defs_kept ds ds e in
      rw (e, grammar_inline_loop) (rw k e)
]

-- `grammar_inline` ends: one more pass over its result finds nothing to replace, and changes nothing.
pub grammar_inline_lem :
    (ds : Defs) → grammar_inline_once (grammar_inline ds) ≡ (grammar_inline ds, false)
unfolding grammar_inline grammar_inline_once
grammar_inline_lem ds =
    let e = loop_ends (length (unresolved_defs ds) + 1) ds (omega arith) in
    rw (e, inline_defs_kept _ _ e) refl
