-- ===== src/Code/Interned.antt =====
-- The tables of byte sets and error messages in src/vm_code.c: `add_set` and `add_error` look an
-- entry up before they append it.
use libpeg.Prelude.{
  ℕ, zero, suc, ◌+◌, ◌-◌, ◌≤◌, ◌<◌, ◌≡◌, ◌≢◌, refl, sym, true, none, some, List, [], ◌∷◌, ◌++◌,
  arith, length, get_elem?, inl, inr, Option-cases, Bool-cases,
}
use mathlib.Core.Option.{some-injective, some-ne-none}
use libpeg.Code.Builder.{Prog, add_error, find_error, same_bytes}

-- The table `xs` after a lookup of `x` that yields the index `i`: it has `x` there already, or it had
-- it nowhere and grows by it.
pub data Interned {A : Type 0} (xs : List A) (x : A) (ys : List A) (i : ℕ) : Type 0 where
  old_entry : get_elem? xs i ≡ some x → ys ≡ xs → Interned xs x ys i
  new_entry :
      ((j : ℕ) → get_elem? xs j ≢ some x) → ys ≡ xs ++ (x ∷ []) → i ≡ length xs → Interned xs x ys i

same_bytes→≡ : (a b : List ℕ) → same_bytes a b ≡ true → a ≡ b
unfolding same_bytes
same_bytes→≡ [] [] h = refl
same_bytes→≡ [] (y ∷ b) h = absurd (ground arith)
same_bytes→≡ (x ∷ a) [] h = absurd (ground arith)
same_bytes→≡ (x ∷ a) (y ∷ b) h =
    let e : x ≡ y = ground arith in rw (e, same_bytes→≡ a b (ground arith)) refl

same_bytes_refl : (a : List ℕ) → same_bytes a a ≡ true
unfolding same_bytes
same_bytes_refl [] = refl
same_bytes_refl (x ∷ a) = ground (arith, same_bytes_refl a)

find_error_found :
    (es : List (List ℕ)) (msg : List ℕ) (n j : ℕ)
    → find_error es msg n ≡ some j
    → (n ≤ j) × (j < n + length es) × (get_elem? es (j - n) ≡ some msg)
unfolding find_error
find_error_found [] msg n j h = ground arith
find_error_found (e ∷ es) msg n j h = elim (Bool-cases (same_bytes e msg)) [
  | inl hit ↦
      let k : n ≡ j = ground arith in
      let z : j - n ≡ 0 = omega arith in
      (omega arith, omega arith, rw (z, same_bytes→≡ e msg hit) refl)
  | inr miss ↦
      let (lo, hi, got) = find_error_found es msg (n + 1) j (ground arith) in
      let e : j - n ≡ suc (j - (n + 1)) = omega arith in (omega arith, omega arith, rw e got)
]

find_error-none :
    (es : List (List ℕ)) (msg : List ℕ) (n j : ℕ)
    → find_error es msg n ≡ none
    → get_elem? es j ≢ some msg
unfolding find_error
find_error-none [] msg n j h g = absurd (some-ne-none _ (sym g))
find_error-none (e ∷ es) msg n zero h g =
    let k : e ≡ msg = some-injective _ _ g in
    let r : same_bytes e msg ≡ true = rw k (same_bytes_refl msg) in ground arith
find_error-none (e ∷ es) msg n (suc j) h g = elim (Bool-cases (same_bytes e msg)) [
  | inl hit ↦ ground arith
  | inr miss ↦ find_error-none es msg (n + 1) j (ground arith) g
]

get_elem?-last :
    (es : List (List ℕ)) (msg : List ℕ) → get_elem? (es ++ (msg ∷ [])) (length es) ≡ some msg
get_elem?-last [] msg = refl
get_elem?-last (e ∷ es) msg = get_elem?-last es msg

-- `add_error` keeps one copy of each message: if the table has the message already it stays as it
-- is, and otherwise the message becomes its last entry. The index that it yields leads to the message
-- in the table after the call, and nothing else of the builder changes.
pub add_error_lem :
    (p : Prog) (msg : List ℕ)
    → Interned p.errors msg (add_error p msg).0.errors (add_error p msg).1
      × (get_elem? (add_error p msg).0.errors (add_error p msg).1 ≡ some msg)
      × ((add_error p msg).0 ≡ record p { errors = (add_error p msg).0.errors })
unfolding add_error
add_error_lem p msg = elim (Option-cases (find_error p.errors msg 0)) [
  | inl new ↦
      rw (new, add_error)
        (
          new_entry (λ j. find_error-none p.errors msg 0 j new) refl refl,
          get_elem?-last p.errors msg,
          refl,
        )
  | inr (j, old) ↦
      let (lo, hi, got) = find_error_found p.errors msg 0 j old in
      let z : j - 0 ≡ j = omega arith in
      rw (old, add_error) (old_entry (rw z at got) refl, rw z at got, refl)
]

pub add_error-le : (p : Prog) (msg : List ℕ) → (add_error p msg).1 ≤ length p.errors
unfolding add_error
add_error-le p msg = elim (Option-cases (find_error p.errors msg 0)) [
  | inl new ↦ rw (new, add_error) (omega arith)
  | inr (j, old) ↦
      let (lo, hi, got) = find_error_found p.errors msg 0 j old in rw (old, add_error) (omega arith)
]
