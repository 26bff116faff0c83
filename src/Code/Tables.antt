-- ===== src/Code/Tables.antt =====
-- The deduplicated tables of the builder: `add_set` and `add_error` of src/vm_code.c.
use libpeg.Prelude.{
  ℕ, zero, suc, ◌+◌, ◌-◌, ◌%◌, ◌≤◌, ◌<◌, ◌≡◌, ◌≢◌, refl, sym, ◌∙◌, inl, inr, true, none, some, List,
  [], ◌∷◌, ◌++◌, arith, leb, length, length-append, get_elem?, Bool-cases, Option-cases,
}
use mathlib.Core.Path.{subst}
use mathlib.Core.List.{append-nil}
use mathlib.Core.Option.{some-injective, some-ne-none}
use libpeg.Charset
use libpeg.Charset.{Charset}
use libpeg.Code.Builder.{Prog, find_set, add_set}
use libpeg.Code.Interned.{Interned, old_entry, new_entry}

pub eq→≡ : (a b : Charset) → Charset.eq a b ≡ true → a ≡ b
unfolding Charset.eq
eq→≡ a b h = ground arith

eq_self : (a : Charset) → Charset.eq a a ≡ true
unfolding Charset.eq
eq_self a = ground arith

-- What the search finds is the set, and it stands inside the table.
find_set_found :
    (ss : List Charset) (s : Charset) (n j : ℕ)
    → find_set ss s n ≡ some j
    → (n ≤ j) × (j < n + length ss) × (get_elem? ss (j - n) ≡ some s)
unfolding find_set
find_set_found [] s n j h = ground arith
find_set_found (t ∷ ss) s n j h = elim (Bool-cases (Charset.eq t s)) [
  | inl hit ↦
      let e : n ≡ j = ground arith in
      let z : j - n ≡ 0 = omega arith in (omega arith, omega arith, rw (z, eq→≡ t s hit) refl)
  | inr miss ↦
      let (lo, hi, got) = find_set_found ss s (n + 1) j (ground arith) in
      let e : j - n ≡ suc (j - (n + 1)) = omega arith in (omega arith, omega arith, rw e got)
]

pub find_set-append :
    (ss ts : List Charset) (s : Charset) (n j : ℕ)
    → find_set ss s n ≡ some j
    → find_set (ss ++ ts) s n ≡ some j
unfolding find_set
find_set-append [] ts s n j h = ground arith
find_set-append (t ∷ ss) ts s n j h = ground (arith, find_set-append ss ts s (n + 1) j)

find_set-none :
    (ss : List Charset) (s : Charset) (n j : ℕ) → find_set ss s n ≡ none → get_elem? ss j ≢ some s
unfolding find_set
find_set-none [] s n j h g = absurd (some-ne-none _ (sym g))
find_set-none (t ∷ ss) s n zero h g =
    let k : t ≡ s = some-injective _ _ g in
    let r : Charset.eq t s ≡ true = rw k (eq_self s) in ground arith
find_set-none (t ∷ ss) s n (suc j) h g = elim (Bool-cases (Charset.eq t s)) [
  | inl hit ↦ ground arith
  | inr miss ↦ find_set-none ss s (n + 1) j (ground arith) g
]

find_set_new :
    (ss : List Charset) (s : Charset) (n : ℕ)
    → find_set ss s n ≡ none
    → find_set (ss ++ (s ∷ [])) s n ≡ some (n + length ss)
unfolding find_set
find_set_new [] s n h = ground (arith, eq_self s)
find_set_new (t ∷ ss) s n h = ground (arith, find_set_new ss s (n + 1))

-- The table holds the set at the index that a search for it gives, and that index is a byte.
pub record HasSet (sets : List Charset) (s : Charset) : Type 0 where
  pub index : ℕ
  pub found : find_set sets s 0 ≡ some index
  pub holds : get_elem? sets index ≡ some s
  pub small : index < 256

get_elem?-append_left {ℓ} :
    {A : Type ℓ} (xs ys : List A) (i : ℕ) (a : A)
    → get_elem? xs i ≡ some a
    → get_elem? (xs ++ ys) i ≡ some a
get_elem?-append_left [] ys i a h = ground arith
get_elem?-append_left (x ∷ xs) ys zero a h = h
get_elem?-append_left (x ∷ xs) ys (suc i) a h = get_elem?-append_left xs ys i a h

get_elem?_last {ℓ} :
    {A : Type ℓ} (xs : List A) (a : A) → get_elem? (xs ++ (a ∷ [])) (length xs) ≡ some a
get_elem?_last [] a = refl
get_elem?_last (x ∷ xs) a = get_elem?_last xs a

-- A table that only grows keeps its sets where they are.
pub HasSet-append : (ss ts : List Charset) (s : Charset) → HasSet ss s → HasSet (ss ++ ts) s
HasSet-append ss ts s h = record {
  index = h.index;
  found = find_set-append ss ts s 0 h.index h.found;
  holds = get_elem?-append_left ss ts h.index s h.holds;
  small = h.small;
}

-- What `add_set` changes, and what it yields.
pub record AddedSet (p : Prog) (s : Charset) (q : Prog) (i : ℕ) : Type 0 where
  pub more : List Charset
  pub grown : q.sets ≡ p.sets ++ more
  pub kept : q ≡ record p { sets = q.sets }
  pub has : HasSet q.sets s
  pub at_index : i ≡ has.index
  pub interned : Interned p.sets s q.sets i
  pub bounded : length q.sets ≤ 256

added_fresh :
    (p : Prog) (s : Charset)
    → find_set p.sets s 0 ≡ none
    → length p.sets < 256
    → AddedSet p s (record p { sets = p.sets ++ (s ∷ []) }) (length p.sets % 256)
added_fresh p s miss room = record {
  more = s ∷ [];
  grown = refl;
  kept = refl;
  has = record {
    index = length p.sets;
    found =
        let e : 0 + length p.sets ≡ length p.sets = omega arith in
        rw (find_set_new p.sets s 0 miss, e) refl;
    holds = get_elem?_last p.sets s;
    small = room;
  };
  at_index = omega arith;
  interned = new_entry (λ j. find_set-none p.sets s 0 j miss) refl (omega arith);
  bounded = omega (arith, length-append p.sets (s ∷ []));
}

added_known :
    (p : Prog) (s : Charset) (j : ℕ)
    → length p.sets ≤ 256
    → find_set p.sets s 0 ≡ some j
    → AddedSet p s p (j % 256)
added_known p s j b hit =
    let (lo, hi, got) = find_set_found p.sets s 0 j hit in
    let z : j - 0 ≡ j = omega arith in
    record {
      more = [];
      grown = sym (append-nil p.sets);
      kept = refl;
      has = record { index = j; found = hit; holds = rw z at got; small = omega arith };
      at_index = omega arith;
      interned = let small : j % 256 ≡ j = omega arith in old_entry (rw small (rw z at got)) refl;
      bounded = b;
    }

add_set_fresh :
    (p q : Prog) (s : Charset) (i : ℕ)
    → find_set p.sets s 0 ≡ none
    → add_set p s ≡ some (q, i)
    → AddedSet p s q i
add_set_fresh p q s i miss h = elim (Bool-cases (leb 256 (length p.sets))) [
  | inl full ↦
      let e : add_set p s ≡ none = unfold add_set in rw (miss, add_set) (rw full refl) in cc
  | inr room ↦
      let r : Prog × ℕ = (record p { sets = p.sets ++ (s ∷ []) }, length p.sets % 256) in
      let e : add_set p s ≡ some r = unfold add_set in rw (miss, add_set) (rw room refl) in
      subst (λ x. AddedSet p s x.0 x.1) (some-injective r (q, i) (sym e ∙ h))
        (added_fresh p s miss (ground arith))
]

add_set_known :
    (p q : Prog) (s : Charset) (i j : ℕ)
    → length p.sets ≤ 256
    → find_set p.sets s 0 ≡ some j
    → add_set p s ≡ some (q, i)
    → AddedSet p s q i
add_set_known p q s i j b hit h =
    let r : Prog × ℕ = (p, j % 256) in
    let e : add_set p s ≡ some r = unfold add_set in rw (hit, add_set) refl in
    subst (λ x. AddedSet p s x.0 x.1) (some-injective r (q, i) (sym e ∙ h))
      (added_known p s j b hit)

-- `add_set` yields an index at which the table holds the set, whether it was there before or not.
pub add_set_lem :
    (p q : Prog) (s : Charset) (i : ℕ)
    → length p.sets ≤ 256
    → add_set p s ≡ some (q, i)
    → AddedSet p s q i
add_set_lem p q s i b h = elim (Option-cases (find_set p.sets s 0)) [
  | inl miss ↦ add_set_fresh p q s i miss h
  | inr (j, hit) ↦ add_set_known p q s i j b hit h
]
