-- ===== src/Code/Build.antt =====
-- Whole runs of the builder, and what a finished program is.
use libpeg.Prelude.{
  ℕ, zero, suc, ◌+◌, ◌≤◌, ◌≡◌, refl, sym, ◌∙◌, ap, Option, none, some, List, [], ◌∷◌, ◌++◌, map,
  arith, length, length-append, inl, inr, Option-cases, Bool-cases, ltb,
}
use libpeg.Prelude.{set as set_at}
use mathlib.Core.List.{append-nil, map-append}
use mathlib.Core.Path.{ap₂, subst}
use mathlib.Core.Option.{some-injective, some-ne-none}
use libpeg.Charset.{Charset}
use libpeg.Code.Builder.{Fixup, Prog, find_set, new, here, label, mark}
use libpeg.Code.Assembler.{
  Line, with_set, set_target, IsLine, emit_line, set_index, layout, layouts,
}
use libpeg.Code.Tables.{HasSet, HasSet-append, find_set-append}
use libpeg.Code.Layout.{offset, length-layouts, layouts-append, offset-append}
use libpeg.Code.Scan.{AllLines}
use libpeg.Code.Patch.{blank, fixup_of, fixups, fixups-append}
use libpeg.Code.Assembled.{HasSetOf, AllBelow, Assembled, Emitted, emit_line-Emitted}

-- the calls of a client of the builder
pub data Action : Type 0 where
  new_label : Action
  mark_label : ℕ → Action
  emit : Line → Action

-- `none` is the abort of `add_set`, or a label that was never made.
unfoldable pub build : Prog → List Action → Option Prog
build p [] = some p
build p (new_label ∷ as') = build (label p).0 as'
build p (mark_label l ∷ as') = elim (mark p l) [ none ↦ none | some q ↦ build q as' ]
build p (emit i ∷ as') = elim (emit_line p i) [ none ↦ none | some (q, _) ↦ build q as' ]

-- the lines of a run, and for each label the number of lines before it
pub record Plan : Type 0 where
  pub lines : List Line
  pub labs : List ℕ

unfoldable pub plan : Plan → List Action → Plan
plan t [] = t
plan t (new_label ∷ as') = plan (record t { labs = t.labs ++ (length t.lines ∷ []) }) as'
plan t (mark_label l ∷ as') = plan (record t { labs = set_at t.labs l (length t.lines) }) as'
plan t (emit i ∷ as') = plan (record t { lines = t.lines ++ (i ∷ []) }) as'

abbrev pub ActionsFit : List Action → Type 0
ActionsFit [] = Unit
ActionsFit (emit i ∷ as') = IsLine i × ActionsFit as'
ActionsFit (a ∷ as') = ActionsFit as'

AllLines-append :
    (P : Line → Type 0) (is : List Line) (i : Line)
    → AllLines P is
    → P i
    → AllLines P (is ++ (i ∷ []))
AllLines-append P [] i a h = (h, tt)
AllLines-append P (j ∷ is) i a h = (a.0, AllLines-append P is i a.1 h)

HasSetOf-append : (ss ts : List Charset) (i : Line) → HasSetOf ss i → HasSetOf (ss ++ ts) i
unfolding HasSetOf
HasSetOf-append ss ts (with_set op s) h = HasSet-append ss ts s h
HasSetOf-append ss ts (set_target op s l) h = HasSet-append ss ts s h
HasSetOf-append ss ts i h = tt

AllLines-grow :
    (ss ts : List Charset) (is : List Line)
    → AllLines (HasSetOf ss) is
    → AllLines (HasSetOf (ss ++ ts)) is
AllLines-grow ss ts [] h = tt
AllLines-grow ss ts (i ∷ is) h = (HasSetOf-append ss ts i h.0, AllLines-grow ss ts is h.1)

index_is : (ss : List Charset) (s : Charset) (j : ℕ) → find_set ss s 0 ≡ some j → set_index ss s ≡ j
unfolding set_index
index_is ss s j h = rw (h, set_index) refl

index_stable :
    (ss ts : List Charset) (s : Charset) → HasSet ss s → set_index (ss ++ ts) s ≡ set_index ss s
index_stable ss ts s h =
    index_is (ss ++ ts) s h.index (find_set-append ss ts s 0 h.index h.found)
    ∙ sym (index_is ss s h.index h.found)

-- A line keeps its bytes when the table grows.
layout_stable :
    (f : ℕ → ℕ) (ss ts : List Charset) (i : Line)
    → HasSetOf ss i
    → layout (ss ++ ts) f i ≡ layout ss f i
unfolding layout HasSetOf
layout_stable f ss ts (with_set op s) h = rw (index_stable ss ts s h) refl
layout_stable f ss ts (set_target op s l) h = rw (index_stable ss ts s h) refl
layout_stable f ss ts i h = refl

layouts_stable :
    (f : ℕ → ℕ) (ss ts : List Charset) (is : List Line)
    → AllLines (HasSetOf ss) is
    → layouts (ss ++ ts) f is ≡ layouts ss f is
unfolding layouts
layouts_stable f ss ts [] h = refl
layouts_stable f ss ts (i ∷ is) h =
    rw (layout_stable f ss ts i h.0, layouts_stable f ss ts is h.1) refl

map-offset :
    (is : List Line) (i : Line) (ks : List ℕ)
    → AllBelow (length is) ks
    → map (offset (is ++ (i ∷ []))) ks ≡ map (offset is) ks
map-offset is i [] h = refl
map-offset is i (k ∷ ks) h = rw (offset-append is (i ∷ []) k h.0, map-offset is i ks h.1) refl

AllBelow-mono : (m n : ℕ) (ks : List ℕ) → m ≤ n → AllBelow m ks → AllBelow n ks
AllBelow-mono m n [] h a = tt
AllBelow-mono m n (k ∷ ks) h a = (omega arith, AllBelow-mono m n ks h a.1)

AllBelow-append : (n : ℕ) (ks : List ℕ) → AllBelow n ks → AllBelow n (ks ++ (n ∷ []))
AllBelow-append n [] a = (omega arith, tt)
AllBelow-append n (k ∷ ks) a = (a.0, AllBelow-append n ks a.1)

AllBelow-set : (n l : ℕ) (ks : List ℕ) → AllBelow n ks → AllBelow n (set_at ks l n)
AllBelow-set n l [] a = tt
AllBelow-set n zero (k ∷ ks) a = (omega arith, a.1)
AllBelow-set n (suc l) (k ∷ ks) a = (a.0, AllBelow-set n l ks a.1)

map-set_at : (f : ℕ → ℕ) (ks : List ℕ) (l v : ℕ) → map f (set_at ks l v) ≡ set_at (map f ks) l (f v)
map-set_at f [] l v = refl
map-set_at f (k ∷ ks) zero v = refl
map-set_at f (k ∷ ks) (suc l) v = ap (λ xs. f k ∷ xs) (map-set_at f ks l v)

here-Assembled :
    (p : Prog) (is : List Line) (labs : List ℕ)
    → Assembled p is labs
    → here p ≡ offset is (length is)
here-Assembled p is labs a = ap (length {0} {A = ℕ}) a.bytes_are ∙ length-layouts p.sets blank is

layouts_last :
    (sets : List Charset) (is : List Line) (i : Line)
    → layouts sets blank (is ++ (i ∷ [])) ≡ layouts sets blank is ++ layout sets blank i
unfolding layouts
layouts_last sets is i =
    layouts-append sets blank is (i ∷ [])
    ∙ ap (λ x. layouts sets blank is ++ x) (append-nil (layout sets blank i))

fixups_last :
    (is : List Line) (i : Line)
    → fixups 0 (is ++ (i ∷ [])) ≡ fixups 0 is ++ fixup_of (offset is (length is)) i
unfolding fixups
fixups_last is i =
    let z : 0 + offset is (length is) ≡ offset is (length is) = omega arith in
    fixups-append 0 is (i ∷ []) ∙ rw (z, append-nil (fixup_of (offset is (length is)) i)) refl

pub emit-Assembled :
    (p q : Prog) (is : List Line) (labs : List ℕ) (i : Line)
    → IsLine i
    → Emitted p i q
    → Assembled p is labs
    → Assembled q (is ++ (i ∷ [])) labs
emit-Assembled p q is labs i h e a = record {
  bytes_are =
      let old : layouts q.sets blank is ≡ layouts p.sets blank is =
        rw e.sets_grow (layouts_stable blank p.sets e.more is a.sets_are) in
      e.bytes_grow
      ∙ ap (λ c. c ++ layout q.sets blank i) (a.bytes_are ∙ sym old)
      ∙ sym (layouts_last q.sets is i);
  labels_are = e.labels_keep ∙ a.labels_are ∙ sym (map-offset is i labs a.labs_are);
  fixups_are =
      e.fixups_grow
      ∙ ap₂ (λ (x : List Fixup) (n : ℕ). x ++ fixup_of n i) a.fixups_are
          (here-Assembled p is labs a)
      ∙ sym (fixups_last is i);
  lines_are = AllLines-append IsLine is i a.lines_are h;
  sets_are =
      AllLines-append (HasSetOf q.sets) is i
        (rw e.sets_grow (AllLines-grow p.sets e.more is a.sets_are)) e.has_set;
  labs_are = AllBelow-mono (length is) _ labs (omega (arith, length-append is (i ∷ []))) a.labs_are;
  bounded = e.bounded;
}

label-Assembled :
    (p : Prog) (is : List Line) (labs : List ℕ)
    → Assembled p is labs
    → Assembled (label p).0 is (labs ++ (length is ∷ []))
unfolding label
label-Assembled p is labs a = record {
  bytes_are = a.bytes_are;
  labels_are =
      ap₂ (λ (x : List ℕ) (n : ℕ). x ++ (n ∷ [])) a.labels_are (here-Assembled p is labs a)
      ∙ sym (map-append (offset is) labs (length is ∷ []));
  fixups_are = a.fixups_are;
  lines_are = a.lines_are;
  sets_are = a.sets_are;
  labs_are = AllBelow-append (length is) labs a.labs_are;
  bounded = a.bounded;
}

marked-Assembled :
    (p : Prog) (is : List Line) (labs : List ℕ) (l : ℕ)
    → Assembled p is labs
    → Assembled (record p { labels = set_at p.labels l (here p) }) is (set_at labs l (length is))
marked-Assembled p is labs l a = record {
  bytes_are = a.bytes_are;
  labels_are =
      ap₂ (λ (x : List ℕ) (n : ℕ). set_at x l n) a.labels_are (here-Assembled p is labs a)
      ∙ sym (map-set_at (offset is) labs l (length is));
  fixups_are = a.fixups_are;
  lines_are = a.lines_are;
  sets_are = a.sets_are;
  labs_are = AllBelow-set (length is) l labs a.labs_are;
  bounded = a.bounded;
}

mark-Assembled :
    (p q : Prog) (is : List Line) (labs : List ℕ) (l : ℕ)
    → mark p l ≡ some q
    → Assembled p is labs
    → Assembled q is (set_at labs l (length is))
unfolding mark
mark-Assembled p q is labs l h a = elim (Bool-cases (ltb l (length p.labels))) [
  | inl made ↦
      subst (λ r. Assembled r is (set_at labs l (length is)))
        (some-injective _ q (rw (made, mark) at h)) (marked-Assembled p is labs l a)
  | inr missing ↦ absurd (some-ne-none q (sym h ∙ rw (missing, mark) refl))
]

plan-Assembled :
    (p q : Prog) (is : List Line) (labs : List ℕ) (as' : List Action)
    → ActionsFit as'
    → build p as' ≡ some q
    → Assembled p is labs
    → let t = plan (record { lines = is; labs = labs }) as' in Assembled q t.lines t.labs
unfolding build plan
plan-Assembled p q is labs [] f h a = subst (λ r. Assembled r is labs) (some-injective p q h) a
plan-Assembled p q is labs (new_label ∷ as') f h a =
    plan-Assembled (label p).0 q is _ as' f h (label-Assembled p is labs a)
plan-Assembled p q is labs (mark_label l ∷ as') f h a = elim (Option-cases (mark p l)) [
  | inl stop ↦ let e : build p (mark_label l ∷ as') ≡ none = rw (stop, build) refl in cc
  | inr (r, go) ↦
      let e : build p (mark_label l ∷ as') ≡ build r as' = rw (go, build) refl in
      plan-Assembled r q is _ as' f (sym e ∙ h) (mark-Assembled p r is labs l go a)
]
plan-Assembled p q is labs (emit i ∷ as') f h a = elim (Option-cases (emit_line p i)) [
  | inl stop ↦ let e : build p (emit i ∷ as') ≡ none = rw (stop, build) refl in cc
  | inr ((r, at), go) ↦
      let e : build p (emit i ∷ as') ≡ build r as' = rw (go, build) refl in
      let step = emit_line-Emitted p r i at a.bounded go in
      plan-Assembled r q (is ++ (i ∷ [])) labs as' f.1 (sym e ∙ h)
        (emit-Assembled p r is labs i f.0 step.0 a)
]

new-Assembled : Assembled new [] []
unfolding layouts fixups
new-Assembled = record {
  bytes_are = refl;
  labels_are = refl;
  fixups_are = refl;
  lines_are = tt;
  sets_are = tt;
  labs_are = tt;
  bounded = omega arith;
}

-- What a run of the builder has made.
abbrev pub plan_of : List Action → Plan
plan_of as' = plan (record { lines = []; labs = [] }) as'

pub build-Assembled :
    (as' : List Action) (q : Prog)
    → ActionsFit as'
    → build new as' ≡ some q
    → Assembled q (plan_of as').lines (plan_of as').labs
build-Assembled as' q f h = plan-Assembled new q [] [] as' f h new-Assembled
