-- ===== src/Code/Patch.antt =====
-- Backpatching: the pending label operands of a laid-out program are exactly what it leaves blank.
use libpeg.Prelude.{
  ℕ, suc, ◌+◌, ◌<◌, ◌^◌, ◌≡◌, refl, sym, ◌∙◌, ap, none, some, List, [], ◌∷◌, ◌++◌, arith, false,
  ltb, length, length-append, get_elem?, inl, inr, Option-cases,
}
use libpeg.Prelude.{set as set_at}
use mathlib.Core.List.{append_assoc}
use mathlib.Core.Option.{some-injective}
use libpeg.Charset.{Charset}
use libpeg.Code.Bytes.{u24}
use libpeg.Code.Builder.{Fixup}
use libpeg.Code.Finish.{overwrite, patch, patch_all}
use libpeg.Code.Assembler.{
  Line, plain, byte, target, word, target_word, byte_target, wide, words, byte_word, with_set,
  set_target, layout, layouts,
}
use libpeg.Code.Layout.{width, offset, length-layout}
use libpeg.Code.Scan.{AllLines, AtLabel}

abbrev pub blank : ℕ → ℕ
blank l = 0

abbrev pub fixup : ℕ → ℕ → Fixup
fixup at l = record { at = at; label = l }

-- the pending operand of a line that starts at this offset
unfoldable pub fixup_of : ℕ → Line → List Fixup
fixup_of base (target op l) = fixup (base + 1) l ∷ []
fixup_of base (target_word op l b) = fixup (base + 1) l ∷ []
fixup_of base (byte_target op c l) = fixup (base + 3) l ∷ []
fixup_of base (set_target op s l) = fixup (base + 3) l ∷ []
fixup_of base i = []

unfoldable pub fixups : ℕ → List Line → List Fixup
fixups base [] = []
fixups base (i ∷ is) = fixup_of base i ++ fixups (base + width i) is

pub fixups-append :
    (base : ℕ) (is js : List Line)
    → fixups base (is ++ js) ≡ fixups base is ++ fixups (base + offset is (length is)) js
unfolding fixups offset
fixups-append base [] js = let e : base + 0 ≡ base = omega arith in rw e refl
fixups-append base (i ∷ is) js =
    let e : base + (width i + offset is (length is)) ≡ base + width i + offset is (length is) =
      omega arith in
    rw
      (
        fixups-append (base + width i) is js,
        e,
        append_assoc (fixup_of base i) (fixups (base + width i) is)
            (fixups (base + width i + offset is (length is)) js),
      )
      refl

set_at-append :
    (pre xs : List ℕ) (k v : ℕ) → set_at (pre ++ xs) (length pre + k) v ≡ pre ++ set_at xs k v
set_at-append [] xs k v = let e : 0 + k ≡ k = omega arith in rw e refl
set_at-append (x ∷ pre) xs k v =
    let e : suc (length pre) + k ≡ suc (length pre + k) = omega arith in
    rw e (ap (λ ys. x ∷ ys) (set_at-append pre xs k v))

overwrite-append :
    (pre xs : List ℕ) (k : ℕ) (bs : List ℕ)
    → overwrite (pre ++ xs) (length pre + k) bs ≡ pre ++ overwrite xs k bs
unfolding overwrite
overwrite-append pre xs k [] = refl
overwrite-append pre xs k (b ∷ bs) =
    let e : length pre + k + 1 ≡ length pre + (k + 1) = omega arith in
    rw (set_at-append pre xs k b, e) (overwrite-append pre (set_at xs k b) (k + 1) bs)

module _ (labels : List ℕ) (place : ℕ → ℕ) where
  -- the label exists, and its offset fits the operand
  abbrev pub IsTarget : ℕ → Type 0
  IsTarget l = (get_elem? labels l ≡ some (place l)) × (place l < 2 ^ 24)

  patch-overwrite :
      (pre xs : List ℕ) (k l : ℕ)
      → IsTarget l
      → patch labels (fixup (length pre + k) l) (pre ++ xs)
        ≡ some (pre ++ overwrite xs k (u24 (place l)))
  unfolding patch
  patch-overwrite pre xs k l t =
      let fits : ltb 0xffffff (place l) ≡ false = ground (arith, t.1) in
      rw (t.0, patch) (rw (fits, overwrite-append pre xs k (u24 (place l))) refl)

  module _ (sets : List Charset) (pre post : List ℕ) where
    abbrev around : (ℕ → ℕ) → Line → List ℕ
    around f i = pre ++ (layout sets f i ++ post)

    patch_line :
        (i : Line)
        → AtLabel IsTarget i
        → patch_all labels (fixup_of (length pre) i) (around blank i) ≡ some (around place i)
    unfolding patch_all fixup_of layout AtLabel
    patch_line (plain op) t = refl
    patch_line (byte op a) t = refl
    patch_line (target op l) t =
        rw (patch-overwrite pre _ 1 l t, patch_all) (unfold overwrite in refl)
    patch_line (word op a) t = refl
    patch_line (target_word op l b) t =
        rw (patch-overwrite pre _ 1 l t, patch_all) (unfold overwrite in refl)
    patch_line (byte_target op c l) t =
        rw (patch-overwrite pre _ 3 l t, patch_all) (unfold overwrite in refl)
    patch_line (wide op a) t = refl
    patch_line (words op a b) t = refl
    patch_line (byte_word op b a) t = refl
    patch_line (with_set op s) t = refl
    patch_line (set_target op s l) t =
        rw (patch-overwrite pre _ 3 l t, patch_all) (unfold overwrite in refl)

  patch_all-append :
      (fs gs : List Fixup) (code code' : List ℕ)
      → patch_all labels fs code ≡ some code'
      → patch_all labels (fs ++ gs) code ≡ patch_all labels gs code'
  unfolding patch_all
  patch_all-append [] gs code code' h = ap (patch_all labels gs) (some-injective code code' h)
  patch_all-append (f ∷ fs) gs code code' h = elim (Option-cases (patch labels f code)) [
    | inl stop ↦ let e : patch_all labels (f ∷ fs) code ≡ none = rw (stop, patch_all) refl in cc
    | inr (c, go) ↦
        let e : patch_all labels (f ∷ fs) code ≡ patch_all labels fs c = rw (go, patch_all) refl in
        rw (go, patch_all) (patch_all-append fs gs c code' (sym e ∙ h))
  ]

  pub patch_layouts :
      (sets : List Charset) (pre : List ℕ) (is : List Line)
      → AllLines (AtLabel IsTarget) is
      → patch_all labels (fixups (length pre) is) (pre ++ layouts sets blank is)
        ≡ some (pre ++ layouts sets place is)
  unfolding layouts fixups
  patch_layouts sets pre [] t = unfold patch_all in refl
  patch_layouts sets pre (i ∷ is) t =
      let old = layouts sets blank is in
      let bytes : List ℕ = layout sets place i in
      let width_is : length (pre ++ bytes) ≡ length pre + width i =
        length-append pre bytes ∙ ap (λ n. length pre + n) (length-layout sets place i) in
      let rest = patch_layouts sets (pre ++ bytes) is t.1 in
      let a = append_assoc pre bytes old in
      let b = append_assoc pre bytes (layouts sets place is) in
      patch_all-append (fixup_of (length pre) i) (fixups (length pre + width i) is) _ _
        (patch_line sets pre old i t.0)
      ∙ rw (width_is, a, b) at rest
