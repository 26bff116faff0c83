-- ===== src/Peg/Splice.antt =====
-- `peg_edit` replaces the range of the subject by the text, whatever the buffer's capacity does.
use libpeg.Prelude.{
  ℕ, zero, suc, ◌+◌, ◌-◌, ◌*◌, ◌≤◌, ◌<◌, ◌≡◌, ◌⊎◌, ◌||◌, refl, sym, ap, ◌∙◌, false, List, [], ◌∷◌,
  ◌++◌, none, some, ltb, take, drop, length, replicate, arith, length-append, length-replicate,
  length-take, length-drop, Bool-cases, inl, inr,
}
use mathlib.Core.Path.{ap₂}
use libpeg.Prelude.Int.{ℤ, pos, negsuc, pos_part, ◌≤ℤ◌, ◌<ℤ◌}
use libpeg.Peg.{
  Buffer, double_until, reserved_cap, buf_reserve, blit, load, bytes_between, splice, edit, subject,
}

pub record IsBuffer (g : Buffer) : Type 0 where
  pub allocated : length g.buf ≡ g.cap
  pub fits : g.len ≤ g.cap

double_until-enough :
    (fuel len cap : ℕ) → 0 < cap → len ≤ fuel + cap → len ≤ double_until fuel len cap
unfolding double_until
double_until-enough zero len cap p h = omega arith
double_until-enough (suc fuel) len cap p h =
    ground (arith, double_until-enough fuel len (cap * 2) (omega arith) (omega arith))

double_until-grows : (fuel len cap : ℕ) → cap ≤ double_until fuel len cap
unfolding double_until
double_until-grows zero len cap = omega arith
double_until-grows (suc fuel) len cap = ground (arith, double_until-grows fuel len (cap * 2))

-- The doubling loop ends with room for what was asked.
reserved_cap-enough : (len cap : ℕ) → (len ≤ reserved_cap len cap) × (cap ≤ reserved_cap len cap)
unfolding reserved_cap
reserved_cap-enough len zero =
    (double_until-enough len len 4096 (omega arith) (omega arith), omega arith)
reserved_cap-enough len (suc cap) = (
  double_until-enough len len (suc cap) (omega arith) (omega arith),
  double_until-grows len len (suc cap),
)

take_all : (xs : List ℕ) (n : ℕ) → length xs ≤ n → take n xs ≡ xs
take_all [] zero h = refl
take_all [] (suc n) h = refl
take_all (x ∷ xs) zero h = absurd (omega arith)
take_all (x ∷ xs) (suc n) h = ap (λ ys. x ∷ ys) (take_all xs n (omega arith))

take-append_left : (xs ys : List ℕ) (n : ℕ) → n ≤ length xs → take n (xs ++ ys) ≡ take n xs
take-append_left xs ys zero h = refl
take-append_left [] ys (suc n) h = absurd (omega arith)
take-append_left (x ∷ xs) ys (suc n) h = ap (λ zs. x ∷ zs) (take-append_left xs ys n (omega arith))

take-append_right : (xs ys : List ℕ) (n : ℕ) → take (length xs + n) (xs ++ ys) ≡ xs ++ take n ys
take-append_right [] ys n = let e : 0 + n ≡ n = omega arith in rw e refl
take-append_right (x ∷ xs) ys n =
    let e : suc (length xs) + n ≡ suc (length xs + n) = omega arith in
    rw e (ap (λ zs. x ∷ zs) (take-append_right xs ys n))

drop-append_right : (xs ys : List ℕ) (n : ℕ) → n ≡ length xs → drop n (xs ++ ys) ≡ ys
drop-append_right [] ys zero h = refl
drop-append_right [] ys (suc n) h = absurd (omega arith)
drop-append_right (x ∷ xs) ys zero h = absurd (omega arith)
drop-append_right (x ∷ xs) ys (suc n) h = drop-append_right xs ys n (omega arith)

take-take : (xs : List ℕ) (m n : ℕ) → m ≤ n → take m (take n xs) ≡ take m xs
take-take xs zero n h = refl
take-take [] (suc m) zero h = absurd (omega arith)
take-take [] (suc m) (suc n) h = refl
take-take (x ∷ xs) (suc m) zero h = absurd (omega arith)
take-take (x ∷ xs) (suc m) (suc n) h = ap (λ ys. x ∷ ys) (take-take xs m n (omega arith))

drop-take : (xs : List ℕ) (m n : ℕ) → m ≤ n → drop m (take n xs) ≡ take (n - m) (drop m xs)
drop-take xs zero n h = let e : n - 0 ≡ n = omega arith in rw e refl
drop-take [] (suc m) zero h = absurd (omega arith)
drop-take (x ∷ xs) (suc m) zero h = absurd (omega arith)
drop-take [] (suc m) (suc n) h = sym (take_all [] _ (omega arith))
drop-take (x ∷ xs) (suc m) (suc n) h =
    let e : suc n - suc m ≡ n - m = omega arith in rw e (drop-take xs m n (omega arith))

-- Growing the buffer keeps its bytes, and makes room.
buf_reserve_lem :
    (g : Buffer) (len : ℕ)
    → IsBuffer g
    → let r = buf_reserve g len in
      (length r.buf ≡ r.cap)
      × (len ≤ r.cap)
      × (g.cap ≤ r.cap)
      × ((n : ℕ) → n ≤ g.cap → take n r.buf ≡ take n g.buf)
unfolding buf_reserve
buf_reserve_lem g len b = elim (Bool-cases (ltb g.cap len)) [
  | inl grow ↦
      let c = reserved_cap len g.cap in
      let (enough, more) = reserved_cap-enough len g.cap in
      rw (grow, buf_reserve)
        (
          omega (
            arith,
            b.allocated,
            length-append g.buf (replicate (c - g.cap) 0),
            length-replicate {A = ℕ} (c - g.cap) 0,
          ),
          enough,
          more,
          λ n h. take-append_left g.buf (replicate (c - g.cap) 0) n (omega (arith, b.allocated)),
        )
  | inr room ↦
      rw (room, buf_reserve)
        (b.allocated, omega (arith, ltb_false g.cap len room), omega arith, λ n h. refl)
]
  where
    ltb_false : (a b : ℕ) → ltb a b ≡ false → b ≤ a
    ltb_false a b h = ground arith

length-blit :
    (buf : List ℕ) (at : ℕ) (bytes : List ℕ)
    → at + length bytes ≤ length buf
    → length (blit buf at bytes) ≡ length buf
unfolding blit
length-blit buf at bytes h = omega (
  arith,
  length-append (take at buf) (bytes ++ drop (at + length bytes) buf),
  length-append bytes (drop (at + length bytes) buf),
  length-take at buf,
  length-drop (at + length bytes) buf,
)

take-blit :
    (buf : List ℕ) (at n : ℕ) (bytes : List ℕ)
    → n ≤ at
    → at ≤ length buf
    → take n (blit buf at bytes) ≡ take n buf
unfolding blit
take-blit buf at n bytes h k =
    take-append_left (take at buf) _ n (omega (arith, length-take at buf)) ∙ take-take buf n at h

drop-blit :
    (buf : List ℕ) (at : ℕ) (bytes : List ℕ)
    → at ≤ length buf
    → drop at (blit buf at bytes) ≡ bytes ++ drop (at + length bytes) buf
unfolding blit
drop-blit buf at bytes h = drop-append_right (take at buf) _ at (omega (arith, length-take at buf))

-- The two moves of the splice, in a buffer with room.
two_moves :
    (buf text tail : List ℕ) (start : ℕ)
    → start + length text + length tail ≤ length buf
    → take
        (start + length text + length tail)
        (blit (blit buf (start + length text) tail) start text)
      ≡ take start buf ++ (text ++ tail)
two_moves buf text tail start h =
    let moved = blit buf (start + length text) tail in
    let room : start ≤ length buf = omega arith in
    let rest = drop (start + length text + length tail) buf in
    let d : drop (start + length text) moved ≡ tail ++ rest =
      drop-blit buf (start + length text) tail (omega arith) in
    let whole : blit moved start text ≡ take start buf ++ (text ++ (tail ++ rest)) =
      unfold blit in
      rw (d, take-blit buf (start + length text) start tail (omega arith) (omega arith)) refl in
    let inner : take (length text + length tail) (text ++ (tail ++ rest)) ≡ text ++ tail =
      take-append_right text (tail ++ rest) (length tail)
      ∙ ap (λ x. text ++ x)
          (take-append_left tail rest (length tail) (omega arith)
            ∙ take_all tail _ (omega arith)) in
    let n : start + length text + length tail
        ≡ length (take start buf) + (length text + length tail) =
      omega (arith, length-take start buf) in
    ap (λ x. take (start + length text + length tail) x) whole
    ∙ ap (λ k. take k (take start buf ++ (text ++ (tail ++ rest)))) n
    ∙ take-append_right (take start buf) _ (length text + length tail)
    ∙ ap (λ x. take start buf ++ x) inner

splice_lem :
    (g : Buffer) (start end : ℕ) (text : List ℕ)
    → IsBuffer g
    → start ≤ end
    → end ≤ g.len
    → let h = splice g start end text in
      IsBuffer h × (subject h ≡ take start (subject g) ++ (text ++ drop end (subject g)))
unfolding splice
splice_lem g start end text b p q =
    let newlen = g.len - (end - start) + length text in
    let (alloc, room, more, same) = buf_reserve_lem g newlen b in
    let buf = (buf_reserve g newlen).buf in
    let tail = bytes_between buf end g.len in
    let e0 : length tail ≡ g.len - end =
      omega (
        arith,
        length-take (g.len - end) (drop end buf),
        length-drop end buf,
        b.fits,
        alloc,
        more,
      ) in
    let n : newlen ≡ start + length text + length tail = omega arith in
    let moves = two_moves buf text tail start (omega (arith, alloc)) in
    let head : take start (subject g) ≡ take start buf =
      take-take g.buf start g.len (omega arith) ∙ sym (same start (omega (arith, b.fits))) in
    let last : drop end (subject g) ≡ tail =
      ap (λ x. drop end x) (sym (same g.len b.fits)) ∙ drop-take buf end g.len q in
    let moved = blit buf (start + length text) tail in
    let l1 = length-blit buf (start + length text) tail (omega (arith, alloc)) in
    let l2 = length-blit moved start text (omega (arith, alloc)) in
    (
      record { allocated = l2 ∙ l1 ∙ alloc; fits = room },
      ap (λ k. take k (blit moved start text)) n
          ∙ moves
          ∙ ap₂ (λ (x y : List ℕ). x ++ (text ++ y)) (sym head) (sym last),
    )

-- Within bounds `peg_edit` returns; the subject is then the old one up to `start`, the text, and the
-- old one from `end` on, and the buffer is again well formed. It aborts if `start` is negative, if
-- `end` is before `start`, and if `end` is past the subject.
pub edit_lem :
    (g : Buffer) (start end : ℤ) (text : List ℕ)
    → IsBuffer g
    → (pos 0 ≤ℤ start
        → start ≤ℤ end
        → end ≤ℤ pos g.len
        → (h : Buffer) × (edit g start end text ≡ some h)
          × IsBuffer h
          × (subject h
              ≡ take (pos_part start) (subject g) ++ (text ++ drop (pos_part end) (subject g))))
      × ((start <ℤ pos 0) ⊎ (end <ℤ start) ⊎ (pos g.len <ℤ end) → edit g start end text ≡ none)
unfolding edit
edit_lem g (negsuc start) end text b = (λ low p q. absurd (omega arith), λ out. refl)
edit_lem g (pos start) (negsuc end) text b = (λ low p q. absurd (omega arith), λ out. refl)
edit_lem g (pos start) (pos end) text b = (
  λ low p q.
      let inside : (ltb end start || ltb g.len end) ≡ false = ground arith in
      let (ok, is) = splice_lem g start end text b (omega arith) (omega arith) in
      (splice g start end text, rw (inside, edit) refl, ok, is),
  λ out. ground arith,
)

-- `peg_parse` makes its input the subject.
pub load_lem :
    (g : Buffer) (input : List ℕ)
    → IsBuffer g
    → IsBuffer (load g input) × (subject (load g input) ≡ input)
unfolding load
load_lem g input b =
    let (alloc, room, more, same) = buf_reserve_lem g (length input) b in
    let buf = (buf_reserve g (length input)).buf in
    (
      record { allocated = length-blit buf 0 input (omega (arith, alloc)) ∙ alloc; fits = room },
      unfold blit in
          take-append_left input (drop (0 + length input) buf) (length input) (omega arith)
          ∙ take_all input (length input) (omega arith),
    )
