-- ===== src/Charset/Members.antt =====
-- What each operation on byte sets does to membership, `vm_charset_has`.
use libpeg.Prelude.{
  ℕ, zero, suc, ◌+◌, ◌-◌, ◌*◌, ◌/◌, ◌%◌, ◌^◌, ◌≤◌, ◌<◌, ◌≡◌, ◌↔◌, inl, inr, refl, ap, Bool, true,
  false, not, ◌&&◌, ◌||◌, List, [], ◌∷◌, arith, ◌==◌, ltb, leb, if◌then◌else◌, Bool-cases, ==_iff,
}
use libpeg.Prelude.Bits.{
  bit, bit-le, bit-bit_or, bit-bit_and, complement, bit-complement, bit-pow_self, bit-pow_ne,
  bit_zero_word, eq_of_bits, pow-lt,
}
use Prim.Native.Nat.{bit_and, bit_or}
use libpeg.Charset.{
  Charset, bits, empty, has, set, fill_loop, fill, range_loop, range, negate, sub, union, eq,
}
use libpeg.Charset.Words.{IsCharset, bits-lt, bits-each_word, bits-set_bits_self, bits-set_bits_ne}

-- A byte is in the complement exactly when it is not in the set, whose words have 64 bits.
pub has-negate : (s : Charset) (c : ℕ) → IsCharset s → c < 256 → has (negate s) c ≡ not (has s c)
unfolding has negate
has-negate s c v h = rw (bits-each_word (λ i. complement 64 (bits s i)) (c / 64) (omega arith)) (
    ground (
      arith,
      bit-complement (c % 64) 64 (bits s (c / 64)) (omega arith) (bits-lt s (c / 64) v),
      bit-le (bits s (c / 64)) (c % 64),
    ))

-- Of the bytes, the union of two sets holds those of either set.
pub has-union : (a b : Charset) (c : ℕ) → c < 256 → has (union a b) c ≡ (has a c || has b c)
unfolding has union
has-union a b c h = rw (bits-each_word (λ i. bit_or (bits a i) (bits b i)) (c / 64) (omega arith)) (
    ground (
      arith,
      bit-bit_or (c % 64) (bits a (c / 64)) (bits b (c / 64)),
      bit-le (bits a (c / 64)) (c % 64),
      bit-le (bits b (c / 64)) (c % 64),
    ))

-- Of the bytes, the difference holds those of the first set that are not in the second, whose words
-- have 64 bits.
pub has-sub :
    (a b : Charset) (c : ℕ) → IsCharset b → c < 256 → has (sub a b) c ≡ (has a c && not (has b c))
unfolding has sub
has-sub a b c v h =
    rw (bits-each_word (λ i. bit_and (bits a i) (complement 64 (bits b i))) (c / 64) (omega arith))
      (ground (
        arith,
        bit-bit_and (c % 64) (bits a (c / 64)) (complement 64 (bits b (c / 64))),
        bit-complement (c % 64) 64 (bits b (c / 64)) (omega arith) (bits-lt b (c / 64) v),
        bit-le (bits a (c / 64)) (c % 64),
        bit-le (bits b (c / 64)) (c % 64),
      ))

-- The word that `vm_charset_set` stores, bit by bit.
bit-set :
    (w k j : ℕ) (on : Bool)
    → k < 64
    → j < 64
    → bit (if on then bit_or w (2 ^ k) else bit_and w (complement 64 (2 ^ k))) j
      ≡ (if k == j then (if on then 1 else 0) else bit w j)
bit-set w k j true p q = elim (Bool-cases (k == j)) [
  | inl e ↦
      let e' : k ≡ j = (==_iff k j).0 e in
      rw (e, bit-bit_or j w (2 ^ k), e', bit-pow_self j) (omega (arith, bit-le w j))
  | inr n ↦
      rw (n, bit-bit_or j w (2 ^ k), bit-pow_ne k j (ground arith)) (omega (arith, bit-le w j))
]
bit-set w k j false p q = elim (Bool-cases (k == j)) [
  | inl e ↦
      let e' : k ≡ j = (==_iff k j).0 e in
      rw
        (
          e,
          bit-bit_and j w (complement 64 (2 ^ k)),
          bit-complement j 64 (2 ^ k) q (pow-lt k 64 p),
          e',
          bit-pow_self j,
        )
        (omega arith)
  | inr n ↦
      rw
        (
          n,
          bit-bit_and j w (complement 64 (2 ^ k)),
          bit-complement j 64 (2 ^ k) q (pow-lt k 64 p),
          bit-pow_ne k j (ground arith),
        )
        (omega (arith, bit-le w j))
]

-- `vm_charset_set` decides the byte it is given and leaves every other byte as it was.
pub has-set :
    (s : Charset) (c d : ℕ) (on : Bool)
    → c < 256
    → d < 256
    → has (set s c on) d ≡ (if c == d then on else has s d)
unfolding has set
has-set s c d on p q = elim (Bool-cases (c / 64 == d / 64)) [
  | inl e ↦
      let e' : c / 64 ≡ d / 64 = (==_iff (c / 64) (d / 64)).0 e in
      let w : ℕ = bits s (c / 64) in
      let stored : bits (set s c on) (d / 64)
          ≡ (if on then bit_or w (2 ^ (c % 64)) else bit_and w (complement 64 (2 ^ (c % 64)))) =
        rw (← e') (bits-set_bits_self s (c / 64) _) in
      rw stored
        (ground (arith, bit-set w (c % 64) (d % 64) on (omega arith) (omega arith), ap (bits s) e'))
  | inr n ↦
      rw (bits-set_bits_ne s (c / 64) (d / 64) _ (omega arith) (omega arith) (ground arith))
        (ground arith)
]

-- the specification of a byte list as a set
unfoldable pub contains : List ℕ → ℕ → Bool
contains [] d = false
contains (c ∷ cs) d = (c == d) || contains cs d

abbrev pub AreBytes : List ℕ → Type 0
AreBytes [] = Unit
AreBytes (c ∷ cs) = (c < 256) × AreBytes cs

has-fill_loop :
    (cs : List ℕ) (s : Charset) (d : ℕ)
    → AreBytes cs
    → d < 256
    → has (fill_loop cs s) d ≡ (contains cs d || has s d)
unfolding fill_loop contains
has-fill_loop [] s d b h = refl
has-fill_loop (c ∷ cs) s d b h =
    ground (arith, has-fill_loop cs (set s c true) d b.1 h, has-set s c d true b.0 h)

has-empty : (d : ℕ) → d < 256 → has empty d ≡ false
unfolding has
has-empty d h =
    rw (bits-each_word (λ _. 0) (d / 64) (omega arith)) (ground (arith, bit_zero_word (d % 64)))

-- `vm_charset_fill` of a list of bytes builds the set that holds exactly the listed bytes.
pub has-fill : (cs : List ℕ) (d : ℕ) → AreBytes cs → d < 256 → has (fill cs) d ≡ contains cs d
unfolding fill
has-fill cs d b h = ground (arith, has-fill_loop cs empty d b h, has-empty d h)

has-range_loop :
    (n c : ℕ) (s : Charset) (d : ℕ)
    → c + n ≤ 256
    → d < 256
    → has (range_loop n c s) d ≡ ((leb c d && ltb d (c + n)) || has s d)
unfolding range_loop
has-range_loop zero c s d p h = ground arith
has-range_loop (suc n) c s d p h = ground (
  arith,
  has-range_loop n (c + 1) (set s c true) d (omega arith) h,
  has-set s c d true (omega arith) h,
)

-- `vm_charset_range` builds the set of the bytes from `lo` to `hi`, both included; it is empty
-- where `hi` is below `lo`.
pub has-range :
    (lo hi d : ℕ) → lo < 256 → hi < 256 → d < 256 → has (range lo hi) d ≡ (leb lo d && leb d hi)
unfolding range
has-range lo hi d p q h =
    ground (arith, has-range_loop (hi + 1 - lo) lo empty d (omega arith) h, has-empty d h)

eq→words : (a b : Charset) (i : ℕ) → eq a b ≡ true → bits a i ≡ bits b i
unfolding eq bits
eq→words a b zero h = ground arith
eq→words a b (suc zero) h = ground arith
eq→words a b (suc (suc zero)) h = ground arith
eq→words a b (suc (suc (suc i))) h = ground arith

same_words :
    (a b : Charset) (i : ℕ)
    → IsCharset a
    → IsCharset b
    → i < 4
    → ((c : ℕ) → c < 256 → has a c ≡ has b c)
    → bits a i ≡ bits b i
unfolding has
same_words a b i v w p same = eq_of_bits 64 _ _ (bits-lt a i v) (bits-lt b i w) each
  where
    each : (k : ℕ) → k < 64 → bit (bits a i) k ≡ bit (bits b i) k
    each k q =
        let hi : (64 * i + k) / 64 ≡ i = omega arith in
        let lo : (64 * i + k) % 64 ≡ k = omega arith in
        let h = rw (hi, lo) at (same (64 * i + k) (omega arith)) in
        ground (arith, h, bit-le (bits a i) k, bit-le (bits b i) k)

-- `vm_charset_eq` holds of two sets of 64-bit words exactly when they have the same members.
pub eq_iff :
    (a b : Charset)
    → IsCharset a
    → IsCharset b
    → (eq a b ≡ true) ↔ ((c : ℕ) → c < 256 → has a c ≡ has b c)
eq_iff a b v w = (forth, back)
  where
    forth : eq a b ≡ true → (c : ℕ) → c < 256 → has a c ≡ has b c
    forth h c p = unfold has in rw (eq→words a b (c / 64) h) refl

    back : ((c : ℕ) → c < 256 → has a c ≡ has b c) → eq a b ≡ true
    back same =
        unfold eq bits in
        ground (
          arith,
          same_words a b 0 v w (omega arith) same,
          same_words a b 1 v w (omega arith) same,
          same_words a b 2 v w (omega arith) same,
          same_words a b 3 v w (omega arith) same,
        )
