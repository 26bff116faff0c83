-- ===== src/Code/Bytes.antt =====
-- The operand encodings of src/vm_code.c: 24-bit offsets with the high byte first, and 16-bit
-- integers with the low byte first.
use libpeg.Prelude.{
  ℕ, ◌+◌, ◌-◌, ◌*◌, ◌/◌, ◌%◌, ◌^◌, ◌<◌, ◌≡◌, List, [], ◌∷◌, arith, ltb, if◌then◌else◌,
}
use Prim.Native.Nat.{bit_or}
use libpeg.Prelude.Bits.{bit_or_split, bit_or-zero, bit_or_fields, bit_or_fields_flip}
use libpeg.Prelude.Int.{ℤ, pos, negsuc}

-- `(a >> 16) & 0xff`, `a & 0xff`, `(a >> 8) & 0xff`
unfoldable pub u24 : ℕ → List ℕ
u24 a = a / 2 ^ 16 % 256 ∷ a % 256 ∷ a / 2 ^ 8 % 256 ∷ []

-- `(b[0] << 16) | b[1] | (b[2] << 8)`
unfoldable pub decode_u24 : ℕ → ℕ → ℕ → ℕ
decode_u24 b0 b1 b2 = bit_or (bit_or (b0 * 2 ^ 16) b1) (b2 * 2 ^ 8)

-- The bit pattern of an integer that is cast to `uint16_t`.
unfoldable pub u16 : ℤ → ℕ
u16 (pos n) = n % 2 ^ 16
u16 (negsuc n) = 2 ^ 16 - 1 - n % 2 ^ 16

-- `a & 0xff`, `(uint16_t)a >> 8`
unfoldable pub i16 : ℤ → List ℕ
unfolding u16
i16 a = u16 a % 256 ∷ u16 a / 2 ^ 8 % 256 ∷ []

-- `(int16_t)w` of a 16-bit pattern
unfoldable pub signed16 : ℕ → ℤ
signed16 w = if ltb w (2 ^ 15) then pos w else negsuc (2 ^ 16 - 1 - w)

unfoldable pub decode_i16 : ℕ → ℕ → ℤ
unfolding signed16
decode_i16 b0 b1 = signed16 (bit_or b0 (b1 * 2 ^ 8))

-- The integers that a 16-bit operand can hold.
abbrev pub FitsI16 : ℤ → Type 0
FitsI16 (pos n) = n < 2 ^ 15
FitsI16 (negsuc n) = n < 2 ^ 15

-- The three bytes of an offset, put together again.
join_u24 : (b0 b1 b2 : ℕ) → b1 < 256 → b2 < 256 → decode_u24 b0 b1 b2 ≡ b0 * 65536 + b2 * 256 + b1
unfolding decode_u24
join_u24 b0 b1 b2 p q =
    let e : b0 * 65536 + b1 ≡ b0 * 256 * 2 ^ 8 + b1 = omega arith in
    let z : b2 * 256 ≡ b2 * 2 ^ 8 + 0 = omega arith in
    let m = bit_or_split 8 (b0 * 256) b1 b2 0 p (omega arith) in
    rw (bit_or_fields 16 b0 b1 (omega arith), e, z, m, bit_or_fields 8 b0 b2 q, bit_or-zero b1)
      (omega arith)

-- A number below 2^24 survives its encoding: the high byte first, then the two lower ones from the
-- lowest.
pub decode_u24-u24 :
    (a : ℕ) → a < 2 ^ 24 → decode_u24 (a / 2 ^ 16 % 256) (a % 256) (a / 2 ^ 8 % 256) ≡ a
decode_u24-u24 a h =
    omega (arith, join_u24 (a / 65536 % 256) (a % 256) (a / 256 % 256) (omega arith) (omega arith))

-- An integer with the range of a C `int16_t` survives its encoding in two bytes, the lower first.
pub decode_i16-i16 : (a : ℤ) → FitsI16 a → decode_i16 (u16 a % 256) (u16 a / 2 ^ 8 % 256) ≡ a
unfolding decode_i16 u16
decode_i16-i16 (pos n) h =
    ground (arith, bit_or_fields_flip 8 (n % 65536 % 256) (n % 65536 / 256 % 256) (omega arith))
decode_i16-i16 (negsuc n) h =
    let w : ℕ = 65535 - n % 65536 in
    ground (arith, bit_or_fields_flip 8 (w % 256) (w / 256 % 256) (omega arith))
