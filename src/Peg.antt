-- ===== src/Peg.antt =====
-- The subject buffer of src/peg.c. `none` is the abort on a bad range.
use libpeg.Prelude.{
  ℕ, zero, suc, ◌+◌, ◌-◌, ◌*◌, ◌||◌, Bool, List, [], ◌∷◌, ◌++◌, Option, none, some, ltb,
  if◌then◌else◌, take, drop, length, replicate,
}
use libpeg.Prelude.Int.{ℤ, pos, negsuc}
mod Splice
mod Tests

-- The list is the allocation: `cap` bytes, of which the first `len` are the subject. A byte that
-- the allocator leaves undefined is 0 here.
pub record Buffer : Type 0 where
  pub buf : List ℕ
  pub len : ℕ
  pub cap : ℕ

-- `while (len > g->cap) g->cap *= 2;` on fuel
unfoldable pub double_until : ℕ → ℕ → ℕ → ℕ
double_until zero len cap = cap
double_until (suc fuel) len cap =
    let more = double_until fuel len (cap * 2) in if ltb cap len then more else cap

unfoldable pub reserved_cap : ℕ → ℕ → ℕ
unfolding double_until
reserved_cap len zero = double_until len len 4096
reserved_cap len (suc cap) = double_until len len (suc cap)

unfoldable pub buf_reserve : Buffer → ℕ → Buffer
unfolding reserved_cap
buf_reserve g len =
    if ltb g.cap len
    then record g {
      buf = g.buf ++ replicate (reserved_cap len g.cap - g.cap) 0;
      cap = reserved_cap len g.cap;
    }
    else g

-- `memcpy` and `memmove` to an offset
unfoldable pub blit : List ℕ → ℕ → List ℕ → List ℕ
blit buf at bytes = take at buf ++ (bytes ++ drop (at + length bytes) buf)

-- the buffer of `peg_parse`
unfoldable pub load : Buffer → List ℕ → Buffer
unfolding buf_reserve blit
load g input =
    let r = buf_reserve g (length input) in
    record r { buf = blit r.buf 0 input; len = length input }

abbrev pub bytes_between : List ℕ → ℕ → ℕ → List ℕ
bytes_between buf from to = take (to - from) (drop from buf)

-- the splice of `peg_edit`, its range in bounds
unfoldable pub splice : Buffer → ℕ → ℕ → List ℕ → Buffer
unfolding buf_reserve blit
splice g start end text =
    let newlen = g.len - (end - start) + length text in
    let r = buf_reserve g newlen in
    let moved = blit r.buf (start + length text) (bytes_between r.buf end g.len) in
    record r { buf = blit moved start text; len = newlen }

-- the buffer of `peg_edit`
unfoldable pub edit : Buffer → ℤ → ℤ → List ℕ → Option Buffer
unfolding splice
edit g (pos start) (pos end) text =
    if ltb end start || ltb g.len end then none else some (splice g start end text)
edit g (pos start) (negsuc end) text = none
edit g (negsuc start) end text = none

-- `peg_subject`, as long as `peg_subject_len` says
abbrev pub subject : Buffer → List ℕ
subject g = take g.len g.buf
