-- ===== src/Input.antt =====
-- The input wrapper of src/vm.c (`struct vm_input`): a chunk cache over the flat subject with a
-- furthest-read tracker. Offsets are unbounded numbers: the subject is taken to be shorter than
-- 2 ^ 31 bytes, so that the casts between `int` and `size_t` change nothing.
pub mod Flat
pub mod Inv
pub mod Span
pub mod Refine
pub mod Examined
mod Tests
use libpeg.Prelude.{
  ℕ, zero, suc, ◌+◌, ◌-◌, Bool, true, false, Option, none, some, List, ◌&&◌, ◌||◌, ltb, leb, ◌==◌,
  if◌then◌else◌, length, get_or, take, drop,
}
use libpeg.Charset.{Charset, has}

-- INPUT_CHUNK
abbrev pub input_chunk : ℕ
input_chunk = 4096

-- The valid bytes of the cache are the first `nchunk` of `chunk`.
pub record Input : Type 0 where
  pub bytes : List ℕ
  pub chunk : List ℕ
  pub nchunk : ℕ
  pub base : ℕ
  pub coff : ℕ
  pub furthest : ℕ

-- The smaller of what is left and a whole chunk, as the source writes it.
abbrev pub chunk_size : ℕ → ℕ
chunk_size avail = if ltb avail input_chunk then avail else input_chunk

unfoldable pub new : List ℕ → Input
new bytes = record {
  bytes = bytes;
  chunk = take (chunk_size (length bytes)) bytes;
  nchunk = chunk_size (length bytes);
  base = 0;
  coff = 0;
  furthest = 0;
}

-- `avail` is 0 at or past the end, as `-` on ℕ gives it.
unfoldable pub refill : Input → ℕ → Input
refill i pos =
    let n = chunk_size (length i.bytes - pos) in
    record i {
      base = pos;
      coff = 0;
      nchunk = n;
      chunk = if ltb 0 n then take n (drop pos i.bytes) else i.chunk;
    }

abbrev pub position : Input → ℕ
position i = i.base + i.coff

abbrev pub reset_furthest : Input → Input
reset_furthest i = record i { furthest = 0 }

-- `if (pos > i->furthest) i->furthest = pos;`
abbrev pub track : Input → Input
track i = record i { furthest = if ltb i.furthest (position i) then position i else i.furthest }

-- The byte that `*out` receives; `none` is the result `false`.
unfoldable pub peek : Input → Input × Option ℕ
peek i =
    (track i, if i.nchunk == 0 || leb i.nchunk i.coff then none else some (get_or i.chunk i.coff 0))

unfoldable pub advance : Input → ℕ → Input × Bool
unfolding refill
advance i n =
    let pos = position i + n in
    let moved = record i { coff = i.coff + n } in
    (if leb i.nchunk (i.coff + n) then refill moved pos else moved, leb pos (length i.bytes))

unfoldable pub seek_to : Input → ℕ → Input
unfolding refill
seek_to i pos =
    if ltb pos (i.base + i.nchunk) && leb i.base pos
    then record i { coff = pos - i.base }
    else refill i pos

-- The inner loop of `input_span`, with the bytes of the chunk that are left: the new `coff`.
unfoldable pub scan : Charset → List ℕ → ℕ → ℕ → ℕ
scan set chunk zero coff = coff
scan set chunk (suc left) coff =
    let rest = scan set chunk left (coff + 1) in
    if has set (get_or chunk coff 0) then rest else coff

-- One round of the outer loop up to its test: scan, then track the position.
unfoldable pub span_round : Charset → Input → Input
unfolding scan
span_round set i = track (record i { coff = scan set i.chunk (i.nchunk - i.coff) i.coff })

-- The outer loop on fuel; `none` means that the fuel ran out.
unfoldable pub span_loop : ℕ → Charset → Input → Option Input
unfolding span_round refill
span_loop zero set i = none
span_loop (suc fuel) set i =
    let j = span_round set i in
    let rest = span_loop fuel set (refill j (position j)) in
    if ltb j.coff j.nchunk || j.nchunk == 0 then some j else rest

-- Each round but the last consumes a byte at least, so there are at most length + 2 of them.
unfoldable pub span : Input → Charset → Option Input
unfolding span_loop
span i set = span_loop (length i.bytes + 2) set i
