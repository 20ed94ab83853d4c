-- ===== src/IoBuffer.antt =====
-- src/iobuffer.c: a buffer of bytes that are appended at `head` and taken off the front a line
-- at a time. The two blocks that the struct points to are part of the value.
pub mod Size
pub mod Contents
pub mod Split
pub mod NextLine
pub mod Loop
pub mod Kept
use ftpserv_u.Prelude.{
  ℕ, zero, suc, ◌+◌, ◌-◌, ◌%◌, ℤ, pos, negsuc, sub_ℕ, Bool, true, false, ◌||◌, not, Option, none,
  some, List, [], ◌∷◌, Out, done, fault, ◌>>=◌, ltb, leb, ◌==◌, if◌then◌else◌, length, take, drop,
  replicate,
}
use ftpserv_u.Memory.{Bytes, write_at, read_at}

pub record IoBuffer : Type 0 where
  pub buffer : Bytes
  pub line : Bytes
  pub size : ℕ
  pub head : ℕ

-- `sizeAlign`
pub size_align : ℕ → ℕ → ℕ
size_align size multiple_of = let remainder = size % multiple_of in size + (multiple_of - remainder)

-- The three flags say which of the allocations (the struct, `buffer`, `line`) succeed.
unfoldable pub new_buffer : Bool → Bool → Bool → ℕ → Option IoBuffer
unfolding size_align
new_buffer struct_ok buffer_ok line_ok size =
    let aligned = size_align size 64 in
    if not struct_ok
    then none
    else if not buffer_ok || not line_ok
    then none
    else some (record {
      buffer = replicate aligned 0;
      line = replicate aligned 0;
      size = aligned;
      head = 0;
    })

unfoldable pub remaining : IoBuffer → ℤ
remaining b = sub_ℕ b.size (1 + b.head)

-- `iobuffer_head`: the offset of the first free byte, if it is not past the end.
unfoldable pub head_offset : IoBuffer → Option ℕ
head_offset b = if ltb b.size b.head then none else some b.head

-- `none` is a null `data`; `len` is the length of the bytes that it points to.
unfoldable pub append : IoBuffer → Option Bytes → Out (ℤ × IoBuffer)
unfolding write_at
append b none = done (negsuc 0, b)
append b (some bytes) = if ltb b.size (b.head + length bytes) then done (negsuc 0, b) else do
  mem ← write_at b.buffer b.head bytes
  done (pos 0, record b { buffer = mem; head = b.head + length bytes })

-- `find_eol`, with `none` for -1. A read past the block is a fault.
pub find_eol : Bytes → ℕ → Out (Option ℕ)
find_eol mem zero = done none
find_eol [] (suc limit) = fault
find_eol (c ∷ mem) (suc limit) =
    let rest = find_eol mem limit in
    if c == b'\n'
    then done (some 0)
    else rest >>= λ found. elim found [ none ↦ done none | some i ↦ done (some (suc i)) ]

pub calculate_bytes_to_copy : ℕ → Bool → Bool → ℤ
calculate_bytes_to_copy eol_offset has_cr preserve_newlines =
    if preserve_newlines
    then pos (eol_offset + 1)
    else if has_cr
    then sub_ℕ eol_offset 1
    else pos eol_offset

-- `buffer[eol-1]`, where `before` is the byte that memory holds just before the block.
pub byte_before : ℕ → Bytes → ℕ → Out ℕ
byte_before before mem zero = done before
byte_before before [] (suc i) = fault
byte_before before (c ∷ mem) (suc i) = byte_before c mem i

-- What `__iobuffer_next_line` does with a count of bytes to copy. A negative `int` becomes a
-- `size_t` near 2^32 in the call of `memcpy`.
pub copy_line : Bytes → Bytes → ℤ → Out Bytes
unfolding read_at write_at
copy_line line mem (negsuc _) = fault
copy_line line mem (pos n) = do
  bytes ← read_at mem 0 n
  copied ← write_at line 0 bytes
  write_at copied n (0 ∷ [])

-- The rest of `__iobuffer_next_line`, from the offset of the newline on.
pub take_line : ℕ → Bool → IoBuffer → ℕ → Out (Option Bytes × IoBuffer)
unfolding calculate_bytes_to_copy byte_before copy_line
take_line before preserve_newline b eol = do
  previous ← byte_before before b.buffer eol
  let bytes_to_copy = calculate_bytes_to_copy eol (previous == b'\r') preserve_newline
  let new_buffer_start = eol + 1
  line ← copy_line b.line b.buffer bytes_to_copy
  rest ← read_at b.buffer new_buffer_start (b.size - new_buffer_start)
  moved ← write_at b.buffer 0 rest
  let head = b.head - new_buffer_start
  cleared ← write_at moved head (replicate (b.size - head) 0)
  done (some line, record b { buffer = cleared; line = line; head = head })

-- `__iobuffer_next_line`: the block `line` that the returned pointer leads to, or `none` for
-- NULL. What follows the string in that block stays in view.
unfoldable pub next_line_raw : ℕ → Bool → IoBuffer → Out (Option Bytes × IoBuffer)
unfolding find_eol take_line
next_line_raw before preserve_newline b = find_eol b.buffer b.head >>= λ found. elim found [
  | none ↦ done (none, b)
  | some eol ↦ take_line before preserve_newline b eol
]

-- `iobuffer_next_line` removes the end of line, `iobuffer_next_line_eol` keeps it.
abbrev pub next_line : ℕ → IoBuffer → Out (Option Bytes × IoBuffer)
next_line before = next_line_raw before false

abbrev pub next_line_eol : ℕ → IoBuffer → Out (Option Bytes × IoBuffer)
next_line_eol before = next_line_raw before true
