-- ===== src/IoBuffer/Size.antt =====
-- `new_buffer`: the size it rounds to, and the buffer it makes.
use ftpserv_u.Prelude.{
  ℕ, ◌+◌, ◌%◌, ◌≤◌, ◌<◌, ◌≡◌, refl, true, some, [], arith, length-replicate, replicate,
}
use ftpserv_u.IoBuffer.{IoBuffer, size_align, new_buffer}
use ftpserv_u.IoBuffer.Contents.{IsValid, contents, of_parts}

-- When every allocation succeeds a valid empty buffer is made. Its size is a multiple of 64
-- above the size that was asked for, by at most 64.
pub new_buffer_lem :
    (size : ℕ)
    → (b : IoBuffer) × (new_buffer true true true size ≡ some b)
      × IsValid b
      × (contents b ≡ [])
      × (size < b.size)
      × (b.size ≤ size + 64)
      × (b.size % 64 ≡ 0)
unfolding new_buffer
new_buffer_lem size =
    let aligned = size_align size 64 in
    let b : IoBuffer = record {
      buffer = replicate aligned 0;
      line = replicate aligned 0;
      size = aligned;
      head = 0;
    } in
    let parts = of_parts {b = b} [] aligned refl refl (omega arith) (length-replicate aligned 0) in
    (b, refl, parts.0, parts.1, omega arith, omega arith, omega arith)
