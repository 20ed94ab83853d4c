-- ===== src/Dtp/Transfer.antt =====
-- `dtp_copy_data`: what a transfer does to the stream of bytes that passes through its channel.
use ftpserv_u.Prelude.{
  ℕ, ◌-◌, ◌≤◌, ◌≡◌, refl, ap, sym, ◌∙◌, pos, [], ◌++◌, append_assoc, append-nil, done, arith,
  length, take, drop, length-append, length-drop, length-take_le, take-append, drop-append,
  take-append-drop,
}
use ftpserv_u.Memory.{Bytes, write_at, read_at, write_at-append, read_at-append}
use ftpserv_u.IoBuffer.{IoBuffer}
use ftpserv_u.IoBuffer.Contents.{contents}
use ftpserv_u.Network.{received}
use ftpserv_u.Dtp.{wrote, drop_written, fill_with}

-- The block has `size` bytes, and `head` stays inside. What lies behind `head` is not zeroed here.
pub record IsBounded (b : IoBuffer) : Type 0 where
  pub buffer_size : length b.buffer ≡ b.size
  pub head_in : b.head ≤ b.size

pub length-contents : {b : IoBuffer} → IsBounded b → length (contents b) ≡ b.head
length-contents {b} v = length-take_le b.head b.buffer (omega (arith, v.buffer_size, v.head_in))

-- What is left once `n` bytes have been written.
abbrev pub drained : IoBuffer → ℕ → IoBuffer
drained b n = record b {
  buffer = drop n b.buffer ++ drop (length (drop n b.buffer)) b.buffer;
  head = b.head - n;
}

pub drop_written_lem :
    {b : IoBuffer} (n : ℕ)
    → IsBounded b
    → n ≤ b.head
    → drop_written b (wrote n) ≡ done (pos n, drained b n)
unfolding drop_written
drop_written_lem {b} n v h = ground (arith, kept, moved)
  where
    kept : read_at b.buffer n (b.size - n) ≡ done (drop n b.buffer)
    kept =
        read_at-append n (b.size - n) (take n b.buffer) (drop n b.buffer) []
          (sym (take-append-drop n b.buffer)
            ∙ ap (◌++◌ (take n b.buffer)) (sym (append-nil (drop n b.buffer))))
          (sym (length-take_le n b.buffer (omega (arith, v.buffer_size, v.head_in))))
          (omega (arith, v.buffer_size, length-drop n b.buffer))

    moved : write_at b.buffer 0 (drop n b.buffer) ≡ done (drained b n).buffer
    moved =
        write_at-append 0 [] (drop n b.buffer) b.buffer refl refl
          (omega (arith, length-drop n b.buffer))

split-contents :
    (b : IoBuffer) (n : ℕ)
    → b.buffer ≡ take n (contents b) ++ (drop n (contents b) ++ drop b.head b.buffer)
split-contents b n =
    sym (take-append-drop b.head b.buffer)
    ∙ ap (λ (x : Bytes). x ++ drop b.head b.buffer) (sym (take-append-drop n (contents b)))
    ∙ append_assoc (take n (contents b)) (drop n (contents b)) _

pub drained-IsBounded :
    {b : IoBuffer} (n : ℕ)
    → IsBounded b
    → n ≤ b.head
    → IsBounded (drained b n) × (contents (drained b n) ≡ drop n (contents b))
drained-IsBounded {b} n v h =
    (record { buffer_size = size; head_in = omega (arith, v.head_in) }, held)
  where
    rest : Bytes
    rest = drop (length (drop n b.buffer)) b.buffer

    size : length (drop n b.buffer ++ rest) ≡ b.size
    size = omega (
      arith,
      length-append (drop n b.buffer) rest,
      length-drop n b.buffer,
      length-drop (length (drop n b.buffer)) b.buffer,
      v.buffer_size,
      v.head_in,
    )

    left : drop n b.buffer ≡ drop n (contents b) ++ drop b.head b.buffer
    left =
        ap (drop n) (split-contents b n)
        ∙ drop-append n (take n (contents b)) _
            (sym (length-take_le n (contents b) (omega (arith, length-contents v))))

    held : take (b.head - n) (drop n b.buffer ++ rest) ≡ drop n (contents b)
    held =
        ap (λ (x : Bytes). take (b.head - n) (x ++ rest)) left
        ∙ ap (take (b.head - n)) (append_assoc (drop n (contents b)) _ rest)
        ∙ take-append (b.head - n) (drop n (contents b)) _
            (omega (arith, length-drop n (contents b), length-contents v))

-- The buffer filled from its start.
abbrev pub filled : IoBuffer → Bytes → IoBuffer
filled b bytes = record b { buffer = bytes ++ drop (length bytes) b.buffer; head = length bytes }

pub fill_with_lem :
    {b : IoBuffer} (bytes : Bytes)
    → IsBounded b
    → length bytes ≤ b.size
    → fill_with b (received bytes) ≡ done (pos (length bytes), filled b bytes)
unfolding fill_with
fill_with_lem {b} bytes v h =
    ground (arith, write_at-append 0 [] bytes b.buffer refl refl (omega (arith, v.buffer_size)))

pub filled-IsBounded :
    {b : IoBuffer} (bytes : Bytes)
    → IsBounded b
    → length bytes ≤ b.size
    → IsBounded (filled b bytes) × (contents (filled b bytes) ≡ bytes)
filled-IsBounded {b} bytes v h = (
  record {
    buffer_size = omega (
      arith,
      length-append bytes (drop (length bytes) b.buffer),
      length-drop (length bytes) b.buffer,
      v.buffer_size,
    );
    head_in = h;
  },
  take-append (length bytes) bytes _ refl,
)
