-- ===== src/Dtp/Stream.antt =====
-- The stream of bytes through a channel, over one call of `dtp_copy_data` and over a transfer.
use mathlib.Core.Path.{subst}
use ftpserv_u.Prelude.{
  ℕ, zero, suc, ◌+◌, ◌≤◌, ◌<◌, ◌≡◌, ◌≢◌, refl, ap, sym, ◌∙◌, ℤ, pos, negsuc, is_neg, true, false,
  [], ◌++◌, append_assoc, append-nil, done, arith, ltb, ◌==◌, if◌then◌else◌, Bool-cases, List-cases,
  inl, inr, length, length-append, length-take_le, take, drop, take-append-drop, take_all,
}
use ftpserv_u.Memory.{Bytes}
use ftpserv_u.IoBuffer.{IoBuffer}
use ftpserv_u.IoBuffer.Contents.{contents}
use ftpserv_u.Network.{received}
use ftpserv_u.Dtp.{
  Channel, Os, wrote, Copied, write_buffered_data_to_fd, fill_buffer_from_fd, after_read, copy_data,
  set_state,
}
use ftpserv_u.Dtp.Transfer.{
  IsBounded, length-contents, drained, drop_written_lem, drained-IsBounded, filled, fill_with_lem,
  filled-IsBounded,
}

-- The bytes offered to `write` in one call.
abbrev pub packet : Channel → ℕ → ℕ
packet c size = if ltb c.buffer.head size then c.buffer.head else size

-- The descriptors are open, `write` takes `n` of the bytes offered, and `read` has `bytes`.
pub record Answers (os : Os) (to from : ℤ) (c : Channel) (size n : ℕ) (bytes : Bytes) : Type 0 where
  pub open_to : is_neg to ≡ false
  pub open_from : is_neg from ≡ false
  pub writes : os.write to (take (packet c size) c.buffer.buffer) ≡ wrote n
  pub no_more : n ≤ packet c size
  pub reads : os.read from c.buffer.size ≡ received bytes
  pub fits : length bytes ≤ c.buffer.size

-- The bytes of `read` that are taken: it is only called once the buffer is empty.
abbrev pub taken : Channel → ℕ → Bytes → Bytes
taken c n bytes = if n == c.buffer.head then bytes else []

write_lem :
    (os : Os) (fd : ℤ) (b : IoBuffer) (size n : ℕ)
    → IsBounded b
    → is_neg fd ≡ false
    → os.write fd (take (if ltb b.head size then b.head else size) b.buffer) ≡ wrote n
    → n ≤ b.head
    → write_buffered_data_to_fd os fd b size ≡ done (pos n, drained b n)
unfolding write_buffered_data_to_fd
write_lem os fd b size n v o w h = ground (arith, drop_written_lem n v h)

fill_empty :
    (os : Os) (fd : ℤ) (b : IoBuffer) (bytes : Bytes)
    → IsBounded b
    → b.head ≡ 0
    → os.read fd b.size ≡ received bytes
    → length bytes ≤ b.size
    → fill_buffer_from_fd os b fd ≡ done (pos (length bytes), filled b bytes)
unfolding fill_buffer_from_fd
fill_empty os fd b bytes v e r h = ground (arith, fill_with_lem bytes v h)

fill_later :
    (os : Os) (fd : ℤ) (b : IoBuffer)
    → 0 < b.head
    → fill_buffer_from_fd os b fd ≡ done (pos b.head, b)
unfolding fill_buffer_from_fd
fill_later os fd b h = ground arith

copied_by :
    (os : Os) (to from : ℤ) (c : Channel) (size n : ℕ) {nread : ℤ} {b b' : IoBuffer}
    → is_neg to ≡ false
    → is_neg from ≡ false
    → write_buffered_data_to_fd os to c.buffer size ≡ done (pos n, b)
    → fill_buffer_from_fd os b from ≡ done (nread, b')
    → copy_data os to from c size ≡ done (after_read to from (record c { buffer = b' }) nread)
unfolding copy_data
copied_by os to from c size n o o' w f = ground arith

-- One call of `dtp_copy_data`: its result, and the stream. What it writes, followed by what the
-- buffer then holds, is what the buffer held, followed by what it reads.
pub copy_data-stream :
    {os : Os} {to from : ℤ} {c : Channel} {size n : ℕ} {bytes : Bytes}
    → IsBounded c.buffer
    → Answers os to from c size n bytes
    → (b : IoBuffer) × (copy_data os to from c size
        ≡ done (after_read to from (record c { buffer = b }) (pos b.head)))
      × IsBounded b
      × (b.size ≡ c.buffer.size)
      × (take n (contents c.buffer) ++ contents b ≡ contents c.buffer ++ taken c n bytes)
copy_data-stream {os} {to} {from} {c} {size} {n} {bytes} v a =
    elim (Bool-cases (n == c.buffer.head)) [
      | inl whole ↦
          let (bounded, holds) = filled-IsBounded bytes kept.0 a.fits in
          rw whole (
            filled (drained c.buffer n) bytes,
            copied_by os to from c size n a.open_to a.open_from written (
                fill_empty os from (drained c.buffer n) bytes kept.0 (ground arith) a.reads a.fits),
            bounded,
            refl,
            ap (◌++◌ (take n (contents c.buffer))) holds
                ∙ ap (λ (x : Bytes). x ++ bytes)
                    (take_all n (contents c.buffer) (ground (arith, length-contents v))),
          )
      | inr part ↦ rw part (
        drained c.buffer n,
        copied_by os to from c size n a.open_to a.open_from written
            (fill_later os from (drained c.buffer n) (ground (arith, inside))),
        kept.0,
        refl,
        ap (◌++◌ (take n (contents c.buffer))) kept.1
            ∙ take-append-drop n (contents c.buffer)
            ∙ sym (append-nil (contents c.buffer)),
      )
    ]
  where
    inside : n ≤ c.buffer.head
    inside = ground (arith, a.no_more)

    written : write_buffered_data_to_fd os to c.buffer size ≡ done (pos n, drained c.buffer n)
    written = write_lem os to c.buffer size n v a.open_to a.writes inside

    kept :
        IsBounded (drained c.buffer n)
        × (contents (drained c.buffer n) ≡ drop n (contents c.buffer))
    kept = drained-IsBounded n v inside

pub buffer-after_read :
    (to from : ℤ) (c : Channel) (nread : ℤ) → (after_read to from c nread).channel.buffer ≡ c.buffer
unfolding after_read set_state
buffer-after_read to from c (negsuc _) = refl
buffer-after_read to from c (pos zero) = refl
buffer-after_read to from c (pos (suc n)) = refl

-- The rounds of a transfer: what they read and write in all, and where they end.
pub data Copying (size : ℕ) : ℤ → ℤ → Channel → Bytes → Bytes → Channel → Type 0 where
  stopped : (to from : ℤ) (c : Channel) → Copying size to from c [] [] c
  copied :
      {os : Os} {to from : ℤ} {c : Channel} {n : ℕ} {bytes : Bytes} {r : Copied}
      {read written : Bytes} {last : Channel}
      → Answers os to from c size n bytes
      → copy_data os to from c size ≡ done r
      → Copying size r.to r.from r.channel read written last
      → Copying size to from c
          (taken c n bytes ++ read)
          (take n (contents c.buffer) ++ written)
          last

-- Over any number of rounds of a transfer that starts from a buffer of its size, each with a
-- `write` that takes some of the bytes offered and a `read` that gives no more than was asked
-- for, no byte is lost, doubled or moved: all that is written, followed by what the buffer holds
-- in the end, is what it held first, followed by all that is read.
pub Copying-stream :
    {size : ℕ} {to from : ℤ} {c last : Channel} {read written : Bytes}
    → IsBounded c.buffer
    → Copying size to from c read written last
    → written ++ contents last.buffer ≡ contents c.buffer ++ read
Copying-stream v (stopped to from c) = sym (append-nil (contents c.buffer))
Copying-stream {size} {to} {from} {c} {last} v
      (copied {os} {n = n} {bytes} {r} {read} {written} a e rest) =
    let (b, f, bounded, same, stream) = copy_data-stream v a in
    let read-r : after_read to from (record c { buffer = b }) (pos b.head) ≡ r = cc in
    let is_b : r.channel.buffer ≡ b =
      ap (λ (x : Copied). x.channel.buffer) (sym read-r)
      ∙ buffer-after_read to from _ (pos b.head) in
    append_assoc (take n (contents c.buffer)) written (contents last.buffer)
    ∙ ap (◌++◌ (take n (contents c.buffer))) (
        Copying-stream (subst IsBounded (sym is_b) bounded) rest
        ∙ ap (λ (x : IoBuffer). contents x ++ read) is_b)
    ∙ sym (append_assoc (take n (contents c.buffer)) (contents b) read)
    ∙ ap (λ (x : Bytes). x ++ read) stream
    ∙ append_assoc (contents c.buffer) (taken c n bytes) read

closes-zero :
    (to from : ℤ) (c : Channel) (k : ℕ) → (after_read to from c (pos k)).closes ≢ [] → k ≡ 0
unfolding after_read
closes-zero to from c zero ne = refl
closes-zero to from c (suc k) ne = absurd (ne refl)

empty-stream :
    (c : Channel) {n : ℕ} {bytes : Bytes}
    → IsBounded c.buffer
    → n ≤ c.buffer.head
    → take n (contents c.buffer) ≡ contents c.buffer ++ taken c n bytes
    → (bytes ≡ []) × (take n (contents c.buffer) ≡ contents c.buffer)
empty-stream c {n} {bytes} v h e =
    let lengths : n ≡ c.buffer.head + length (taken c n bytes) = omega (
      arith,
      ap length e,
      length-append (contents c.buffer) (taken c n bytes),
      length-take_le n (contents c.buffer) (omega (arith, length-contents v)),
      length-contents v,
    ) in
    let whole : (n == c.buffer.head) ≡ true = ground arith in
    let none_read : bytes ≡ [] = elim (List-cases bytes) [
      | inl nothing ↦ nothing
      | inr (x, xs, some_bytes) ↦ absurd (ground arith)
    ] in
    (none_read, take_all n (contents c.buffer) (omega (arith, length-contents v)))

-- A round in which `write` takes bytes and `read` gives bytes closes the descriptors only once
-- the file has ended and every byte of the buffer has been written: then nothing is read, all is
-- written, and the buffer is empty.
pub copy_data-closes :
    {os : Os} {to from : ℤ} {c : Channel} {size n : ℕ} {bytes : Bytes} {r : Copied}
    → IsBounded c.buffer
    → Answers os to from c size n bytes
    → copy_data os to from c size ≡ done r
    → r.closes ≢ []
    → (bytes ≡ [])
      × (take n (contents c.buffer) ≡ contents c.buffer)
      × (contents r.channel.buffer ≡ [])
copy_data-closes {os} {to} {from} {c} {size} {n} {bytes} {r} v a e ne =
    let (b, f, bounded, same, stream) = copy_data-stream v a in
    let reached : after_read to from (record c { buffer = b }) (pos b.head) ≡ r = cc in
    let zero_head : b.head ≡ 0 =
      closes-zero to from _ b.head (subst (λ (x : Copied). x.closes ≢ []) (sym reached) ne) in
    let nothing_left : contents b ≡ [] = ap (λ (k : ℕ). take k b.buffer) zero_head in
    let (none_read, whole) = empty-stream c v (ground (arith, a.no_more)) (
      sym (append-nil (take n (contents c.buffer)))
      ∙ ap (◌++◌ (take n (contents c.buffer))) (sym nothing_left)
      ∙ stream) in
    (
      none_read,
      whole,
      ap contents (
            ap (λ (x : Copied). x.channel.buffer) (sym reached)
            ∙ buffer-after_read to from _ (pos b.head))
          ∙ nothing_left,
    )
