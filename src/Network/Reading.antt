-- ===== src/Network/Reading.antt =====
-- `network_read_buffer` on a valid I/O buffer, and the ports that are handed out.
use native.Mathlib.Decide.{dec_lt}
use ftpserv_u.Prelude.{
  ℕ, zero, suc, ◌+◌, ◌-◌, ◌≤◌, ◌<◌, ◌≡◌, refl, ap, sym, ◌∙◌, ℤ, pos, negsuc, is_neg, false, ◌⊎◌,
  inl, inr, ◌∷◌, ◌++◌, done, arith, length, length-append, drop, replicate, length-replicate,
}
use ftpserv_u.Memory.{Bytes, write_at, write_at-append}
use ftpserv_u.IoBuffer.{IoBuffer, remaining}
use ftpserv_u.IoBuffer.Contents.{IsValid, contents, of_parts, length-contents, write_at-contents}
use ftpserv_u.Network.{
  Received, received, failed, negated, store_received, read_buffer, get_ephermal_port,
}

replicate-append-drop :
    (k : ℕ) (a : ℕ) → replicate k a ++ drop k (replicate (suc k) a) ≡ replicate (suc k) a
replicate-append-drop zero a = refl
replicate-append-drop (suc k) a = ap (◌∷◌ a) (replicate-append-drop k a)

remaining_pos : (b : IoBuffer) → b.head < b.size → remaining b ≡ pos (b.size - 1 - b.head)
unfolding remaining
remaining_pos b h = ground arith

-- The buffer once bytes have been received into it.
abbrev pub grown : IoBuffer → Bytes → IoBuffer
grown b bytes = record b {
  buffer = (contents b ++ bytes) ++ replicate (b.size - (b.head + length bytes)) 0;
  head = b.head + length bytes;
}

store_received_lem :
    {b : IoBuffer} (bytes : Bytes)
    → IsValid b
    → b.head + length bytes < b.size
    → store_received b (received bytes) ≡ done (pos (length bytes), grown b bytes)
unfolding store_received
store_received_lem {b} bytes v h =
    ground (arith, write_at-contents bytes v (omega arith), remaining_pos moved h, cleared)
  where
    k : ℕ
    k = b.size - 1 - (b.head + length bytes)

    held : Bytes
    held = contents b ++ bytes

    moved : IoBuffer
    moved = grown b bytes

    free : replicate {A = ℕ} (b.size - (b.head + length bytes)) 0 ≡ replicate (suc k) 0
    free = ap (λ (n : ℕ). replicate {A = ℕ} n 0) {y = suc k} (omega arith)

    cleared : write_at moved.buffer (b.head + length bytes) (replicate k 0) ≡ done moved.buffer
    cleared =
        write_at-append (b.head + length bytes) held (replicate k 0) (replicate (suc k) 0)
          (ap (◌++◌ held) free) (omega (arith, length-append (contents b) bytes, length-contents v))
          (omega (arith, length-replicate {A = ℕ} k 0, length-replicate {A = ℕ} (suc k) 0))
        ∙ ap done (
            ap (◌++◌ held) (
              ap (λ (n : ℕ). replicate k 0 ++ drop n (replicate (suc k) 0)) (length-replicate k 0)
              ∙ replicate-append-drop k 0
              ∙ sym free))

grown-IsValid :
    {b : IoBuffer} (bytes : Bytes)
    → IsValid b
    → b.head + length bytes < b.size
    → IsValid (grown b bytes) × (contents (grown b bytes) ≡ contents b ++ bytes)
grown-IsValid {b} bytes v h =
    of_parts (contents b ++ bytes) (b.size - (b.head + length bytes)) refl
      (omega (arith, length-append (contents b) bytes, length-contents v))
      (omega (arith, length-append (contents b) bytes, length-contents v)) v.line_size

-- On an open socket, for a valid buffer with room for a byte and the NUL behind it, what `recv`
-- gives is stored behind the buffer's contents, if it is no more than was asked for: the count is
-- returned, the buffer stays valid, and its last byte stays free, so that the contents always end
-- in a NUL.
pub read_buffer_lem :
    (recv : ℕ → Received) (fd : ℤ) {b : IoBuffer} (bytes : Bytes)
    → is_neg fd ≡ false
    → IsValid b
    → b.head + 1 < b.size
    → recv (b.size - 1 - b.head) ≡ received bytes
    → length bytes ≤ b.size - 1 - b.head
    → (read_buffer recv fd b ≡ done (pos (length bytes), grown b bytes))
      × IsValid (grown b bytes)
      × (contents (grown b bytes) ≡ contents b ++ bytes)
      × ((grown b bytes).head < b.size)
unfolding read_buffer
read_buffer_lem recv fd {b} bytes o v h e fits =
    let (valid, held) = grown-IsValid bytes v (omega arith) in
    (
      ground (arith, remaining_pos b (omega arith), store_received_lem bytes v (omega arith)),
      valid,
      held,
      omega arith,
    )

-- A full buffer with no newline is not read into: -ENOBUFS is returned and nothing changes.
pub read_buffer-full :
    (recv : ℕ → Received) (fd : ℤ) (b : IoBuffer)
    → is_neg fd ≡ false
    → b.head + 1 ≡ b.size
    → read_buffer recv fd b ≡ done (negsuc 104, b)
unfolding read_buffer
read_buffer-full recv fd b o h = ground (arith, remaining_pos b (omega arith))

-- With the counter in the range of ephemeral ports, the port handed out is the counter, and the
-- next counter is in that range again.
pub get_ephermal_port_range :
    (next : ℕ)
    → 1024 ≤ next
    → next ≤ 65535
    → ((get_ephermal_port next).0 ≡ next)
      × (1024 ≤ (get_ephermal_port next).1)
      × ((get_ephermal_port next).1 ≤ 65535)
unfolding get_ephermal_port
get_ephermal_port_range next h k = ground arith

pub read_buffer-failed :
    (recv : ℕ → Received) (fd : ℤ) (b : IoBuffer) {errno : ℕ}
    → is_neg fd ≡ false
    → b.head + 1 < b.size
    → recv (b.size - 1 - b.head) ≡ failed errno
    → read_buffer recv fd b ≡ done (negated errno, b)
unfolding read_buffer store_received
read_buffer-failed recv fd b o h e = ground (arith, remaining_pos b (omega arith))

-- A buffer that can be read into: it is valid, and one byte at least is free.
pub record IsReadable (b : IoBuffer) : Type 0 where
  pub valid : IsValid b
  pub room : b.head < b.size

-- `recv` gives no more bytes than it is asked for.
abbrev pub Bounded : (ℕ → Received) → Type 0
Bounded recv = (n : ℕ) (bytes : Bytes) → recv n ≡ received bytes → length bytes ≤ n

Received-cases :
    (r : Received) → ((bytes : Bytes) × (r ≡ received bytes)) ⊎ ((errno : ℕ) × (r ≡ failed errno))
Received-cases (received bytes) = inl (bytes, refl)
Received-cases (failed errno) = inr (errno, refl)

-- Whatever the socket answers, a buffer that can be read into is one afterwards.
pub read_buffer-IsReadable :
    (recv : ℕ → Received) (fd : ℤ) {b : IoBuffer}
    → Bounded recv
    → is_neg fd ≡ false
    → IsReadable b
    → (result : ℤ) × (b' : IoBuffer) × (read_buffer recv fd b ≡ done (result, b')) × IsReadable b'
read_buffer-IsReadable recv fd {b} bounded o i = elim (dec_lt (b.head + 1) b.size) [
  | no full ↦ (negsuc 104, b, read_buffer-full recv fd b o (let room = i.room in omega arith), i)
  | yes room ↦ elim (Received-cases (recv (b.size - 1 - b.head))) [
    | inl (bytes, e) ↦
        let fits = bounded (b.size - 1 - b.head) bytes e in
        let (r, valid, _, head) = read_buffer_lem recv fd bytes o i.valid room e fits in
        (pos (length bytes), grown b bytes, r, record { valid = valid; room = head })
    | inr (errno, e) ↦ (negated errno, b, read_buffer-failed recv fd b o room e, i)
  ]
]
