-- ===== src/IoBuffer/Contents.antt =====
-- The bytes that an I/O buffer holds, its representation invariant, and `iobuffer_append`.
use ftpserv_u.Prelude.{
  ℕ, ◌+◌, ◌-◌, ◌≤◌, ◌<◌, ◌≡◌, refl, ap, sym, ◌∙◌, some, pos, negsuc, ◌++◌, append_assoc, done,
  arith, leb, if◌then◌else◌, Bool-cases, inl, inr, length, take, drop, replicate, length-append,
  length-replicate, length-take_le, take-append, drop-append, drop-drop, take-append-drop,
  drop-replicate,
}
use ftpserv_u.Memory.{Bytes, write_at}
use ftpserv_u.IoBuffer.{IoBuffer, append}

-- The bytes appended and not yet taken.
abbrev pub contents : IoBuffer → Bytes
contents b = take b.head b.buffer

-- Both blocks have `size` bytes, `head` stays inside, and the free part of the buffer is zeroed.
pub record IsValid (b : IoBuffer) : Type 0 where
  pub buffer_size : length b.buffer ≡ b.size
  pub line_size : length b.line ≡ b.size
  pub head_in : b.head ≤ b.size
  pub zeroed : drop b.head b.buffer ≡ replicate (b.size - b.head) 0

pub buffer-contents :
    {b : IoBuffer} → IsValid b → b.buffer ≡ contents b ++ replicate (b.size - b.head) 0
buffer-contents {b} v = sym (take-append-drop b.head b.buffer) ∙ ap (◌++◌ (contents b)) v.zeroed

pub length-contents : {b : IoBuffer} → IsValid b → length (contents b) ≡ b.head
length-contents {b} v = length-take_le b.head b.buffer (omega arith)

-- A buffer whose block is some bytes and then zeros holds those bytes.
pub of_parts :
    {b : IoBuffer} (held : Bytes) (free : ℕ)
    → b.buffer ≡ held ++ replicate free 0
    → b.head ≡ length held
    → b.size ≡ length held + free
    → length b.line ≡ b.size
    → IsValid b × (contents b ≡ held)
of_parts {b} held free e h s l = (
  record {
    buffer_size =
        ap length e ∙ length-append held _ ∙ omega (arith, length-replicate {A = ℕ} free 0);
    line_size = l;
    head_in = omega arith;
    zeroed =
        ap (drop b.head) e
        ∙ drop-append b.head held _ h
        ∙ ap (λ (k : ℕ). replicate k 0) (omega arith);
  },
  ap (take b.head) e ∙ take-append b.head held _ h,
)

-- The two outcomes of an append: the bytes are stored behind the contents, or nothing changes.
abbrev pub Appended : IoBuffer → Bytes → Type 0
Appended b bytes =
    (b' : IoBuffer) × (append b (some bytes) ≡ done (pos 0, b'))
    × IsValid b'
    × (contents b' ≡ contents b ++ bytes)
    × (b'.size ≡ b.size)
    × (b'.line ≡ b.line)

-- The block written by an append that fits.
pub write_at-contents :
    {b : IoBuffer} (bytes : Bytes)
    → IsValid b
    → b.head + length bytes ≤ b.size
    → write_at b.buffer b.head bytes
      ≡ done ((contents b ++ bytes) ++ replicate (b.size - (b.head + length bytes)) 0)
unfolding write_at
write_at-contents {b} bytes v h =
    elim (Bool-cases (leb (b.head + length bytes) (length b.buffer))) [
      | inr no_room ↦ absurd (ground (arith, v.buffer_size))
      | inl room ↦ rw room (
          ap done (
            ap (λ (z : Bytes). contents b ++ (bytes ++ z)) rest
            ∙ sym (append_assoc (contents b) bytes _)))
    ]
  where
    size_is : b.size - b.head ≡ length bytes + (b.size - (b.head + length bytes))
    size_is = omega arith

    rest : drop (b.head + length bytes) b.buffer ≡ replicate (b.size - (b.head + length bytes)) 0
    rest =
        sym (drop-drop b.head (length bytes) b.buffer)
        ∙ ap (drop (length bytes)) v.zeroed
        ∙ ap (λ (k : ℕ). drop (length bytes) (replicate k 0)) size_is
        ∙ drop-replicate (length bytes) _ 0

pub append-Appended :
    {b : IoBuffer} (bytes : Bytes) → IsValid b → b.head + length bytes ≤ b.size → Appended b bytes
unfolding append
append-Appended {b} bytes v h =
    let b' : IoBuffer = record b {
      buffer = (contents b ++ bytes) ++ replicate (b.size - (b.head + length bytes)) 0;
      head = b.head + length bytes;
    } in
    let parts =
      of_parts {b = b'} (contents b ++ bytes) (b.size - (b.head + length bytes)) refl
        (omega (arith, length-append (contents b) bytes, length-contents v))
        (omega (arith, length-append (contents b) bytes, length-contents v)) v.line_size in
    (b', ground (arith, write_at-contents bytes v h), parts.0, parts.1, refl, refl)

-- Bytes that do not fit are refused whole.
pub append-full :
    {b : IoBuffer} (bytes : Bytes)
    → b.size < b.head + length bytes
    → append b (some bytes) ≡ done (negsuc 0, b)
unfolding append
append-full bytes h = ground arith

-- What `iobuffer_append` does with any bytes: they are stored behind the contents if they fit,
-- and refused whole with status -1 if they do not. Nothing else changes, and no access faults.
pub append_lem :
    {b : IoBuffer} (bytes : Bytes)
    → IsValid b
    → let fits = leb (length (contents b) + length bytes) b.size in
      (b' : IoBuffer) × (append b (some bytes) ≡ done (if fits then pos 0 else negsuc 0, b'))
      × IsValid b'
      × (contents b' ≡ (if fits then contents b ++ bytes else contents b))
      × (b'.size ≡ b.size)
      × (b'.line ≡ b.line)
append_lem {b} bytes v = elim (Bool-cases (leb (length (contents b) + length bytes) b.size)) [
  | inl fits ↦
      let (b', e, valid, held, size, line) =
        append-Appended bytes v (ground (arith, length-contents v)) in
      rw fits (b', e, valid, held, size, line)
  | inr full ↦
      rw full (b, append-full bytes (ground (arith, length-contents v)), v, refl, refl, refl)
]
