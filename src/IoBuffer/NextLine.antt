-- ===== src/IoBuffer/NextLine.antt =====
-- `__iobuffer_next_line` against the abstract split of the contents at their first newline.
use mathlib.Core.Option
use mathlib.Core.Path.{ap₂}
use ftpserv_u.Prelude.{
  ℕ, ◌+◌, ◌-◌, ◌≤◌, ◌<◌, ◌≡◌, refl, ap, sym, ◌∙◌, Bool, ◌&&◌, none, some, pos, [], ◌∷◌, ◌++◌,
  append_assoc, append-nil, done, fault, arith, ltb, if◌then◌else◌, Bool-cases, inl, inr, length,
  length-append, replicate, length-replicate, drop, drop_all, drop-drop, length-drop,
}
use ftpserv_u.Memory.{Bytes, write_at, read_at, write_at-fault, write_at-append, read_at-append}
use ftpserv_u.IoBuffer.{IoBuffer, next_line_raw, take_line, find_eol, copy_line, byte_before}
use ftpserv_u.IoBuffer.Contents.{IsValid, contents, buffer-contents, length-contents, of_parts}
use ftpserv_u.IoBuffer.Split.{
  split_line, split_line-some, line_text, is_harmless, find_eol-split_line, last, byte_before-last,
  line_text-prefix, bytes_to_copy-line_text, bytes_to_copy-harmful,
}

-- The block `line` once a text has been copied into it.
abbrev pub line_block : IoBuffer → Bytes → Bytes
line_block b text = text ++ (0 ∷ drop (length text + 1) b.line)

-- The buffer once the line with this text has been taken, and `rest` is left.
abbrev pub after_line : IoBuffer → Bytes → Bytes → IoBuffer
after_line b text rest = record {
  buffer = rest ++ replicate (b.size - length rest) 0;
  line = line_block b text;
  size = b.size;
  head = length rest;
}

find_eol-contents :
    {b : IoBuffer}
    → IsValid b
    → find_eol b.buffer b.head ≡ done (Option.map (λ (l, r). length l) (split_line (contents b)))
find_eol-contents {b} v =
    ap (find_eol b.buffer) (sym (length-contents v))
    ∙ ap (λ (mem : Bytes). find_eol mem (length (contents b))) (buffer-contents v)
    ∙ find_eol-split_line (contents b) _

pub next_line-none :
    (before : ℕ) (preserve : Bool) {b : IoBuffer}
    → IsValid b
    → split_line (contents b) ≡ none
    → next_line_raw before preserve b ≡ done (none, b)
unfolding next_line_raw
next_line-none before preserve {b} v h = ground (arith, find_eol-contents v)

module _ {b : IoBuffer} (v : IsValid b) {l r : Bytes}
    (splits : split_line (contents b) ≡ some (l, r)) where
  head_lem : b.head ≡ length l + length r + 1
  head_lem = omega (
    arith,
    ap length (split_line-some (contents b) splits),
    length-append l (b'\n' ∷ r),
    length-contents v,
  )

  buffer_lem : b.buffer ≡ l ++ (b'\n' ∷ (r ++ replicate (b.size - b.head) 0))
  buffer_lem =
      buffer-contents v
      ∙ ap (λ (x : Bytes). x ++ replicate (b.size - b.head) 0) (split_line-some (contents b) splits)
      ∙ append_assoc l (b'\n' ∷ r) _

  eol_lem : find_eol b.buffer b.head ≡ done (some (length l))
  eol_lem = find_eol-contents v ∙ ap (λ s. done (Option.map (λ (x, y). length x) s)) splits

  byte_before_lem : (before : ℕ) → byte_before before b.buffer (length l) ≡ done (last before l)
  byte_before_lem before =
      ap (λ (mem : Bytes). byte_before before mem (length l)) buffer_lem
      ∙ byte_before-last before l _

  module _ (text z : Bytes) (front : b.buffer ≡ text ++ z) where
    text_fits : length text ≤ b.size
    text_fits = omega (arith, ap length front, length-append text z, v.buffer_size)

    read_lem : read_at b.buffer 0 (length text) ≡ done text
    read_lem = read_at-append 0 (length text) [] text z front refl refl

    copied_lem : write_at b.line 0 text ≡ done (text ++ drop (length text) b.line)
    copied_lem = write_at-append 0 [] text b.line refl refl (omega (arith, text_fits, v.line_size))

    copy_line-ok :
        length text < b.size
        → copy_line b.line b.buffer (pos (length text)) ≡ done (line_block b text)
    unfolding copy_line
    copy_line-ok h = rw read_lem (
        rw copied_lem (
          ended ∙ ap done (ap (λ (x : Bytes). text ++ (0 ∷ x)) (drop-drop (length text) 1 b.line))))
      where
        ended :
            write_at (text ++ drop (length text) b.line) (length text) (0 ∷ [])
            ≡ done (text ++ (0 ∷ drop 1 (drop (length text) b.line)))
        ended =
            write_at-append (length text) text (0 ∷ []) (drop (length text) b.line) refl refl
              (omega (arith, length-drop (length text) b.line, v.line_size))

    copy_line-overrun : b.size ≤ length text → copy_line b.line b.buffer (pos (length text)) ≡ fault
    unfolding copy_line
    copy_line-overrun h = rw read_lem (
        rw copied_lem (
          write_at-fault _ (length text) (0 ∷ []) (
            omega (
              arith,
              length-append text (drop (length text) b.line),
              length-drop (length text) b.line,
              v.line_size,
              text_fits,
            ))))

  -- What stays behind the line: the rest of the contents, and the zeros after them.
  tail_bytes : Bytes
  tail_bytes = r ++ replicate (b.size - b.head) 0

  length-tail_bytes : length tail_bytes ≡ b.size - (length l + 1)
  unfolding tail_bytes
  length-tail_bytes =
      length-append r _
      ∙ omega (arith, length-replicate {A = ℕ} (b.size - b.head) 0, head_lem, v.head_in)

  read_tail : read_at b.buffer (length l + 1) (b.size - (length l + 1)) ≡ done tail_bytes
  unfolding tail_bytes
  read_tail =
      read_at-append _ _ (l ++ (b'\n' ∷ [])) tail_bytes []
        (buffer_lem
          ∙ sym (append_assoc l (b'\n' ∷ []) _)
          ∙ ap (λ (x : Bytes). (l ++ (b'\n' ∷ [])) ++ x) (sym (append-nil tail_bytes)))
        (sym (length-append l (b'\n' ∷ []))) (sym length-tail_bytes)

  write_tail :
      write_at b.buffer 0 tail_bytes ≡ done (tail_bytes ++ drop (length tail_bytes) b.buffer)
  write_tail =
      write_at-append 0 [] tail_bytes b.buffer refl refl
        (omega (arith, length-tail_bytes, v.buffer_size))

  clear_tail :
      write_at
        (tail_bytes ++ drop (length tail_bytes) b.buffer)
        (b.head - (length l + 1))
        (replicate (b.size - (b.head - (length l + 1))) 0)
      ≡ done (r ++ replicate (b.size - length r) 0)
  unfolding tail_bytes
  clear_tail =
      write_at-append (b.head - (length l + 1)) r zeros after (append_assoc r _ _)
        (omega (arith, head_lem)) (omega (arith, zeros_lem, after_lem))
      ∙ ap done (
          ap₂ (λ (x y : Bytes). r ++ (x ++ y))
            (ap (λ (k : ℕ). replicate k 0) (omega (arith, head_lem)))
            (drop_all (length zeros) after (omega (arith, zeros_lem, after_lem)))
          ∙ ap (◌++◌ r) (append-nil _))
    where
      zeros : Bytes
      zeros = replicate (b.size - (b.head - (length l + 1))) 0

      after : Bytes
      after = replicate (b.size - b.head) 0 ++ drop (length tail_bytes) b.buffer

      zeros_lem : length zeros ≡ b.size - length r
      zeros_lem = length-replicate _ 0 ∙ omega (arith, head_lem)

      after_lem : length after ≡ b.size - length r
      after_lem =
          length-append (replicate (b.size - b.head) 0) _
          ∙ omega (
            arith,
            length-replicate {A = ℕ} (b.size - b.head) 0,
            length-drop (length tail_bytes) b.buffer,
            length-tail_bytes,
            v.buffer_size,
            head_lem,
            v.head_in,
          )

  -- A valid buffer that holds a newline gives its first line: the text is returned in the block
  -- `line`, ended by a NUL, and the rest of the contents moves to the front, with zeros behind
  -- it. It is a fault exactly where the text fills the block `line`, so that the NUL does not
  -- fit, or where an empty line is read without its newline behind a carriage return that stands
  -- before the block.
  pub next_line-some :
      (before : ℕ) (preserve : Bool)
      → let text = line_text preserve l in
        next_line_raw before preserve b ≡ (
          if is_harmless before preserve l && ltb (length text) b.size
          then done (some (line_block b text), after_line b text r)
          else fault)
  unfolding next_line_raw take_line
  next_line-some before preserve = elim (Bool-cases (is_harmless before preserve l)) [
    | inr harmful ↦
        ground
          (arith, eol_lem, byte_before_lem before, bytes_to_copy-harmful before preserve l harmful)
    | inl harmless ↦
        let text = line_text preserve l in
        let (z, starts) = line_text-prefix preserve l (r ++ replicate (b.size - b.head) 0) in
        let front = buffer_lem ∙ starts in
        elim (Bool-cases (ltb (length text) b.size)) [
          | inr long ↦ ground (
            arith,
            eol_lem,
            byte_before_lem before,
            bytes_to_copy-line_text before preserve l harmless,
            copy_line-overrun text z front (ground arith),
          )
          | inl short ↦ ground (
            arith,
            eol_lem,
            byte_before_lem before,
            bytes_to_copy-line_text before preserve l harmless,
            copy_line-ok text z front (ground arith),
            read_tail,
            write_tail,
            clear_tail,
            head_lem,
          )
        ]
  ]

pub after_line-IsValid :
    {b : IoBuffer} (text r : Bytes)
    → IsValid b
    → length text < b.size
    → length r ≤ b.size
    → IsValid (after_line b text r) × (contents (after_line b text r) ≡ r)
after_line-IsValid {b} text r v h k =
    of_parts {b = after_line b text r} r (b.size - length r) refl refl (omega arith) (
      length-append text (0 ∷ drop (length text + 1) b.line)
      ∙ omega (arith, length-drop (length text + 1) b.line, v.line_size))
