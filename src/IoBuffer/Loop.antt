-- ===== src/IoBuffer/Loop.antt =====
-- The loops of src/ftp.c that take line after line off a buffer, until no line is complete.
use ftpserv_u.Prelude.{
  ℕ, zero, suc, ◌+◌, ◌-◌, ◌≤◌, ◌<◌, ◌≡◌, refl, ap, ◌∙◌, Bool, true, none, some, List, [], ◌∷◌, ◌++◌,
  Out, done, fault, ◌>>=◌, arith, ◌==◌, if◌then◌else◌, Option-cases, Out-cases, lt→ltb, inl, inr,
  length, length-append, replicate, drop, All, Ensures, Ensures-at,
}
use ftpserv_u.Memory.{Bytes}
use ftpserv_u.IoBuffer.{IoBuffer, next_line_raw}
use ftpserv_u.IoBuffer.Contents.{IsValid, contents, buffer-contents, length-contents}
use ftpserv_u.IoBuffer.Split.{split_line, line_text, is_harmless, split_line-some}
use ftpserv_u.IoBuffer.NextLine.{
  after_line, line_block, next_line-none, next_line-some, after_line-IsValid,
}

-- The complete lines of a byte sequence, and what follows the last newline.
unfoldable pub split_lines : Bytes → List Bytes × Bytes
split_lines [] = ([], [])
split_lines (c ∷ cs) =
    let (ls, t) = split_lines cs in
    if c == b'\n'
    then ([] ∷ ls, t)
    else elim ls [ [] ↦ ([], c ∷ t) | l ∷ more ↦ ((c ∷ l) ∷ more, t) ]

module _ {ℓ} {S : Type ℓ} (handle : S → Bytes → Out (S × Bytes)) where
  -- `while((line = next_line(buffer)) != NULL) handle(line);` on fuel. The handler sees the block
  -- `line` of the buffer, and returns it as it leaves it. With fuel above the bytes held the loop
  -- ends by its test.
  unfoldable pub each_line : ℕ → ℕ → Bool → IoBuffer → S → Out (IoBuffer × S)
  each_line zero before preserve b s = fault
  each_line (suc fuel) before preserve b s = next_line_raw before preserve b >>= λ (found, b').
      elim found [
        | none ↦ done (b', s)
        | some line ↦ handle s line >>= λ (s', line').
            each_line fuel before preserve (record b' { line = line' }) s'
      ]

  -- The handler over the lines of a byte sequence. Each line is written over what the handler has
  -- left of the one before it in the block `block`, and the handler sees the whole block.
  unfoldable pub fold_blocks : Bool → List Bytes → Bytes → S → Out (Bytes × S)
  fold_blocks preserve [] block s = done (block, s)
  fold_blocks preserve (l ∷ ls) block s =
      let text = line_text preserve l in
      let block' : Bytes = text ++ (0 ∷ drop (length text + 1) block) in
      handle s block' >>= λ (s', left). fold_blocks preserve ls left s'

-- A buffer that holds `rest` and no line.
abbrev pub holding : IoBuffer → Bytes → Bytes → IoBuffer
holding b block rest = record {
  buffer = rest ++ replicate (b.size - length rest) 0;
  line = block;
  size = b.size;
  head = length rest;
}

-- A line that `__iobuffer_next_line` can take with no fault, in a buffer of this size.
abbrev pub IsClean : ℕ → Bool → ℕ → Bytes → Type 0
IsClean before preserve size l =
    (is_harmless before preserve l ≡ true) × (length (line_text preserve l) < size)

pub split_lines-none : (xs : Bytes) → split_line xs ≡ none → split_lines xs ≡ ([], xs)
unfolding split_lines split_line
split_lines-none [] h = refl
split_lines-none (c ∷ xs) h = ground (arith, split_lines-none xs)

pub split_lines-some :
    (xs : Bytes) {l r : Bytes}
    → split_line xs ≡ some (l, r)
    → split_lines xs ≡ (l ∷ (split_lines r).0, (split_lines r).1)
unfolding split_lines split_line
split_lines-some [] h = cc
split_lines-some (c ∷ xs) {l} {r} h = elim (Option-cases (split_line xs)) [
  | inl e ↦ ground (arith, split_lines-none xs e)
  | inr ((l', r'), e) ↦ ground (arith, split_lines-some xs e)
]

-- What a byte sequence splits into does not depend on where it was cut in two.
pub split_lines-append :
    (xs ys : Bytes)
    → split_lines (xs ++ ys) ≡ (
      (split_lines xs).0 ++ (split_lines ((split_lines xs).1 ++ ys)).0,
      (split_lines ((split_lines xs).1 ++ ys)).1,
    )
unfolding split_lines
split_lines-append [] ys = refl
split_lines-append (c ∷ xs) ys = ground (arith, split_lines-append xs ys)

holding_self : {b : IoBuffer} {xs : Bytes} → IsValid b → contents b ≡ xs → b ≡ holding b b.line xs
holding_self {b} v e = ground (arith, buffer-contents v, length-contents v)

split_line-length : (xs : Bytes) {l r : Bytes} → split_line xs ≡ some (l, r) → length r < length xs
split_line-length xs {l} {r} h =
    omega (arith, ap length (split_line-some xs h), length-append l (b'\n' ∷ r))

-- The handler writes inside the block that it is given.
abbrev pub WritesInside {ℓ} : {S : Type ℓ} → (S → Bytes → Out (S × Bytes)) → Type ℓ
WritesInside {S = S} handle =
    (s : S) (line : Bytes) → Ensures (λ (r : S × Bytes). length r.1 ≡ length line) (handle s line)

pub with_line-IsValid :
    {b : IoBuffer} (line : Bytes)
    → IsValid b
    → length line ≡ length b.line
    → IsValid (record b { line = line })
with_line-IsValid line v e = record {
  buffer_size = v.buffer_size;
  line_size = e ∙ v.line_size;
  head_in = v.head_in;
  zeroed = v.zeroed;
}

module _ {ℓ} {S : Type ℓ} (handle : S → Bytes → Out (S × Bytes)) (inside : WritesInside handle)
    (before : ℕ) (preserve : Bool) where
  -- What the loop returns for a buffer that holds `xs`.
  abbrev pub Looped : ℕ → IoBuffer → Bytes → S → Type ℓ
  Looped fuel b xs s = each_line handle fuel before preserve b s ≡ (
      fold_blocks handle preserve (split_lines xs).0 b.line s >>= λ (block, s').
      done (holding b block (split_lines xs).1, s'))

  -- One round that takes a line.
  each_line-step :
      (fuel : ℕ) {b : IoBuffer} (xs : Bytes) (s : S) {l r : Bytes}
      → IsValid b
      → contents b ≡ xs
      → split_line xs ≡ some (l, r)
      → IsClean before preserve b.size l
      → ((s' : S) (line' : Bytes)
          → length line' ≡ length (line_block b (line_text preserve l))
          → Looped fuel (record (after_line b (line_text preserve l) r) { line = line' }) r s')
      → Looped (suc fuel) b xs s
  each_line-step fuel {b} xs s {l} {r} v held e clean later =
      let line = line_block b (line_text preserve l) in
      rw (split_lines-some xs e) (
        unfold each_line fold_blocks in
        rw (next_line-some v (ap split_line held ∙ e) before preserve, clean.0, lt→ltb _ _ clean.1)
          (elim (Out-cases (handle s line)) [
            | inl f ↦ rw f
            | inr ((s', line'), f) ↦
                let same =
                  Ensures-at (λ (r : S × Bytes). length r.1 ≡ length line) (inside s line) f in
                rw f (later s' line' same)
          ]))

  -- The loop takes every complete line of the bytes held, in order, hands each to the handler,
  -- stops, and leaves a buffer that holds the bytes after the last newline.
  pub each_line-Looped :
      (fuel : ℕ) {b : IoBuffer} (xs : Bytes) (s : S)
      → IsValid b
      → contents b ≡ xs
      → length xs < fuel
      → All (IsClean before preserve b.size) (split_lines xs).0
      → Looped fuel b xs s
  each_line-Looped zero xs s v held h clean = absurd (omega arith)
  each_line-Looped (suc fuel) {b} xs s v held h clean = elim (Option-cases (split_line xs)) [
    | inl e ↦ rw (split_lines-none xs e) (
        unfold each_line fold_blocks in
        rw (next_line-none before preserve v (ap split_line held ∙ e))
          (ap (λ x. done (x, s)) (holding_self v held)))
    | inr ((l, r), e) ↦
        let all : All (IsClean before preserve b.size) (l ∷ (split_lines r).0) =
          rw (split_lines-some xs e) at clean in
        let fits : length r ≤ b.size =
          omega (arith, split_line-length xs e, ap length held, length-contents v, v.head_in) in
        let (valid, rest) = after_line-IsValid (line_text preserve l) r v all.0.1 fits in
        each_line-step fuel xs s v held e all.0 (λ s' line' same.
          each_line-Looped fuel r s' (with_line-IsValid line' valid same) rest
            (omega (arith, split_line-length xs e)) all.1)
  ]

  -- On a valid buffer, with fuel above the bytes held, with a handler that may write into the block
  -- of the line but not past it, and where every line can be taken with no fault, the loop takes
  -- every complete line, in order, hands each to the handler until one faults, stops, and leaves a
  -- buffer that holds the bytes after the last newline. What a handler writes stays in the block
  -- behind the next line.
  pub each_line_lem :
      (fuel : ℕ) {b : IoBuffer} (s : S)
      → IsValid b
      → b.head < fuel
      → All (IsClean before preserve b.size) (split_lines (contents b)).0
      → each_line handle fuel before preserve b s ≡ (
          fold_blocks handle preserve (split_lines (contents b)).0 b.line s >>= λ (block, s').
          done (holding b block (split_lines (contents b)).1, s'))
  each_line_lem fuel {b} s v h clean =
      each_line-Looped fuel (contents b) s v refl (omega (arith, length-contents v)) clean
