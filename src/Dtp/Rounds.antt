-- ===== src/Dtp/Rounds.antt =====
-- How many rounds of `dtp_copy_data` a transfer can take.
use ftpserv_u.Prelude.{
  ℕ, zero, suc, ◌+◌, ◌≤◌, ◌<◌, ◌≡◌, refl, ap, sym, ◌∙◌, ℤ, pos, is_neg, true, arith, ◌==◌,
  if◌then◌else◌, Bool-cases, inl, inr, length, length-append, length-take_le, take,
}
use mathlib.Core.Path.{subst}
use ftpserv_u.Memory.{Bytes}
use ftpserv_u.IoBuffer.{IoBuffer}
use ftpserv_u.IoBuffer.Contents.{contents}
use ftpserv_u.Dtp.{Channel, Copied, after_read}
use ftpserv_u.Dtp.Transfer.{IsBounded, length-contents}
use ftpserv_u.Dtp.Stream.{
  Copying, stopped, copied, copy_data-stream, Copying-stream, buffer-after_read,
}

-- A first round, on an empty buffer, may write nothing.
abbrev first_fill : Channel → ℕ
first_fill c = if c.buffer.head == 0 then 1 else 0

closes_empty :
    (to from : ℤ) (c : Channel) (r : Copied) (k : ℕ)
    → after_read to from c (pos k) ≡ r
    → k ≡ 0
    → is_neg r.to ≡ true
unfolding after_read
closes_empty to from c r zero e z = ap (λ (x : Copied). is_neg x.to) (sym e)
closes_empty to from c r (suc k) e z = absurd (ground arith)

module _ {size : ℕ} where
  -- The number of rounds of a transfer.
  abbrev pub rounds :
      {to from : ℤ} {c last : Channel} {read written : Bytes}
      → Copying size to from c read written last
      → ℕ
  rounds (stopped to from c) = 0
  rounds (copied a e rest) = suc (rounds rest)

  -- Each round whose buffer is not empty writes some of it.
  abbrev pub Progresses :
      {to from : ℤ} {c last : Channel} {read written : Bytes}
      → Copying size to from c read written last
      → Type 0
  Progresses (stopped to from c) = Unit
  Progresses (copied {c = c} {n = n} a e rest) = (0 < c.buffer.head → 0 < n) × Progresses rest

  rounds-closed :
      {to from : ℤ} {c last : Channel} {read written : Bytes}
      (t : Copying size to from c read written last)
      → is_neg to ≡ true
      → rounds t ≡ 0
  rounds-closed (stopped to from c) h = refl
  rounds-closed (copied a e rest) h = absurd (ground (arith, a.open_to, h))

  rounds-written :
      {to from : ℤ} {c last : Channel} {read written : Bytes}
      (t : Copying size to from c read written last)
      → IsBounded c.buffer
      → Progresses t
      → rounds t ≤ length written + first_fill c
  rounds-written (stopped to from c) v p = omega arith
  rounds-written (copied {to = to} {from} {c} {n} {r = r} {written = written} a e rest) v p =
      let (b, f, bounded, same, stream) = copy_data-stream v a in
      let reached : after_read to from (record c { buffer = b }) (pos b.head) ≡ r = cc in
      let is_b : r.channel.buffer ≡ b =
        ap (λ (x : Copied). x.channel.buffer) (sym reached)
        ∙ buffer-after_read to from _ (pos b.head) in
      let inside : n ≤ c.buffer.head = ground (arith, a.no_more) in
      let wrote_n : length (take n (contents c.buffer)) ≡ n =
        length-take_le n (contents c.buffer) (omega (arith, inside, length-contents v)) in
      let total = length-append (take n (contents c.buffer)) written in
      let some_now : 1 ≤ n + first_fill c = ground (arith, p.0) in
      let later : rounds rest ≤ length written = elim (Bool-cases (b.head == 0)) [
        | inl empty ↦
            let shut =
              closes_empty to from (record c { buffer = b }) r b.head reached
                (ground (arith, empty)) in
            omega (arith, rounds-closed rest shut)
        | inr more ↦
            let full : first_fill r.channel ≡ 0 = ground (arith, more, ap IoBuffer.head is_b) in
            omega (arith, rounds-written rest (subst IsBounded (sym is_b) bounded) p.1, full)
      ] in
      omega (arith, later, some_now, total, wrote_n)

  -- A transfer ends: from a buffer of its size, with a `write` that takes some of the bytes
  -- offered, and at least one where the buffer is not empty, and a `read` that gives no more than
  -- was asked for, it has at most one round more than there are bytes in the buffer first and
  -- bytes read in all.
  pub Copying-rounds :
      {to from : ℤ} {c last : Channel} {read written : Bytes}
      (t : Copying size to from c read written last)
      → IsBounded c.buffer
      → Progresses t
      → rounds t ≤ length (contents c.buffer) + length read + 1
  Copying-rounds {c = c} {last} {read} {written} t v p =
      let stream = ap length (Copying-stream v t) in
      let most : first_fill c ≤ 1 = ground arith in
      omega (
        arith,
        rounds-written t v p,
        most,
        stream,
        length-append written (contents last.buffer),
        length-append (contents c.buffer) read,
      )
