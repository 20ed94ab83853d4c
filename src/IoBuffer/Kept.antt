-- ===== src/IoBuffer/Kept.antt =====
-- What the loops over the lines of a buffer keep, whatever the lines are.
use ftpserv_u.Prelude.{
  ℕ, zero, suc, ◌≤◌, ◌≡◌, refl, ap, sym, ◌∙◌, Bool, true, Option, none, some, ◌∷◌, Out, done, arith,
  ltb, Option-cases, Bool-cases, inl, inr, length, length-append, Ensures, Ensures-and,
  Ensures-bind, Ensures-mono, ◌>>=◌,
}
use ftpserv_u.Memory.{Bytes}
use ftpserv_u.IoBuffer.{IoBuffer, next_line_raw}
use ftpserv_u.IoBuffer.Contents.{IsValid, contents, length-contents}
use ftpserv_u.IoBuffer.Split.{split_line, line_text, is_harmless, split_line-some}
use ftpserv_u.IoBuffer.NextLine.{after_line, next_line-none, next_line-some, after_line-IsValid}
use ftpserv_u.IoBuffer.Loop.{each_line, WritesInside, with_line-IsValid}

-- A buffer from which something has been taken.
pub record IsDrained (b b' : IoBuffer) : Type 0 where
  pub valid : IsValid b'
  pub same_size : b'.size ≡ b.size
  pub less : b'.head ≤ b.head

IsDrained-trans : {a b c : IoBuffer} → IsDrained a b → IsDrained b c → IsDrained a c
IsDrained-trans d e = record {
  valid = e.valid;
  same_size = omega (arith, d.same_size, e.same_size);
  less = omega (arith, d.less, e.less);
}

with_line-IsDrained :
    {b b' : IoBuffer} (line : Bytes)
    → IsDrained b b'
    → length line ≡ length b'.line
    → IsDrained b (record b' { line = line })
with_line-IsDrained line d e = record {
  valid = with_line-IsValid line d.valid e;
  same_size = d.same_size;
  less = d.less;
}

after_line-IsDrained :
    {b : IoBuffer} (before : ℕ) (preserve : Bool) {l r : Bytes}
    → IsValid b
    → split_line (contents b) ≡ some (l, r)
    → ltb (length (line_text preserve l)) b.size ≡ true
    → IsDrained b (after_line b (line_text preserve l) r)
after_line-IsDrained {b} before preserve {l} {r} v e short =
    let less : length r ≤ b.head = omega (
      arith,
      ap length (split_line-some (contents b) e),
      length-append l (b'\n' ∷ r),
      length-contents v,
    ) in
    record {
      valid =
          (after_line-IsValid (line_text preserve l) r v (ground arith)
            (omega (arith, less, v.head_in))).0;
      same_size = refl;
      less = less;
    }

-- A line that is returned is the block of the buffer.
abbrev Returned : Option Bytes → IoBuffer → Type 0
Returned none b = Unit
Returned (some line) b = b.line ≡ line

abbrev Taken : IoBuffer → Option Bytes × IoBuffer → Type 0
Taken b (found, b') = IsDrained b b' × Returned found b'

next_line_raw-IsDrained :
    (before : ℕ) (preserve : Bool) {b : IoBuffer}
    → IsValid b
    → Ensures (Taken b) (next_line_raw before preserve b)
next_line_raw-IsDrained before preserve {b} v = elim (Option-cases (split_line (contents b))) [
  | inl e ↦
      rw (next_line-none before preserve v e)
        (record { valid = v; same_size = refl; less = omega arith }, tt)
  | inr ((l, r), e) ↦
      rw (next_line-some v e before preserve) (elim (Bool-cases (is_harmless before preserve l)) [
        | inr harmful ↦ rw harmful tt
        | inl harmless ↦ elim (Bool-cases (ltb (length (line_text preserve l)) b.size)) [
          | inr long ↦ rw (harmless, long) tt
          | inl short ↦ rw (harmless, short) (after_line-IsDrained before preserve v e short, refl)
        ]
      ])
]

module _ {ℓ κ} {S : Type ℓ} (P : S → Type κ) (handle : S → Bytes → Out (S × Bytes))
    (inside : WritesInside handle)
    (keeps : (s : S) (line : Bytes)
      → P s
      → Ensures (λ (r : S × Bytes). P r.0) (handle s line)) where
  abbrev Kept : IoBuffer → IoBuffer × S → Type κ
  Kept b r = IsDrained b r.0 × P r.1

  -- Whatever lines are in a valid buffer, the loop leaves a valid one of the same size that
  -- holds no more, and what its handler keeps.
  pub each_line-Kept :
      (fuel before : ℕ) (preserve : Bool) {b : IoBuffer} (s : S)
      → IsValid b
      → P s
      → Ensures (Kept b) (each_line handle fuel before preserve b s)
  unfolding each_line
  each_line-Kept zero before preserve s v p = tt
  each_line-Kept (suc fuel) before preserve {b} s v p =
      Ensures-bind (Taken b) (Kept b) (next_line_raw before preserve b) _
        (next_line_raw-IsDrained before preserve v)
        (λ (found, b') (d, returned).
          elim found
              as (λ (o : Option Bytes).
                Returned o b'
                → Ensures (Kept b) (elim o [
                  | none ↦ done (b', s)
                  | some line ↦ handle s line >>= λ (s', line').
                      each_line handle fuel before preserve (record b' { line = line' }) s'
                ])) [
                  | none ↦ λ is. (d, p)
                  | some line ↦ λ is.
                      Ensures-bind (λ (r : S × Bytes). P r.0 × (length r.1 ≡ length line)) (Kept b)
                        (handle s line) _
                        (Ensures-and (λ (r : S × Bytes). P r.0)
                          (λ (r : S × Bytes). length r.1 ≡ length line) (handle s line)
                          (keeps s line p) (inside s line))
                        (λ (s', line') (p', same).
                          let d' = with_line-IsDrained line' d (same ∙ ap length (sym is)) in
                          Ensures-mono (Kept (record b' { line = line' })) (Kept b) _
                            (λ (c, t) k. (IsDrained-trans d' k.0, k.1))
                            (each_line-Kept fuel before preserve s' d'.valid p'))
                ]
            returned)
