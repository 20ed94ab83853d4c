-- ===== src/IoBuffer/Split.antt =====
-- The abstract view of line input: a byte sequence splits at its first newline.
use ftpserv_u.Prelude.{
  ℕ, ◌≡◌, refl, ap, sym, ◌∙◌, Bool, true, false, not, Option, none, some, ℤ, pos, negsuc, sub_ℕ,
  ==_iff, [], ◌∷◌, ◌++◌, append_assoc, done, arith, ◌==◌, if◌then◌else◌, Option-cases, inl, inr,
  length, length-append,
}
use mathlib.Core.Option
use ftpserv_u.Memory.{Bytes}
use ftpserv_u.IoBuffer.{find_eol, byte_before, calculate_bytes_to_copy}

-- The bytes before the first newline, and those after it.
unfoldable pub split_line : Bytes → Option (Bytes × Bytes)
split_line [] = none
split_line (c ∷ cs) =
    let rest = split_line cs in
    if c == b'\n' then some ([], cs) else Option.map (λ (l, r). (c ∷ l, r)) rest

-- A line without the carriage return that ends it, if one does.
unfoldable pub chomp : Bytes → Bytes
chomp [] = []
chomp (c ∷ []) = if c == b'\r' then [] else c ∷ []
chomp (c ∷ d ∷ l) = c ∷ chomp (d ∷ l)

-- What a caller gets of a line: with its newline, or without its end of line.
unfoldable pub line_text : Bool → Bytes → Bytes
unfolding chomp
line_text preserve l = if preserve then l ++ (b'\n' ∷ []) else chomp l

-- An empty line is read by looking at the byte before the block; a carriage return there makes
-- the count of bytes to copy negative.
unfoldable pub is_harmless : ℕ → Bool → Bytes → Bool
is_harmless before preserve [] = if preserve then true else not (before == b'\r')
is_harmless before preserve (c ∷ l) = true

pub split_line-some :
    (xs : Bytes) {l r : Bytes} → split_line xs ≡ some (l, r) → xs ≡ l ++ (b'\n' ∷ r)
unfolding split_line
split_line-some [] h = cc
split_line-some (c ∷ xs) {l} {r} h = elim (Option-cases (split_line xs)) [
  | inl e ↦ ground arith
  | inr ((l', r'), e) ↦ ground (arith, split_line-some xs e)
]

pub find_eol-split_line :
    (xs z : Bytes)
    → find_eol (xs ++ z) (length xs) ≡ done (Option.map (λ (l, r). length l) (split_line xs))
unfolding find_eol split_line
find_eol-split_line [] z = refl
find_eol-split_line (c ∷ xs) z = ground (arith, find_eol-split_line xs z)

-- The last byte of a line, or the one before the block.
pub last : ℕ → Bytes → ℕ
last d [] = d
last d (c ∷ cs) = last c cs

pub byte_before-last :
    (before : ℕ) (l z : Bytes) → byte_before before (l ++ z) (length l) ≡ done (last before l)
unfolding byte_before last
byte_before-last before [] z = refl
byte_before-last before (c ∷ l) z = byte_before-last c l z

chomp_tail : Bytes → Bytes
chomp_tail [] = []
chomp_tail (c ∷ []) = if c == b'\r' then b'\r' ∷ [] else []
chomp_tail (c ∷ d ∷ l) = chomp_tail (d ∷ l)

chomp-tail : (l : Bytes) → l ≡ chomp l ++ chomp_tail l
unfolding chomp chomp_tail
chomp-tail [] = refl
chomp-tail (c ∷ []) = ground (arith, ==_iff c b'\r')
chomp-tail (c ∷ d ∷ l) = ap (◌∷◌ c) (chomp-tail (d ∷ l))

-- What `calculate_bytes_to_copy` returns when newlines are removed.
abbrev sub_or_self : Bool → ℕ → ℤ
sub_or_self has_cr n = if has_cr then sub_ℕ n 1 else pos n

chomp-length :
    (before : ℕ) (l : Bytes)
    → is_harmless before false l ≡ true
    → sub_or_self (last before l == b'\r') (length l) ≡ pos (length (chomp l))
unfolding chomp is_harmless last
chomp-length before [] h = ground arith
chomp-length before (c ∷ []) h = ground arith
chomp-length before (c ∷ d ∷ l) h = ground (arith, chomp-length c (d ∷ l) refl)

-- A line begins with its text, however it is ended.
pub line_text-prefix :
    (preserve : Bool) (l r : Bytes) → (z : Bytes) × (l ++ (b'\n' ∷ r) ≡ line_text preserve l ++ z)
unfolding line_text
line_text-prefix true l r = (r, sym (append_assoc l (b'\n' ∷ []) r))
line_text-prefix false l r = (
  chomp_tail l ++ (b'\n' ∷ r),
  ap (λ (x : Bytes). x ++ (b'\n' ∷ r)) (chomp-tail l) ∙ append_assoc (chomp l) (chomp_tail l) _,
)

-- The count of bytes to copy is the length of the text.
pub bytes_to_copy-line_text :
    (before : ℕ) (preserve : Bool) (l : Bytes)
    → is_harmless before preserve l ≡ true
    → calculate_bytes_to_copy (length l) (last before l == b'\r') preserve
      ≡ pos (length (line_text preserve l))
unfolding calculate_bytes_to_copy line_text
bytes_to_copy-line_text before true l h = ap pos (sym (length-append l (b'\n' ∷ [])))
bytes_to_copy-line_text before false l h = chomp-length before l h

pub bytes_to_copy-harmful :
    (before : ℕ) (preserve : Bool) (l : Bytes)
    → is_harmless before preserve l ≡ false
    → calculate_bytes_to_copy (length l) (last before l == b'\r') preserve ≡ negsuc 0
unfolding calculate_bytes_to_copy is_harmless last
bytes_to_copy-harmful before preserve [] h = ground arith
bytes_to_copy-harmful before preserve (c ∷ l) h = cc
