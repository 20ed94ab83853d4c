-- ===== src/Memory.antt =====
-- Blocks of memory as lists of bytes, with the functions of <string.h> and <ctype.h> that the
-- code calls (in the C locale). An access outside the block is a fault.
use mathlib.Core.Path.{ap₂}
use ftpserv_u.Prelude.{
  ℕ, ◌+◌, ◌-◌, ◌≤◌, ◌<◌, ◌≡◌, ◌↔◌, ap, sym, ◌∙◌, inl, inr, Bool-cases, Bool, true, false, ◌&&◌,
  ◌||◌, List, [], ◌∷◌, ◌++◌, take-append, drop-append, drop-drop, length-append, Out, done, fault,
  arith, leb, ◌==◌, if◌then◌else◌, length, take, drop,
}

abbrev pub Bytes : Type 0
Bytes = List ℕ

-- memcpy, memmove and memset: `bytes` is stored at offset `off`.
unfoldable pub write_at : Bytes → ℕ → Bytes → Out Bytes
write_at mem off bytes =
    if leb (off + length bytes) (length mem)
    then done (take off mem ++ (bytes ++ drop (off + length bytes) mem))
    else fault

-- The `n` bytes from offset `off` on.
unfoldable pub read_at : Bytes → ℕ → ℕ → Out Bytes
read_at mem off n = if leb (off + n) (length mem) then done (take n (drop off mem)) else fault

-- The string that starts a block: its bytes up to the first NUL.
unfoldable pub c_string : Bytes → Bytes
c_string [] = []
c_string (c ∷ cs) = if c == 0 then [] else c ∷ c_string cs

-- `!strcmp(a, b)` on the bytes of two strings.
unfoldable pub same_string : Bytes → Bytes → Bool
same_string [] [] = true
same_string (x ∷ xs) (y ∷ ys) = x == y && same_string xs ys
same_string _ _ = false

abbrev within : ℕ → ℕ → ℕ → Bool
within lo hi c = leb lo c && leb c hi

unfoldable pub is_space : ℕ → Bool
is_space c = c == b' ' || within 9 13 c

unfoldable pub is_alpha : ℕ → Bool
is_alpha c = within b'A' b'Z' c || within b'a' b'z' c

unfoldable pub is_digit : ℕ → Bool
is_digit c = within b'0' b'9' c

unfoldable pub is_graph : ℕ → Bool
is_graph c = within 33 126 c

unfoldable pub to_upper : ℕ → ℕ
to_upper c = if within b'a' b'z' c then c - 32 else c

-- A store behind `a`, and a read of the bytes between `a` and `z`.
pub write_at-append :
    {mem : Bytes} (off : ℕ) (a bytes z : Bytes)
    → mem ≡ a ++ z
    → off ≡ length a
    → length bytes ≤ length z
    → write_at mem off bytes ≡ done (a ++ (bytes ++ drop (length bytes) z))
unfolding write_at
write_at-append {mem} off a bytes z e o h =
    elim (Bool-cases (leb (off + length bytes) (length mem))) [
      | inr no_room ↦ absurd (ground (arith, ap length e, length-append a z))
      | inl room ↦ rw room (ap done (ap₂ (λ (x y : Bytes). x ++ (bytes ++ y)) front back))
    ]
  where
    front : take off mem ≡ a
    front = ap (take off) e ∙ take-append off a z o

    back : drop (off + length bytes) mem ≡ drop (length bytes) z
    back =
        sym (drop-drop off (length bytes) mem)
        ∙ ap (drop (length bytes)) (ap (drop off) e ∙ drop-append off a z o)

pub read_at-append :
    {mem : Bytes} (off n : ℕ) (a m z : Bytes)
    → mem ≡ a ++ (m ++ z)
    → off ≡ length a
    → n ≡ length m
    → read_at mem off n ≡ done m
unfolding read_at
read_at-append {mem} off n a m z e o k = elim (Bool-cases (leb (off + n) (length mem))) [
  | inr no_room ↦ absurd (ground (arith, ap length e, length-append a (m ++ z), length-append m z))
  | inl room ↦
      rw room (
        ap done
          (ap (take n) (ap (drop off) e ∙ drop-append off a (m ++ z) o) ∙ take-append n m z k))
]

pub write_at-fault :
    (mem : Bytes) (off : ℕ) (bytes : Bytes)
    → length mem < off + length bytes
    → write_at mem off bytes ≡ fault
unfolding write_at
write_at-fault mem off bytes h = ground arith

pub same_string_iff : (a b : Bytes) → (same_string a b ≡ true) ↔ (a ≡ b)
unfolding same_string
same_string_iff (x ∷ a) (y ∷ b) = ground (arith, same_string_iff a b)
same_string_iff _ _ = ground arith
