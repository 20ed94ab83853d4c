-- ===== src/Mnemonic/Words.antt =====
-- How a command line splits into its word and its parameters.
use ftpserv_u.Prelude.{
  ℕ, ◌≤◌, ◌≡◌, ◌≢◌, refl, true, false, ◌||◌, some, [], ◌∷◌, ◌++◌, map, done, arith, ◌==◌, All,
}
use ftpserv_u.Memory.{Bytes, is_space, is_alpha, to_upper}
use ftpserv_u.Mnemonic.{skip_spaces, read_word, parse_command}

abbrev pub Spaces : Bytes → Type 0
Spaces = All (λ c. is_space c ≡ true)

abbrev pub Letters : Bytes → Type 0
Letters = All (λ c. is_alpha c ≡ true)

-- The bytes of a parameter string and what follows it in memory: no space in front.
abbrev pub StartsParameters : Bytes → Type 0
StartsParameters [] = ⊥
StartsParameters (c ∷ cs) = is_space c ≡ false

skip_spaces-append :
    (gap rest : Bytes) → Spaces gap → StartsParameters rest → skip_spaces (gap ++ rest) ≡ done rest
unfolding skip_spaces
skip_spaces-append [] [] g p = absurd p
skip_spaces-append [] (c ∷ cs) g p = ground arith
skip_spaces-append (c ∷ gap) rest g p = ground (arith, skip_spaces-append gap rest g.1 p)

read_word-Letters :
    (w : Bytes) (d : ℕ) (rest : Bytes)
    → Letters w
    → (d == 0 || is_space d) ≡ true
    → read_word (w ++ (d ∷ rest)) ≡ done (some w, d ∷ rest)
unfolding read_word
read_word-Letters [] d rest l e = ground arith
read_word-Letters (c ∷ w) d rest l e = ground (arith, read_word-Letters w d rest l.1 e)

letter_starts : (c : ℕ) → is_alpha c ≡ true → is_space c ≡ false
unfolding is_alpha is_space
letter_starts c h = ground arith

letter_ne_zero : (c : ℕ) → is_alpha c ≡ true → (c == 0) ≡ false
unfolding is_alpha
letter_ne_zero c h = ground arith

space_ends : (d : ℕ) → is_space d ≡ true → (d == 0 || is_space d) ≡ true
space_ends d h = ground arith

space_ne_zero : (d : ℕ) → is_space d ≡ true → (d == 0) ≡ false
unfolding is_space
space_ne_zero d h = ground arith

pub upper_letter : (c : ℕ) → is_alpha c ≡ true → (b'A' ≤ to_upper c) × (to_upper c ≤ b'Z')
unfolding is_alpha to_upper
upper_letter c h = ground arith

-- A line of optional space, a command word, a space and more, and then the parameters: the word
-- comes back in capitals, and the parameters as they stand in memory.
pub parse_command_words :
    (gap w : Bytes) (d : ℕ) (more parameters : Bytes)
    → Spaces gap
    → Letters w
    → w ≢ []
    → is_space d ≡ true
    → Spaces more
    → StartsParameters parameters
    → parse_command (gap ++ (w ++ (d ∷ (more ++ parameters))))
      ≡ done (some (map to_upper w, parameters))
parse_command_words gap [] d more parameters g l ne sp m p = absurd (ne refl)
parse_command_words gap (c ∷ w) d more parameters g l ne sp m p =
    unfold parse_command in
    ground (
      arith,
      skip_spaces-append gap (c ∷ (w ++ (d ∷ (more ++ parameters)))) g (letter_starts c l.0),
      read_word-Letters (c ∷ w) d (more ++ parameters) l (space_ends d sp),
      skip_spaces-append more parameters m p,
      space_ne_zero d sp,
      letter_ne_zero c l.0,
    )

-- A line that holds a command word alone, whatever memory holds behind it.
pub parse_command_word :
    (gap w stale : Bytes)
    → Spaces gap
    → Letters w
    → w ≢ []
    → parse_command (gap ++ (w ++ (0 ∷ stale))) ≡ done (some (map to_upper w, 0 ∷ stale))
parse_command_word gap [] stale g l ne = absurd (ne refl)
parse_command_word gap (c ∷ w) stale g l ne =
    unfold parse_command in
    ground (
      arith,
      skip_spaces-append gap (c ∷ (w ++ (0 ∷ stale))) g (letter_starts c l.0),
      read_word-Letters (c ∷ w) 0 stale l refl,
      letter_ne_zero c l.0,
    )
