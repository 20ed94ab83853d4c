-- ===== src/Mnemonic.antt =====
-- src/ftp.c, `get_mnemonic`: the command word at the front of a line, and where its parameters
-- start. A line is the block that holds it, so that a scan past the end of the block shows.
pub mod Words
pub mod Total
use mathlib.Core.Option
use ftpserv_u.Prelude.{
  ℕ, suc, ◌≡◌, refl, ap, length, arith, Bool-cases, inl, inr, Bool, ◌||◌, not, Option, none, some,
  [], ◌∷◌, map, Out, done, fault, ◌>>=◌, ◌==◌, if◌then◌else◌,
}
use ftpserv_u.Memory.{Bytes, is_space, is_alpha, to_upper}

-- `while(isspace(**buffer)) (*buffer)++;`
pub skip_spaces : Bytes → Out Bytes
unfolding is_space
skip_spaces [] = fault
skip_spaces (c ∷ cs) = let rest = skip_spaces cs in if is_space c then rest else done (c ∷ cs)

-- The loop over the word: the word read, or `none` at a byte that is no letter, and the block
-- from where it stops.
pub read_word : Bytes → Out (Option Bytes × Bytes)
unfolding is_space is_alpha
read_word [] = fault
read_word (c ∷ cs) =
    let rest = read_word cs in
    if c == 0 || is_space c
    then done (some [], c ∷ cs)
    else if not (is_alpha c)
    then done (none, c ∷ cs)
    else rest >>= λ (word, after). done (Option.map (◌∷◌ c) word, after)

-- Behind the word: a separator is passed, and the spaces that follow it.
pub fast_forward : Bytes → Out Bytes
unfolding skip_spaces
fast_forward [] = fault
fast_forward (c ∷ cs) = let rest = skip_spaces cs in if c == 0 then done (c ∷ cs) else rest

pub word_from : Bytes → Out (Option Bytes × Bytes)
unfolding read_word fast_forward
word_from [] = fault
word_from (c ∷ cs) =
    if c == 0
    then done (none, c ∷ cs)
    else read_word (c ∷ cs) >>= λ (word, after). elim word [
      | none ↦ done (none, after)
      | some w ↦ fast_forward after >>= λ parameters. done (some w, parameters)
    ]

unfoldable pub get_mnemonic : Bytes → Out (Option Bytes × Bytes)
unfolding skip_spaces word_from
get_mnemonic buffer = skip_spaces buffer >>= word_from

-- What `ftp_process_command` hands to `command_invoke`: the word in capitals and the parameters,
-- or nothing if there is no word.
unfoldable pub parse_command : Bytes → Out (Option (Bytes × Bytes))
unfolding get_mnemonic to_upper
parse_command line = get_mnemonic line >>= λ (mnemonic, parameters).
    done (Option.map (λ w. (map to_upper w, parameters)) mnemonic)

-- What `get_mnemonic` and the loop over the word write into a line with a command word: the word in
-- capitals, and a NUL for the byte behind it.
pub mark_word : Bytes → Bytes
unfolding is_space to_upper
mark_word [] = []
mark_word (c ∷ cs) =
    let rest = mark_word cs in
    if c == 0 then c ∷ cs else if is_space c then 0 ∷ cs else to_upper c ∷ rest

unfoldable pub mark_command : Bytes → Bytes
mark_command [] = []
mark_command (c ∷ cs) =
    let rest = mark_command cs in
    let marked = mark_word (c ∷ cs) in if is_space c then c ∷ rest else marked

length-mark_word : (line : Bytes) → length (mark_word line) ≡ length line
unfolding mark_word
length-mark_word [] = refl
length-mark_word (c ∷ cs) = ground (arith, length-mark_word cs)

pub length-mark_command : (line : Bytes) → length (mark_command line) ≡ length line
unfolding mark_command
length-mark_command [] = refl
length-mark_command (c ∷ cs) = elim (Bool-cases (is_space c)) [
  | inl space ↦ rw space (ap suc (length-mark_command cs))
  | inr other ↦ rw other (length-mark_word (c ∷ cs))
]
