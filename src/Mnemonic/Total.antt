-- ===== src/Mnemonic/Total.antt =====
-- That every line which ends inside its block can be split.
use ftpserv_u.Prelude.{
  ℕ, ◌≤◌, ◌≡◌, ◌≢◌, refl, ap, ◌∙◌, false, ◌||◌, none, some, [], ◌∷◌, map, done, arith, ◌==◌, All,
  ◌⊎◌, inl, inr, Bool-cases,
}
use ftpserv_u.Memory.{Bytes, is_space, is_alpha, to_upper}
use ftpserv_u.Mnemonic.{skip_spaces, read_word, fast_forward, word_from, parse_command}
use ftpserv_u.Mnemonic.Words.{Letters, StartsParameters, upper_letter}

abbrev pub Capitals : Bytes → Type 0
Capitals = All (λ c. (b'A' ≤ c) × (c ≤ b'Z'))

map-to_upper-Capitals : (w : Bytes) → Letters w → Capitals (map to_upper w)
map-to_upper-Capitals [] l = tt
map-to_upper-Capitals (c ∷ w) l = (upper_letter c l.0, map-to_upper-Capitals w l.1)

-- The block holds a string that ends inside it.
abbrev pub HasNul : Bytes → Type 0
HasNul [] = ⊥
HasNul (c ∷ cs) = (c ≡ 0) ⊎ HasNul cs

nul_later : (c : ℕ) (mem : Bytes) → HasNul (c ∷ mem) → c ≢ 0 → HasNul mem
nul_later c mem (inl z) ne = absurd (ne z)
nul_later c mem (inr h) ne = h

skip_spaces_total :
    (mem : Bytes)
    → HasNul mem
    → (r : Bytes) × (skip_spaces mem ≡ done r) × HasNul r × StartsParameters r
unfolding skip_spaces
skip_spaces_total [] h = absurd h
skip_spaces_total (c ∷ mem) (inl z) = (c ∷ mem, ground arith, inl z, ground arith)
skip_spaces_total (c ∷ mem) (inr h) =
    let (r, e, nul, starts) = skip_spaces_total mem h in
    elim (Bool-cases (is_space c)) [
      | inl space ↦ (r, ground arith, nul, starts)
      | inr other ↦ (c ∷ mem, ground arith, inr h, other)
    ]

-- Where the loop over the word stops.
abbrev WordRead : Bytes → Type 0
WordRead mem =
    ((r : Bytes) × (read_word mem ≡ done (none, r)))
    ⊎ ((w : Bytes) × (r : Bytes) × (read_word mem ≡ done (some w, r)) × Letters w × HasNul r)

read_word_total : (mem : Bytes) → HasNul mem → WordRead mem
unfolding read_word
read_word_total [] h = absurd h
read_word_total (c ∷ mem) h = elim (Bool-cases (c == 0 || is_space c)) [
  | inl ends ↦ inr ([], c ∷ mem, ground arith, tt, h)
  | inr goes_on ↦ elim (Bool-cases (is_alpha c)) [
    | inr other ↦ inl (c ∷ mem, ground arith)
    | inl letter ↦ elim (read_word_total mem (nul_later c mem h (ground arith))) [
      | inl (r, e) ↦ inl (r, ground arith)
      | inr (w, r, e, l, nul) ↦ inr (c ∷ w, r, ground arith, (letter, l), nul)
    ]
  ]
]

fast_forward_total :
    (mem : Bytes) → HasNul mem → (r : Bytes) × (fast_forward mem ≡ done r) × HasNul r
unfolding fast_forward
fast_forward_total [] h = absurd h
fast_forward_total (c ∷ mem) h = elim (Bool-cases (c == 0)) [
  | inl z ↦ (c ∷ mem, ground arith, h)
  | inr other ↦
      let (r, e, nul, starts) = skip_spaces_total mem (nul_later c mem h (ground arith)) in
      (r, ground arith, nul)
]

read_word_ne_nil :
    (c : ℕ) (cs : Bytes) {r : Bytes}
    → (c == 0 || is_space c) ≡ false
    → read_word (c ∷ cs) ≢ done (some [], r)
unfolding read_word
read_word_ne_nil c cs h e = ground arith

map_ne_nil : (w : Bytes) → w ≢ [] → map to_upper w ≢ []
map_ne_nil [] ne e = ne refl
map_ne_nil (c ∷ w) ne e = cc

word_from_total :
    (mem : Bytes)
    → HasNul mem
    → StartsParameters mem
    → ((r : Bytes) × (word_from mem ≡ done (none, r)))
      ⊎ ((w : Bytes) × (r : Bytes) × (word_from mem ≡ done (some w, r))
          × Letters w
          × (w ≢ [])
          × HasNul r)
unfolding word_from
word_from_total [] h s = absurd h
word_from_total (c ∷ mem) h s = elim (Bool-cases (c == 0)) [
  | inl z ↦ inl (c ∷ mem, ground arith)
  | inr other ↦ elim (read_word_total (c ∷ mem) h) [
    | inl (r, e) ↦ inl (r, ground arith)
    | inr (w, r, e, l, nul) ↦
        let (p, f, nul') = fast_forward_total r nul in
        inr (
          w,
          p,
          ground arith,
          l,
          λ n. read_word_ne_nil c mem (ground arith) (e ∙ ap (λ x. done (some x, r)) n),
          nul',
        )
  ]
]

-- A line that ends inside its block is always read with no fault. Either it has no command word,
-- or the word is not empty and all capitals, and the parameters end inside the block too.
pub parse_command_total :
    (line : Bytes)
    → HasNul line
    → (parse_command line ≡ done none)
      ⊎ ((w : Bytes) × (r : Bytes) × (parse_command line ≡ done (some (w, r)))
          × Capitals w
          × (w ≢ [])
          × HasNul r)
unfolding parse_command
parse_command_total line h =
    let (start, e, nul, starts) = skip_spaces_total line h in
    elim (word_from_total start nul starts) [
      | inl (r, f) ↦ inl (ground arith)
      | inr (w, r, f, l, ne, nul') ↦
          inr (map to_upper w, r, ground arith, map-to_upper-Capitals w l, map_ne_nil w ne, nul')
    ]
