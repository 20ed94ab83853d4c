-- ===== src/Console/Freeing.antt =====
-- What `console_deinit` frees, and what it leaves behind.
use mathlib.Core.Path.{subst}
use native.Mathlib.Decide.{dec_lt}
use ftpserv_u.Prelude.{
  ℕ, ◌+◌, ◌≤◌, ◌<◌, ◌≡◌, refl, Option, none, some, List, [], ◌∷◌, done, fault, arith, inl, inr, ◌⊎◌,
}
use ftpserv_u.Console.{Console, Heap, free, free_row, free_rows, console_deinit}
use ftpserv_u.Console.Owned.{refs, live, IsOwned, freed, free_row_lem, live-freed, refs-append}
use ftpserv_u.Console.Printing.{live-none}

-- Rows whose blocks are live, each once, are freed, and nothing else is.
free_rows_lem :
    (heap : Heap) (rows : List (Option ℕ))
    → ((a : ℕ) → refs a rows ≤ live (heap a))
    → (heap' : Heap) × (free_rows heap rows ≡ done heap')
      × ((a : ℕ) → live (heap' a) + refs a rows ≡ live (heap a))
unfolding free_rows
free_rows_lem heap [] h = (heap, refl, λ a. omega arith)
free_rows_lem heap (row ∷ rows) h =
    let one : (a : ℕ) → refs a (row ∷ []) ≤ live (heap a) =
      λ a. omega (arith, h a, refs-append a (row ∷ []) rows) in
    let (heap', e, left) =
      free_rows_lem (freed heap row) rows
        (λ a. omega (arith, h a, refs-append a (row ∷ []) rows, live-freed heap row a (one a))) in
    (
      heap',
      rw (free_row_lem heap row one) e,
      λ a. omega (arith, left a, refs-append a (row ∷ []) rows, live-freed heap row a (one a)),
    )

-- With rows that own their blocks `console_deinit` does not fault and frees every block. The
-- pointers stay in the rows.
pub console_deinit_lem :
    (c : Console)
    → IsOwned c
    → (heap : Heap) × (console_deinit c ≡ done (record c { heap = heap }))
      × ((a : ℕ) → heap a ≡ none)
unfolding console_deinit
console_deinit_lem c o =
    let (heap, e, left) = free_rows_lem c.heap c.tv_console (λ a. omega (arith, o.owners a)) in
    let (heap', f, left') =
      free_rows_lem heap c.pad_console (λ a. omega (arith, left a, o.owners a)) in
    (heap', rw e (rw f refl), λ a. live-none (heap' a) (omega (arith, left a, left' a, o.owners a)))

-- Freeing rows of which one has a block that is not live.
free_rows-fault :
    (heap : Heap) (rows : List (Option ℕ)) (a : ℕ)
    → ((b : ℕ) → heap b ≡ none)
    → 0 < refs a rows
    → free_rows heap rows ≡ fault
unfolding free_rows free_row free
free_rows-fault heap [] a h k = absurd (omega arith)
free_rows-fault heap (none ∷ rows) a h k = free_rows-fault heap rows a h k
free_rows-fault heap (some p ∷ rows) a h k = ground (arith, h p)

free_rows-none :
    (heap : Heap) (rows : List (Option ℕ))
    → ((b : ℕ) → heap b ≡ none)
    → (free_rows heap rows ≡ fault) ⊎ (free_rows heap rows ≡ done heap)
unfolding free_rows free_row free
free_rows-none heap [] h = inr refl
free_rows-none heap (none ∷ rows) h = free_rows-none heap rows h
free_rows-none heap (some p ∷ rows) h = inl (ground (arith, h p))

-- A second `console_deinit` behind the first frees a block again, if there was a block.
pub console_deinit-again :
    (c : Console) (a : ℕ) {c' : Console}
    → IsOwned c
    → 0 < live (c.heap a)
    → console_deinit c ≡ done c'
    → console_deinit c' ≡ fault
unfolding console_deinit
console_deinit-again c a {c'} o h e =
    let (heap, f, empty) = console_deinit_lem c o in
    let is : record c { heap = heap } ≡ c' = cc in
    subst (λ (t : Console). console_deinit t ≡ fault) is (twice heap empty)
  where
    twice :
        (heap : Heap)
        → ((b : ℕ) → heap b ≡ none)
        → console_deinit (record c { heap = heap }) ≡ fault
    twice heap empty = elim (free_rows-none heap c.tv_console empty) [
      | inl f ↦ rw f refl
      | inr f ↦ elim (dec_lt 0 (refs a c.tv_console)) [
        | yes k ↦ rw (free_rows-fault heap c.tv_console a empty k) refl
        | no k ↦ rw (f, free_rows-fault heap c.pad_console a empty (omega (arith, o.owners a))) refl
      ]
    ]
