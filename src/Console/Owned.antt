-- ===== src/Console/Owned.antt =====
-- Which rows own the blocks of the console, and what `shift_rows` does to them.
use ftpserv_u.Prelude.{
  ℕ, zero, suc, ◌+◌, ◌≤◌, ◌<◌, ◌≡◌, refl, ap, sym, Bool, true, false, Option, none, some, List, [],
  ◌∷◌, ◌++◌, done, arith, ◌==◌, if◌then◌else◌, Option-cases, inl, inr, length, drop, set,
}
use ftpserv_u.Memory.{Bytes}
use ftpserv_u.Console.{
  Console, Heap, write, free, free_row, move_rows, shift_rows, max_console_lines_tv,
  max_console_lines_pad,
}

-- How many rows point to a block.
abbrev pub refs : ℕ → List (Option ℕ) → ℕ
refs a [] = 0
refs a (none ∷ rows) = refs a rows
refs a (some p ∷ rows) = (if a == p then 1 else 0) + refs a rows

abbrev pub live : Option Bytes → ℕ
live none = 0
live (some text) = 1

-- Every live block belongs to one row, and every row that is not NULL has a live block: no
-- pointer dangles, no block has two owners, and none is lost. The blocks to come are not live.
pub record IsOwned (c : Console) : Type 0 where
  pub tv_size : length c.tv_console ≡ max_console_lines_tv
  pub pad_size : length c.pad_console ≡ max_console_lines_pad
  pub owners : (a : ℕ) → refs a c.tv_console + refs a c.pad_console ≡ live (c.heap a)
  pub fresh : (a : ℕ) → c.next_address ≤ a → c.heap a ≡ none

-- The strings that rows show.
abbrev pub text_of : Heap → Option ℕ → Option Bytes
text_of heap none = none
text_of heap (some p) = heap p

abbrev pub view : Heap → List (Option ℕ) → List (Option Bytes)
view heap [] = []
view heap (row ∷ rows) = text_of heap row ∷ view heap rows

pub refs-append : (a : ℕ) (xs ys : List (Option ℕ)) → refs a (xs ++ ys) ≡ refs a xs + refs a ys
refs-append a [] ys = omega arith
refs-append a (none ∷ xs) ys = refs-append a xs ys
refs-append a (some p ∷ xs) ys = omega (arith, refs-append a xs ys)

pub view-append :
    (heap : Heap) (xs ys : List (Option ℕ)) → view heap (xs ++ ys) ≡ view heap xs ++ view heap ys
view-append heap [] ys = refl
view-append heap (x ∷ xs) ys = ap (◌∷◌ (text_of heap x)) (view-append heap xs ys)

-- Rows show the same where their blocks hold the same.
pub view-frame :
    (heap heap' : Heap) (rows : List (Option ℕ))
    → ((a : ℕ) → 0 < refs a rows → heap' a ≡ heap a)
    → view heap' rows ≡ view heap rows
view-frame heap heap' [] h = refl
view-frame heap heap' (none ∷ rows) h = ap (◌∷◌ none) (view-frame heap heap' rows h)
view-frame heap heap' (some p ∷ rows) h =
    rw (h p (ground arith))
      (ap (◌∷◌ (heap p)) (view-frame heap heap' rows (λ a k. h a (ground arith))))

pub length-view : (heap : Heap) (rows : List (Option ℕ)) → length (view heap rows) ≡ length rows
length-view heap [] = refl
length-view heap (x ∷ rows) = ap suc (length-view heap rows)

-- The heap once the block of a row is freed.
abbrev pub freed : Heap → Option ℕ → Heap
freed heap none = heap
freed heap (some p) = write heap p none

pub free_row_lem :
    (heap : Heap) (row : Option ℕ)
    → ((a : ℕ) → refs a (row ∷ []) ≤ live (heap a))
    → free_row heap row ≡ done (freed heap row)
unfolding free_row free
free_row_lem heap none h = refl
free_row_lem heap (some p) h = elim (Option-cases (heap p)) [
  | inl e ↦
      let owned : 1 ≤ live (heap p) = ground (arith, h p) in
      absurd (omega (arith, owned, ap live e))
  | inr (text, e) ↦ ground arith
]

pub live-if :
    (b : Bool) (x y : Option Bytes) → live (if b then x else y) ≡ (if b then live x else live y)
live-if true x y = refl
live-if false x y = refl

pub live_one : (x : Option Bytes) → live x ≤ 1
live_one none = omega arith
live_one (some text) = omega arith

pub live-freed :
    (heap : Heap) (row : Option ℕ) (a : ℕ)
    → refs a (row ∷ []) ≤ live (heap a)
    → live (freed heap row a) + refs a (row ∷ []) ≡ live (heap a)
live-freed heap none a h = omega arith
live-freed heap (some p) a h = ground (arith, live-if (a == p) none (heap a), live_one (heap a))

pub live-write :
    (heap : Heap) (p : ℕ) (text : Bytes) (a : ℕ)
    → live (write heap p (some text) a) ≡ (if a == p then 1 else live (heap a))
live-write heap p text a = live-if (a == p) (some text) (heap a)

length-move_rows : (rows : List (Option ℕ)) → length (move_rows rows) ≡ length rows
unfolding move_rows
length-move_rows [] = refl
length-move_rows (x ∷ []) = refl
length-move_rows (x ∷ y ∷ rows) = ap suc (length-move_rows (y ∷ rows))

-- The last row is overwritten behind the shift.
set-move_rows :
    (n : ℕ) (x : Option ℕ) (rows : List (Option ℕ)) (v : Option ℕ)
    → length rows ≡ n
    → set (move_rows (x ∷ rows)) n v ≡ rows ++ (v ∷ [])
unfolding move_rows
set-move_rows n x [] v e = rw (sym e) refl
set-move_rows zero x (y ∷ rows) v e = absurd (omega arith)
set-move_rows (suc n) x (y ∷ rows) v e = ap (◌∷◌ y) (set-move_rows n y rows v (omega (arith, e)))

unfoldable pub first : List (Option ℕ) → Option ℕ
first [] = none
first (row ∷ rows) = row

pub refs-first :
    (a : ℕ) (rows : List (Option ℕ)) → refs a rows ≡ refs a (first rows ∷ []) + refs a (drop 1 rows)
unfolding first
refs-first a [] = omega arith
refs-first a (none ∷ rows) = omega arith
refs-first a (some p ∷ rows) = omega arith

-- The block that `shift_rows` frees, and the rows that it leaves for the last one to be written.
pub shift_rows_lem :
    (heap : Heap) (n : ℕ) (rows : List (Option ℕ))
    → length rows ≡ suc n
    → ((a : ℕ) → refs a rows ≤ live (heap a))
    → (moved : List (Option ℕ)) × (shift_rows heap rows ≡ done (freed heap (first rows), moved))
      × ((v : Option ℕ) → set moved n v ≡ drop 1 rows ++ (v ∷ []))
unfolding shift_rows first
shift_rows_lem heap n [] e h = absurd (omega arith)
shift_rows_lem heap n (x ∷ rows) e h = (
  move_rows (x ∷ rows),
  rw (free_row_lem heap x (λ a. omega (arith, h a, refs-append a (x ∷ []) rows))) refl,
  λ v. set-move_rows n x rows v (omega (arith, e)),
)

pub view-drop :
    (heap : Heap) (rows : List (Option ℕ)) → view heap (drop 1 rows) ≡ drop 1 (view heap rows)
view-drop heap [] = refl
view-drop heap (x ∷ rows) = refl
