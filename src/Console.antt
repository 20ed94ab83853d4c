-- ===== src/Console.antt =====
-- src/console.c: the rows of text on the two screens, and the blocks of memory that hold them.
pub mod Owned
pub mod Printing
pub mod Frames
pub mod Screens
pub mod Freeing
use ftpserv_u.Prelude.{
  ℕ, suc, ◌+◌, ◌-◌, Bool, true, Option, none, some, List, [], ◌∷◌, ◌++◌, Out, done, fault, ◌>>=◌,
  ltb, ◌==◌, if◌then◌else◌, length, take, replicate, set,
}
use ftpserv_u.Memory.{Bytes}

abbrev pub max_console_lines_tv : ℕ
max_console_lines_tv = 27

abbrev pub max_console_lines_pad : ℕ
max_console_lines_pad = 18

-- What is asked of the screens of the console.
pub data ScreenCall : Type 0 where
  screen_start : ScreenCall
  set_buffer : ℕ → ℕ → ScreenCall
  enable : ℕ → ScreenCall
  clear : ℕ → ScreenCall
  put_font : ℕ → ℕ → Bytes → ScreenCall
  flip : ℕ → ScreenCall

-- The static state, the memory that it leads to, and the calls made so far. A block is known by
-- its address, and holds a string; no address is given out twice.
pub record Console : Type 0 where
  pub heap : ℕ → Option Bytes
  pub next_address : ℕ
  pub tv_console : List (Option ℕ)
  pub pad_console : List (Option ℕ)
  pub initialized : Bool
  pub calls : List ScreenCall

abbrev pub Heap : Type 0
Heap = ℕ → Option Bytes

-- The heap where an address holds something else.
abbrev pub write : Heap → ℕ → Option Bytes → Heap
write heap p v a = if a == p then v else heap a

-- `free`, which leaves undefined what it does to a block that is not live.
unfoldable pub free : Heap → ℕ → Out Heap
free heap p = elim (heap p) [ none ↦ fault | some text ↦ done (write heap p none) ]

-- `if(p) free(p);`
unfoldable pub free_row : Heap → Option ℕ → Out Heap
unfolding free
free_row heap none = done heap
free_row heap (some p) = free heap p

-- The loop of `shift_rows`. The last row stays where it is, too.
unfoldable pub move_rows : List (Option ℕ) → List (Option ℕ)
move_rows [] = []
move_rows (row ∷ []) = row ∷ []
move_rows (row ∷ next ∷ rows) = next ∷ move_rows (next ∷ rows)

-- `shift_rows`; `rows[0]` is past the end of an empty array.
unfoldable pub shift_rows : Heap → List (Option ℕ) → Out (Heap × List (Option ℕ))
unfolding free_row move_rows
shift_rows heap [] = fault
shift_rows heap (row ∷ rows) = free_row heap row >>= λ heap'. done (heap', move_rows (row ∷ rows))

-- The loop of `console_screen_draw`, from row `i` on. Reading a block that is not live is a fault.
unfoldable pub draw_rows : Heap → ℕ → ℕ → List (Option ℕ) → Out (List ScreenCall)
draw_rows heap screen i [] = done []
draw_rows heap screen i (none ∷ rows) = draw_rows heap screen (suc i) rows
draw_rows heap screen i (some p ∷ rows) = elim (heap p) [
  | none ↦ fault
  | some text ↦
      draw_rows heap screen (suc i) rows >>= λ calls. done (put_font screen i text ∷ calls)
]

-- `console_screen_draw`
unfoldable pub screen_draw : Heap → ℕ → List (Option ℕ) → Out (List ScreenCall)
unfolding draw_rows
screen_draw heap screen term =
    draw_rows heap screen 0 term >>= λ calls. done (clear screen ∷ (calls ++ (flip screen ∷ [])))

-- The calls of `screen_init`, where `OSScreenGetBufferSizeEx` returns `bufsize`.
abbrev pub start_calls : ℕ → List ScreenCall
start_calls bufsize =
    screen_start
    ∷ set_buffer 0 0xf4000000
    ∷ set_buffer 1 (0xf4000000 + bufsize)
    ∷ enable 0
    ∷ flip 0
    ∷ enable 1
    ∷ flip 1
    ∷ []

-- `screen_init`
unfoldable pub screen_init : ℕ → Console → Console
screen_init bufsize c =
    if c.initialized
    then c
    else record c { initialized = true; calls = c.calls ++ start_calls bufsize }

-- `console_draw`
unfoldable pub console_draw : ℕ → Console → Out Console
unfolding screen_init screen_draw
console_draw bufsize c =
    let c' = screen_init bufsize c in
    screen_draw c'.heap 0 c'.tv_console >>= λ tv. screen_draw c'.heap 1 c'.pad_console >>= λ pad.
    done (record c' { calls = c'.calls ++ (tv ++ pad) })

-- The string in a row: `formatted[79] = '\0'` where it is longer.
unfoldable pub clip : Bytes → Bytes
clip formatted = if ltb 79 (length formatted) then take 79 formatted else formatted

-- What memory gives `console_printf`: the string that `vasprintf` makes, if it succeeds, and
-- whether `strdup` does.
pub record Printed : Type 0 where
  pub formatted : Option Bytes
  pub strdup_ok : Bool

-- The rows once both arrays are shifted, with the new string at the end of each.
unfoldable pub put_line : Bytes → Bool → Console → Out Console
unfolding shift_rows clip
put_line formatted strdup_ok c =
    let p = c.next_address in
    shift_rows (write c.heap p (some formatted)) c.tv_console >>= λ (heap, tv).
    shift_rows heap c.pad_console >>= λ (heap', pad).
    let line = clip formatted in
    let clipped = write heap' p (some line) in
    done (record c {
      heap = if strdup_ok then write clipped (p + 1) (some line) else clipped;
      next_address = p + 2;
      tv_console = set tv (max_console_lines_tv - 1) (if strdup_ok then some (p + 1) else none);
      pad_console = set pad (max_console_lines_pad - 1) (some p);
    })

-- `console_printf`
unfoldable pub console_printf : ℕ → Printed → Console → Out Console
unfolding put_line console_draw
console_printf bufsize printed c = elim printed.formatted [
  | none ↦ console_draw bufsize c
  | some formatted ↦ put_line formatted printed.strdup_ok c >>= console_draw bufsize
]

-- `console_init`
unfoldable pub console_init : Console → Console
console_init c = record c {
  tv_console = replicate max_console_lines_tv none;
  pad_console = replicate max_console_lines_pad none;
}

-- `if(rows[i]) free(rows[i]);` over an array
unfoldable pub free_rows : Heap → List (Option ℕ) → Out Heap
unfolding free_row
free_rows heap [] = done heap
free_rows heap (row ∷ rows) = free_row heap row >>= λ heap'. free_rows heap' rows

-- `console_deinit`. The pointers stay in the arrays.
unfoldable pub console_deinit : Console → Out Console
unfolding free_rows
console_deinit c = free_rows c.heap c.tv_console >>= λ heap.
    free_rows heap c.pad_console >>= λ heap'. done (record c { heap = heap' })
