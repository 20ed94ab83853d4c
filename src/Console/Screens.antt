-- ===== src/Console/Screens.antt =====
-- What the screens show: the calls that draw them, and the last of the lines printed.
use mathlib.Core.Path.{ap₂}
use ftpserv_u.Prelude.{
  ℕ, zero, suc, ◌+◌, ◌≤◌, ◌≡◌, refl, ap, sym, ◌∙◌, true, Option, none, some, List, [], ◌∷◌, ◌++◌,
  append_assoc, append-nil, Out, done, ◌>>=◌, arith, if◌then◌else◌, Bool-cases, Option-cases, inl,
  inr, length, length-append, drop, replicate, drop-drop, length-replicate,
}
use ftpserv_u.Memory.{Bytes}
use ftpserv_u.Console.{
  Console, Heap, ScreenCall, draw_rows, screen_draw, screen_init, start_calls, console_draw, clip,
  Printed, console_printf, console_init, max_console_lines_tv, max_console_lines_pad,
}
use ftpserv_u.Console.Frames.{put_rows, picture, shown, numbered, shown-pictures}
use ftpserv_u.Console.Owned.{refs, live, IsOwned, view}
use ftpserv_u.Console.Printing.{put_line_lem}

draw_rows_lem :
    (heap : Heap) (screen i : ℕ) (rows : List (Option ℕ))
    → ((a : ℕ) → refs a rows ≤ live (heap a))
    → draw_rows heap screen i rows ≡ done (put_rows screen i (view heap rows))
unfolding draw_rows
draw_rows_lem heap screen i [] h = refl
draw_rows_lem heap screen i (none ∷ rows) h = draw_rows_lem heap screen (suc i) rows h
draw_rows_lem heap screen i (some p ∷ rows) h = elim (Option-cases (heap p)) [
  | inl e ↦
      let owned : 1 ≤ live (heap p) = ground (arith, h p) in
      absurd (omega (arith, owned, ap live e))
  | inr (text, e) ↦
      let later = draw_rows_lem heap screen (suc i) rows (λ a. ground (arith, h a)) in
      ground (arith, later)
]

screen_draw_lem :
    (heap : Heap) (screen : ℕ) (rows : List (Option ℕ))
    → ((a : ℕ) → refs a rows ≤ live (heap a))
    → screen_draw heap screen rows ≡ done (picture screen (view heap rows))
unfolding screen_draw
screen_draw_lem heap screen rows h = rw (draw_rows_lem heap screen 0 rows h) refl

-- A console once it is drawn: the screens are started if they were not, and show the rows.
abbrev pub drawn : ℕ → Console → Console
drawn bufsize c = record c {
  initialized = true;
  calls =
      c.calls
      ++ ((if c.initialized then [] else start_calls bufsize)
          ++ (picture 0 (view c.heap c.tv_console) ++ picture 1 (view c.heap c.pad_console)));
}

pub console_draw_lem :
    (bufsize : ℕ) (c : Console) → IsOwned c → console_draw bufsize c ≡ done (drawn bufsize c)
unfolding console_draw screen_init
console_draw_lem bufsize c o = elim (Bool-cases c.initialized) [
  | inl e ↦
      rw
        (
          e,
          screen_draw_lem c.heap 0 c.tv_console tv_live,
          screen_draw_lem c.heap 1 c.pad_console pad_live,
        )
        refl
  | inr e ↦
      rw
        (
          e,
          screen_draw_lem c.heap 0 c.tv_console tv_live,
          screen_draw_lem c.heap 1 c.pad_console pad_live,
        )
        (ap (λ (calls : List ScreenCall). done (record c { initialized = true; calls = calls }))
          (append_assoc c.calls (start_calls bufsize) _))
]
  where
    tv_live : (a : ℕ) → refs a c.tv_console ≤ live (c.heap a)
    tv_live a = omega (arith, o.owners a)

    pad_live : (a : ℕ) → refs a c.pad_console ≤ live (c.heap a)
    pad_live a = omega (arith, o.owners a)

-- The rows at the end of a history of rows, where a row that was never written shows nothing.
unfoldable pub last_rows : ℕ → List (Option Bytes) → List (Option Bytes)
last_rows n rows = drop (length rows) (replicate n none ++ rows)

drop_front-append {ℓ} :
    {A : Type ℓ} (n : ℕ) (xs ys : List A) → n ≤ length xs → drop n (xs ++ ys) ≡ drop n xs ++ ys
drop_front-append zero xs ys h = refl
drop_front-append (suc n) [] ys h = absurd (omega arith)
drop_front-append (suc n) (x ∷ xs) ys h = drop_front-append n xs ys (omega arith)

last_rows-append :
    (n : ℕ) (rows : List (Option Bytes)) (row : Option Bytes)
    → drop 1 (last_rows (suc n) rows) ++ (row ∷ []) ≡ last_rows (suc n) (rows ++ (row ∷ []))
unfolding last_rows
last_rows-append n rows row =
    let all = replicate (suc n) none ++ rows in
    let fits : length rows + 1 ≤ length all = omega (
      arith,
      length-append (replicate (suc n) none) rows,
      length-replicate {A = Option Bytes} (suc n) none,
    ) in
    ap (λ xs. xs ++ (row ∷ [])) (drop-drop (length rows) 1 all)
    ∙ sym (drop_front-append (length rows + 1) all (row ∷ []) fits)
    ∙ ap₂ drop (sym (length-append rows (row ∷ [])))
        (append_assoc (replicate (suc n) none) rows (row ∷ []))

-- What a call of `console_printf` leaves in the last row of the television, and of the GamePad;
-- nothing where `vasprintf` fails.
abbrev pub tv_line : Printed → List (Option Bytes)
tv_line printed = elim printed.formatted [
  | none ↦ []
  | some formatted ↦ (if printed.strdup_ok then some (clip formatted) else none) ∷ []
]

abbrev pub pad_line : Printed → List (Option Bytes)
pad_line printed = elim printed.formatted [
  | none ↦ []
  | some formatted ↦ some (clip formatted) ∷ []
]

-- A console that shows the last of these lines.
pub record Shows (tv pad : List (Option Bytes)) (c : Console) : Type 0 where
  pub owned : IsOwned c
  pub tv_view : view c.heap c.tv_console ≡ last_rows max_console_lines_tv tv
  pub pad_view : view c.heap c.pad_console ≡ last_rows max_console_lines_pad pad

drawn-Shows :
    (bufsize : ℕ) {tv pad : List (Option Bytes)} (c : Console)
    → Shows tv pad c
    → Shows tv pad (drawn bufsize c)
drawn-Shows bufsize c s = record {
  owned = record {
    tv_size = s.owned.tv_size;
    pad_size = s.owned.pad_size;
    owners = s.owned.owners;
    fresh = s.owned.fresh;
  };
  tv_view = s.tv_view;
  pad_view = s.pad_view;
}

-- A call of `console_printf` on a console that shows some lines does not fault, and leaves one
-- that shows them and the new one, and whose screens have been drawn with the rows it shows.
pub console_printf_lem :
    (bufsize : ℕ) (printed : Printed) {tv pad : List (Option Bytes)} (c : Console)
    → Shows tv pad c
    → (c' : Console) × (console_printf bufsize printed c ≡ done c')
      × Shows (tv ++ tv_line printed) (pad ++ pad_line printed) c'
      × (c'.calls
          ≡ c.calls
            ++ ((if c.initialized then [] else start_calls bufsize)
                ++ (picture 0 (last_rows max_console_lines_tv (tv ++ tv_line printed))
                    ++ picture 1 (last_rows max_console_lines_pad (pad ++ pad_line printed)))))
unfolding console_printf
console_printf_lem bufsize printed {tv} {pad} c s = elim (Option-cases printed.formatted) [
  | inl e ↦
      rw (e, append-nil tv, append-nil pad)
        (
          drawn bufsize c,
          console_draw_lem bufsize c s.owned,
          drawn-Shows bufsize c s,
          rw (s.tv_view, s.pad_view) refl,
        )
  | inr (formatted, e) ↦
      let (c', put, o, tv_view, pad_view, same, calls) =
        put_line_lem formatted printed.strdup_ok c s.owned in
      let shows : Shows (tv ++ tv_line printed) (pad ++ pad_line printed) c' = record {
        owned = o;
        tv_view = tv_view ∙ rw (s.tv_view, e) (last_rows-append 26 tv _);
        pad_view = pad_view ∙ rw (s.pad_view, e) (last_rows-append 17 pad _);
      } in
      (
        drawn bufsize c',
        rw (e, put) (console_draw_lem bufsize c' o),
        drawn-Shows bufsize c' shows,
        rw (shows.tv_view, shows.pad_view, same, calls) refl,
      )
]

-- `console_printf` call after call.
unfoldable pub print_all : ℕ → List Printed → Console → Out Console
print_all bufsize [] c = done c
print_all bufsize (printed ∷ more) c = console_printf bufsize printed c >>= print_all bufsize more

abbrev pub lines_of : (Printed → List (Option Bytes)) → List Printed → List (Option Bytes)
lines_of f [] = []
lines_of f (printed ∷ more) = f printed ++ lines_of f more

-- The screens show the last of these lines.
abbrev pub Displays : List (Option Bytes) → List (Option Bytes) → Console → Type 0
Displays tv pad c =
    (shown 0 c.calls ≡ numbered 0 (last_rows max_console_lines_tv tv))
    × (shown 1 c.calls ≡ numbered 0 (last_rows max_console_lines_pad pad))

print_all-Shows :
    (bufsize : ℕ) (printed : List Printed) {tv pad : List (Option Bytes)} (c : Console)
    → Shows tv pad c
    → (printed ≡ [] → Displays tv pad c)
    → (c' : Console) × (print_all bufsize printed c ≡ done c')
      × Shows (tv ++ lines_of tv_line printed) (pad ++ lines_of pad_line printed) c'
      × Displays (tv ++ lines_of tv_line printed) (pad ++ lines_of pad_line printed) c'
unfolding print_all
print_all-Shows bufsize [] {tv} {pad} c s d =
    (c, refl, rw (append-nil tv, append-nil pad) s, rw (append-nil tv, append-nil pad) (d refl))
print_all-Shows bufsize (printed ∷ more) {tv} {pad} c s d =
    let (next, e, shows, calls) = console_printf_lem bufsize printed c s in
    let start = if c.initialized then [] else start_calls bufsize in
    let tv_rows = last_rows max_console_lines_tv (tv ++ tv_line printed) in
    let pad_rows = last_rows max_console_lines_pad (pad ++ pad_line printed) in
    let all : next.calls ≡ (c.calls ++ start) ++ (picture 0 tv_rows ++ picture 1 pad_rows) =
      calls ∙ sym (append_assoc c.calls start (picture 0 tv_rows ++ picture 1 pad_rows)) in
    let (first, second) = shown-pictures (c.calls ++ start) tv_rows pad_rows in
    let displays : Displays (tv ++ tv_line printed) (pad ++ pad_line printed) next =
      (ap (shown 0) all ∙ first, ap (shown 1) all ∙ second) in
    let (c', f, shows', displays') =
      print_all-Shows bufsize more next shows (λ none_left. displays) in
    let tv_lines = append_assoc tv (tv_line printed) (lines_of tv_line more) in
    let pad_lines = append_assoc pad (pad_line printed) (lines_of pad_line more) in
    (c', rw e f, rw (tv_lines, pad_lines) at shows', rw (tv_lines, pad_lines) at displays')

pub print_all_lem :
    (bufsize : ℕ) (first : Printed) (more : List Printed) (c : Console)
    → ((a : ℕ) → c.heap a ≡ none)
    → (c' : Console) × (print_all bufsize (first ∷ more) (console_init c) ≡ done c')
      × Shows (lines_of tv_line (first ∷ more)) (lines_of pad_line (first ∷ more)) c'
      × Displays (lines_of tv_line (first ∷ more)) (lines_of pad_line (first ∷ more)) c'
unfolding console_init last_rows
print_all_lem bufsize first more c empty =
    print_all-Shows bufsize (first ∷ more) {tv = []} {pad = []} (console_init c)
      (record {
        owned = record {
          tv_size = refl;
          pad_size = refl;
          owners = λ a. ap live (sym (empty a));
          fresh = λ a h. empty a;
        };
        tv_view = refl;
        pad_view = refl;
      })
      (λ nothing. absurd (ground arith))
