-- ===== src/Console/Frames.antt =====
-- What a screen shows after some calls: the text put on it between its last clearing and flip.
use ftpserv_u.Prelude.{
  ℕ, suc, ◌≡◌, refl, ap, sym, ◌∙◌, false, Option, none, some, List, [], ◌∷◌, ◌++◌, append_assoc,
  append-nil, ◌==◌, if◌then◌else◌, ==_self,
}
use ftpserv_u.Memory.{Bytes}
use ftpserv_u.Console.{ScreenCall, put_font, clear, flip}

-- The calls that put rows of text on a screen, and that draw the screen anew.
abbrev pub put_rows : ℕ → ℕ → List (Option Bytes) → List ScreenCall
put_rows screen i [] = []
put_rows screen i (none ∷ rows) = put_rows screen (suc i) rows
put_rows screen i (some text ∷ rows) = put_font screen i text ∷ put_rows screen (suc i) rows

abbrev pub picture : ℕ → List (Option Bytes) → List ScreenCall
picture screen rows = clear screen ∷ (put_rows screen 0 rows ++ (flip screen ∷ []))

-- The two buffers of a screen: the rows with their text.
pub record Frame : Type 0 where
  pub back : List (ℕ × Bytes)
  pub front : List (ℕ × Bytes)

abbrev pub blank : Frame
blank = record { back = []; front = [] }

-- What a call does to a screen.
abbrev pub on_call : ℕ → ScreenCall → Frame → Frame
on_call screen (clear other) f = if screen == other then record f { back = [] } else f
on_call screen (put_font other row text) f =
    if screen == other then record f { back = f.back ++ ((row, text) ∷ []) } else f
on_call screen (flip other) f = if screen == other then record f { front = f.back } else f
on_call screen _ f = f

unfoldable pub frame : ℕ → List ScreenCall → Frame → Frame
frame screen [] f = f
frame screen (call ∷ calls) f = frame screen calls (on_call screen call f)

-- What is seen on a screen after the calls.
abbrev pub shown : ℕ → List ScreenCall → List (ℕ × Bytes)
shown screen calls = (frame screen calls blank).front

-- Rows of text with their numbers, from row `i` on.
abbrev pub numbered : ℕ → List (Option Bytes) → List (ℕ × Bytes)
numbered i [] = []
numbered i (none ∷ rows) = numbered (suc i) rows
numbered i (some text ∷ rows) = (i, text) ∷ numbered (suc i) rows

pub frame-append :
    (screen : ℕ) (xs ys : List ScreenCall) (f : Frame)
    → frame screen (xs ++ ys) f ≡ frame screen ys (frame screen xs f)
unfolding frame
frame-append screen [] ys f = refl
frame-append screen (x ∷ xs) ys f = frame-append screen xs ys (on_call screen x f)

clear_own : (screen : ℕ) (f : Frame) → on_call screen (clear screen) f ≡ record f { back = [] }
clear_own screen f = rw (==_self screen) refl

put_own :
    (screen row : ℕ) (text : Bytes) (f : Frame)
    → on_call screen (put_font screen row text) f ≡ record f { back = f.back ++ ((row, text) ∷ []) }
put_own screen row text f = rw (==_self screen) refl

flip_own : (screen : ℕ) (f : Frame) → on_call screen (flip screen) f ≡ record f { front = f.back }
flip_own screen f = rw (==_self screen) refl

frame-put_rows :
    (screen i : ℕ) (rows : List (Option Bytes)) (f : Frame)
    → frame screen (put_rows screen i rows) f ≡ record f { back = f.back ++ numbered i rows }
unfolding frame
frame-put_rows screen i [] f =
    ap (λ (back : List (ℕ × Bytes)). record f { back = back }) (sym (append-nil f.back))
frame-put_rows screen i (none ∷ rows) f = frame-put_rows screen (suc i) rows f
frame-put_rows screen i (some text ∷ rows) f =
    ap (frame screen (put_rows screen (suc i) rows)) (put_own screen i text f)
    ∙ frame-put_rows screen (suc i) rows (record f { back = f.back ++ ((i, text) ∷ []) })
    ∙ ap (λ (back : List (ℕ × Bytes)). record f { back = back })
        (append_assoc f.back ((i, text) ∷ []) (numbered (suc i) rows))

put_rows-elsewhere :
    (screen other i : ℕ) (rows : List (Option Bytes)) (f : Frame)
    → (screen == other) ≡ false
    → frame screen (put_rows other i rows) f ≡ f
unfolding frame
put_rows-elsewhere screen other i [] f h = refl
put_rows-elsewhere screen other i (none ∷ rows) f h =
    put_rows-elsewhere screen other (suc i) rows f h
put_rows-elsewhere screen other i (some text ∷ rows) f h =
    let same : on_call screen (put_font other i text) f ≡ f = rw h refl in
    ap (frame screen (put_rows other (suc i) rows)) same
    ∙ put_rows-elsewhere screen other (suc i) rows f h

-- Once a picture is drawn it is seen, and another screen is as it was.
pub frame-picture :
    (screen : ℕ) (rows : List (Option Bytes)) (f : Frame)
    → frame screen (picture screen rows) f
      ≡ record { back = numbered 0 rows; front = numbered 0 rows }
unfolding frame
frame-picture screen rows f =
    let rest = flip screen ∷ [] in
    let cleared : Frame = record f { back = [] } in
    let put : Frame = record f { back = numbered 0 rows } in
    ap (frame screen (put_rows screen 0 rows ++ rest)) (clear_own screen f)
    ∙ frame-append screen (put_rows screen 0 rows) rest cleared
    ∙ ap (frame screen rest) (frame-put_rows screen 0 rows cleared)
    ∙ flip_own screen put

pub picture-elsewhere :
    (screen other : ℕ) (rows : List (Option Bytes)) (f : Frame)
    → (screen == other) ≡ false
    → frame screen (picture other rows) f ≡ f
unfolding frame
picture-elsewhere screen other rows f h =
    let rest = flip other ∷ [] in
    let cleared : on_call screen (clear other) f ≡ f = rw h refl in
    let flipped : on_call screen (flip other) f ≡ f = rw h refl in
    ap (frame screen (put_rows other 0 rows ++ rest)) cleared
    ∙ frame-append screen (put_rows other 0 rows) rest f
    ∙ ap (frame screen rest) (put_rows-elsewhere screen other 0 rows f h)
    ∙ flipped

-- Both screens once both pictures are drawn, the television's first.
pub shown-pictures :
    (calls : List ScreenCall) (tv pad : List (Option Bytes))
    → (shown 0 (calls ++ (picture 0 tv ++ picture 1 pad)) ≡ numbered 0 tv)
      × (shown 1 (calls ++ (picture 0 tv ++ picture 1 pad)) ≡ numbered 0 pad)
shown-pictures calls tv pad =
    let both = picture 0 tv ++ picture 1 pad in
    (
      ap Frame.front (
          frame-append 0 calls both blank
          ∙ frame-append 0 (picture 0 tv) (picture 1 pad) (frame 0 calls blank)
          ∙ picture-elsewhere 0 1 pad (frame 0 (picture 0 tv) (frame 0 calls blank)) refl
          ∙ frame-picture 0 tv (frame 0 calls blank)),
      ap Frame.front (
          frame-append 1 calls both blank
          ∙ frame-append 1 (picture 0 tv) (picture 1 pad) (frame 1 calls blank)
          ∙ frame-picture 1 pad (frame 1 (picture 0 tv) (frame 1 calls blank))),
    )
