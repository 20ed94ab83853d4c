-- ===== src/Input/Presses.antt =====
-- When a press of a button gives a command.
use ftpserv_u.Prelude.{
  ℕ, ◌+◌, ◌≡◌, ◌↔◌, refl, true, false, List, [], ◌∷◌, arith, ◌==◌, if◌then◌else◌, Bool-cases, inl,
  inr, All,
}
use ftpserv_u.Input.{
  PadRead, get_command, input_handler, is_held, vpad_button_home, vpad_button_y, vpad_cmd_exit,
  vpad_cmd_remount,
}

-- HOME goes from up to down exactly when the command is to exit; Y does, and HOME does not,
-- exactly when it is to mount the file systems again; and the buttons are remembered always.
pub get_command_lem :
    (buttons held : ℕ)
    → let (command, after) = get_command buttons held in
      ((command ≡ vpad_cmd_exit)
        ↔ ((is_held buttons vpad_button_home ≡ false) × (is_held held vpad_button_home ≡ true)))
      × ((command ≡ vpad_cmd_remount) ↔ (
          (is_held buttons vpad_button_y ≡ false)
          × (is_held held vpad_button_y ≡ true)
          × ¬ (
              (is_held buttons vpad_button_home ≡ false) × (is_held held vpad_button_home ≡ true))))
      × (after ≡ held)
unfolding get_command
get_command_lem buttons held = ground arith

-- `input_handler` read after read: how many commands to exit it gives.
unfoldable pub exits : List PadRead → ℕ → ℕ
exits [] buttons = 0
exits (read ∷ reads) buttons =
    let (command, after) = input_handler read buttons in
    (if command == vpad_cmd_exit then 1 else 0) + exits reads after

-- A read that fails, or that finds HOME held.
abbrev pub StillHeld : PadRead → Type 0
StillHeld read = read.error ≡ 0 → is_held read.hold vpad_button_home ≡ true

-- As long as HOME is held, with reads that fail in between or not, no command to exit is given.
exits-held :
    (reads : List PadRead) (buttons : ℕ)
    → is_held buttons vpad_button_home ≡ true
    → All StillHeld reads
    → exits reads buttons ≡ 0
unfolding exits input_handler get_command
exits-held [] buttons down held = refl
exits-held (read ∷ reads) buttons down held = elim (Bool-cases (read.error == 0)) [
  | inr failed ↦ ground (arith, exits-held reads buttons down held.1)
  | inl good ↦
      let still = held.0 (ground arith) in ground (arith, exits-held reads read.hold still held.1)
]

-- However long HOME is held down, and whatever reads fail while it is, a press of it gives one
-- command to exit.
pub exits-press :
    (first : PadRead) (reads : List PadRead) (buttons : ℕ)
    → is_held buttons vpad_button_home ≡ false
    → first.error ≡ 0
    → is_held first.hold vpad_button_home ≡ true
    → All StillHeld reads
    → exits (first ∷ reads) buttons ≡ 1
unfolding exits input_handler get_command
exits-press first reads buttons up good down held =
    ground (arith, exits-held reads first.hold down held)
