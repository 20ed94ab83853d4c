-- ===== src/Input.antt =====
-- src/input.c: the buttons of the GamePad that were held, and the command that a press gives.
pub mod Presses
use Prim.Native.Nat.{bit_and}
use ftpserv_u.Prelude.{ℕ, Bool, not, ◌&&◌, ◌==◌, if◌then◌else◌}

abbrev pub vpad_button_home : ℕ
vpad_button_home = 2

abbrev pub vpad_button_y : ℕ
vpad_button_y = 0x1000

abbrev pub vpad_cmd_exit : ℕ
vpad_cmd_exit = 1

abbrev pub vpad_cmd_remount : ℕ
vpad_cmd_remount = 2

abbrev pub is_held : ℕ → ℕ → Bool
is_held buttons button = not (bit_and buttons button == 0)

-- `get_command`, on the static `buttons`: the command, and the buttons afterwards.
unfoldable pub get_command : ℕ → ℕ → ℕ × ℕ
get_command buttons held =
    let command : ℕ =
      if is_held held vpad_button_home && not (is_held buttons vpad_button_home)
      then vpad_cmd_exit
      else if is_held held vpad_button_y && not (is_held buttons vpad_button_y)
      then vpad_cmd_remount
      else 0 in
    (command, held)

-- What `VPADRead` stores: its error, and the buttons that are held.
pub record PadRead : Type 0 where
  pub error : ℕ
  pub hold : ℕ

-- `input_handler`
unfoldable pub input_handler : PadRead → ℕ → ℕ × ℕ
unfolding get_command
input_handler read buttons = if read.error == 0 then get_command buttons read.hold else (0, buttons)
