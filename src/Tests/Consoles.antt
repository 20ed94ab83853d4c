-- ===== src/Tests/Consoles.antt =====
-- The theorems on the console, with two lines printed of which one is for the GamePad alone.
use ftpserv_u.Prelude.{ℕ, ◌≡◌, refl, true, false, none, some, List, [], ◌∷◌, done}
use ftpserv_u.Text.{codes}
use ftpserv_u.Console.{Console, Heap, Printed, console_deinit}
use ftpserv_u.Console.Screens.{Shows, tv_line, pad_line, lines_of, print_all_lem}
use ftpserv_u.Console.Freeing.{console_deinit_lem}

abbrev nothing : Console
nothing = record {
  heap = λ a. none;
  next_address = 0;
  tv_console = [];
  pad_console = [];
  initialized = false;
  calls = [];
}

abbrev starting : Printed
starting = record { formatted = some (codes "Starting"); strdup_ok = true }

abbrev listening : List Printed
listening = record { formatted = some (codes "Listening"); strdup_ok = false } ∷ []

abbrev two_printed : List Printed
two_printed = starting ∷ listening

abbrev printed : Console
printed = (print_all_lem 0x500000 starting listening nothing (λ a. refl)).0

printed-Shows : Shows (lines_of tv_line two_printed) (lines_of pad_line two_printed) printed
printed-Shows = (print_all_lem 0x500000 starting listening nothing (λ a. refl)).2

console_deinit_lem_example :
    (heap : Heap) × (console_deinit printed ≡ done (record printed { heap = heap }))
    × ((a : ℕ) → heap a ≡ none)
console_deinit_lem_example = console_deinit_lem printed printed-Shows.owned
