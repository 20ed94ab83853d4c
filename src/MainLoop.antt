-- ===== src/MainLoop.antt =====
-- src/ftpservu.c: the loop of the program, from the server socket to its end.
pub mod Running
pub mod Stopping
use ftpserv_u.Prelude.{
  ℕ, ℤ, pos, zero, is_neg, Bool, true, false, not, ◌||◌, ◌&&◌, List, [], ◌∷◌, ◌++◌, Out, done,
  ◌>>=◌, ◌==◌, if◌then◌else◌,
}
use ftpserv_u.Network.{Listening, create_serversocket}
use ftpserv_u.Input.{PadRead, input_handler, vpad_cmd_exit, vpad_cmd_remount}
use ftpserv_u.Logging.{Log, NetInfo, logging_init, logging_deinit}
use ftpserv_u.Mounts.{Mounts, remount_filesystems}
use ftpserv_u.Server.{Server, Round, network_handler}
use ftpserv_u.Server.Ledger.{arrivals}
use ftpserv_u.Server.Ending.{ftp_deinit}

-- What one turn of the loop meets: the round of the network, the buttons, and what
-- `IOSUHAX_FSA_Open` returns if the file systems are mounted again.
pub record Turn : Type 0 where
  pub round : Round
  pub pad : PadRead
  pub fsa_open : ℤ

-- The static state of the program. `accepted` logs the sockets of the control connections that
-- `accept` has returned to `ftp_network_handler`.
pub record World : Type 0 where
  pub server : Server
  pub buttons : ℕ
  pub mounts : Mounts
  pub accepted : List ℤ

-- An `int` as a `bool`.
abbrev pub to_bool : ℤ → Bool
to_bool (pos n) = not (n == 0)
to_bool _ = true

-- The `switch` on the command: whether the loop is to end, and the file systems.
unfoldable pub obey : ℕ → ℕ → ℤ → Bool → Mounts → Bool × Mounts
obey iosuhax_mount cmd fsa_open network_down m =
    if cmd == vpad_cmd_exit
    then (true, m)
    else if cmd == vpad_cmd_remount
    then (network_down, remount_filesystems iosuhax_mount fsa_open m)
    else (network_down, m)

-- The body of the loop: `network_down`, and the state afterwards.
unfoldable pub turn : ℕ → Turn → World → Out (Bool × World)
unfolding obey
turn iosuhax_mount t w = network_handler t.round w.server >>= λ (result, server).
    let (cmd, buttons) = input_handler t.pad w.buttons in
    let (network_down, mounts) = obey iosuhax_mount cmd t.fsa_open (to_bool result) w.mounts in
    done (
      network_down,
      record {
        server = server;
        buttons = buttons;
        mounts = mounts;
        accepted = arrivals t.round ++ w.accepted;
      },
    )

-- `while(!network_down)`, over the turns to come, behind a socket that is open: whether the loop
-- has ended, or waits for the next turn.
unfoldable pub loop : ℕ → List Turn → Bool → World → Out (Bool × World)
unfolding turn
loop iosuhax_mount turns true w = done (true, w)
loop iosuhax_mount [] false w = done (false, w)
loop iosuhax_mount (t ∷ turns) false w =
    turn iosuhax_mount t w >>= λ (network_down, w'). loop iosuhax_mount turns network_down w'

-- `ftpserver_main_loop`. Nothing closes the server socket.
unfoldable pub ftpserver_main_loop : ℕ → Listening → List Turn → World → Out (Bool × World)
unfolding loop
ftpserver_main_loop iosuhax_mount listening turns w =
    if is_neg (create_serversocket listening).0
    then done (true, w)
    else loop iosuhax_mount turns false w

-- `main`, as far as it has come: the console aside, the log is started, the loop runs, and once it
-- has ended the clients and the log are shut down.
unfoldable pub main : ℕ → NetInfo → Listening → List Turn → World → Log → Out (Bool × World × Log)
main iosuhax_mount net listening turns w log =
    let started = logging_init net log in
    ftpserver_main_loop iosuhax_mount listening turns w >>= λ (ended, w'). done (
      if ended
      then (true, record w' { server = ftp_deinit w'.server }, logging_deinit started)
      else (false, w', started))
