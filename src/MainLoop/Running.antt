-- ===== src/MainLoop/Running.antt =====
-- What holds of the program from turn to turn, and what is left at its end.
use mathlib.Core.List.Perm
use mathlib.Core.List.{Perm}
use ftpserv_u.Prelude.{
  ◌≡◌, ℤ, is_neg, Bool, true, false, List, [], ◌∷◌, ◌++◌, done, ◌==◌, if◌then◌else◌, Bool-cases,
  inl, inr, All, ℕ, Ensures, Ensures-bind, Ensures-at, Ensures-if,
}
use ftpserv_u.Network.{Listening, create_serversocket}
use ftpserv_u.Input.{input_handler, vpad_cmd_exit, vpad_cmd_remount}
use ftpserv_u.Logging.{Log, NetInfo, logging_init, logging_deinit}
use ftpserv_u.Logging.Sockets.{logging_deinit-init}
use ftpserv_u.Mounts.{Mounts}
use ftpserv_u.Mounts.Sound.{IsSound, remount-IsSound}
use ftpserv_u.Server.{Server, network_handler}
use ftpserv_u.Server.Served.{Bounds}
use ftpserv_u.Server.Ledger.{Accounts, arrivals, ledger, sockets, network_handler_lem}
use ftpserv_u.Server.Ending.{ftp_deinit, ftp_deinit_lem}
use ftpserv_u.MainLoop.{Turn, World, obey, to_bool, turn, loop, ftpserver_main_loop, main}

-- All clients are served; each socket that was accepted is in a slot, or has been closed, as
-- often as it was accepted; and the file systems are mounted as the state says.
pub record IsRunning (iosuhax_mount : ℕ) (w : World) : Type 0 where
  pub accounts : Accounts w.accepted w.server
  pub sound : IsSound iosuhax_mount w.mounts

-- The sockets of a turn give no more than they are asked for.
abbrev pub IsBounded : Turn → Type 0
IsBounded t = Bounds t.round.recv

module _ (iosuhax_mount : ℕ) where
  abbrev Runs : Bool × World → Type 0
  Runs r = IsRunning iosuhax_mount r.1

  obey-IsSound :
      (cmd : ℕ) (fsa_open : ℤ) (down : Bool) (m : Mounts)
      → IsSound iosuhax_mount m
      → IsSound iosuhax_mount (obey iosuhax_mount cmd fsa_open down m).1
  unfolding obey
  obey-IsSound cmd fsa_open down m h = elim (Bool-cases (cmd == vpad_cmd_exit)) [
    | inl e ↦ rw e h
    | inr e ↦ elim (Bool-cases (cmd == vpad_cmd_remount)) [
      | inl f ↦ rw (e, f) (remount-IsSound iosuhax_mount fsa_open m h)
      | inr f ↦ rw (e, f) h
    ]
  ]

  turn_lem :
      (t : Turn) (w : World)
      → IsBounded t
      → IsRunning iosuhax_mount w
      → Ensures Runs (turn iosuhax_mount t w)
  unfolding turn
  turn_lem t w b i =
      let Accounted = λ (r : ℤ × Server). Accounts (arrivals t.round ++ ledger w.server) r.1 in
      Ensures-bind Accounted Runs (network_handler t.round w.server) _
        (network_handler_lem t.round w.server b i.accounts.0)
        (λ (result, server) a. record {
          accounts = (a.0, Perm.trans a.1 (Perm.append_left (arrivals t.round) i.accounts.1));
          sound =
              obey-IsSound (input_handler t.pad w.buttons).0 t.fsa_open (to_bool result) w.mounts
                i.sound;
        })

  pub loop_lem :
      (turns : List Turn) (down : Bool) (w : World)
      → All IsBounded turns
      → IsRunning iosuhax_mount w
      → Ensures Runs (loop iosuhax_mount turns down w)
  unfolding loop
  loop_lem [] true w b i = i
  loop_lem [] false w b i = i
  loop_lem (t ∷ turns) true w b i = i
  loop_lem (t ∷ turns) false w b i =
      Ensures-bind Runs Runs (turn iosuhax_mount t w) _ (turn_lem t w b.0 i)
        (λ (down, w') i'. loop_lem turns down w' b.1 i')

-- What the program leaves: while it runs, a sound state; at its end no client in a slot, each
-- socket that was accepted closed as often as it was accepted, and the log without a socket.
abbrev pub Leaves : ℕ → Bool × World × Log → Type 0
Leaves iosuhax_mount (false, w, log) = IsRunning iosuhax_mount w
Leaves iosuhax_mount (true, w, log) =
    (sockets w.server.clients ≡ [])
    × Perm w.server.closed w.accepted
    × IsSound iosuhax_mount w.mounts
    × (is_neg log.udp_fd ≡ true)

ended_lem :
    (iosuhax_mount : ℕ) (log : Log) (ended : Bool) (w : World)
    → is_neg (logging_deinit log).udp_fd ≡ true
    → IsRunning iosuhax_mount w
    → Leaves iosuhax_mount (
        if ended
        then (true, record w { server = ftp_deinit w.server }, logging_deinit log)
        else (false, w, log))
ended_lem iosuhax_mount log false w e i = i
ended_lem iosuhax_mount log true w e i =
    let (none_left, closed) = ftp_deinit_lem w.server i.accounts in (none_left, closed, i.sound, e)

-- Whatever comes in over however many turns, and however the program was started: if no turn
-- faults, and sockets give no more than they are asked for, then while the program runs its state
-- is sound, and when it has ended no client is left in a slot, every socket that was accepted has
-- been closed, as often as it was accepted, the file systems are mounted as the state says, and
-- the log has no socket.
pub main_lem :
    (iosuhax_mount : ℕ) (net : NetInfo) (listening : Listening) (turns : List Turn) (w : World)
    (log : Log) {ended : Bool} {w' : World} {log' : Log}
    → All IsBounded turns
    → IsRunning iosuhax_mount w
    → main iosuhax_mount net listening turns w log ≡ done (ended, w', log')
    → Leaves iosuhax_mount (ended, w', log')
unfolding main ftpserver_main_loop
main_lem iosuhax_mount net listening turns w log b i h =
    let Runs' = λ (r : Bool × World). IsRunning iosuhax_mount r.1 in
    let started = logging_init net log in
    Ensures-at (Leaves iosuhax_mount)
      (Ensures-bind Runs' (Leaves iosuhax_mount)
        (if is_neg (create_serversocket listening).0
          then done (true, w)
          else loop iosuhax_mount turns false w)
        _
        (Ensures-if Runs' (is_neg (create_serversocket listening).0) _ _ i
          (loop_lem iosuhax_mount turns false w b i))
        (λ (ended, w') i'.
          ended_lem iosuhax_mount started ended w' (logging_deinit-init net log).1 i'))
      h
