-- ===== src/Startup/Released.antt =====
-- What the program holds of IOSUHAX from its start to its end, replayed from the calls.
use mathlib.Core.List.Perm
use mathlib.Core.List.{Perm}
use ftpserv_u.Prelude.{
  ℕ, ◌≡◌, refl, ℤ, pos, negsuc, is_neg, Bool, true, false, not, Option, none, some, List, [], ◌∷◌,
  done, if◌then◌else◌, All, Ensures-bind, Ensures-at, Ensures-of, ap, ◌∙◌, arith, ==_self,
}
use ftpserv_u.Network.{Listening}
use ftpserv_u.Logging.{Log, NetInfo}
use ftpserv_u.Mounts.{Mounts, is_set, mount_filesystems, unmount_filesystems, unmount_where}
use ftpserv_u.Mounts.Sound.{
  IsSound, replay, expected, nothing_mounted, same_fd, mount-IsSound, unmount-IsSound,
}
use ftpserv_u.Server.Ledger.{sockets, Accounts}
use ftpserv_u.MainLoop.{World, Turn, main}
use ftpserv_u.MainLoop.Running.{IsRunning, IsBounded, Leaves, main_lem}
use ftpserv_u.Startup.{
  IosCall, ios_open, ios_ioctl_async, ios_close, iosuhax_open, iosuhax_close, Ios, Boot,
  mcp_hook_open, mcp_hook_close, try_init_iosuhax, try_shutdown_iosuhax, fsdev_init, fsdev_exit,
  as_int, no_ios, no_mounts, no_clients, no_log, start,
}

-- What the calls leave open: the hook on the MCP thread, and IOSUHAX.
pub record Held : Type 0 where
  pub hook : Option ℤ
  pub iosuhax : Bool

-- One call, replayed. A call is refused that opens what is open, or uses or closes what is not.
abbrev pub hold_call : IosCall → Held → Option Held
hold_call (ios_open fd) s = elim s.hook [
  | none ↦ some (if is_neg fd then s else record s { hook = some fd })
  | some _ ↦ none
]
hold_call (ios_ioctl_async fd) s = if same_fd fd s.hook then some s else none
hold_call (ios_close fd) s = if same_fd fd s.hook then some (record s { hook = none }) else none
hold_call (iosuhax_open result) s =
    if s.iosuhax then none else some (record s { iosuhax = not (is_neg result) })
hold_call iosuhax_close s = if s.iosuhax then some (record s { iosuhax = false }) else none

unfoldable pub hold : List IosCall → Held → Option Held
hold [] s = some s
hold (c ∷ cs) s = elim (hold_call c s) [ none ↦ none | some s' ↦ hold cs s' ]

abbrev pub nothing_held : Held
nothing_held = record { hook = none; iosuhax = false }

-- What should be open.
abbrev pub open_hook : ℤ → Option ℤ
open_hook fd = if is_neg fd then none else some fd

-- No call was refused, and what should be open is.
abbrev pub Holds : Ios → Type 0
Holds i =
    hold i.calls nothing_held
    ≡ some (record { hook = open_hook i.mcp_hook_fd; iosuhax = i.iosuhax_mount })

abbrev boot_of : ℤ → ℤ → ℤ → ℤ → ℕ → Boot
boot_of iosuhax mcp iosuhax_mcp fsa_open behind = record {
  iosuhax = iosuhax;
  mcp = mcp;
  iosuhax_mcp = iosuhax_mcp;
  fsa_open = fsa_open;
  behind = behind;
}

abbrev begun : Boot → Ios
begun boot = (fsdev_init boot no_ios no_mounts).0

-- The file systems play no part.
fsdev_init-Holds_of :
    (iosuhax mcp iosuhax_mcp fsa_open : ℤ) (behind : ℕ)
    → let i = begun (boot_of iosuhax mcp iosuhax_mcp fsa_open behind) in
      Holds i
      × (hold (try_shutdown_iosuhax i).calls nothing_held ≡ some nothing_held)
      × ((try_shutdown_iosuhax i).iosuhax_mount ≡ false)
unfolding fsdev_init try_init_iosuhax mcp_hook_open try_shutdown_iosuhax mcp_hook_close hold
fsdev_init-Holds_of (pos a) mcp iosuhax_mcp fsa_open behind = (refl, refl, refl)
fsdev_init-Holds_of (negsuc a) (negsuc b) iosuhax_mcp fsa_open behind = (refl, refl, refl)
fsdev_init-Holds_of (negsuc a) (pos b) (negsuc c) fsa_open behind =
    (ground (arith, ==_self b), ground (arith, ==_self b), refl)
fsdev_init-Holds_of (negsuc a) (pos b) (pos c) fsa_open behind =
    (ground (arith, ==_self b), ground (arith, ==_self b), refl)

fsdev_init-Holds :
    (boot : Boot)
    → Holds (begun boot)
      × (hold (try_shutdown_iosuhax (begun boot)).calls nothing_held ≡ some nothing_held)
      × ((try_shutdown_iosuhax (begun boot)).iosuhax_mount ≡ false)
fsdev_init-Holds boot =
    fsdev_init-Holds_of boot.iosuhax boot.mcp boot.iosuhax_mcp boot.fsa_open boot.behind

unmount-expected :
    (iosuhax_mount : ℕ) (m : Mounts)
    → expected (is_set iosuhax_mount) (unmount_filesystems iosuhax_mount m) ≡ nothing_mounted
unfolding expected unmount_filesystems unmount_where
unmount-expected iosuhax_mount m = ground arith

-- What the program leaves: a sound state before its end, and nothing held behind it.
abbrev pub Released : ℕ → Bool × Ios × World × Log → Type 0
Released behind (false, i, w, log) = IsRunning (as_int i.iosuhax_mount behind) w × Holds i
Released behind (true, i, w, log) =
    (sockets w.server.clients ≡ [])
    × Perm w.server.closed w.accepted
    × (replay w.mounts.calls nothing_mounted ≡ some nothing_mounted)
    × (hold i.calls nothing_held ≡ some nothing_held)
    × (i.iosuhax_mount ≡ false)
    × (is_neg log.udp_fd ≡ true)

abbrev leave : Boot → Ios → Bool × World × Log → Bool × Ios × World × Log
leave boot i (ended, w, log) =
    if ended
    then (
      true,
      (fsdev_exit boot i w.mounts).0,
      record w { mounts = (fsdev_exit boot i w.mounts).1 },
      log,
    )
    else (false, i, w, log)

leave-Released :
    (boot : Boot) (r : Bool × World × Log)
    → Leaves (as_int (begun boot).iosuhax_mount boot.behind) r
    → Released boot.behind (leave boot (begun boot) r)
unfolding fsdev_exit
leave-Released boot (false, w, log) h = (h, (fsdev_init-Holds boot).0)
leave-Released boot (true, w, log) (none_left, closed, sound, quiet) =
    let (_, shut, off) = fsdev_init-Holds boot in
    let there = as_int (begun boot).iosuhax_mount boot.behind in
    (
      none_left,
      closed,
      unmount-IsSound there w.mounts sound ∙ ap some (unmount-expected there w.mounts),
      shut,
      off,
      quiet,
    )

no_clients-Accounts : Accounts [] no_clients
no_clients-Accounts = (tt, Perm.refl [])

no_mounts-IsSound : (iosuhax_mount : ℕ) → IsSound iosuhax_mount no_mounts
unfolding expected replay
no_mounts-IsSound iosuhax_mount = refl

-- The whole program from its static state, whatever can be opened at its start, whatever the bytes
-- behind `iosuhaxMount` hold, and whatever comes in over however many turns, if no turn faults and
-- sockets give no more than they are asked for. When it has ended no client is in a slot, the
-- socket of every control connection that `ftp_network_handler` accepted has been closed, as often
-- as it was accepted, nothing is mounted any more, IOSUHAX and its hook on the MCP thread are
-- closed, each as often as it was opened, and the log has no socket. Until it has ended its clients
-- are served, the sockets of its control connections are accounted for, and what is mounted and
-- open is what its state says. The sockets of data channels are not counted: nothing closes those
-- that are left at the end.
pub start_lem :
    (boot : Boot) (net : NetInfo) (listening : Listening) (turns : List Turn)
    {r : Bool × Ios × World × Log}
    → All IsBounded turns
    → start boot net listening turns ≡ done r
    → Released boot.behind r
unfolding start fsdev_init fsdev_exit
start_lem boot net listening turns b h =
    let there = as_int (begun boot).iosuhax_mount boot.behind in
    let w : World = record {
      server = no_clients;
      buttons = 0;
      mounts = mount_filesystems there boot.fsa_open no_mounts;
      accepted = [];
    } in
    let running : IsRunning there w = record {
      accounts = no_clients-Accounts;
      sound = mount-IsSound there boot.fsa_open no_mounts (no_mounts-IsSound there);
    } in
    Ensures-at (Released boot.behind)
      (Ensures-bind (Leaves there) (Released boot.behind) (main there net listening turns w no_log)
        _
        (Ensures-of (Leaves there) _
          (λ (ended, w', log) e. main_lem there net listening turns w no_log b running e))
        (λ r l. leave-Released boot r l))
      h
