-- ===== src/Commands/Invoke.antt =====
-- The rest of src/commands/, `ftp_data_send_buffer` of src/ftp.c, and `command_invoke`.
pub mod Login
pub mod Quit
pub mod Directory
pub mod Destination
pub mod Framed
pub mod Kept
pub mod LoggedIn
pub mod Automaton
pub mod Invariant
pub mod Passive
pub mod Announced
pub mod Listing
use ftpserv_u.Prelude.{
  ℕ, ℤ, is_neg, Bool, true, false, ◌||◌, ◌&&◌, not, Option, none, some, Out, done, fault, ◌>>=◌,
  ◌==◌, if◌then◌else◌,
}
use ftpserv_u.Memory.{Bytes}
use ftpserv_u.Text.{codes}
use ftpserv_u.Vfs.{list_directory}
use ftpserv_u.Dtp.{is_connected, send_buffer}
use ftpserv_u.Dtp.Channels.{Channels, load, store, new_active_channel}
use ftpserv_u.Client.{
  Client, Session, respond, is_authenticated, set_flag, state_none, state_user, state_data,
  state_disconn,
}
use ftpserv_u.Commands.{
  Env, Func, do_user, do_pass, do_quit, do_reinitialize, do_noop, do_list, do_pwd, do_cwd, do_cdup,
  do_size, do_passive, do_port, do_type, do_system, do_mode, do_retrieve, do_store, do_append,
  do_restart, do_delete, do_mkdir, do_rmdir, do_rename_from, do_rename_to, do_namelist, do_site,
  do_allocate, Command, find_command, pass, cwd, cdup, pwd, passive, port,
}

-- `dtp_channel_init`
unfoldable pub channel_init : Env → Option ℕ → ℕ → ℕ → Channels → Out (Channels × ℕ)
channel_init env (some p) ip port w = done (w, p)
channel_init env none ip port w = new_active_channel env.garbage ip port w

abbrev pub refused : Session → Out Session
refused = respond 425 (codes "Failed to connect to client")

-- `ftp_data_send_buffer`, for the text at an address.
unfoldable pub data_send_buffer : Env → ℕ → Session → Out Session
unfolding channel_init load
data_send_buffer env address s =
    let c = set_flag s.client state_data in
    channel_init env c.data_channel c.ip c.port s.channels >>= λ (w, p).
    let s' = record s { client = record c { data_channel = some p }; channels = w } in
    load w p >>= λ channel.
    let (connected, tried) = is_connected channel in
    let (result, sending) = send_buffer address tried in
    if not connected
    then refused (record s' { channels = store w p tried })
    else if is_neg result
    then refused (record s' { channels = store w p sending })
    else done (record s' { channels = store w p sending })

abbrev enter : ℕ → Session → Session
enter state s = record s { client = record s.client { state = state } }

-- The handlers that only answer, or set the state and answer.
abbrev user : Session → Out Session
user s = respond 331 (codes "Username OK. Ready for password.") (enter state_user s)

abbrev quit : Session → Out Session
quit s =
    respond 221 (codes "Service closing control connection.")
      (record s { client = set_flag s.client state_disconn })

abbrev reinitialize : Session → Out Session
reinitialize s = respond 220 (codes "Service ready for new user.") (enter state_none s)

abbrev noop : Session → Out Session
noop s = respond 200 (codes "Okey dokey artichokey!") s

abbrev system : Session → Out Session
system s = respond 215 (codes "UNIX Type: L8 Version: FTPservU") s

abbrev allocate : Session → Out Session
allocate s = respond 202 (codes "ALLO command ignored.") s

-- The address of a listing, 0 for NULL.
abbrev pub listing_address : Env → Option Bytes → ℕ
listing_address env none = 0
listing_address env (some text) = env.place text

-- `do_list`
abbrev list : Env → Session → Out Session
list env s = list_directory env.path_max env.opendir env.fresh s.client.cwd >>= λ dir_listing.
    data_send_buffer env (listing_address env dir_listing) s

-- The call of `cmd->func`. The commands that have an empty body change nothing.
unfoldable pub run_func : Env → Func → Bytes → Session → Out Session
unfolding data_send_buffer pass cwd cdup pwd passive port
run_func env do_user args s = user s
run_func env do_pass args s = pass s
run_func env do_quit args s = quit s
run_func env do_reinitialize args s = reinitialize s
run_func env do_noop args s = noop s
run_func env do_list args s = list env s
run_func env do_pwd args s = pwd env s
run_func env do_cwd args s = cwd env args s
run_func env do_cdup args s = cdup s
run_func env do_passive args s = passive env s
run_func env do_port args s = port env args s
run_func env do_system args s = system s
run_func env do_allocate args s = allocate s
run_func env do_size args s = done s
run_func env do_type args s = done s
run_func env do_mode args s = done s
run_func env do_retrieve args s = done s
run_func env do_store args s = done s
run_func env do_append args s = done s
run_func env do_restart args s = done s
run_func env do_delete args s = done s
run_func env do_mkdir args s = done s
run_func env do_rmdir args s = done s
run_func env do_rename_from args s = done s
run_func env do_rename_to args s = done s
run_func env do_namelist args s = done s
run_func env do_site args s = done s

-- `command_invoke`, once the command has been looked for.
unfoldable pub invoke_found : Env → Option Command → Bytes → Session → Out Session
invoke_found env none args s =
    if is_authenticated s.client
    then respond 502 (codes "Command not implemented.") s
    else respond 530 (codes "Please login with USER and PASS.") s
invoke_found env (some cmd) args s =
    if cmd.authentication && not (is_authenticated s.client)
    then respond 530 (codes "Please login with USER and PASS.") s
    else run_func env cmd.func args s

unfoldable pub command_invoke : Env → Bytes → Bytes → Session → Out Session
command_invoke env mnemonic args s = invoke_found env (find_command mnemonic) args s
