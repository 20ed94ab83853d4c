-- ===== src/Commands.antt =====
-- src/commands.c and src/commands/: the table of commands, its lookup, and the handlers.
pub mod Invoke
use ftpserv_u.Prelude.{
  ℕ, ◌+◌, ◌-◌, ◌*◌, ◌/◌, ◌%◌, ◌^◌, ℤ, pos, negsuc, is_neg, Bool, true, false, ◌||◌, ◌&&◌, not,
  Option, none, some, List, [], ◌∷◌, ◌++◌, Out, done, fault, ◌>>=◌, leb, ◌==◌, if◌then◌else◌,
}
use ftpserv_u.Memory.{Bytes, same_string}
use ftpserv_u.Text.{codes, decimal}
use ftpserv_u.Path.{VfsPath, new_path, path_merge, path_acquire, can_chdir, detach_last}
use ftpserv_u.Vfs.{Entry}
use ftpserv_u.Port.{parse_port_args}
use ftpserv_u.Network.{Listening, get_ephermal_port}
use ftpserv_u.Dtp.{Channel, is_connected, send_buffer}
use ftpserv_u.Dtp.Channels.{
  Channels, load, store, free_data_channel, new_active_channel, new_passive_channel,
}
use ftpserv_u.Client.{
  Client, Session, respond, is_authenticated, set_flag, state_none, state_user, state_auth,
  state_data, state_disconn,
}

-- What a command asks of the system around it: `PATH_MAX`, `stat` (is the path a directory), the
-- entries that `opendir` and `readdir` give, the block that malloc gives for a size and its address,
-- `ACGetAssignedAddress`, the socket calls of PASV, and the bytes of fresh memory.
pub record Env : Type 0 where
  pub path_max : ℕ
  pub stat : Bytes → Option Bool
  pub opendir : Option Bytes → Option (List Entry)
  pub fresh : ℕ → Option Bytes
  pub place : Bytes → ℕ
  pub host_ip : ℕ
  pub listening : Listening
  pub garbage : ℤ

-- The functions that the table points to.
pub data Func : Type 0 where
  do_user do_pass do_quit do_reinitialize do_noop do_list do_pwd do_cwd do_cdup do_size : Func
  do_passive do_port do_type do_system do_mode do_retrieve do_store do_append do_restart : Func
  do_delete do_mkdir do_rmdir do_rename_from do_rename_to do_namelist do_site do_allocate : Func

pub record Command : Type 0 where
  pub mnemonic : Bytes
  pub authentication : Bool
  pub func : Func

abbrev command : Bytes → Bool → Func → Command
command m a f = record { mnemonic = m; authentication = a; func = f }

-- The table `commands`, without the entry that ends it.
unfoldable pub commands : List Command
commands =
    command (codes "USER") false do_user
    ∷ command (codes "PASS") false do_pass
    ∷ command (codes "QUIT") false do_quit
    ∷ command (codes "REIN") false do_reinitialize
    ∷ command (codes "NOOP") false do_noop
    ∷ command (codes "LIST") true do_list
    ∷ command (codes "PWD") true do_pwd
    ∷ command (codes "CWD") true do_cwd
    ∷ command (codes "CDUP") true do_cdup
    ∷ command (codes "SIZE") true do_size
    ∷ command (codes "PASV") true do_passive
    ∷ command (codes "PORT") true do_port
    ∷ command (codes "TYPE") true do_type
    ∷ command (codes "SYST") true do_system
    ∷ command (codes "MODE") true do_mode
    ∷ command (codes "RETR") true do_retrieve
    ∷ command (codes "STOR") true do_store
    ∷ command (codes "APPE") true do_append
    ∷ command (codes "REST") true do_restart
    ∷ command (codes "DELE") true do_delete
    ∷ command (codes "MKD") true do_mkdir
    ∷ command (codes "RMD") true do_rmdir
    ∷ command (codes "RNFR") true do_rename_from
    ∷ command (codes "RNTO") true do_rename_to
    ∷ command (codes "NLST") true do_namelist
    ∷ command (codes "SITE") true do_site
    ∷ command (codes "ALLO") true do_allocate
    ∷ []

pub find_in : List Command → Bytes → Option Command
unfolding same_string
find_in [] mnemonic = none
find_in (c ∷ cs) mnemonic =
    let rest = find_in cs mnemonic in if same_string mnemonic c.mnemonic then some c else rest

-- `find_command`
unfoldable pub find_command : Bytes → Option Command
unfolding find_in commands
find_command = find_in commands

abbrev with_client : Session → Client → Session
with_client s c = record s { client = c }

-- `do_pass`
unfoldable pub pass : Session → Out Session
pass s =
    if s.client.state == state_none
    then respond 332 (codes "Need account for login.") s
    else if s.client.state == state_user
    then respond 230 (codes "User logged in successfully.")
        (with_client s (record s.client { state = state_auth }))
    else respond 503 (codes "Bad sequence of commands.") s

-- `do_cwd`; the parameters are the block that holds them.
unfoldable pub cwd : Env → Bytes → Session → Out Session
cwd env args s = new_path args >>= λ parsed.
    let result = path_merge (some s.client.cwd) parsed in
    let refused = respond 550 (codes "That directory does not exist.") s in
    elim result [
      | none ↦ refused
      | some path ↦
          if can_chdir env.path_max env.stat path
          then respond 250 (codes "CWD command successful.")
              (with_client s (record s.client { cwd = path }))
          else refused
    ]

-- `do_cdup`
unfoldable pub cdup : Session → Out Session
unfolding detach_last
cdup s =
    let path = s.client.cwd in
    respond 250 (codes "CWD command successful.") (
      with_client s
        (record s.client { cwd = record path { entities = detach_last path.entities } }))

-- `do_pwd`; printing a null string is a fault.
unfoldable pub pwd : Env → Session → Out Session
pwd env s = elim (path_acquire env.path_max s.client.cwd) [
  | none ↦ fault
  | some text ↦ respond 257 (b'"' ∷ (text ++ codes "\" is current directory.")) s
]

-- The text that `do_passive` prints.
unfoldable pub passive_text : ℕ → ℕ → Bytes
passive_text ip port =
    codes "Entering passive mode ("
    ++ (decimal (ip / 2 ^ 24 % 256)
        ++ (b','
            ∷ (decimal (ip / 2 ^ 16 % 256)
                ++ (b','
                    ∷ (decimal (ip / 2 ^ 8 % 256)
                        ++ (b','
                            ∷ (decimal (ip % 256)
                                ++ (b','
                                    ∷ (decimal (port / 2 ^ 8 % 256)
                                        ++ (b',' ∷ (decimal (port % 256) ++ (b')' ∷ []))))))))))))

-- The first part of `do_passive`: a channel that the client has is freed, but not unlinked.
unfoldable pub drop_channel : Option ℕ → Channels → Out Channels
drop_channel none w = done w
drop_channel (some p) w = free_data_channel p w

-- `do_passive`. The new channel is read through unchecked.
unfoldable pub passive : Env → Session → Out Session
unfolding drop_channel passive_text
passive env s = drop_channel s.client.data_channel s.channels >>= λ w.
    let (port, next) = get_ephermal_port s.next_ephermal_port in
    new_passive_channel env.listening env.garbage env.host_ip port w >>= λ (w', made). elim made [
      | none ↦ fault
      | some p ↦ load w' p >>= λ c. respond 227 (passive_text c.ip c.port) (record {
        client = record s.client { data_channel = some p };
        channels = w';
        next_ephermal_port = next;
      })
    ]

-- `do_port`. A channel that the client has is left behind.
unfoldable pub port : Env → Bytes → Session → Out Session
port env args s = parse_port_args args >>= λ (ip, number).
    if ip == 0 || number == 0
    then respond 500 (codes "Failed to parse parameters.") s
    else new_active_channel env.garbage ip number s.channels >>= λ (w, p).
        done (record s { client = record s.client { data_channel = some p }; channels = w })
