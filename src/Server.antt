-- ===== src/Server.antt =====
-- src/ftp.c: the clients of the server, and a round of `ftp_network_handler`.
pub mod Accepting
pub mod Inside
pub mod Handling
pub mod Slots
pub mod Served
pub mod Ledger
pub mod Ending
pub mod Holdings
pub mod Greeting
use ftpserv_u.Prelude.{
  ℕ, zero, suc, ◌+◌, ◌-◌, ℤ, pos, negsuc, is_neg, Bool, true, false, ◌||◌, ◌&&◌, not, Option, none,
  some, List, [], ◌∷◌, ◌++◌, Out, done, fault, ◌>>=◌, leb, ltb, ◌==◌, if◌then◌else◌, set,
}
use ftpserv_u.Memory.{Bytes, c_string}
use ftpserv_u.Text.{codes}
use ftpserv_u.IoBuffer.{IoBuffer, new_buffer}
use ftpserv_u.IoBuffer.Loop.{each_line}
use ftpserv_u.Mnemonic.{parse_command, mark_command}
use ftpserv_u.Path.{new_path, is_empty}
use ftpserv_u.Network.{
  Received, Accepted, connection, no_connection, read_buffer, accept_poll, eagain, negated,
}
use ftpserv_u.Dtp.{Os, Channel, get_state, set_state, dtp_closed, dtp_free}
use ftpserv_u.Dtp.Channels.{Channels, load, store, dtp_poll}
use ftpserv_u.Client.{
  Client, Session, ftp_response, respond, has_flag, clear_flag, state_none, state_data,
  state_disconn,
}
use ftpserv_u.Commands.{Env}
use ftpserv_u.Commands.Invoke.{command_invoke}

abbrev pub max_clients : ℕ
max_clients = 25

abbrev pub ftp_buffer : ℕ
ftp_buffer = 1024

-- The static state of the server. `clients` has a place for each slot, `sent` logs what is given
-- to `send`, and `closed` the sockets of clients that are closed.
pub record Server : Type 0 where
  pub clients : List (Option Client)
  pub channels : Channels
  pub next_ephermal_port : ℕ
  pub sent : List (ℤ × Bytes)
  pub closed : List ℤ

-- The end of `handle_data_events`, for a channel that is closed.
pub finish_transfer : ℕ → Channel → Session → Out Session
finish_transfer p channel s =
    let report =
      if get_state channel == dtp_closed
      then respond 226 (codes "Transfer complete.") s
      else respond 420 (codes "Transfer failed due to a network error.") s in
    report >>= λ s'. done (record s' {
      client = clear_flag (record s'.client { data_channel = none }) state_data;
      channels = store s'.channels p (set_state channel dtp_free);
    })

-- `handle_data_events`
unfoldable pub handle_data_events : Session → Out Session
unfolding load finish_transfer
handle_data_events s =
    if not (has_flag s.client state_data) then done s else elim s.client.data_channel [
      | none ↦ done (record s { client = clear_flag s.client state_data })
      | some p ↦ load s.channels p >>= λ channel.
          if leb dtp_closed (get_state channel) then finish_transfer p channel s else done s
    ]

-- `ftp_process_command`, on the block that holds the line, and the block as it leaves it. The
-- commands leave their parameters as they are: where `vfs_pathent_parse` puts a NUL it puts the
-- separator back.
unfoldable pub process_command : Env → Session → Bytes → Out (Session × Bytes)
process_command env s line = parse_command line >>= λ found. elim found [
  | none ↦ done (s, line)
  | some (m, p) ↦ command_invoke env m p s >>= λ s'. done (s', mark_command line)
]

-- The loop of `handle_control_events` over the lines read.
pub process_lines : Env → ℕ → Session → Out Session
process_lines env before s =
    each_line (process_command env) (suc s.client.input_buffer.head) before false
      s.client.input_buffer s
    >>= λ (b, s'). done (record s' { client = record s'.client { input_buffer = b } })

-- `handle_control_events`. `none` says that the client has been freed.
unfoldable pub handle_control_events : Env → (ℤ → ℕ → Received) → ℕ → Session → Out (Option Session)
unfolding process_lines
handle_control_events env recv before s =
    if has_flag s.client state_data
    then done (some s)
    else read_buffer (recv s.client.fd) s.client.fd s.client.input_buffer >>= λ (nread, b).
        let s' = record s { client = record s.client { input_buffer = b } } in
        elim nread [
          | pos zero ↦ done none
          | pos (suc n) ↦ process_lines env before s' >>= λ s''. done (some s'')
          | negsuc n ↦ done (if suc n == eagain then some s' else none)
        ]

-- `network_writeln`, as the log of what `send` is given.
unfoldable pub writeln : ℤ → List (ℤ × Bytes) → Bytes → Out (List (ℤ × Bytes))
writeln fd sent line =
    let text = c_string line in
    done (if is_neg fd then sent else if is_empty text then sent else sent ++ ((fd, text) ∷ []))

-- `handle_output`. The line that is sent stays as it is.
abbrev pub write_line : ℤ → List (ℤ × Bytes) → Bytes → Out (List (ℤ × Bytes) × Bytes)
write_line fd sent line = writeln fd sent line >>= λ sent'. done (sent', line)

unfoldable pub handle_output : ℕ → Client → List (ℤ × Bytes) → Out (Client × List (ℤ × Bytes))
handle_output before c sent =
    if c.output_buffer.head == 0
    then done (c, sent)
    else each_line (write_line c.fd) (suc c.output_buffer.head) before true c.output_buffer sent
      >>= λ (b, sent'). done (record c { output_buffer = b }, sent')

-- The sockets that `free_client` closes.
abbrev pub socket_of : Client → List ℤ
socket_of c = if is_neg c.fd then [] else c.fd ∷ []

-- What the round brings from outside: the answers of `accept`, `recv` and the other calls, and
-- the byte that memory holds in front of an I/O buffer.
pub record Round : Type 0 where
  pub accepted : Accepted
  pub peer_ip : ℕ
  pub peer_port : ℕ
  pub os : Os
  pub env : Env
  pub recv : ℤ → ℕ → Received
  pub before : ℕ

-- One client as `handle_client` leaves it: its slot, and the state that it shares.
pub record Handled : Type 0 where
  pub slot : Option Client
  pub channels : Channels
  pub next_ephermal_port : ℕ
  pub sent : List (ℤ × Bytes)
  pub closed : List ℤ

-- The end of `handle_client`.
pub flush_client : ℕ → Session → List (ℤ × Bytes) → List ℤ → Out Handled
unfolding handle_output
flush_client before s sent closed = handle_output before s.client sent >>= λ (c, sent').
    let leaves = has_flag c state_disconn in
    done (record {
      slot = if leaves then none else some c;
      channels = s.channels;
      next_ephermal_port = s.next_ephermal_port;
      sent = sent';
      closed = if leaves then closed ++ socket_of c else closed;
    })

-- `handle_client`. Behind `handle_control_events` the client is used although it may be freed.
unfoldable pub handle_client : Round → Session → List (ℤ × Bytes) → List ℤ → Out Handled
unfolding handle_data_events flush_client
handle_client round s sent closed =
    (if has_flag s.client state_data then handle_data_events s else done s) >>= λ s'.
    (if not (has_flag s'.client state_data)
      then handle_control_events round.env round.recv round.before s'
      else done (some s'))
    >>= λ kept. elim kept [ none ↦ fault | some s'' ↦ flush_client round.before s'' sent closed ]

-- `new_client`; every allocation succeeds.
unfoldable pub new_client : Out (Option Client)
new_client = new_path (b'/' ∷ 0 ∷ []) >>= λ root. elim (new_buffer true true true ftp_buffer) [
  | none ↦ done none
  | some buffer ↦ done (elim root [
    | none ↦ none
    | some cwd ↦ some (record {
      fd = pos 0;
      ip = 0;
      port = 0;
      state = state_none;
      input_buffer = buffer;
      output_buffer = buffer;
      data_channel = none;
      cwd = cwd;
    })
  ])
]

-- `find_open_client_slot`, with `none` for -1.
unfoldable pub find_open_client_slot : List (Option Client) → Option ℕ
find_open_client_slot [] = none
find_open_client_slot (none ∷ slots) = some 0
find_open_client_slot (some _ ∷ slots) = elim (find_open_client_slot slots) [
  | none ↦ none
  | some i ↦ some (suc i)
]

-- `ftp_accept_handler`, for the connection `fd`. The welcome is queued before the fields are set.
unfoldable pub accept_handler : ℕ → ℕ → ℕ → Server → Out Server
accept_handler fd ip port server = elim (find_open_client_slot server.clients) [
  | none ↦ done (record server { closed = server.closed ++ (pos fd ∷ []) })
  | some slot ↦ new_client >>= λ made. elim made [
    | none ↦ done (record server { closed = server.closed ++ (pos fd ∷ []) })
    | some c ↦ ftp_response 220 c (codes "FTPservU, here to serve you!") >>= λ welcomed.
        done (record server {
          clients =
              set server.clients slot
                (some (record welcomed { fd = pos fd; ip = ip; port = port }));
        })
  ]
]

-- The loop of `ftp_network_handler` over the slots. The slots already handled stand in the
-- server.
unfoldable pub handle_clients : Round → List (Option Client) → Server → Out Server
handle_clients round [] server = done server
handle_clients round (none ∷ slots) server =
    handle_clients round slots (record server { clients = server.clients ++ (none ∷ []) })
handle_clients round (some c ∷ slots) server =
    handle_client round
      (record {
        client = c;
        channels = server.channels;
        next_ephermal_port = server.next_ephermal_port;
      })
      server.sent server.closed
    >>= λ h. handle_clients round slots (record {
      clients = server.clients ++ (h.slot ∷ []);
      channels = h.channels;
      next_ephermal_port = h.next_ephermal_port;
      sent = h.sent;
      closed = h.closed;
    })

-- `ftp_network_handler`: its result, and the server after the round.
unfoldable pub network_handler : Round → Server → Out (ℤ × Server)
network_handler round server =
    let (result, callback) = accept_poll round.accepted in
    let accepted : Out Server = elim callback [
      | none ↦ done server
      | some fd ↦ accept_handler fd round.peer_ip round.peer_port server
    ] in
    accepted >>= λ s.
    if is_neg result
    then done (negsuc 0, s)
    else dtp_poll round.os s.channels >>= λ w.
        handle_clients round s.clients (record s { clients = []; channels = w }) >>= λ s'.
        done (pos 0, s')
