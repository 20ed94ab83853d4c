-- ===== src/Tests/Programs.antt =====
-- The theorems on the whole program, with one client that says nothing, and HOME pressed.
use ftpserv_u.Prelude.{
  ◌≡◌, refl, pos, negsuc, true, false, Option, none, some, List, [], ◌∷◌, done, arith,
}
use ftpserv_u.IoBuffer.Contents.{IsValid, contents}
use ftpserv_u.Network.{
  failed, connection, no_connection, accept_poll, create_serversocket, read_buffer,
}
use ftpserv_u.Dtp.Channels.{Channels, dtp_poll, poll_list}
use ftpserv_u.Client.{Client, state_none, ftp_response, response_text}
use ftpserv_u.Text.{decimal}
use ftpserv_u.Path.{new_path}
use ftpserv_u.IoBuffer.{new_buffer, append, next_line_raw}
use ftpserv_u.IoBuffer.Loop.{each_line}
use ftpserv_u.Logging.{Log}
use ftpserv_u.Input.{input_handler, get_command}
use ftpserv_u.Mounts.{Mounts}
use ftpserv_u.Mounts.Sound.{
  IsSound, MountStep, mount, unmount, remount, steps, replay, expected, steps-IsSound,
}
use ftpserv_u.Server.{
  Server, Round, network_handler, handle_clients, handle_client, handle_control_events,
  handle_output, accept_handler, find_open_client_slot, new_client, writeln,
}
use ftpserv_u.Server.Accepting.{welcome}
use ftpserv_u.Server.Served.{Bounds}
use ftpserv_u.Server.Ledger.{AllServed}
use ftpserv_u.Server.Holdings.{holdings, take_arrived, network_handler-holdings}
use ftpserv_u.Server.Greeting.{network_handler-greets}
use ftpserv_u.Server.Ending.{ftp_deinit, close_all}
use ftpserv_u.MainLoop.{Turn, World, obey, turn, loop, ftpserver_main_loop, main}
use ftpserv_u.MainLoop.Stopping.{ends, loop-ends}
use ftpserv_u.Startup.{Ios, Boot, start, fsdev_init, fsdev_exit}
use ftpserv_u.Startup.Released.{Released, start_lem}
use ftpserv_u.Tests.{client, env, os, two_lines-IsValid, empty_buffer-IsValid, games-IsDirectory}
use ftpserv_u.Tests.Logs.{net}

abbrev no_channels : Channels
no_channels = record {
  heap = λ p. none;
  next_address = 1;
  dtp_list = [];
  next_dtp_list = [];
  closed = [];
}

abbrev server : List (Option Client) → Server
server clients = record {
  clients = clients;
  channels = no_channels;
  next_ephermal_port = 1024;
  sent = [];
  closed = [];
}

abbrev one_client : Server
one_client = server (some (client 2 none) ∷ none ∷ [])

one_client-AllServed : AllServed one_client.clients
one_client-AllServed = (
  record {
    same_fd = refl;
    open_fd = refl;
    readable = record { valid = two_lines-IsValid; room = omega arith };
    valid_output = empty_buffer-IsValid;
    in_directory = games-IsDirectory;
  },
  tt,
)

-- No connection, and nothing to receive.
abbrev quiet_round : Round
quiet_round = record {
  accepted = no_connection 6;
  peer_ip = 1;
  peer_port = 2;
  os = os;
  env = env;
  recv = λ fd n. failed 6;
  before = 0;
}

quiet-Bounds : Bounds quiet_round.recv
quiet-Bounds fd n bytes e = absurd (ground arith)

quiet_ran : (s : Server) × (network_handler quiet_round one_client ≡ done (pos 0, s))
unfolding network_handler accept_poll dtp_poll poll_list handle_clients handle_client
    handle_control_events read_buffer handle_output
quiet_ran = (_, refl)

network_handler-holdings_example :
    (holdings quiet_ran.0 ≡ take_arrived (accept_poll (no_connection 6)).1 (holdings one_client))
    × AllServed quiet_ran.0.clients
network_handler-holdings_example =
    network_handler-holdings quiet_round one_client quiet-Bounds one_client-AllServed quiet_ran.1

abbrev calling_round : Round
calling_round = record quiet_round { accepted = connection 9 }

abbrev empty_server : Server
empty_server = server (none ∷ none ∷ [])

network_handler-greets_example :
    (c : Client) × (network_handler calling_round empty_server
      ≡ done (
        pos 0,
        record empty_server { clients = some c ∷ none ∷ []; sent = (pos 9, welcome) ∷ [] },
      ))
    × (c.fd ≡ pos 9)
    × (c.state ≡ state_none)
    × IsValid c.output_buffer
    × (contents c.output_buffer ≡ [])
network_handler-greets_example =
    network_handler-greets calling_round empty_server 9 (none ∷ []) refl (refl, tt) refl refl refl
      (λ n. refl)

-- HOME is pressed in the first turn.
abbrev press : List Turn
press = record { round = quiet_round; pad = record { error = 0; hold = 2 }; fsa_open = pos 3 } ∷ []

abbrev unmounted : Mounts
unmounted = record { fs_mounted = false; fsa_fd = negsuc 0; calls = [] }

abbrev world : World
world = record { server = one_client; buttons = 0; mounts = unmounted; accepted = pos 7 ∷ [] }

loop_ran : (w : World) × (loop 1 press false world ≡ done (true, w))
unfolding loop turn obey network_handler accept_poll dtp_poll poll_list handle_clients handle_client
    handle_control_events read_buffer handle_output input_handler get_command
loop_ran = (_, refl)

loop-ends_example : true ≡ ends press 0
loop-ends_example = loop-ends 1 press world loop_ran.1

abbrev remounting : List MountStep
remounting = mount (pos 3) ∷ remount (negsuc 4) ∷ unmount ∷ []

steps-IsSound_example : IsSound 1 (steps 1 remounting unmounted)
unfolding replay expected
steps-IsSound_example = steps-IsSound 1 remounting unmounted refl

-- IOSUHAX can be opened only through the hook.
abbrev hooked : Boot
hooked = record {
  iosuhax = negsuc 0;
  mcp = pos 5;
  iosuhax_mcp = pos 0;
  fsa_open = pos 3;
  behind = 0;
}

-- A client connects, and HOME is pressed.
abbrev call_and_press : List Turn
call_and_press =
    record { round = calling_round; pad = record { error = 0; hold = 2 }; fsa_open = pos 3 } ∷ []

start_ran :
    (i : Ios) × (w : World) × (l : Log) × (start hooked net
        (record { socket = pos 3; bind = pos 0; listen = pos 0 })
        call_and_press
      ≡ done (true, i, w, l))
unfolding start fsdev_init fsdev_exit main ftpserver_main_loop loop turn obey network_handler
    accept_poll accept_handler dtp_poll poll_list handle_clients handle_client handle_control_events
    read_buffer handle_output input_handler get_command create_serversocket ftp_deinit close_all
    find_open_client_slot new_client new_path new_buffer ftp_response append response_text decimal
    each_line next_line_raw writeln
start_ran = (_, _, _, refl)

start_lem_example : Released 0 (true, start_ran.0, start_ran.1, start_ran.2)
start_lem_example =
    start_lem hooked net (record { socket = pos 3; bind = pos 0; listen = pos 0 }) call_and_press
      (quiet-Bounds, tt) start_ran.3
