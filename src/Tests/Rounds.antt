-- ===== src/Tests/Rounds.antt =====
-- The theorems on a round of the server, at two slots of which one is free.
use ftpserv_u.Prelude.{
  ℕ, ◌≡◌, refl, ℤ, pos, false, Option, some, none, List, [], ◌∷◌, ◌++◌, done, fault, ◌>>=◌, arith,
  set,
}
use ftpserv_u.Memory.{Bytes}
use ftpserv_u.IoBuffer.Contents.{contents}
use ftpserv_u.IoBuffer.Split.{line_text, chomp, is_harmless}
use ftpserv_u.IoBuffer.Loop.{split_lines, fold_blocks, holding}
use ftpserv_u.Network.{Received, received, no_connection}
use ftpserv_u.Network.Reading.{grown}
use ftpserv_u.Dtp.{Os, get_state}
use ftpserv_u.Dtp.Channels.{Channels, load, poll_list}
use ftpserv_u.Client.{Client, Session, has_flag, state_data}
use ftpserv_u.Client.Responses.{Offered}
use ftpserv_u.Server.{
  Server, Round, process_command, handle_data_events, handle_control_events, handle_client,
  find_open_client_slot, accept_handler,
}
use ftpserv_u.Network.{accept_poll}
use ftpserv_u.Dtp.{poll_channel}
use ftpserv_u.Dtp.Channels.{dtp_poll}
use ftpserv_u.Server.{network_handler, handle_clients, handle_output}
use ftpserv_u.Server.Accepting.{IsFirstFree, IsNew, welcome, accept_handler_lem}
use ftpserv_u.Server.Handling.{
  IsIdle, with_input, handle_control_events-lines, handle_client-eof, transfer_report,
  handle_data_events-closed,
}
use ftpserv_u.Tests.{
  two_lines, two_lines-IsValid, empty_buffer, empty_buffer-IsValid, env, os, session, client,
  one_channel, channel,
}

-- Sockets that give these bytes.
abbrev gives : Bytes → ℤ → ℕ → Received
gives bytes fd n = received bytes

abbrev idle : Session
idle = session 2 0 none

idle-IsIdle : IsIdle idle
idle-IsIdle = record {
  idle = refl;
  open_fd = refl;
  valid_input = two_lines-IsValid;
  room = omega arith;
}

abbrev round : Bytes → Round
round bytes = record {
  accepted = no_connection 6;
  peer_ip = 1;
  peer_port = 2;
  os = os;
  env = env;
  recv = gives bytes;
  before = 0;
}

handle_control_events-lines_example : handle_control_events env (gives (10 ∷ [])) 0 idle ≡ (
    let (lines, rest) = split_lines (contents two_lines ++ (10 ∷ [])) in
    fold_blocks
      (process_command env)
      false
      lines
      two_lines.line
      (with_input idle (grown two_lines (10 ∷ [])))
    >>= λ (block, s'). done (some (with_input s' (holding two_lines block rest))))
unfolding split_lines line_text chomp is_harmless
handle_control_events-lines_example =
    handle_control_events-lines env (gives (10 ∷ [])) 0 idle 10 [] idle-IsIdle (refl, omega arith)
      ((refl, omega arith), ((refl, omega arith), tt))

handle_client-eof_example : handle_client (round []) idle [] [] ≡ fault
handle_client-eof_example = handle_client-eof (round []) idle [] [] idle-IsIdle (refl, omega arith)

-- An input buffer with seven bytes of eight, and no newline.
abbrev full : Session
full = with_input idle (record empty_buffer { head = 7 })

abbrev waiting : Session
waiting = session 10 2 (some 1)

abbrev over : Session
over = session 10 4 (some 1)

handle_data_events-closed_example :
    (s' : Session) × (handle_data_events over ≡ done s')
    × Offered over (transfer_report (channel 4)) s'.client.output_buffer
    × (has_flag s'.client state_data ≡ false)
    × (s'.client.data_channel ≡ none)
    × (handle_data_events s' ≡ done s')
    × ((os : Os) (w : Channels) → poll_list os (1 ∷ []) s'.channels ≡ done w → load w 1 ≡ fault)
unfolding load get_state
handle_data_events-closed_example =
    handle_data_events-closed over 1 (channel 4) refl (omega arith) refl refl (omega arith)
      (omega arith) empty_buffer-IsValid

-- The first slot is taken.
abbrev server : List (Option Client) → Server
server clients = record {
  clients = clients;
  channels = one_channel 0;
  next_ephermal_port = 1024;
  sent = [];
  closed = [];
}

abbrev one_free : Server
one_free = server (some (client 2 none) ∷ none ∷ [])

accept_handler_lem_example :
    IsFirstFree one_free.clients 1
    × ((c : Client) × (accept_handler 8 1 2000 one_free
          ≡ done (record one_free { clients = set one_free.clients 1 (some c) }))
        × IsNew c
        × (contents c.output_buffer ≡ welcome)
        × (c.fd ≡ pos 8)
        × (c.ip ≡ 1)
        × (c.port ≡ 2000))
unfolding find_open_client_slot
accept_handler_lem_example = accept_handler_lem 8 1 2000 one_free refl

abbrev none_free : Server
none_free = server (some (client 2 none) ∷ [])

-- A client in a transfer, beside a free slot.
abbrev busy : Server
busy = record (server (some (client 10 (some 1)) ∷ none ∷ [])) { channels = one_channel 2 }

round_ran : (s : Server) × (network_handler (round []) busy ≡ done (pos 0, s))
unfolding network_handler accept_poll dtp_poll poll_channel get_state handle_clients handle_client
    handle_data_events load handle_output
round_ran = (_, refl)
