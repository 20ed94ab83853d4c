-- ===== src/Server/Greeting.antt =====
-- A round in which a client connects and says nothing yet.
use ftpserv_u.Prelude.{
  ℕ, suc, ◌+◌, ◌-◌, ◌<◌, ◌≡◌, refl, ap, sym, ◌∙◌, ℤ, pos, is_neg, true, false, Option, none, some,
  List, [], ◌∷◌, ◌++◌, append_assoc, append-nil, done, arith, ◌==◌, length, All, set, drop,
}
use ftpserv_u.Memory.{Bytes, c_string}
use ftpserv_u.Text.{codes, decimal}
use ftpserv_u.IoBuffer.{IoBuffer}
use ftpserv_u.IoBuffer.Contents.{IsValid, contents, length-contents}
use ftpserv_u.IoBuffer.Split.{line_text, is_harmless}
use ftpserv_u.IoBuffer.NextLine.{after_line-IsValid}
use ftpserv_u.IoBuffer.Loop.{
  split_lines, fold_blocks, each_line, each_line-Looped, holding, IsClean,
}
use ftpserv_u.Network.{failed, eagain, connection, accept_poll}
use ftpserv_u.Network.Reading.{read_buffer-failed}
use ftpserv_u.Dtp.{Os}
use ftpserv_u.Dtp.Channels.{Channels, dtp_poll, poll_list}
use ftpserv_u.Client.{Client, Session, response_text, state_none}
use ftpserv_u.Server.{
  Server, Round, writeln, write_line, handle_output, flush_client, handle_client,
  handle_control_events, handle_clients, network_handler, find_open_client_slot, accept_handler,
}
use ftpserv_u.Server.Inside.{write_line-inside}
use ftpserv_u.Server.Served.{IsServed}
use ftpserv_u.Server.Ledger.{new-IsServed}
use ftpserv_u.Server.Accepting.{welcome, length-welcome, accept_handler_lem}

-- The line of the welcome, without its newline.
abbrev welcome_line : Bytes
welcome_line = codes "220 FTPservU, here to serve you!\r"

split_lines-welcome : split_lines welcome ≡ (welcome_line ∷ [], [])
unfolding split_lines response_text decimal
split_lines-welcome = refl

welcome-IsClean :
    (before size : ℕ) → 1024 < size → All (IsClean before true size) (split_lines welcome).0
welcome-IsClean before size h =
    rw split_lines-welcome (unfold is_harmless line_text in ((refl, omega arith), tt))

writeln-welcome :
    (fd : ℤ) (sent : List (ℤ × Bytes)) (block : Bytes)
    → is_neg fd ≡ false
    → writeln fd sent (line_text true welcome_line ++ (0 ∷ block))
      ≡ done (sent ++ ((fd, welcome) ∷ []))
unfolding writeln c_string line_text response_text decimal
writeln-welcome fd sent block o = rw o refl

abbrev welcome_block : IoBuffer → Bytes
welcome_block b =
    let text = line_text true welcome_line in text ++ (0 ∷ drop (length text + 1) b.line)

-- The client once the welcome has been sent to it.
abbrev greeted : Client → Client
greeted c = record c { output_buffer = holding c.output_buffer (welcome_block c.output_buffer) [] }

fold_blocks-welcome :
    (fd : ℤ) (b : IoBuffer) (sent : List (ℤ × Bytes))
    → is_neg fd ≡ false
    → fold_blocks (write_line fd) true (welcome_line ∷ []) b.line sent
      ≡ done (welcome_block b, sent ++ ((fd, welcome) ∷ []))
unfolding fold_blocks
fold_blocks-welcome fd b sent o =
    rw (writeln-welcome fd sent (drop (length (line_text true welcome_line) + 1) b.line) o) refl

handle_output-welcome :
    (before : ℕ) (c : Client) (sent : List (ℤ × Bytes))
    → is_neg c.fd ≡ false
    → IsValid c.output_buffer
    → contents c.output_buffer ≡ welcome
    → 1024 < c.output_buffer.size
    → handle_output before c sent ≡ done (greeted c, sent ++ ((c.fd, welcome) ∷ []))
unfolding handle_output
handle_output-welcome before c sent o v held size =
    let b = c.output_buffer in
    let head : b.head ≡ 34 = sym (length-contents v) ∙ ap length held ∙ length-welcome in
    let looped =
      each_line-Looped (write_line c.fd) (write_line-inside c.fd) before true (suc b.head) welcome
        sent v held (omega (arith, head, length-welcome)) (welcome-IsClean before b.size size) in
    let folded = fold_blocks-welcome c.fd b sent o in
    let flushed : each_line (write_line c.fd) (suc b.head) before true b sent
        ≡ done (holding b (welcome_block b) [], sent ++ ((c.fd, welcome) ∷ [])) =
      looped ∙ rw (split_lines-welcome, folded) refl in
    let some_bytes : (b.head == 0) ≡ false = ground arith in rw (some_bytes, flushed) refl

flush_client-welcome :
    (before : ℕ) (s : Session) (sent : List (ℤ × Bytes)) (closed : List ℤ)
    → is_neg s.client.fd ≡ false
    → IsValid s.client.output_buffer
    → contents s.client.output_buffer ≡ welcome
    → 1024 < s.client.output_buffer.size
    → s.client.state ≡ state_none
    → flush_client before s sent closed
      ≡ done (record {
        slot = some (greeted s.client);
        channels = s.channels;
        next_ephermal_port = s.next_ephermal_port;
        sent = sent ++ ((s.client.fd, welcome) ∷ []);
        closed = closed;
      })
unfolding flush_client
flush_client-welcome before s sent closed o v held size none_yet =
    rw (handle_output-welcome before s.client sent o v held size) (rw none_yet refl)

-- A client that says nothing, where nothing has arrived.
handle_client-quiet :
    (round : Round) (s : Session) (sent : List (ℤ × Bytes)) (closed : List ℤ)
    → s.client.state ≡ state_none
    → is_neg s.client.fd ≡ false
    → s.client.input_buffer.head + 1 < s.client.input_buffer.size
    → ((n : ℕ) → round.recv s.client.fd n ≡ failed eagain)
    → handle_client round s sent closed ≡ flush_client round.before s sent closed
unfolding handle_client handle_control_events
handle_client-quiet round s sent closed none_yet o room quiet =
    let read =
      read_buffer-failed (round.recv s.client.fd) s.client.fd s.client.input_buffer o room
        (quiet (s.client.input_buffer.size - 1 - s.client.input_buffer.head)) in
    rw none_yet (rw read refl)

handle_clients-none :
    (round : Round) (slots : List (Option Client)) (server : Server)
    → All (λ (slot : Option Client). slot ≡ none) slots
    → handle_clients round slots server ≡ done (record server { clients = server.clients ++ slots })
unfolding handle_clients
handle_clients-none round [] server h = rw (append-nil server.clients) refl
handle_clients-none round (none ∷ slots) server h =
    handle_clients-none round slots (record server { clients = server.clients ++ (none ∷ []) }) h.1
    ∙ ap (λ (xs : List (Option Client)). done (record server { clients = xs }))
        (append_assoc server.clients (none ∷ []) slots)
handle_clients-none round (some c ∷ slots) server h = absurd (ground (arith, h.0))

dtp_poll-idle :
    (os : Os) (w : Channels) → w.dtp_list ≡ [] → w.next_dtp_list ≡ [] → dtp_poll os w ≡ done w
unfolding dtp_poll poll_list
dtp_poll-idle os w list next = ground arith

network_handler-steps :
    (round : Round) (server s : Server) {fd : ℕ} {w : Channels} {s' : Server}
    → round.accepted ≡ connection fd
    → accept_handler fd round.peer_ip round.peer_port server ≡ done s
    → dtp_poll round.os s.channels ≡ done w
    → handle_clients round s.clients (record s { clients = []; channels = w }) ≡ done s'
    → network_handler round server ≡ done (pos 0, s')
unfolding network_handler accept_poll
network_handler-steps round server s a e p h = ground arith

-- The round of a client that has just been accepted, and says nothing.
handle_clients-welcome :
    (round : Round) (c : Client) (slots : List (Option Client)) (server : Server)
    → IsServed c.fd c
    → c.state ≡ state_none
    → c.input_buffer.head + 1 < c.input_buffer.size
    → contents c.output_buffer ≡ welcome
    → 1024 < c.output_buffer.size
    → ((n : ℕ) → round.recv c.fd n ≡ failed eagain)
    → All (λ (slot : Option Client). slot ≡ none) slots
    → handle_clients round (some c ∷ slots) (record server { clients = [] })
      ≡ done (record server {
        clients = some (greeted c) ∷ slots;
        sent = server.sent ++ ((c.fd, welcome) ∷ []);
      })
unfolding handle_clients
handle_clients-welcome round c slots server i none_yet room held size quiet empty =
    let s : Session = record {
      client = c;
      channels = server.channels;
      next_ephermal_port = server.next_ephermal_port;
    } in
    let flushed =
      handle_client-quiet round s server.sent server.closed none_yet i.open_fd room quiet
      ∙ flush_client-welcome round.before s server.sent server.closed i.open_fd i.valid_output held
          size none_yet in
    rw flushed (
      handle_clients-none round slots
        (record server {
          clients = some (greeted c) ∷ [];
          sent = server.sent ++ ((c.fd, welcome) ∷ []);
        })
        empty)

-- A connection comes to a server with no clients, one slot at least and no data channels, and the
-- client sends nothing yet: the round goes through, the client takes the first slot, and the whole
-- welcome is sent to it in the same round. Nothing else changes, and nothing waits to be sent.
pub network_handler-greets :
    (round : Round) (server : Server) (fd : ℕ) (slots : List (Option Client))
    → server.clients ≡ none ∷ slots
    → All (λ (slot : Option Client). slot ≡ none) slots
    → server.channels.dtp_list ≡ []
    → server.channels.next_dtp_list ≡ []
    → round.accepted ≡ connection fd
    → ((n : ℕ) → round.recv (pos fd) n ≡ failed eagain)
    → (c : Client) × (network_handler round server
        ≡ done (
          pos 0,
          record server {
            clients = some c ∷ slots;
            sent = server.sent ++ ((pos fd, welcome) ∷ []);
          },
        ))
      × (c.fd ≡ pos fd)
      × (c.state ≡ state_none)
      × IsValid c.output_buffer
      × (contents c.output_buffer ≡ [])
unfolding find_open_client_slot
network_handler-greets round server fd slots first empty list next accepted quiet =
    let (_, (c, made, new, held, is_fd, _, _)) =
      accept_handler_lem fd round.peer_ip round.peer_port server {slot = 0} (rw first refl) in
    let placed : set server.clients 0 (some c) ≡ some c ∷ slots = rw first refl in
    let taken : accept_handler fd round.peer_ip round.peer_port server
        ≡ done (record server { clients = some c ∷ slots }) =
      made ∙ ap (λ xs. done (record server { clients = xs })) placed in
    let i = new-IsServed fd new is_fd in
    let no_input : c.input_buffer.head ≡ 0 =
      sym (length-contents new.valid_input) ∙ ap length new.nothing_read in
    let handled =
      handle_clients-welcome round c slots server i new.no_state
        (omega (arith, no_input, new.roomy)) held new.roomy_output (λ n. rw is_fd (quiet n))
        empty in
    let (valid, emptied) =
      after_line-IsValid {b = c.output_buffer} (line_text true welcome_line) [] new.valid_output
        (unfold line_text in omega (arith, new.roomy_output)) (omega arith) in
    (
      greeted c,
      network_handler-steps round server (record server { clients = some c ∷ slots }) accepted taken
          (dtp_poll-idle round.os server.channels list next)
          (handled
            ∙ ap
                (λ (own : ℤ). done (record server {
                  clients = some (greeted c) ∷ slots;
                  sent = server.sent ++ ((own, welcome) ∷ []);
                }))
                is_fd),
      is_fd,
      new.no_state,
      valid,
      emptied,
    )
