-- ===== src/Server/Ledger.antt =====
-- The sockets of the server's clients over a round: which slot holds each, and which are closed.
use mathlib.Core.Path.{subst}
use mathlib.Core.List.Perm
use mathlib.Core.List.{Perm, perm_append_singleton}
use ftpserv_u.Prelude.{
  ℕ, zero, suc, ◌≡◌, refl, ap, sym, ◌∙◌, ℤ, pos, is_neg, Option, none, some, List, [], ◌∷◌, ◌++◌,
  append_assoc, append-nil, Out, done, arith, Option-cases, inl, inr, get_elem?, set, length,
  Ensures, Ensures-bind, Ensures-then, Ensures-if, Ensures-mono, Ensures-at,
}
use ftpserv_u.IoBuffer.Contents.{length-contents}
use ftpserv_u.Network.{accept_poll}
use ftpserv_u.Dtp.Channels.{dtp_poll}
use ftpserv_u.Client.{Client, Session}
use ftpserv_u.Commands.Invoke.Directory.{IsDirectory}
use ftpserv_u.Server.{
  Server, Round, Handled, find_open_client_slot, accept_handler, handle_client, handle_clients,
  network_handler,
}
use ftpserv_u.Server.Accepting.{IsNew, accept_handler_lem, accept_handler-full}
use ftpserv_u.Server.Served.{IsServed, Bounds, Settles, handle_client_lem}

-- The sockets of the clients in some slots.
abbrev pub sockets : List (Option Client) → List ℤ
sockets [] = []
sockets (none ∷ slots) = sockets slots
sockets (some c ∷ slots) = c.fd ∷ sockets slots

-- Every client in a slot is served.
abbrev pub AllServed : List (Option Client) → Type 0
AllServed [] = Unit
AllServed (none ∷ slots) = AllServed slots
AllServed (some c ∷ slots) = IsServed c.fd c × AllServed slots

-- The sockets of all connections that the server has taken and not lost: in a slot, or closed.
abbrev pub ledger : Server → List ℤ
ledger s = sockets s.clients ++ s.closed

sockets-append : (xs ys : List (Option Client)) → sockets (xs ++ ys) ≡ sockets xs ++ sockets ys
sockets-append [] ys = refl
sockets-append (none ∷ xs) ys = sockets-append xs ys
sockets-append (some c ∷ xs) ys = ap (◌∷◌ c.fd) (sockets-append xs ys)

AllServed-append :
    (xs ys : List (Option Client)) → AllServed xs → AllServed ys → AllServed (xs ++ ys)
AllServed-append [] ys h k = k
AllServed-append (none ∷ xs) ys h k = AllServed-append xs ys h k
AllServed-append (some c ∷ xs) ys h k = (h.0, AllServed-append xs ys h.1 k)

-- A client is put into a free slot.
sockets-set :
    (xs : List (Option Client)) (i : ℕ) (c : Client)
    → get_elem? xs i ≡ some none
    → Perm (sockets (set xs i (some c))) (c.fd ∷ sockets xs)
sockets-set [] i c e = absurd (ground arith)
sockets-set (none ∷ xs) zero c e = Perm.refl _
sockets-set (some d ∷ xs) zero c e = absurd (ground arith)
sockets-set (none ∷ xs) (suc i) c e = sockets-set xs i c e
sockets-set (some d ∷ xs) (suc i) c e =
    Perm.trans (Perm.cons d.fd (sockets-set xs i c e)) (Perm.swap c.fd d.fd (sockets xs))

AllServed-set :
    (xs : List (Option Client)) (i : ℕ) (c : Client)
    → IsServed c.fd c
    → AllServed xs
    → AllServed (set xs i (some c))
AllServed-set [] i c h k = tt
AllServed-set (none ∷ xs) zero c h k = (h, k)
AllServed-set (some d ∷ xs) zero c h k = (h, k.1)
AllServed-set (none ∷ xs) (suc i) c h k = AllServed-set xs i c h k
AllServed-set (some d ∷ xs) (suc i) c h k = (k.0, AllServed-set xs i c h k.1)

-- A socket that is closed last.
closed_last :
    (xs closed : List ℤ) (fd : ℤ) → Perm (xs ++ (closed ++ (fd ∷ []))) (fd ∷ (xs ++ closed))
closed_last xs closed fd =
    rw (sym (append_assoc xs closed (fd ∷ []))) (perm_append_singleton fd (xs ++ closed))

-- A server that serves its clients and accounts for these sockets.
abbrev pub Accounts : List ℤ → Server → Type 0
Accounts fds s = AllServed s.clients × Perm (ledger s) fds

pub new-IsServed : {c : Client} (fd : ℕ) → IsNew c → c.fd ≡ pos fd → IsServed c.fd c
new-IsServed {c} fd n e = record {
  same_fd = refl;
  open_fd = ground arith;
  readable = record {
    valid = n.valid_input;
    room = omega (arith, length-contents n.valid_input, ap length n.nothing_read, n.roomy);
  };
  valid_output = n.valid_output;
  in_directory = subst IsDirectory (sym n.at_root) (tt, refl);
}

-- What becomes of a connection: it takes a slot, or it is closed.
pub accept_handler-Accounts :
    (fd ip port : ℕ) (server : Server)
    → AllServed server.clients
    → Ensures (Accounts (pos fd ∷ ledger server)) (accept_handler fd ip port server)
accept_handler-Accounts fd ip port server h =
    elim (Option-cases (find_open_client_slot server.clients)) [
      | inl e ↦
          rw (accept_handler-full fd ip port server e)
            (h, closed_last (sockets server.clients) server.closed (pos fd))
      | inr (slot, e) ↦
          let (first, (c, made, new, _, fd_is, _, _)) = accept_handler_lem fd ip port server e in
          rw made (
            AllServed-set server.clients slot c (new-IsServed fd new fd_is) h,
            subst
                (λ (own : ℤ).
                  Perm (sockets (set server.clients slot (some c)) ++ server.closed)
                    (own ∷ ledger server))
                fd_is
                (Perm.append_right server.closed (sockets-set server.clients slot c first.free)),
          )
    ]

Accounts-Perm :
    {fds fds' : List ℤ} (m : Out Server)
    → Perm fds fds'
    → Ensures (Accounts fds) m
    → Ensures (Accounts fds') m
Accounts-Perm {fds} {fds'} m p e =
    Ensures-mono (Accounts fds) (Accounts fds') m (λ s a. (a.0, Perm.trans a.1 p)) e

-- The sockets around a client whose round has ended.
settled :
    (before after closed : List ℤ) (c : Client) (done_slots : List (Option Client)) (h : Handled)
    → sockets done_slots ≡ before
    → Settles c.fd closed h
    → Perm
        (sockets (done_slots ++ (h.slot ∷ [])) ++ (after ++ h.closed))
        (before ++ (c.fd ∷ (after ++ closed)))
settled before after closed c done_slots h e (inl (c', slot, i, same)) =
    rw
      (
        slot,
        same,
        sockets-append done_slots (some c' ∷ []),
        e,
        i.same_fd,
        append_assoc before (c.fd ∷ []) (after ++ closed),
      )
      (Perm.refl _)
settled before after closed c done_slots h e (inr (slot, last)) =
    rw (slot, last, sockets-append done_slots (none ∷ []), e, append-nil before)
      (Perm.append_left before (closed_last after closed c.fd))

settled-AllServed :
    {fd : ℤ} {closed : List ℤ} (h : Handled) → Settles fd closed h → AllServed (h.slot ∷ [])
settled-AllServed h (inl (c, slot, i, same)) =
    rw slot (subst (λ (own : ℤ). IsServed own c) (sym i.same_fd) i, tt)
settled-AllServed h (inr (slot, last)) = rw slot tt

-- The sockets of the slots already handled, those still to come, and those closed.
handle_clients-Accounts :
    (round : Round) (slots : List (Option Client)) (server : Server)
    → Bounds round.recv
    → AllServed server.clients
    → AllServed slots
    → Ensures
        (Accounts (sockets server.clients ++ (sockets slots ++ server.closed)))
        (handle_clients round slots server)
unfolding handle_clients
handle_clients-Accounts round [] server b h k = (h, Perm.refl _)
handle_clients-Accounts round (none ∷ slots) server b h k =
    let next = record server { clients = server.clients ++ (none ∷ []) } in
    let same = sockets-append server.clients (none ∷ []) ∙ append-nil (sockets server.clients) in
    subst
      (λ (xs : List ℤ).
        Ensures (Accounts (xs ++ (sockets slots ++ server.closed)))
          (handle_clients round slots next))
      same
      (handle_clients-Accounts round slots next b (AllServed-append server.clients (none ∷ []) h tt)
        k)
handle_clients-Accounts round (some c ∷ slots) server b h k =
    let s : Session = record {
      client = c;
      channels = server.channels;
      next_ephermal_port = server.next_ephermal_port;
    } in
    let fds = sockets server.clients ++ (c.fd ∷ (sockets slots ++ server.closed)) in
    Ensures-bind (Settles c.fd server.closed) (Accounts fds)
      (handle_client round s server.sent server.closed) _
      (handle_client_lem c.fd round s server.sent server.closed b k.0)
      (λ h' settles.
        let next : Server = record {
          clients = server.clients ++ (h'.slot ∷ []);
          channels = h'.channels;
          next_ephermal_port = h'.next_ephermal_port;
          sent = h'.sent;
          closed = h'.closed;
        } in
        Accounts-Perm (handle_clients round slots next)
          (settled (sockets server.clients) (sockets slots) server.closed c server.clients h' refl
            settles)
          (handle_clients-Accounts round slots next b
            (AllServed-append server.clients (h'.slot ∷ []) h (settled-AllServed h' settles)) k.1))

-- The socket of the connection that a round brings, if there is one.
abbrev pub arrived : Option ℕ → List ℤ
arrived none = []
arrived (some fd) = pos fd ∷ []

abbrev pub arrivals : Round → List ℤ
arrivals round = arrived (accept_poll round.accepted).1

pub network_handler_lem :
    (round : Round) (server : Server)
    → Bounds round.recv
    → AllServed server.clients
    → Ensures
        (λ (r : ℤ × Server). Accounts (arrivals round ++ ledger server) r.1)
        (network_handler round server)
unfolding network_handler
network_handler_lem round server b h =
    let fds = arrivals round ++ ledger server in
    let After = λ (r : ℤ × Server). Accounts fds r.1 in
    Ensures-bind (Accounts fds) After
      (elim (accept_poll round.accepted).1 [
        | none ↦ done server
        | some fd ↦ accept_handler fd round.peer_ip round.peer_port server
      ])
      _ (accepted (accept_poll round.accepted).1)
      (λ s a. Ensures-if After (is_neg (accept_poll round.accepted).0) _ _ a (
        Ensures-then After (dtp_poll round.os s.channels) _ (λ w.
          let start = record s { clients = []; channels = w } in
          Ensures-bind (Accounts fds) After (handle_clients round s.clients start) _
            (Accounts-Perm (handle_clients round s.clients start) a.1
              (handle_clients-Accounts round s.clients start b tt a.0))
            (λ s' a'. a'))))
  where
    accepted :
        (o : Option ℕ)
        → Ensures (Accounts (arrived o ++ ledger server)) (elim o [
          | none ↦ done server
          | some fd ↦ accept_handler fd round.peer_ip round.peer_port server
        ])
    accepted none = (h, Perm.refl _)
    accepted (some fd) = accept_handler-Accounts fd round.peer_ip round.peer_port server h

-- A round of a server whose clients are all served, where sockets give no more bytes than they
-- are asked for, if it does not fault: all clients are served afterwards, and the sockets in the
-- slots and those closed are those from before the round and that of the connection it brings,
-- each as often as before.
pub network_handler-Accounts :
    (round : Round) (server : Server) {result : ℤ} {s : Server}
    → Bounds round.recv
    → AllServed server.clients
    → network_handler round server ≡ done (result, s)
    → Accounts (arrivals round ++ ledger server) s
network_handler-Accounts round server b h e =
    Ensures-at (λ (r : ℤ × Server). Accounts (arrivals round ++ ledger server) r.1)
      (network_handler_lem round server b h) e
