-- ===== src/Server/Holdings.antt =====
-- The sockets that the server accounts for as a bag, which forgets which slot holds a socket and
-- which have been closed, and the round of the server as a step on it.
use mathlib.Core.List.Perm
use mathlib.Core.List.{Perm}
use mathlib.Core.Quot
use mathlib.Core.Quot.{Quot, Quot-set}
use ftpserv_u.Prelude.{ℕ, ◌≡◌, refl, ◌∙◌, ℤ, pos, Option, none, some, List, [], ◌∷◌, ◌++◌, done}
use ftpserv_u.Network.{accept_poll}
use ftpserv_u.Server.{Server, Round, network_handler}
use ftpserv_u.Server.Served.{Bounds}
use ftpserv_u.Server.Ledger.{sockets, AllServed, ledger, arrived, network_handler-Accounts}
use ftpserv_u.Server.Ending.{ftp_deinit, ftp_deinit_lem}

abbrev SameSockets : List ℤ → List ℤ → Type 0
SameSockets = Perm

-- Sockets, each as often as it was taken, in no order.
abbrev pub SocketBag : Type 0
SocketBag = Quot SameSockets

abbrev pub bag : List ℤ → SocketBag
bag fds = Quot.mk fds

-- A socket is put into the bag.
pub take : ℤ → SocketBag → SocketBag
take fd = Quot.lift Quot-set (λ fds. Quot.mk (fd ∷ fds)) (λ xs ys p. Quot.sound (Perm.cons fd p))

abbrev pub take_arrived : Option ℕ → SocketBag → SocketBag
take_arrived none b = b
take_arrived (some fd) b = take (pos fd) b

-- The sockets that a server accounts for: those of its clients, and those that it has closed.
abbrev pub holdings : Server → SocketBag
holdings server = bag (ledger server)

bag-arrived : (o : Option ℕ) (fds : List ℤ) → bag (arrived o ++ fds) ≡ take_arrived o (bag fds)
unfolding take
bag-arrived none fds = refl
bag-arrived (some fd) fds = refl

-- On the bag of its sockets a round of the server does one thing: it takes the socket of the
-- connection that `accept` returns, if it returns one. Whatever the clients send, whichever leave
-- and whether there is a slot for the connection, none is lost and none is closed twice. This
-- holds where the clients are served, sockets give no more than they are asked for, and nothing
-- faults; the clients are served again afterwards.
pub network_handler-holdings :
    (round : Round) (server : Server) {result : ℤ} {s : Server}
    → Bounds round.recv
    → AllServed server.clients
    → network_handler round server ≡ done (result, s)
    → (holdings s ≡ take_arrived (accept_poll round.accepted).1 (holdings server))
      × AllServed s.clients
network_handler-holdings round server b h e =
    let (served, same) = network_handler-Accounts round server b h e in
    (Quot.sound same ∙ bag-arrived (accept_poll round.accepted).1 (ledger server), served)

-- `ftp_deinit` leaves no client, and closes what the clients held: the sockets closed are then all
-- that the server accounted for.
pub ftp_deinit-holdings :
    (server : Server)
    → AllServed server.clients
    → (sockets (ftp_deinit server).clients ≡ [])
      × (bag (ftp_deinit server).closed ≡ holdings server)
ftp_deinit-holdings server h =
    let (none_left, same) = ftp_deinit_lem server (h, Perm.refl (ledger server)) in
    (none_left, Quot.sound same)
