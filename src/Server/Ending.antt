-- ===== src/Server/Ending.antt =====
-- src/ftp.c, `ftp_deinit`, and what it does to the sockets of the clients.
use mathlib.Core.List.Perm
use mathlib.Core.List.{Perm, perm_append_comm}
use ftpserv_u.Prelude.{
  ◌≡◌, refl, sym, ◌∙◌, ℤ, Option, none, some, List, [], ◌∷◌, ◌++◌, append_assoc, append-nil, map,
  arith,
}
use ftpserv_u.Client.{Client}
use ftpserv_u.Server.{Server, socket_of}
use ftpserv_u.Server.Ledger.{sockets, AllServed, Accounts}

-- The loop of `ftp_deinit`: the sockets closed, slot after slot.
unfoldable pub close_all : List (Option Client) → List ℤ → List ℤ
close_all [] closed = closed
close_all (none ∷ slots) closed = close_all slots closed
close_all (some c ∷ slots) closed = close_all slots (closed ++ socket_of c)

-- `ftp_deinit`
unfoldable pub ftp_deinit : Server → Server
unfolding close_all
ftp_deinit server = record server {
  clients = map (λ (slot : Option Client). none) server.clients;
  closed = close_all server.clients server.closed;
}

close_all_lem :
    (slots : List (Option Client)) (closed : List ℤ)
    → AllServed slots
    → close_all slots closed ≡ closed ++ sockets slots
unfolding close_all
close_all_lem [] closed h = sym (append-nil closed)
close_all_lem (none ∷ slots) closed h = close_all_lem slots closed h
close_all_lem (some c ∷ slots) closed h =
    let own = h.0.open_fd in
    let socket : socket_of c ≡ c.fd ∷ [] = ground arith in
    rw socket (
      close_all_lem slots (closed ++ (c.fd ∷ [])) h.1
      ∙ append_assoc closed (c.fd ∷ []) (sockets slots))

sockets-none :
    (slots : List (Option Client)) → sockets (map (λ (slot : Option Client). none) slots) ≡ []
sockets-none [] = refl
sockets-none (slot ∷ slots) = sockets-none slots

-- A server that accounts for some sockets with all its clients served has, after `ftp_deinit`, no
-- client left, and has closed each of those sockets as often as it was taken.
pub ftp_deinit_lem :
    {fds : List ℤ} (server : Server)
    → Accounts fds server
    → (sockets (ftp_deinit server).clients ≡ []) × Perm (ftp_deinit server).closed fds
unfolding ftp_deinit
ftp_deinit_lem server a = (
  sockets-none server.clients,
  rw (close_all_lem server.clients server.closed a.0)
      (Perm.trans (perm_append_comm server.closed (sockets server.clients)) a.1),
)
