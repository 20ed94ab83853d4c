-- ===== src/Server/Slots.antt =====
-- The slots of the server over a round of `ftp_network_handler`.
use ftpserv_u.Prelude.{
  ℕ, zero, suc, ◌+◌, ◌≡◌, refl, ap, sym, ◌∙◌, ℤ, pos, negsuc, is_neg, if◌then◌else◌, Ensures-at,
  Ensures-then, Option, none, some, List, [], ◌∷◌, ◌++◌, Out, done, >>=-eq-done, arith, Bool-cases,
  Option-cases, inl, inr, length, length-append, set,
}
use ftpserv_u.Network.{accept_poll}
use ftpserv_u.Dtp.Channels.{dtp_poll}
use ftpserv_u.Client.{Client}
use ftpserv_u.Server.{
  Server, Round, find_open_client_slot, accept_handler, handle_client, handle_clients,
  network_handler,
}
use ftpserv_u.Server.Accepting.{accept_handler_lem, accept_handler-full}

length-set {ℓ} : {A : Type ℓ} (xs : List A) (i : ℕ) (v : A) → length (set xs i v) ≡ length xs
length-set [] i v = refl
length-set (x ∷ xs) zero v = refl
length-set (x ∷ xs) (suc i) v = ap suc (length-set xs i v)

accept_handler-length :
    (fd ip port : ℕ) (server : Server) {s : Server}
    → accept_handler fd ip port server ≡ done s
    → length s.clients ≡ length server.clients
accept_handler-length fd ip port server {s} h =
    elim (Option-cases (find_open_client_slot server.clients)) [
      | inl e ↦
          let is : record server { closed = server.closed ++ (pos fd ∷ []) } ≡ s =
            let f = accept_handler-full fd ip port server e in cc in
          ap (λ (t : Server). length t.clients) (sym is)
      | inr (slot, e) ↦
          let (_, (c, f, _, _, _, _, _)) = accept_handler_lem fd ip port server e in
          let is : record server { clients = set server.clients slot (some c) } ≡ s = cc in
          ap (λ (t : Server). length t.clients) (sym is) ∙ length-set server.clients slot (some c)
    ]

handle_clients-length :
    (round : Round) (slots : List (Option Client)) (server : Server) {s : Server}
    → handle_clients round slots server ≡ done s
    → length s.clients ≡ length server.clients + length slots
unfolding handle_clients
handle_clients-length round [] server {s} h =
    let is : server ≡ s = cc in ap (λ (t : Server). length t.clients) (sym is) ∙ omega arith
handle_clients-length round (none ∷ slots) server h =
    handle_clients-length round slots _ h ∙ omega (arith, length-append server.clients (none ∷ []))
handle_clients-length round (some c ∷ slots) server h =
    let (handled, _, rest) = >>=-eq-done (handle_client round _ server.sent server.closed) _ h in
    handle_clients-length round slots _ rest
    ∙ omega (arith, length-append server.clients (handled.slot ∷ []))

-- A round that does not fault keeps the number of slots, whatever connections, data and commands
-- come in: every slot is handled once and stays a slot.
pub network_handler-length :
    (round : Round) (server : Server) {result : ℤ} {s : Server}
    → network_handler round server ≡ done (result, s)
    → length s.clients ≡ length server.clients
unfolding network_handler
network_handler-length round server {result} {s} h =
    let (t, accepted, rest) = >>=-eq-done (accepted_by (accept_poll round.accepted).1) _ h in
    elim (Bool-cases (is_neg (accept_poll round.accepted).0)) [
      | inl bad ↦
          let is : t ≡ s = ground arith in
          ap (λ (u : Server). length u.clients) (sym is)
          ∙ same (accept_poll round.accepted).1 accepted
      | inr good ↦
          let (w, _, handled) = >>=-eq-done (dtp_poll round.os t.channels) _ (rw good at rest) in
          let (u, e, last) = >>=-eq-done (handle_clients round t.clients _) _ handled in
          let is : u ≡ s = cc in
          ap (λ (v : Server). length v.clients) (sym is)
          ∙ handle_clients-length round t.clients _ e
          ∙ omega arith
          ∙ same (accept_poll round.accepted).1 accepted
    ]
  where
    accepted_by : Option ℕ → Out Server
    accepted_by callback = elim callback [
      | none ↦ done server
      | some fd ↦ accept_handler fd round.peer_ip round.peer_port server
    ]

    same :
        (callback : Option ℕ) {t : Server}
        → accepted_by callback ≡ done t
        → length t.clients ≡ length server.clients
    same none {t} e = let is : server ≡ t = cc in ap (λ (u : Server). length u.clients) (sym is)
    same (some fd) e = accept_handler-length fd round.peer_ip round.peer_port server e

-- The result of a round is that of `network_accept_poll`.
pub network_handler-result :
    (round : Round) (server : Server) {result : ℤ} {s : Server}
    → network_handler round server ≡ done (result, s)
    → result ≡ (if is_neg (accept_poll round.accepted).0 then negsuc 0 else pos 0)
unfolding network_handler
network_handler-result round server h =
    let Says = λ (r : ℤ × Server).
      r.0 ≡ (if is_neg (accept_poll round.accepted).0 then negsuc 0 else pos 0) in
    let Good = λ (r : ℤ × Server). r.0 ≡ pos 0 in
    Ensures-at Says
      (Ensures-then Says
        (elim (accept_poll round.accepted).1 [
          | none ↦ done server
          | some fd ↦ accept_handler fd round.peer_ip round.peer_port server
        ])
        _
        (λ s. elim (Bool-cases (is_neg (accept_poll round.accepted).0)) [
          | inl e ↦ rw e refl
          | inr e ↦ rw e (
              Ensures-then Good (dtp_poll round.os s.channels) _ (λ w.
                Ensures-then Good
                  (handle_clients round s.clients (record s { clients = []; channels = w })) _
                  (λ s'. refl)))
        ]))
      h
