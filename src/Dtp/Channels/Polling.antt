-- ===== src/Dtp/Channels/Polling.antt =====
-- A poll of one channel, by its state: each descriptor stays with the channel or is closed.
use mathlib.Core.Path.{subst}
use ftpserv_u.Prelude.{
  ◌≡◌, refl, sym, ℤ, pos, negsuc, true, false, ◌⊎◌, inl, inr, List, [], ◌∷◌, Out, done, ◌==◌, arith,
  Bool-cases, Ensures,
}
use ftpserv_u.Network.{Accepted, connection, no_connection, accept_poll, eagain}
use ftpserv_u.Dtp.{
  Channel, Iface, passive, active, Os, get_state, set_state, dtp_pending, dtp_established,
  dtp_sending, dtp_recving, dtp_error, dtp_xmit, dtp_recv, has_bit, send_data, receive_data,
  check_ready, pasv_accept_handler, pasv_try_accept, poll_channel,
}
use ftpserv_u.Dtp.Channels.Held.{
  IsPlain, accepts, set-IsPlain, accepts-going, open_count, count-held, Balances,
  send_data-Balances, receive_data-Balances,
}

-- A channel that differs in no descriptor, where none is accepted and none is closed.
same_ends-Balances :
    (os : Os) (c c' : Channel)
    → accepts os c ≡ []
    → IsPlain c'
    → c'.local ≡ c.local
    → c'.listen_fd ≡ c.listen_fd
    → c'.remote_fd ≡ c.remote_fd
    → Balances os c (c', [])
same_ends-Balances os c c' a i l n r =
    (i, λ fd. rw (a, count-held fd c, count-held fd c', l, n, r) (omega arith))

check_ready-Balances :
    (os : Os) (c : Channel)
    → IsPlain c
    → get_state c ≡ dtp_established
    → Balances os c (check_ready c, [])
unfolding check_ready set_state
check_ready-Balances os c i established =
    let g : (get_state c == dtp_pending) ≡ false = rw established refl in
    let none_accepted = accepts-going os c g in
    let recving = set_state c dtp_recving in
    let recving_plain = set-IsPlain c dtp_recving i.file refl refl in
    elim (Bool-cases (has_bit c.state dtp_recv)) [
      | inl r ↦ elim (Bool-cases (has_bit recving.state dtp_xmit)) [
        | inl x ↦
            rw (established, r, x)
              (same_ends-Balances os c (set_state recving dtp_sending) none_accepted
                (set-IsPlain recving dtp_sending recving_plain.file refl refl) refl refl refl)
        | inr x ↦
            rw (established, r, x)
              (same_ends-Balances os c recving none_accepted recving_plain refl refl refl)
      ]
      | inr r ↦ elim (Bool-cases (has_bit c.state dtp_xmit)) [
        | inl x ↦
            rw (established, r, x)
              (same_ends-Balances os c (set_state c dtp_sending) none_accepted
                (set-IsPlain c dtp_sending i.file refl refl) refl refl refl)
        | inr x ↦ rw (established, r, x) (same_ends-Balances os c c none_accepted i refl refl refl)
      ]
    ]

accepted-Balances :
    (os : Os) (c : Channel) (answer : Accepted)
    → IsPlain c
    → c.iface ≡ passive
    → get_state c ≡ dtp_pending
    → os.accept c.listen_fd ≡ answer
    → Balances os c (pasv_try_accept os c)
unfolding pasv_try_accept pasv_accept_handler accept_poll set_state
accepted-Balances os c (connection n) i p s e =
    let unconnected : (fd : ℤ) → open_count fd c.remote_fd ≡ 0 = λ fd. rw (i.unconnected s) refl in
    let called = record c { listen_fd = negsuc 0; remote_fd = pos n } in
    let taken : accepts os c ≡ pos n ∷ [] = ground (arith, p, s, e) in
    rw (s, e)
      (
        set-IsPlain called dtp_established i.file refl refl,
        λ fd.
            rw
              (
                taken,
                count-held fd c,
                count-held fd (set_state called dtp_established),
                unconnected fd,
              )
              (omega arith),
      )
accepted-Balances os c (no_connection errno) i p s e = elim (Bool-cases (errno == eagain)) [
  | inl again ↦
      let none_taken : accepts os c ≡ [] = ground (arith, p, s, e, again) in
      rw (s, e, again) (same_ends-Balances os c c none_taken i refl refl refl)
  | inr broken ↦
      let none_taken : accepts os c ≡ [] = ground (arith, p, s, e, broken) in
      rw (s, e, broken)
        (same_ends-Balances os c (set_state c dtp_error) none_taken
          (set-IsPlain c dtp_error i.file refl refl) refl refl refl)
]

iface-cases : (i : Iface) → (i ≡ passive) ⊎ (i ≡ active)
iface-cases passive = inl refl
iface-cases active = inr refl

-- A poll whose result is known.
polled :
    (os : Os) (c : Channel) {m : Out (Channel × List ℤ)}
    → poll_channel os c ≡ m
    → Ensures (Balances os c) m
    → Ensures (Balances os c) (poll_channel os c)
polled os c e h = subst (Ensures (Balances os c)) (sym e) h

pending-Balances :
    (os : Os) (c : Channel)
    → IsPlain c
    → (get_state c == dtp_pending) ≡ true
    → Ensures (Balances os c) (poll_channel os c)
unfolding poll_channel
pending-Balances os c i s = elim (iface-cases c.iface) [
  | inl p ↦
      let is : poll_channel os c ≡ done (pasv_try_accept os c) = ground (arith, s, p) in
      polled os c is (accepted-Balances os c (os.accept c.listen_fd) i p (ground (arith, s)) refl)
  | inr p ↦
      let is : poll_channel os c ≡ done (c, []) = ground (arith, s, p) in
      let none_taken : accepts os c ≡ [] = ground (arith, p) in
      polled os c is (same_ends-Balances os c c none_taken i refl refl refl)
]

-- A poll of a channel that copies to or from a file, in any state: if it does not fault, each
-- descriptor that the channel held or has accepted is then held by it or has been closed, as often
-- as before.
pub poll_channel-Balances :
    (os : Os) (c : Channel) → IsPlain c → Ensures (Balances os c) (poll_channel os c)
unfolding poll_channel
poll_channel-Balances os c i = elim (Bool-cases (get_state c == dtp_pending)) [
  | inl s ↦ pending-Balances os c i s
  | inr s ↦ elim (Bool-cases (get_state c == dtp_established)) [
    | inl e ↦
        let is : poll_channel os c ≡ done (check_ready c, []) = ground (arith, s, e) in
        polled os c is (check_ready-Balances os c i (ground (arith, e)))
    | inr e ↦ elim (Bool-cases (get_state c == dtp_sending)) [
      | inl x ↦
          let is : poll_channel os c ≡ send_data os c = ground (arith, s, e, x) in
          polled os c is (send_data-Balances os c i.file s)
      | inr x ↦ elim (Bool-cases (get_state c == dtp_recving)) [
        | inl r ↦
            let is : poll_channel os c ≡ receive_data os c = ground (arith, s, e, x, r) in
            polled os c is (receive_data-Balances os c i.file s)
        | inr r ↦
            let is : poll_channel os c ≡ done (c, []) = ground (arith, s, e, x, r) in
            polled os c is (same_ends-Balances os c c (accepts-going os c s) i refl refl refl)
      ]
    ]
  ]
]
