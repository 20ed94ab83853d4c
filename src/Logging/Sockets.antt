-- ===== src/Logging/Sockets.antt =====
-- The socket of the log: when it is opened, and how often it is closed.
use ftpserv_u.Prelude.{
  ℕ, ◌≡◌, refl, sym, ◌%◌, ◌^◌, ℤ, is_neg, true, ◌&&◌, not, Option-cases, List, [], ◌∷◌, ◌++◌, arith,
  if◌then◌else◌, Bool-cases, inl, inr, append-nil,
}
use ftpserv_u.Logging.{
  Log, NetInfo, Address, init_broadcast, init_udp_broadcast, deinit_udp_broadcast, logging_init,
  logging_deinit, get_broadcast_address, log_udp_port,
}

-- The socket that a start of the log opens, if it opens one.
abbrev pub opens : NetInfo → Log → List ℤ
opens net log = if is_neg log.udp_fd && not (is_neg net.socket) then net.socket ∷ [] else []

abbrev pub holds : Log → List ℤ
holds log = if is_neg log.udp_fd then [] else log.udp_fd ∷ []

-- The log after its start, with whatever broadcast address was found.
init-aimed :
    (net : NetInfo) (port : ℕ) (log : Log)
    → (to : Address) × (init_broadcast net port log).1 ≡ record log { broadcast = to }
unfolding init_broadcast
init-aimed net port log = elim (Option-cases (get_broadcast_address net)) [
  | inl e ↦ (log.broadcast, ground arith)
  | inr (ip, e) ↦ (record { sin_family = 2; sin_port = port % 2 ^ 16; s_addr = ip }, ground arith)
]

-- However the calls for the socket turn out, the sockets closed by the end of the log are those
-- closed before, the one that the log had at the start, and the one it opened, each once; and no
-- socket is left. Standard output keeps leading to the log, which drops what it is given.
pub logging_deinit-init :
    (net : NetInfo) (log : Log)
    → let log' = logging_deinit (logging_init net log) in
      (log'.closed ≡ log.closed ++ (holds log ++ opens net log))
      × (is_neg log'.udp_fd ≡ true)
      × (log'.redirected ≡ true)
unfolding logging_deinit logging_init deinit_udp_broadcast init_udp_broadcast
logging_deinit-init net log =
    let (to, aimed) = init-aimed net log_udp_port log in
    elim (Bool-cases (is_neg log.udp_fd)) [
      | inr open_fd ↦ rw open_fd (rw open_fd (refl, refl, refl))
      | inl shut ↦ elim (Bool-cases (is_neg net.socket)) [
        | inl failed ↦
            rw (aimed, shut, failed) (rw failed (sym (append-nil log.closed), failed, refl))
        | inr made ↦ elim (Bool-cases (is_neg net.bind)) [
          | inl failed ↦ rw (aimed, shut, made, failed) (refl, refl, refl)
          | inr bound ↦ rw (aimed, shut, made, bound) (rw made (refl, refl, refl))
        ]
      ]
    ]
