-- ===== src/Logging.antt =====
-- src/logging.c: the socket that standard output goes to, and the datagrams sent on it. What is
-- printed to the console on the way is left out.
pub mod Broadcast
pub mod Writing
pub mod Sockets
use Prim.Native.Nat.{bit_or}
use ftpserv_u.Prelude.{
  ℕ, zero, suc, ◌+◌, ◌-◌, ◌^◌, ℤ, pos, negsuc, is_neg, Bool, true, false, not, ◌%◌, Option, none,
  some, List, [], ◌∷◌, ◌++◌, leb, ltb, ◌==◌, if◌then◌else◌, length, take, drop,
}
use ftpserv_u.Memory.{Bytes}

abbrev pub log_udp_port : ℕ
log_udp_port = 4405

abbrev pub dgram_size : ℕ
dgram_size = 576

-- A `struct sockaddr_in`, and one that `memset` has cleared.
pub record Address : Type 0 where
  pub sin_family : ℕ
  pub sin_port : ℕ
  pub s_addr : ℕ

abbrev pub af_inet : ℕ
af_inet = 2

-- The static state: `udp_fd`, `broadcast`, whether standard output and standard error lead to
-- `logging_write`, the datagrams sent, and the sockets closed. `log_lock` is 0 between calls.
pub record Log : Type 0 where
  pub udp_fd : ℤ
  pub broadcast : Address
  pub redirected : Bool
  pub closed : List ℤ

-- The answers of `ACGetAssignedAddress` and `ACGetAssignedSubnet`, each with its result, and of
-- `socket` and `bind`.
pub record NetInfo : Type 0 where
  pub address_result : ℤ
  pub my_ip : ℕ
  pub subnet_result : ℤ
  pub my_subnet : ℕ
  pub socket : ℤ
  pub bind : ℤ

-- `get_broadcast_address`, for a pointer that is not NULL. `none` is -1.
unfoldable pub get_broadcast_address : NetInfo → Option ℕ
get_broadcast_address net =
    if is_neg net.address_result
    then none
    else if is_neg net.subnet_result
    then none
    else some (bit_or net.my_ip (2 ^ 32 - 1 - net.my_subnet))

-- `init_broadcast`
unfoldable pub init_broadcast : NetInfo → ℕ → Log → ℤ × Log
unfolding get_broadcast_address
init_broadcast net port log = elim (get_broadcast_address net) [
  | none ↦ (negsuc 0, log)
  | some ip ↦ (
    pos 0,
    record log {
      broadcast = record { sin_family = af_inet; sin_port = port % 2 ^ 16; s_addr = ip };
    },
  )
]

-- `init_udp_broadcast`. The result of `init_broadcast` is not looked at.
unfoldable pub init_udp_broadcast : NetInfo → ℕ → Log → Log
unfolding init_broadcast
init_udp_broadcast net port log =
    if not (is_neg log.udp_fd)
    then log
    else (let (result, aimed) = init_broadcast net port log in
        let opened = record aimed { udp_fd = net.socket } in
        if is_neg net.socket
        then opened
        else if is_neg net.bind
        then record opened { udp_fd = negsuc 0; closed = opened.closed ++ (net.socket ∷ []) }
        else opened)

-- `deinit_udp_broadcast`
unfoldable pub deinit_udp_broadcast : Log → Log
deinit_udp_broadcast log =
    if not (is_neg log.udp_fd)
    then record log { udp_fd = negsuc 0; closed = log.closed ++ (log.udp_fd ∷ []) }
    else log

-- `logging_init`
unfoldable pub logging_init : NetInfo → Log → Log
unfolding init_udp_broadcast
logging_init net log = record (init_udp_broadcast net log_udp_port log) { redirected = true }

-- `logging_deinit`
unfoldable pub logging_deinit : Log → Log
unfolding deinit_udp_broadcast
logging_deinit log = deinit_udp_broadcast log

-- What `sendto` returns for its i-th call of a write, with the block that it is given.
abbrev pub Sending : Type 0
Sending = ℕ → Bytes → ℤ

-- The loop of `logging_write` on fuel, from the i-th datagram on: the blocks given to `sendto`.
-- `none` says that the fuel did not do. What is left of the text is what `ptr` leads to.
unfoldable pub write_blocks : ℕ → Sending → ℕ → Bytes → Option (List Bytes)
write_blocks zero sendto i ptr = none
write_blocks (suc fuel) sendto i [] = some []
write_blocks (suc fuel) sendto i (c ∷ cs) =
    let ptr = c ∷ cs in
    let remaining = length ptr in
    let block = take (if ltb remaining dgram_size then remaining else dgram_size) ptr in
    elim (sendto i block) [
      | negsuc e ↦ some (block ∷ [])
      | pos sent ↦ elim (write_blocks fuel sendto (suc i) (drop sent ptr)) [
        | none ↦ none
        | some blocks ↦ some (block ∷ blocks)
      ]
    ]

-- `logging_write`, for a text whose length fits an `int`: what is returned, and the blocks given
-- to `sendto`.
unfoldable pub logging_write : ℕ → Sending → Log → Bytes → Option (ℕ × List Bytes)
unfolding write_blocks
logging_write fuel sendto log ptr =
    if is_neg log.udp_fd then some (length ptr, []) else (elim (write_blocks fuel sendto 0 ptr) [
      | none ↦ none
      | some blocks ↦ some (length ptr, blocks)
    ])
