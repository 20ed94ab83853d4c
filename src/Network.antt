-- ===== src/Network.antt =====
-- src/network.c: the calls of the socket library are parameters, and their results are data.
pub mod Reading
use Prim.Native.Nat.{min}
use ftpserv_u.Prelude.{
  ℕ, zero, suc, ◌+◌, ◌-◌, ◌%◌, ◌^◌, ◌≤◌, ℤ, pos, negsuc, is_neg, sub_ℕ, Bool, true, false, ◌||◌,
  not, Option, none, some, List, [], ◌∷◌, ◌++◌, Out, done, fault, ◌>>=◌, ltb, leb, ◌==◌,
  if◌then◌else◌, length, replicate,
}
use ftpserv_u.Memory.{Bytes, write_at}
use ftpserv_u.IoBuffer.{IoBuffer, remaining}

-- `-n` for an error number.
abbrev pub negated : ℕ → ℤ
negated n = sub_ℕ 0 n

abbrev pub eagain : ℕ
eagain = 6

abbrev pub enobufs : ℕ
enobufs = 105

-- `network_get_ephermal_port`, on the counter `next_ephermal_port`: the port, and the counter
-- afterwards. The port is returned as a `u16`.
unfoldable pub get_ephermal_port : ℕ → ℕ × ℕ
get_ephermal_port next =
    let advanced = next + 1 in (next % 2 ^ 16, if ltb 65535 advanced then 1024 else advanced)

-- What `recv` or `read` returns: the bytes stored, or an error with its number.
pub data Received : Type 0 where
  received : Bytes → Received
  failed : ℕ → Received

-- An `int` as the `size_t` of a call.
abbrev pub to_size_t : ℤ → ℕ
to_size_t (pos n) = n
to_size_t (negsuc n) = 2 ^ 32 - suc n

pub store_received : IoBuffer → Received → Out (ℤ × IoBuffer)
store_received b (failed errno) = done (negated errno, b)
store_received b (received bytes) = do
  stored ← write_at b.buffer b.head bytes
  let grown = record b { buffer = stored; head = b.head + length bytes }
  cleared ← write_at grown.buffer grown.head (replicate (to_size_t (remaining grown)) 0)
  done (pos (length bytes), record grown { buffer = cleared })

-- `network_read_buffer`. `recv` is asked for at most the bytes that remain.
unfoldable pub read_buffer : (ℕ → Received) → ℤ → IoBuffer → Out (ℤ × IoBuffer)
unfolding store_received remaining
read_buffer recv socket b = if is_neg socket then done (socket, b) else elim (remaining b) [
  | pos zero ↦ done (negated enobufs, b)
  | left ↦ store_received b (recv (to_size_t left))
]

-- The outcome of `accept`.
pub data Accepted : Type 0 where
  connection : ℕ → Accepted
  no_connection : ℕ → Accepted

-- `network_accept_poll`: the result, and the descriptor for which the callback runs.
unfoldable pub accept_poll : Accepted → ℤ × Option ℕ
accept_poll (connection fd) = (pos 0, some fd)
accept_poll (no_connection errno) = if errno == eagain then (pos 0, none) else (negsuc 0, none)

-- `network_connect`, which is not written yet.
abbrev pub network_connect : ℕ → ℕ → ℤ
network_connect remote_ip remote_port = negsuc 0

-- `network_close`: what it returns, where `socketclose` returns `result`, and the socket closed.
unfoldable pub network_close : (ℤ → ℤ) → ℤ → ℤ × List ℤ
network_close socketclose socket =
    if is_neg socket then (socket, []) else (socketclose socket, socket ∷ [])

-- What the socket library answers while a server socket is made.
pub record Listening : Type 0 where
  pub socket : ℤ
  pub bind : ℤ
  pub listen : ℤ

-- `network_create_serversocket`: the socket or -1, and the descriptors closed on the way.
unfoldable pub create_serversocket : Listening → ℤ × List ℤ
create_serversocket os =
    if is_neg os.socket
    then (negsuc 0, [])
    else if is_neg os.bind
    then (negsuc 0, os.socket ∷ [])
    else if is_neg os.listen
    then (negsuc 0, os.socket ∷ [])
    else (os.socket, [])
