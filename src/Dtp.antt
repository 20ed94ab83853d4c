-- ===== src/Dtp.antt =====
-- src/dtp/dtp.c, active.c and passive.c: data channels, on the heap that they are allocated in.
pub mod Transfer
pub mod Stream
pub mod Rounds
pub mod Passive
pub mod Channels
use Prim.Native.Nat.{bit_and, bit_or}
use ftpserv_u.Prelude.{
  ℕ, zero, suc, ◌+◌, ◌-◌, ℤ, pos, negsuc, is_neg, Bool, true, false, ◌||◌, ◌&&◌, not, Option, none,
  some, List, [], ◌∷◌, ◌++◌, Out, done, fault, ◌>>=◌, ltb, leb, ◌==◌, if◌then◌else◌, length, take,
}
use ftpserv_u.Memory.{Bytes, write_at, read_at}
use ftpserv_u.IoBuffer.{IoBuffer, new_buffer}
use ftpserv_u.Network.{
  Received, received, failed, Accepted, network_connect, accept_poll, eagain, negated,
}

abbrev pub dtp_pending : ℕ
dtp_pending = 0

abbrev pub dtp_established : ℕ
dtp_established = 1

abbrev pub dtp_sending : ℕ
dtp_sending = 2

abbrev pub dtp_recving : ℕ
dtp_recving = 3

abbrev pub dtp_closed : ℕ
dtp_closed = 4

abbrev pub dtp_error : ℕ
dtp_error = 5

abbrev pub dtp_free : ℕ
dtp_free = 6

abbrev pub dtp_recv : ℕ
dtp_recv = 0x20

abbrev pub dtp_xmit : ℕ
dtp_xmit = 0x40

abbrev pub dtp_local_buf : ℕ
dtp_local_buf = 0x80

-- The two values of `data_interface_t` that a channel can point to.
pub data Iface : Type 0 where
  passive active : Iface

-- `struct data_channel`. `local` is the word of the union: a descriptor, or the address of a
-- text (below 2^31, 0 for NULL). Only the lists of the module hold `next`.
pub record Channel : Type 0 where
  pub state : ℕ
  pub local : ℤ
  pub remote_fd : ℤ
  pub listen_fd : ℤ
  pub ip : ℕ
  pub port : ℕ
  pub buffer : IoBuffer
  pub iface : Iface

-- GET_STATE and SET_STATE
unfoldable pub get_state : Channel → ℕ
get_state c = bit_and c.state 0x0F

unfoldable pub set_state : Channel → ℕ → Channel
set_state c flag = record c { state = bit_or (bit_and c.state dtp_local_buf) flag }

abbrev pub has_bit : ℕ → ℕ → Bool
has_bit state bit = not (bit_and state bit == 0)

-- What the operating system does with one call of `write` on a channel's descriptor.
pub data Written : Type 0 where
  wrote : ℕ → Written
  not_written : ℕ → Written

-- The calls that a channel makes of the operating system.
pub record Os : Type 0 where
  pub accept : ℤ → Accepted
  pub write : ℤ → Bytes → Written
  pub read : ℤ → ℕ → Received

-- The part of `dtp_write_buffered_data_to_fd` behind the call of `write`.
pub drop_written : IoBuffer → Written → Out (ℤ × IoBuffer)
unfolding read_at write_at
drop_written b (not_written errno) =
    done (if not (errno == eagain) then (negated errno, b) else (pos 0, b))
drop_written b (wrote n) = do
  rest ← read_at b.buffer n (b.size - n)
  moved ← write_at b.buffer 0 rest
  done (pos n, record b { buffer = moved; head = b.head - n })

unfoldable pub write_buffered_data_to_fd : Os → ℤ → IoBuffer → ℕ → Out (ℤ × IoBuffer)
unfolding drop_written
write_buffered_data_to_fd os fd b packet_size =
    let packet = if ltb b.head packet_size then b.head else packet_size in
    if is_neg fd then done (negsuc 0, b) else drop_written b (os.write fd (take packet b.buffer))

pub fill_with : IoBuffer → Received → Out (ℤ × IoBuffer)
unfolding write_at
fill_with b (failed _) = done (negsuc 0, b)
fill_with b (received bytes) = do
  stored ← write_at b.buffer 0 bytes
  done (pos (length bytes), record b { buffer = stored; head = length bytes })

unfoldable pub fill_buffer_from_fd : Os → IoBuffer → ℤ → Out (ℤ × IoBuffer)
unfolding fill_with
fill_buffer_from_fd os b fd =
    if ltb 0 b.head then done (pos b.head, b) else fill_with b (os.read fd b.size)

-- What `dtp_copy_data` leaves behind its two pointers, the channel, and the descriptors that it
-- closes, in order.
pub record Copied : Type 0 where
  pub to : ℤ
  pub from : ℤ
  pub channel : Channel
  pub closes : List ℤ

-- The end of `dtp_copy_data`, once `read` has returned.
pub after_read : ℤ → ℤ → Channel → ℤ → Copied
after_read to from channel (negsuc _) = record {
  to = to;
  from = from;
  channel = set_state channel dtp_error;
  closes = [];
}
after_read to from channel (pos zero) = record {
  to = negsuc 0;
  from = negsuc 0;
  channel = set_state channel dtp_closed;
  closes = to ∷ from ∷ [];
}
after_read to from channel (pos (suc n)) = record {
  to = to;
  from = from;
  channel = channel;
  closes = [];
}

-- `dtp_copy_data`; the pointers are never null.
unfoldable pub copy_data : Os → ℤ → ℤ → Channel → ℕ → Out Copied
unfolding write_buffered_data_to_fd fill_buffer_from_fd after_read
copy_data os to from channel size =
    if is_neg to || is_neg from
    then done (record { to = to; from = from; channel = channel; closes = [] })
    else write_buffered_data_to_fd os to channel.buffer size >>= λ (nwritten, drained).
        let written = record channel { buffer = drained } in
        if is_neg nwritten
        then done
            (record { to = to; from = from; channel = set_state written dtp_error; closes = [] })
        else fill_buffer_from_fd os drained from >>= λ (nread, filled).
            done (after_read to from (record channel { buffer = filled }) nread)

-- `dtp_send_data` copies from the local side to the client, `dtp_receive_data` the other way.
unfoldable pub send_data : Os → Channel → Out (Channel × List ℤ)
unfolding copy_data
send_data os c = copy_data os c.remote_fd c.local c 1500 >>= λ r.
    done (record r.channel { remote_fd = r.to; local = r.from }, r.closes)

unfoldable pub receive_data : Os → Channel → Out (Channel × List ℤ)
unfolding copy_data
receive_data os c = copy_data os c.local c.remote_fd c 512 >>= λ r.
    done (record r.channel { local = r.to; remote_fd = r.from }, r.closes)

-- `dtp_check_ready`
unfoldable pub check_ready : Channel → Channel
unfolding get_state set_state
check_ready c =
    if not (get_state c == dtp_established)
    then c
    else let c' = if has_bit c.state dtp_recv then set_state c dtp_recving else c in
      if has_bit c'.state dtp_xmit then set_state c' dtp_sending else c'

-- `pasv_accept_handler`: the listening socket is closed, and the channel has its connection.
pub pasv_accept_handler : ℕ → Channel → Channel × List ℤ
unfolding set_state
pasv_accept_handler fd c = (
  set_state (record c { listen_fd = negsuc 0; remote_fd = pos fd }) dtp_established,
  if is_neg c.listen_fd then [] else c.listen_fd ∷ [],
)

-- `pasv_try_accept`
unfoldable pub pasv_try_accept : Os → Channel → Channel × List ℤ
unfolding pasv_accept_handler get_state set_state
pasv_try_accept os c =
    if not (get_state c == dtp_pending)
    then (c, [])
    else let (result, callback) = accept_poll (os.accept c.listen_fd) in
      let (called, closes) : Channel × List ℤ = elim callback [
        | none ↦ (c, [])
        | some fd ↦ pasv_accept_handler fd c
      ] in
      (if is_neg result then set_state called dtp_error else called, closes)

-- `active_is_connected`. `pasv_is_connected` is true.
unfoldable pub is_connected : Channel → Bool × Channel
unfolding get_state set_state
is_connected c = elim c.iface [
  | passive ↦ (true, c)
  | active ↦
      if get_state c == dtp_established && not (is_neg c.remote_fd)
      then (true, c)
      else let tried = record c { remote_fd = network_connect c.ip c.port } in
        if is_neg tried.remote_fd then (false, tried) else (true, set_state tried dtp_established)
]

-- `dtp_send_buffer` and `dtp_send_file`: the result, and the channel.
unfoldable pub send_buffer : ℕ → Channel → ℤ × Channel
send_buffer address c = elim c.local [
  | negsuc zero ↦ (
    pos 0,
    record c { local = pos address; state = bit_or c.state (bit_or dtp_local_buf dtp_xmit) },
  )
  | _ ↦ (negsuc 0, c)
]

unfoldable pub send_file : ℤ → Channel → ℤ × Channel
send_file fd c = elim c.local [
  | negsuc zero ↦ (pos 0, record c { local = fd; state = bit_or (bit_and c.state 0x7F) dtp_xmit })
  | _ ↦ (negsuc 0, c)
]

-- The part of the switch of `dtp_poll` that works on one channel.
unfoldable pub poll_channel : Os → Channel → Out (Channel × List ℤ)
unfolding get_state pasv_try_accept check_ready send_data receive_data
poll_channel os c =
    let state = get_state c in
    if state == dtp_pending
    then done (elim c.iface [ passive ↦ pasv_try_accept os c | active ↦ (c, []) ])
    else if state == dtp_established
    then done (check_ready c, [])
    else if state == dtp_sending
    then send_data os c
    else if state == dtp_recving
    then receive_data os c
    else done (c, [])
