-- ===== src/Commands/Invoke/Listing.antt =====
-- LIST, in active mode.
use Prim.Native.Nat.{bit_and, bit_or}
use ftpserv_u.Prelude.{
  ℕ, ◌+◌, ◌<◌, ◌≡◌, refl, Bool, true, false, not, Option, none, some, [], ◌∷◌, negsuc, done, arith,
  ◌==◌, ==_self,
}
use ftpserv_u.Memory.{Bytes}
use ftpserv_u.Text.{codes}
use ftpserv_u.IoBuffer.{IoBuffer, new_buffer}
use ftpserv_u.IoBuffer.Size.{new_buffer_lem}
use ftpserv_u.Vfs.{list_directory}
use ftpserv_u.Dtp.{Channel, Os, active, dtp_pending, get_state, is_connected, poll_channel}
use ftpserv_u.Dtp.Passive.{all_below-lookup}
use ftpserv_u.Dtp.Channels.{Channels, update, load, store, new_active_channel}
use ftpserv_u.Dtp.Channels.Sound.{load-store}
use ftpserv_u.Client.{Session, respond, has_flag, set_flag, state_data}
use ftpserv_u.Commands.{Env, do_list}
use ftpserv_u.Commands.Invoke.{run_func, data_send_buffer, channel_init}

-- The channel that LIST makes for the client's own address.
abbrev pending_channel : Env → ℕ → ℕ → IoBuffer → Channel
pending_channel env ip port b = record {
  state = dtp_pending;
  local = negsuc 0;
  remote_fd = negsuc 0;
  listen_fd = env.garbage;
  ip = ip;
  port = port;
  buffer = b;
  iface = active;
}

abbrev with_new : Env → ℕ → ℕ → IoBuffer → Channels → Channels
with_new env ip port b w = record w {
  heap = update w.heap w.next_address (some (pending_channel env ip port b));
  next_address = w.next_address + 1;
  next_dtp_list = w.next_address ∷ w.next_dtp_list;
}

new_active_channel-some :
    (env : Env) (ip port : ℕ) (w : Channels) {b : IoBuffer}
    → (ip == 0) ≡ false
    → new_buffer true true true 192000 ≡ some b
    → new_active_channel env.garbage ip port w ≡ done (with_new env ip port b w, w.next_address)
unfolding new_active_channel
new_active_channel-some env ip port w z e = ground arith

-- What the client waits for: a channel that stays pending, whatever the system answers.
abbrev pub Stuck : Session → ℕ → Channel → Type 0
Stuck s p c =
    (has_flag s.client state_data ≡ true)
    × (s.client.data_channel ≡ some p)
    × (load s.channels p ≡ done c)
    × (get_state c ≡ dtp_pending)
    × ((os : Os) → poll_channel os c ≡ done (c, []))

flag_test : ℕ → Bool
flag_test state = not (bit_and (bit_or state 8) 8 == 0)

data_flag : (state : ℕ) → state < 32 → not (bit_and (bit_or state 8) 8 == 0) ≡ true
unfolding flag_test
data_flag state h = all_below-lookup 32 flag_test state refl h

pending_idle :
    (os : Os) (c : Channel)
    → c.iface ≡ active
    → get_state c ≡ dtp_pending
    → poll_channel os c ≡ done (c, [])
unfolding poll_channel
pending_idle os c i e = ground arith

-- The session that LIST leaves where the connection fails.
abbrev after_list : Env → IoBuffer → Session → Session
after_list env b s =
    let p = s.channels.next_address in
    let tried = pending_channel env s.client.ip s.client.port b in
    record s {
      client = record (set_flag s.client state_data) { data_channel = some p };
      channels = store (with_new env s.client.ip s.client.port b s.channels) p tried;
    }

tried_lem :
    (c : Channel)
    → c.iface ≡ active
    → get_state c ≡ dtp_pending
    → is_connected c ≡ (false, record c { remote_fd = negsuc 0 })
unfolding is_connected
tried_lem c i e = ground arith

load-new :
    (env : Env) (ip port : ℕ) (b : IoBuffer) (w : Channels)
    → load (with_new env ip port b w) w.next_address ≡ done (pending_channel env ip port b)
unfolding load
load-new env ip port b w = ground (arith, ==_self w.next_address)

run_list :
    (env : Env) (args : Bytes) (s : Session) {b : IoBuffer} {text : Option Bytes}
    → list_directory env.path_max env.opendir env.fresh s.client.cwd ≡ done text
    → s.client.data_channel ≡ none
    → (s.client.ip == 0) ≡ false
    → new_buffer true true true 192000 ≡ some b
    → run_func env do_list args s
      ≡ respond 425 (codes "Failed to connect to client") (after_list env b s)
unfolding run_func data_send_buffer channel_init
run_list env args s {b} f d ip made = ground (
  arith,
  new_active_channel-some env s.client.ip s.client.port s.channels ip made,
  load-new env s.client.ip s.client.port b s.channels,
  tried_lem (pending_channel env s.client.ip s.client.port b) refl pending,
)
  where
    pending : get_state (pending_channel env s.client.ip s.client.port b) ≡ dtp_pending
    pending = unfold get_state in refl

-- LIST of a directory whose listing is made with no fault, for a client with no data channel, with
-- an address and with no flags but those of src/ftp.h below 32: since `network_connect` always
-- fails, the client is told so with 425, and is left in the middle of a transfer over a pending
-- channel that no poll moves on.
pub list-Stuck :
    (env : Env) (args : Bytes) (s : Session) {text : Option Bytes}
    → list_directory env.path_max env.opendir env.fresh s.client.cwd ≡ done text
    → s.client.data_channel ≡ none
    → (s.client.ip == 0) ≡ false
    → s.client.state < 32
    → (t : Session) × (p : ℕ) × (c : Channel) × (run_func env do_list args s
        ≡ respond 425 (codes "Failed to connect to client") t)
      × Stuck t p c
list-Stuck env args s f d ip h =
    let (b, made, _, _, _, _, _) = new_buffer_lem 192000 in
    let c = pending_channel env s.client.ip s.client.port b in
    let pending : get_state c ≡ dtp_pending = unfold get_state in refl in
    (
      after_list env b s,
      s.channels.next_address,
      c,
      run_list env args s f d ip made,
      (
        data_flag s.client.state h,
        refl,
        load-store (with_new env s.client.ip s.client.port b s.channels) s.channels.next_address c,
        pending,
        λ os. pending_idle os c refl pending,
      ),
    )
