-- ===== src/Dtp/Channels.antt =====
-- The module state of src/dtp/dtp.c: the two lists of channels, and the heap that holds them.
-- An address is never used twice, so that a use after `free` shows as a fault.
pub mod Sound
pub mod Dangling
pub mod Held
pub mod Polling
pub mod Ledger
pub mod Balance
use ftpserv_u.Prelude.{
  ℕ, zero, suc, ◌+◌, ◌-◌, ℤ, pos, negsuc, is_neg, Bool, true, false, ◌||◌, not, Option, none, some,
  List, [], ◌∷◌, ◌++◌, Out, done, fault, ◌>>=◌, ◌==◌, if◌then◌else◌,
}
use ftpserv_u.IoBuffer.{IoBuffer, new_buffer}
use ftpserv_u.Network.{Listening, create_serversocket}
use ftpserv_u.Dtp.{
  Channel, Iface, passive, active, Os, get_state, poll_channel, dtp_pending, dtp_free,
  dtp_local_buf, has_bit,
}

-- `closed` logs the descriptors that have been closed, in order.
pub record Channels : Type 0 where
  pub heap : ℕ → Option Channel
  pub next_address : ℕ
  pub dtp_list : List ℕ
  pub next_dtp_list : List ℕ
  pub closed : List ℤ

abbrev pub update : (ℕ → Option Channel) → ℕ → Option Channel → ℕ → Option Channel
update heap p c q = if p == q then c else heap q

-- A read through a pointer to a channel.
unfoldable pub load : Channels → ℕ → Out Channel
load w p = elim (w.heap p) [ none ↦ fault | some c ↦ done c ]

abbrev pub store : Channels → ℕ → Channel → Channels
store w p c = record w { heap = update w.heap p (some c) }

abbrev pub close_open : ℤ → List ℤ
close_open fd = if is_neg fd then [] else fd ∷ []

-- The descriptors that `free_data_channel` closes. With DTP_LOCAL_BUF set the local word is a
-- text to be freed, and -1 is no such address.
pub closes_of : Channel → Out (List ℤ)
closes_of c =
    let remote = close_open c.listen_fd ++ close_open c.remote_fd in
    if has_bit c.state dtp_local_buf
    then if is_neg c.local then fault else done remote
    else done (close_open c.local ++ remote)

-- `free_data_channel`
unfoldable pub free_data_channel : ℕ → Channels → Out Channels
unfolding load closes_of
free_data_channel p w = load w p >>= λ c. closes_of c >>= λ closes.
    done (record w { heap = update w.heap p none; closed = w.closed ++ closes })

-- `new_data_channel`, for the interface that its caller sets. `garbage` is what the fresh memory
-- holds for `listen_fd`, which is not set. Nor is `buffer` where the address is refused, and
-- `base.free` follows that pointer. Allocations succeed.
unfoldable pub new_data_channel : Iface → ℤ → ℕ → ℕ → Channels → Out (Channels × Option ℕ)
new_data_channel iface garbage ip port w =
    if ip == 0 then fault else elim (new_buffer true true true 192000) [
      | none ↦ done (w, none)
      | some buffer ↦
          let p = w.next_address in
          done (
            record w {
              heap = update w.heap p (
                  some (record {
                    state = dtp_pending;
                    local = negsuc 0;
                    remote_fd = negsuc 0;
                    listen_fd = garbage;
                    ip = ip;
                    port = port;
                    buffer = buffer;
                    iface = iface;
                  }));
              next_address = p + 1;
              next_dtp_list = p ∷ w.next_dtp_list;
            },
            some p,
          )
    ]

-- `new_active_channel` and `new_passive_channel` write through the result unchecked.
unfoldable pub made_channel : Channels × Option ℕ → Out (Channels × ℕ)
made_channel (w, none) = fault
made_channel (w, some p) = done (w, p)

unfoldable pub new_active_channel : ℤ → ℕ → ℕ → Channels → Out (Channels × ℕ)
unfolding new_data_channel made_channel
new_active_channel garbage ip port w = new_data_channel active garbage ip port w >>= made_channel

-- What `new_passive_channel` does with a new channel. Where the server socket fails the channel
-- is freed, and stays in the list.
unfoldable pub listen_on : Listening → ℕ → Channels → Out (Channels × Option ℕ)
unfolding load free_data_channel
listen_on os p w =
    let (fd, closes) = create_serversocket os in
    load w p >>= λ c.
    let w' = record (store w p (record c { listen_fd = fd })) { closed = w.closed ++ closes } in
    (if is_neg fd
      then (free_data_channel p w' >>= λ freed. done (freed, none))
      else done (w', some p))

unfoldable pub new_passive_channel : Listening → ℤ → ℕ → ℕ → Channels → Out (Channels × Option ℕ)
unfolding new_data_channel made_channel listen_on
new_passive_channel os garbage ip port w = new_data_channel passive garbage ip port w >>= λ made.
    made_channel made >>= λ (w', p). listen_on os p w'

-- The end of the loop body of `dtp_poll`, for a channel as its poll has left it.
unfoldable pub settle : ℕ → Channel → List ℤ → Channels → Out Channels
unfolding free_data_channel
settle p c' closes w =
    let w' = record (store w p c') { closed = w.closed ++ closes } in
    if get_state c' == dtp_free
    then free_data_channel p w'
    else done (record w' { next_dtp_list = p ∷ w'.next_dtp_list })

-- The loop of `dtp_poll` over the channels of `dtp_list`.
unfoldable pub poll_list : Os → List ℕ → Channels → Out Channels
unfolding load settle
poll_list os [] w = done w
poll_list os (p ∷ ps) w = load w p >>= λ c.
    poll_channel os c >>= λ (c', closes). settle p c' closes w >>= λ w'. poll_list os ps w'

-- `dtp_poll`
unfoldable pub dtp_poll : Os → Channels → Out Channels
unfolding poll_list
dtp_poll os w = poll_list os w.dtp_list (record w { dtp_list = [] }) >>= λ w'.
    done (record w' { dtp_list = w'.next_dtp_list; next_dtp_list = [] })
