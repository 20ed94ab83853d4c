-- ===== src/Dtp/Passive.antt =====
-- The bits of a channel's state, and the order of accept and LIST on a passive channel.
use Prim.Native.Nat.{bit_and, bit_or}
use ftpserv_u.Prelude.{
  ℕ, zero, suc, ◌<◌, ◌≡◌, refl, ap, ◌∙◌, ℤ, pos, negsuc, is_neg, Bool, true, false, not, ◌&&◌, List,
  [], ◌∷◌, done, arith, ◌==◌, if◌then◌else◌, Bool-cases, inl, inr,
}
use ftpserv_u.Network.{connection, accept_poll}
use ftpserv_u.Dtp.{
  Channel, passive, Os, get_state, set_state, has_bit, check_ready, poll_channel, dtp_pending,
  dtp_established, dtp_sending, dtp_recving, dtp_recv, dtp_xmit, dtp_local_buf,
}

-- A test of every number below a bound.
abbrev pub all_below : ℕ → (ℕ → Bool) → Bool
all_below zero f = true
all_below (suc n) f = f n && all_below n f

pub all_below-lookup : (n : ℕ) (f : ℕ → Bool) (k : ℕ) → all_below n f ≡ true → k < n → f k ≡ true
all_below-lookup zero f k h l = absurd (ground arith)
all_below-lookup (suc n) f k h l = elim (Bool-cases (k == n)) [
  | inl last ↦ ground arith
  | inr earlier ↦ all_below-lookup n f k (ground arith) (ground arith)
]

abbrev flags_test : ℕ → ℕ → Bool
flags_test flag s =
    let t = bit_or (bit_and s 0x80) flag in
    (bit_and t 0x0F == flag)
    && ((bit_and t 0x20 == 0) && ((bit_and t 0x40 == 0) && (bit_and t 0x80 == bit_and s 0x80)))

flags_table : all_below 7 (λ flag. all_below 256 (flags_test flag)) ≡ true
flags_table = refl

-- The state byte of a channel.
abbrev pub IsByte : Channel → Type 0
IsByte c = c.state < 256

flags_lem :
    (flag s : ℕ)
    → flag < 7
    → s < 256
    → (bit_and (bit_or (bit_and s 0x80) flag) 0x0F ≡ flag)
      × ((bit_and (bit_or (bit_and s 0x80) flag) 0x20 == 0) ≡ true)
      × ((bit_and (bit_or (bit_and s 0x80) flag) 0x40 == 0) ≡ true)
      × (bit_and (bit_or (bit_and s 0x80) flag) 0x80 ≡ bit_and s 0x80)
flags_lem flag s h k =
    let row = all_below-lookup 7 (λ flag. all_below 256 (flags_test flag)) flag flags_table h in
    let cell = all_below-lookup 256 (flags_test flag) s row k in ground arith

-- SET_STATE sets the state that it is given, and clears the request to send or receive that the
-- state byte holds as well. Of the other bits it keeps the mark of a local buffer.
pub set_state_lem :
    (c : Channel) (flag : ℕ)
    → IsByte c
    → flag < 7
    → (get_state (set_state c flag) ≡ flag)
      × (has_bit (set_state c flag).state dtp_recv ≡ false)
      × (has_bit (set_state c flag).state dtp_xmit ≡ false)
      × (has_bit (set_state c flag).state dtp_local_buf ≡ has_bit c.state dtp_local_buf)
unfolding get_state set_state
set_state_lem c flag b h =
    let (state, recv, xmit, local) = flags_lem flag c.state h b in
    (state, ap not recv, ap not xmit, ap (λ (bits : ℕ). not (bits == 0)) local)

check_ready-recv :
    (c : Channel)
    → get_state c ≡ dtp_established
    → has_bit c.state dtp_recv ≡ true
    → has_bit (set_state c dtp_recving).state dtp_xmit ≡ false
    → check_ready c ≡ set_state c dtp_recving
unfolding check_ready
check_ready-recv c e r x = ground arith

check_ready-xmit :
    (c : Channel)
    → get_state c ≡ dtp_established
    → has_bit c.state dtp_recv ≡ false
    → has_bit c.state dtp_xmit ≡ true
    → check_ready c ≡ set_state c dtp_sending
unfolding check_ready
check_ready-xmit c e r x = ground arith

check_ready-idle :
    (c : Channel)
    → has_bit c.state dtp_recv ≡ false
    → has_bit c.state dtp_xmit ≡ false
    → check_ready c ≡ c
unfolding check_ready
check_ready-idle c r x = ground arith

-- `dtp_check_ready` starts the transfer that the state byte of an established channel asks for:
-- to receive, or else to send, or none.
pub check_ready_lem :
    (c : Channel)
    → IsByte c
    → get_state c ≡ dtp_established
    → get_state (check_ready c) ≡ (
        if has_bit c.state dtp_recv
        then dtp_recving
        else if has_bit c.state dtp_xmit
        then dtp_sending
        else dtp_established)
check_ready_lem c b e = elim (Bool-cases (has_bit c.state dtp_recv)) [
  | inl r ↦
      let (state, _, no_xmit, _) = set_state_lem c dtp_recving b (omega arith) in
      rw r (ap get_state (check_ready-recv c e r no_xmit) ∙ state)
  | inr r ↦ elim (Bool-cases (has_bit c.state dtp_xmit)) [
    | inl x ↦ rw r (
        rw x (
          ap get_state (check_ready-xmit c e r x)
          ∙ (set_state_lem c dtp_sending b (omega arith)).0))
    | inr x ↦ rw r (rw x (ap get_state (check_ready-idle c r x) ∙ e))
  ]
]

poll_established :
    (os : Os) (c : Channel)
    → get_state c ≡ dtp_established
    → poll_channel os c ≡ done (check_ready c, [])
unfolding poll_channel
poll_established os c e = ground arith

-- The channel with its connection.
abbrev with_remote : Channel → ℕ → Channel
with_remote c fd = record c { listen_fd = negsuc 0; remote_fd = pos fd }

poll_pending :
    (os : Os) (c : Channel) (fd : ℕ)
    → c.iface ≡ passive
    → get_state c ≡ dtp_pending
    → os.accept c.listen_fd ≡ connection fd
    → poll_channel os c
      ≡ done (
        set_state (with_remote c fd) dtp_established,
        if is_neg c.listen_fd then [] else c.listen_fd ∷ [],
      )
unfolding poll_channel accept_poll
poll_pending os c fd i e a = ground arith

set_state-fields :
    (c : Channel) (flag : ℕ)
    → ((set_state c flag).remote_fd ≡ c.remote_fd) × ((set_state c flag).local ≡ c.local)
unfolding set_state
set_state-fields c flag = (refl, refl)

-- A poll that accepts the client's connection on a pending passive channel loses a request to
-- send that came before it, whatever the state byte holds: the channel gets its connection and
-- keeps its local side, and no later poll, whatever the system answers, changes it or starts the
-- transfer.
pub poll_channel-stall :
    (os : Os) (c : Channel) (fd : ℕ)
    → c.iface ≡ passive
    → IsByte c
    → get_state c ≡ dtp_pending
    → os.accept c.listen_fd ≡ connection fd
    → (c' : Channel) × (closes : List ℤ) × (poll_channel os c ≡ done (c', closes))
      × (c'.remote_fd ≡ pos fd)
      × (c'.local ≡ c.local)
      × ((os' : Os) → poll_channel os' c' ≡ done (c', []))
poll_channel-stall os c fd i b e a =
    let c' = set_state (with_remote c fd) dtp_established in
    let (state, no_recv, no_xmit, _) =
      set_state_lem (with_remote c fd) dtp_established b (omega arith) in
    let (remote, local) = set_state-fields (with_remote c fd) dtp_established in
    (
      c',
      _,
      poll_pending os c fd i e a,
      remote,
      local,
      λ os'.
          poll_established os' c' state
          ∙ ap (λ (x : Channel). done (x, [])) (check_ready-idle c' no_recv no_xmit),
    )
