-- ===== src/Dtp/Channels/Held.antt =====
-- The descriptors that a channel holds, and what a poll of the channel does with them.
use Prim.Native.Nat.{bit_and, bit_or}
use ftpserv_u.Prelude.{
  ℕ, zero, suc, ◌+◌, ◌≡◌, refl, ap, ◌∙◌, ℤ, pos, negsuc, is_neg, true, false, ◌||◌, ◌⊎◌, inl, inr,
  none, some, List, [], ◌∷◌, ◌++◌, ◌==◌, if◌then◌else◌, arith, Bool-cases, Ensures, Ensures-bind,
  Ensures-then, Ensures-if,
}
use ftpserv_u.Network.{accept_poll}
use ftpserv_u.Dtp.{
  Channel, passive, active, Os, Copied, get_state, set_state, dtp_pending, dtp_closed, dtp_error,
  dtp_local_buf, copy_data, write_buffered_data_to_fd, fill_buffer_from_fd, after_read, send_data,
  receive_data,
}
use ftpserv_u.Dtp.Channels.{close_open}

-- 1 for the same descriptor, 0 for another.
unfoldable pub occurs : ℤ → ℤ → ℕ
occurs (pos n) (pos m) = if n == m then 1 else 0
occurs (negsuc n) (negsuc m) = if n == m then 1 else 0
occurs _ _ = 0

-- How often a descriptor stands in a list.
abbrev pub count : ℤ → List ℤ → ℕ
count fd [] = 0
count fd (x ∷ xs) = occurs fd x + count fd xs

pub count-append : (fd : ℤ) (xs ys : List ℤ) → count fd (xs ++ ys) ≡ count fd xs + count fd ys
count-append fd [] ys = omega arith
count-append fd (x ∷ xs) ys = omega (arith, count-append fd xs ys)

-- The open descriptors of a channel whose local side is a file.
abbrev pub held : Channel → List ℤ
held c = close_open c.local ++ (close_open c.listen_fd ++ close_open c.remote_fd)

-- Its local side is not a text, and while it is pending it has no connection yet.
pub record IsPlain (c : Channel) : Type 0 where
  pub file : bit_and c.state dtp_local_buf ≡ 0
  pub unconnected : get_state c ≡ dtp_pending → is_neg c.remote_fd ≡ true

-- The connection that a poll of the channel accepts, if it accepts one.
abbrev pub accepts : Os → Channel → List ℤ
accepts os c = elim c.iface [
  | active ↦ []
  | passive ↦ elim (get_state c == dtp_pending) [
    | false ↦ []
    | true ↦ elim (accept_poll (os.accept c.listen_fd)).1 [ none ↦ [] | some fd ↦ pos fd ∷ [] ]
  ]
]

set-plain :
    (c : Channel) (flag : ℕ)
    → bit_and c.state dtp_local_buf ≡ 0
    → (set_state c flag).state ≡ bit_or 0 flag
unfolding set_state
set-plain c flag e = ap (λ (bits : ℕ). bit_or bits flag) e

pub set-IsPlain :
    (c : Channel) (flag : ℕ)
    → bit_and c.state dtp_local_buf ≡ 0
    → bit_and (bit_or 0 flag) dtp_local_buf ≡ 0
    → (bit_and (bit_or 0 flag) 0x0F == dtp_pending) ≡ false
    → IsPlain (set_state c flag)
unfolding get_state
set-IsPlain c flag e f s = record {
  file = ap (λ (state : ℕ). bit_and state dtp_local_buf) (set-plain c flag e) ∙ f;
  unconnected = λ pending. absurd (
      ground (
        arith,
        pending,
        s,
        ap (λ (state : ℕ). bit_and state 0x0F == dtp_pending) (set-plain c flag e),
      ));
}

set_state-going :
    (c : Channel) (flag : ℕ)
    → bit_and c.state dtp_local_buf ≡ 0
    → (bit_and (bit_or 0 flag) 0x0F == dtp_pending) ≡ false
    → (get_state (set_state c flag) == dtp_pending) ≡ false
unfolding get_state
set_state-going c flag e s =
    ap (λ (state : ℕ). bit_and state 0x0F == dtp_pending) (set-plain c flag e) ∙ s

-- What `dtp_copy_data` leaves, for a channel that is not pending: both descriptors as they were,
-- or both closed.
record Moved (c : Channel) (to from : ℤ) (r : Copied) : Type 0 where
  file : bit_and r.channel.state dtp_local_buf ≡ 0
  going : (get_state r.channel == dtp_pending) ≡ false
  listening : r.channel.listen_fd ≡ c.listen_fd
  ends :
      ((r.to ≡ to) × (r.from ≡ from) × (r.closes ≡ []))
      ⊎ ((r.to ≡ negsuc 0)
          × (r.from ≡ negsuc 0)
          × (r.closes ≡ to ∷ from ∷ [])
          × ((is_neg to || is_neg from) ≡ false))

-- Nothing is closed.
stays :
    (c : Channel) (to from : ℤ) (c' : Channel)
    → bit_and c'.state dtp_local_buf ≡ 0
    → (get_state c' == dtp_pending) ≡ false
    → c'.listen_fd ≡ c.listen_fd
    → Moved c to from (record { to = to; from = from; channel = c'; closes = [] })
stays c to from c' e g l = record {
  file = e;
  going = g;
  listening = l;
  ends = inl (refl, refl, refl);
}

set_state-stays :
    (c : Channel) (to from : ℤ) (flag : ℕ) (c' : Channel)
    → bit_and c'.state dtp_local_buf ≡ 0
    → bit_and (bit_or 0 flag) dtp_local_buf ≡ 0
    → (bit_and (bit_or 0 flag) 0x0F == dtp_pending) ≡ false
    → c'.listen_fd ≡ c.listen_fd
    → Moved c to from (record { to = to; from = from; channel = set_state c' flag; closes = [] })
unfolding set_state
set_state-stays c to from flag c' e f s l =
    stays c to from (set_state c' flag) (set-IsPlain c' flag e f s).file
      (set_state-going c' flag e s) l

after_read-Moved :
    (c : Channel) (to from : ℤ) (c' : Channel) (nread : ℤ)
    → (is_neg to || is_neg from) ≡ false
    → bit_and c'.state dtp_local_buf ≡ 0
    → (get_state c' == dtp_pending) ≡ false
    → c'.listen_fd ≡ c.listen_fd
    → Moved c to from (after_read to from c' nread)
unfolding after_read set_state
after_read-Moved c to from c' (negsuc n) o e g l =
    set_state-stays c to from dtp_error c' e refl refl l
after_read-Moved c to from c' (pos zero) o e g l = record {
  file = (set-IsPlain c' dtp_closed e refl refl).file;
  going = set_state-going c' dtp_closed e refl;
  listening = l;
  ends = inr (refl, refl, refl, o);
}
after_read-Moved c to from c' (pos (suc n)) o e g l = stays c to from c' e g l

copy_data-Moved :
    (os : Os) (to from : ℤ) (c : Channel) (size : ℕ)
    → bit_and c.state dtp_local_buf ≡ 0
    → (get_state c == dtp_pending) ≡ false
    → Ensures (Moved c to from) (copy_data os to from c size)
unfolding copy_data get_state
copy_data-Moved os to from c size e g = elim (Bool-cases (is_neg to || is_neg from)) [
  | inl shut ↦ rw shut (stays c to from c e g refl)
  | inr open_fds ↦ rw open_fds (
      Ensures-then P (write_buffered_data_to_fd os to c.buffer size) _ (λ (nwritten, drained).
        Ensures-if P (is_neg nwritten) _ _
          (set_state-stays c to from dtp_error (record c { buffer = drained }) e refl refl refl)
          (Ensures-then P (fill_buffer_from_fd os drained from) _ (λ (nread, filled).
            after_read-Moved c to from (record c { buffer = filled }) nread open_fds e g refl))))
]
  where
    P : Copied → Type 0
    P = Moved c to from

-- A poll that leaves the channel plain, with what it held and what it accepts either held or
-- closed.
abbrev pub Balances : Os → Channel → Channel × List ℤ → Type 0
Balances os c (c', closes) =
    IsPlain c'
    × ((fd : ℤ)
        → count fd (held c') + count fd closes ≡ count fd (accepts os c) + count fd (held c))

going-IsPlain :
    (c : Channel)
    → bit_and c.state dtp_local_buf ≡ 0
    → (get_state c == dtp_pending) ≡ false
    → IsPlain c
going-IsPlain c e g = record { file = e; unconnected = λ pending. absurd (ground (arith, g)) }

pub accepts-going :
    (os : Os) (c : Channel) → (get_state c == dtp_pending) ≡ false → accepts os c ≡ []
accepts-going os c g = ground arith

-- How often a descriptor stands for an open end.
abbrev pub open_count : ℤ → ℤ → ℕ
open_count fd end = count fd (close_open end)

pub count-held :
    (fd : ℤ) (c : Channel)
    → count fd (held c)
      ≡ open_count fd c.local + (open_count fd c.listen_fd + open_count fd c.remote_fd)
count-held fd c =
    count-append fd (close_open c.local) (close_open c.listen_fd ++ close_open c.remote_fd)
    ∙ ap (λ (n : ℕ). open_count fd c.local + n)
        (count-append fd (close_open c.listen_fd) (close_open c.remote_fd))

-- Both ends of a copy, with what is closed.
Moved-count :
    (fd : ℤ) {c : Channel} {to from : ℤ} {r : Copied}
    → Moved c to from r
    → open_count fd r.to + open_count fd r.from + count fd r.closes
      ≡ open_count fd to + open_count fd from
Moved-count fd {c} {to} {from} {r} m = elim m.ends [
  | inl (e, f, none_closed) ↦ rw (e, f, none_closed) (omega arith)
  | inr (e, f, both, o) ↦
      let a : open_count fd to ≡ occurs fd to + 0 = ground (arith, o) in
      let b : open_count fd from ≡ occurs fd from + 0 = ground (arith, o) in
      rw (e, f, both, a, b) (omega arith)
]

pub send_data-Balances :
    (os : Os) (c : Channel)
    → bit_and c.state dtp_local_buf ≡ 0
    → (get_state c == dtp_pending) ≡ false
    → Ensures (Balances os c) (send_data os c)
unfolding send_data get_state
send_data-Balances os c e g =
    Ensures-bind (Moved c c.remote_fd c.local) (Balances os c)
      (copy_data os c.remote_fd c.local c 1500) _
      (copy_data-Moved os c.remote_fd c.local c 1500 e g)
      (λ r m.
        let c' : Channel = record r.channel { remote_fd = r.to; local = r.from } in
        (
          going-IsPlain c' m.file m.going,
          λ fd.
              rw (accepts-going os c g, count-held fd c, count-held fd c', m.listening)
                (omega (arith, Moved-count fd m)),
        ))

pub receive_data-Balances :
    (os : Os) (c : Channel)
    → bit_and c.state dtp_local_buf ≡ 0
    → (get_state c == dtp_pending) ≡ false
    → Ensures (Balances os c) (receive_data os c)
unfolding receive_data get_state
receive_data-Balances os c e g =
    Ensures-bind (Moved c c.local c.remote_fd) (Balances os c)
      (copy_data os c.local c.remote_fd c 512) _ (copy_data-Moved os c.local c.remote_fd c 512 e g)
      (λ r m.
        let c' : Channel = record r.channel { local = r.to; remote_fd = r.from } in
        (
          going-IsPlain c' m.file m.going,
          λ fd.
              rw (accepts-going os c g, count-held fd c, count-held fd c', m.listening)
                (omega (arith, Moved-count fd m)),
        ))
