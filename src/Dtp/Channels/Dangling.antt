-- ===== src/Dtp/Channels/Dangling.antt =====
-- What `dtp_poll` does with a pointer in its list whose channel has been freed.
use ftpserv_u.Prelude.{
  ℕ, ◌≡◌, refl, ap, ◌∙◌, ◌⊎◌, false, Option, none, List, [], ◌∷◌, ◌++◌, Out, done, fault, ◌>>=◌,
  arith, ◌==◌, Bool-cases, inl, inr, ℤ,
}
use ftpserv_u.Dtp.{Channel, Os, get_state, poll_channel, dtp_free}
use ftpserv_u.Dtp.Channels.{Channels, load, store, settle, poll_list, dtp_poll}
use ftpserv_u.Dtp.Channels.Sound.{free-heap}

abbrev pub In : ℕ → List ℕ → Type 0
In p [] = ⊥
In p (q ∷ ps) = (p ≡ q) ⊎ In p ps

pub bind-fault {ℓ κ} :
    {A : Type ℓ} {B : Type κ} (m : Out A) (f : A → Out B)
    → ((a : A) → m ≡ done a → f a ≡ fault)
    → (m >>= f) ≡ fault
bind-fault (done a) f h = h a refl
bind-fault fault f h = refl

pub load-none : (w : Channels) (p : ℕ) → w.heap p ≡ none → load w p ≡ fault
unfolding load
load-none w p e = ground arith

load_ne :
    (w : Channels) (p q : ℕ) {c : Channel} → w.heap p ≡ none → load w q ≡ done c → (q == p) ≡ false
unfolding load
load_ne w p q e h = elim (Bool-cases (q == p)) [
  | inl same ↦ absurd (ground arith)
  | inr other ↦ other
]

settle-none :
    (q p : ℕ) (c : Channel) (closes : List ℤ) (w : Channels) {w' : Channels}
    → (q == p) ≡ false
    → w.heap p ≡ none
    → settle q c closes w ≡ done w'
    → w'.heap p ≡ none
unfolding settle
settle-none q p c closes w {w'} ne e h = elim (Bool-cases (get_state c == dtp_free)) [
  | inl freed ↦
      let (heap, _, _, _) =
        free-heap q (record (store w q c) { closed = w.closed ++ closes }) {w' = w'}
          (ground arith) in
      ap (λ (k : ℕ → Option Channel). k p) heap ∙ ground arith
  | inr kept ↦ ground arith
]

poll_list-fault :
    (os : Os) (ps : List ℕ) (w : Channels) (p : ℕ)
    → In p ps
    → w.heap p ≡ none
    → poll_list os ps w ≡ fault
unfolding poll_list
poll_list-fault os [] w p i e = absurd i
poll_list-fault os (q ∷ ps) w p (inl is) e =
    bind-fault (load w q) _ (λ c l. absurd (ground (arith, load_ne w p q e l)))
poll_list-fault os (q ∷ ps) w p (inr i) e = bind-fault (load w q) _ (λ c l.
    bind-fault (poll_channel os c) _ (λ (c', closes) _.
      bind-fault (settle q c' closes w) _
        (λ v s. poll_list-fault os ps v p i (settle-none q p c' closes w (load_ne w p q e l) e s))))

-- A pointer in the list to a channel that has been freed is used: the poll faults, whatever the
-- other channels do.
pub dtp_poll-fault :
    (os : Os) (w : Channels) (p : ℕ) → In p w.dtp_list → w.heap p ≡ none → dtp_poll os w ≡ fault
unfolding dtp_poll
dtp_poll-fault os w p i e =
    bind-fault (poll_list os w.dtp_list (record w { dtp_list = [] })) _ (λ v h.
      absurd (ground (arith, poll_list-fault os w.dtp_list (record w { dtp_list = [] }) p i e)))
