-- ===== src/Dtp/Channels/Sound.antt =====
-- The list of channels against the heap: `dtp_poll` keeps it free of dangling pointers.
use mathlib.Core.Path.{subst}
use ftpserv_u.Prelude.{
  ℕ, ◌≡◌, ◌≢◌, refl, sym, Option, none, some, List, [], ◌∷◌, ◌++◌, append-nil, done, >>=-eq-done,
  arith, ◌==◌, Bool-cases, inl, inr, All, ==_self, ℤ,
}
use ftpserv_u.Dtp.{Channel, Os, get_state, poll_channel, dtp_free}
use ftpserv_u.Dtp.Channels.{
  Channels, update, load, store, closes_of, free_data_channel, settle, poll_list, dtp_poll,
}

abbrev pub Heap : Type 0
Heap = ℕ → Option Channel

-- The pointers of a list are different.
abbrev pub Distinct : List ℕ → Type 0
Distinct [] = Unit
Distinct (p ∷ ps) = All (λ q. p ≢ q) ps × Distinct ps

-- They point to channels.
abbrev pub Live : Heap → List ℕ → Type 0
Live heap = All (λ p. (c : Channel) × (heap p ≡ some c))

abbrev pub Listed : Heap → List ℕ → Type 0
Listed heap ps = Live heap ps × Distinct ps

-- All that the two lists hold are different channels on the heap.
abbrev pub IsSound : Channels → Type 0
IsSound w = Listed w.heap (w.dtp_list ++ w.next_dtp_list)

pub load-store : (w : Channels) (p : ℕ) (c : Channel) → load (store w p c) p ≡ done c
unfolding load
load-store w p c = ground (arith, ==_self p)

stored :
    (heap : Heap) (p : ℕ) (c : Channel) (ps : List ℕ)
    → Live heap ps
    → Live (update heap p (some c)) ps
stored heap p c [] l = tt
stored heap p c (q ∷ ps) l = (one, stored heap p c ps l.1)
  where
    one : (d : Channel) × (update heap p (some c) q ≡ some d)
    one = elim (Bool-cases (p == q)) [
      | inl same ↦ (c, rw same refl)
      | inr other ↦ (l.0.0, rw other l.0.1)
    ]

cleared :
    (heap : Heap) (p : ℕ) (ps : List ℕ)
    → All (λ q. p ≢ q) ps
    → Live heap ps
    → Live (update heap p none) ps
cleared heap p [] ne l = tt
cleared heap p (q ∷ ps) ne l = ((l.0.0, ground (arith, l.0.1)), cleared heap p ps ne.1 l.1)

All-middle {κ} :
    (P : ℕ → Type κ) (ps qs : List ℕ) (p : ℕ) → P p → All P (ps ++ qs) → All P (ps ++ (p ∷ qs))
All-middle P [] qs p h hs = (h, hs)
All-middle P (q ∷ ps) qs p h hs = (hs.0, All-middle P ps qs p h hs.1)

Distinct-middle :
    (ps qs : List ℕ) (p : ℕ)
    → All (λ q. p ≢ q) (ps ++ qs)
    → Distinct (ps ++ qs)
    → Distinct (ps ++ (p ∷ qs))
Distinct-middle [] qs p ne d = (ne, d)
Distinct-middle (q ∷ ps) qs p ne d =
    (All-middle (λ r. q ≢ r) ps qs p (λ e. ne.0 (sym e)) d.0, Distinct-middle ps qs p ne.1 d.1)

stored_self :
    (heap : Heap) (p : ℕ) (c : Channel) → (d : Channel) × (update heap p (some c) p ≡ some d)
stored_self heap p c = (c, rw (==_self p) refl)

-- What freeing a channel leaves.
pub free-heap :
    (p : ℕ) (w : Channels) {w' : Channels}
    → free_data_channel p w ≡ done w'
    → (w'.heap ≡ update w.heap p none)
      × (w'.next_dtp_list ≡ w.next_dtp_list)
      × (w'.dtp_list ≡ w.dtp_list)
      × (w'.next_address ≡ w.next_address)
unfolding free_data_channel
free-heap p w {w'} h =
    let (c, e, rest) = >>=-eq-done (load w p) _ h in
    let (closes, f, is) = >>=-eq-done (closes_of c) _ rest in
    (ground arith, ground arith, ground arith, ground arith)

pub settle-Listed :
    (p : ℕ) (c' : Channel) (closes : List ℤ) (ps : List ℕ) (w : Channels) {w' : Channels}
    → Listed w.heap (p ∷ (ps ++ w.next_dtp_list))
    → settle p c' closes w ≡ done w'
    → Listed w'.heap (ps ++ w'.next_dtp_list)
unfolding settle
settle-Listed p c' closes ps w {w'} ((lp, ls), (ne, d)) h =
    elim (Bool-cases (get_state c' == dtp_free)) [
      | inl freed ↦
          let (heap, next, _, _) =
            free-heap p (record (store w p c') { closed = w.closed ++ closes }) {w' = w'}
              (ground arith) in
          subst (λ (k : Heap). Listed k (ps ++ w'.next_dtp_list)) (sym heap)
            (subst (λ (l : List ℕ). Listed (update (update w.heap p (some c')) p none) (ps ++ l))
              (sym next)
              (
                cleared (update w.heap p (some c')) p (ps ++ w.next_dtp_list) ne
                    (stored w.heap p c' (ps ++ w.next_dtp_list) ls),
                d,
              ))
      | inr kept ↦
          let is : record (store w p c') {
            closed = w.closed ++ closes;
            next_dtp_list = p ∷ w.next_dtp_list;
          }
              ≡ w' =
            ground arith in
          subst (λ (v : Channels). Listed v.heap (ps ++ v.next_dtp_list)) is
            (
              All-middle _ ps w.next_dtp_list p (stored_self w.heap p c')
                  (stored w.heap p c' (ps ++ w.next_dtp_list) ls),
              Distinct-middle ps w.next_dtp_list p ne d,
            )
    ]

poll_list-Listed :
    (os : Os) (ps : List ℕ) (w : Channels) {w' : Channels}
    → Listed w.heap (ps ++ w.next_dtp_list)
    → poll_list os ps w ≡ done w'
    → Listed w'.heap w'.next_dtp_list
unfolding poll_list
poll_list-Listed os [] w {w'} l h =
    let is : w ≡ w' = cc in subst (λ (v : Channels). Listed v.heap v.next_dtp_list) is l
poll_list-Listed os (p ∷ ps) w l h =
    let (c, _, polled) = >>=-eq-done (load w p) _ h in
    let ((c', closes), _, settled) = >>=-eq-done (poll_channel os c) _ polled in
    let (v, e, rest) = >>=-eq-done (settle p c' closes w) _ settled in
    poll_list-Listed os ps v (settle-Listed p c' closes ps w l e) rest

-- `dtp_poll` keeps the lists of channels sound: if all their pointers are different and point to
-- channels, and the poll does not fault, they do so again afterwards, whichever channels have
-- been freed.
pub dtp_poll-IsSound :
    (os : Os) (w : Channels) {w' : Channels} → IsSound w → dtp_poll os w ≡ done w' → IsSound w'
unfolding dtp_poll
dtp_poll-IsSound os w {w'} s h =
    let (v, e, last) = >>=-eq-done (poll_list os w.dtp_list (record w { dtp_list = [] })) _ h in
    let is : record v { dtp_list = v.next_dtp_list; next_dtp_list = [] } ≡ w' = cc in
    subst IsSound is (
      subst (Listed v.heap) (sym (append-nil v.next_dtp_list))
        (poll_list-Listed os w.dtp_list (record w { dtp_list = [] }) s e))
