-- ===== src/Dtp/Channels/Balance.antt =====
-- What `dtp_poll` does with the descriptors of all channels in the lists.
use mathlib.Core.Path.{subst}
use ftpserv_u.Prelude.{
  ℕ, ◌+◌, ◌≡◌, ◌≢◌, refl, ap, sym, ◌∙◌, ℤ, none, some, List, [], ◌∷◌, ◌++◌, done, >>=-eq-done,
  arith, ◌==◌, Bool-cases, inl, inr, All, ==_self, Ensures-at,
}
use ftpserv_u.Dtp.{Channel, Os, get_state, poll_channel, dtp_free}
use ftpserv_u.Dtp.Channels.{
  Channels, update, load, store, free_data_channel, settle, poll_list, dtp_poll,
}
use ftpserv_u.Dtp.Channels.Sound.{Listed, IsSound, settle-Listed, free-heap}
use ftpserv_u.Dtp.Channels.Held.{count, count-append, held, IsPlain, accepts, Balances}
use ftpserv_u.Dtp.Channels.Polling.{poll_channel-Balances}
use ftpserv_u.Dtp.Channels.Ledger.{
  at_channel, all_held, all_accepts, AllPlain, all_held-elsewhere, all_accepts-elsewhere,
  AllPlain-elsewhere, count-middle, All-left, AllPlain-middle, freed-closed, load-some,
}

-- How often a descriptor is held by the channels of a list or has been closed.
abbrev entries : ℤ → Channels → List ℕ → ℕ
entries fd w ps = count fd (all_held w.heap ps) + count fd w.closed

-- What the end of a round of the loop leaves for the pointers still to come, `ps`.
record Settled (os : Os) (p : ℕ) (c' : Channel) (closes : List ℤ) (ps : List ℕ) (w w' : Channels)
    : Type 0 where
  plain : AllPlain w'.heap (ps ++ w'.next_dtp_list)
  accepting : all_accepts os w'.heap ps ≡ all_accepts os w.heap ps
  balance :
      (fd : ℤ)
      → entries fd w' (ps ++ w'.next_dtp_list)
        ≡ entries fd w (ps ++ w.next_dtp_list) + (count fd (held c') + count fd closes)

freed-Settled :
    (os : Os) (p : ℕ) (c' : Channel) (closes : List ℤ) (ps : List ℕ) (w : Channels) {w' : Channels}
    → All (λ q. p ≢ q) (ps ++ w.next_dtp_list)
    → AllPlain w.heap (ps ++ w.next_dtp_list)
    → IsPlain c'
    → free_data_channel p (record (store w p c') { closed = w.closed ++ closes }) ≡ done w'
    → Settled os p c' closes ps w w'
freed-Settled os p c' closes ps w {w'} ne h i f =
    let full : Channels = record (store w p c') { closed = w.closed ++ closes } in
    let (heap, next, _, _) = free-heap p full {w' = w'} f in
    let at_p : update w.heap p (some c') p ≡ some c' = rw (==_self p) refl in
    let closed = freed-closed p c' full {w' = w'} at_p i f in
    let rest = ps ++ w.next_dtp_list in
    let stored_heap = update w.heap p (some c') in
    record {
      plain =
          rw (heap, next)
            (AllPlain-elsewhere stored_heap p none rest ne
              (AllPlain-elsewhere w.heap p (some c') rest ne h));
      accepting =
          let ne' = All-left (λ q. p ≢ q) ps w.next_dtp_list ne in
          rw heap (
            all_accepts-elsewhere os stored_heap p none ps ne'
            ∙ all_accepts-elsewhere os w.heap p (some c') ps ne');
      balance = λ fd.
          rw
            (
              heap,
              next,
              closed,
              all_held-elsewhere stored_heap p none rest ne,
              all_held-elsewhere w.heap p (some c') rest ne,
              count-append fd (w.closed ++ closes) (held c'),
              count-append fd w.closed closes,
            )
            (omega arith);
    }

kept-Settled :
    (os : Os) (p : ℕ) (c' : Channel) (closes : List ℤ) (ps : List ℕ) (w : Channels)
    → All (λ q. p ≢ q) (ps ++ w.next_dtp_list)
    → AllPlain w.heap (ps ++ w.next_dtp_list)
    → IsPlain c'
    → Settled os p c' closes ps w
        (record (store w p c') { closed = w.closed ++ closes; next_dtp_list = p ∷ w.next_dtp_list })
kept-Settled os p c' closes ps w ne h i =
    let heap = update w.heap p (some c') in
    let next = w.next_dtp_list in
    let at_p : heap p ≡ some c' = rw (==_self p) refl in
    record {
      plain =
          AllPlain-middle heap ps next p (subst (at_channel Unit IsPlain) (sym at_p) i)
            (AllPlain-elsewhere w.heap p (some c') (ps ++ next) ne h);
      accepting = all_accepts-elsewhere os w.heap p (some c') ps (All-left (λ q. p ≢ q) ps next ne);
      balance = λ fd.
          rw
            (
              count-middle fd heap ps next p c' at_p,
              all_held-elsewhere w.heap p (some c') (ps ++ next) ne,
              count-append fd w.closed closes,
            )
            (omega arith);
    }

settle-Settled :
    (os : Os) (p : ℕ) (c' : Channel) (closes : List ℤ) (ps : List ℕ) (w : Channels) {w' : Channels}
    → All (λ q. p ≢ q) (ps ++ w.next_dtp_list)
    → AllPlain w.heap (ps ++ w.next_dtp_list)
    → IsPlain c'
    → settle p c' closes w ≡ done w'
    → Settled os p c' closes ps w w'
unfolding settle
settle-Settled os p c' closes ps w {w'} ne h i e = elim (Bool-cases (get_state c' == dtp_free)) [
  | inl freed ↦ freed-Settled os p c' closes ps w {w' = w'} ne h i (ground (arith, e, freed))
  | inr kept ↦
      let is : record (store w p c') {
        closed = w.closed ++ closes;
        next_dtp_list = p ∷ w.next_dtp_list;
      }
          ≡ w' =
        ground (arith, e, kept) in
      subst (Settled os p c' closes ps w) is (kept-Settled os p c' closes ps w ne h i)
]

poll_list-balance :
    (os : Os) (ps : List ℕ) (w : Channels) {w' : Channels} (fd : ℤ)
    → Listed w.heap (ps ++ w.next_dtp_list)
    → AllPlain w.heap (ps ++ w.next_dtp_list)
    → poll_list os ps w ≡ done w'
    → (entries fd w' w'.next_dtp_list
        ≡ count fd (all_accepts os w.heap ps) + entries fd w (ps ++ w.next_dtp_list))
      × AllPlain w'.heap w'.next_dtp_list
unfolding poll_list
poll_list-balance os [] w {w'} fd l h e =
    let is : w ≡ w' = cc in
    subst
      (λ (v : Channels).
        (entries fd v v.next_dtp_list ≡ 0 + entries fd w w.next_dtp_list)
        × AllPlain v.heap v.next_dtp_list)
      is (omega arith, h)
poll_list-balance os (p ∷ ps) w {w'} fd l h e =
    let (c, loaded, polling) = >>=-eq-done (load w p) _ e in
    let at_p : w.heap p ≡ some c = load-some w p loaded in
    let i : IsPlain c = subst (at_channel Unit IsPlain) at_p h.0 in
    let ((c', closes), q, settling) = >>=-eq-done (poll_channel os c) _ polling in
    let (i', own) = Ensures-at (Balances os c) (poll_channel-Balances os c i) q in
    let (v, s, rest) = >>=-eq-done (settle p c' closes w) _ settling in
    let settled = settle-Settled os p c' closes ps w l.1.0 h.1 i' s in
    let (ih, plain) =
      poll_list-balance os ps v fd (settle-Listed p c' closes ps w l s) settled.plain rest in
    let fds = all_accepts os w.heap ps in
    let first : at_channel [] (accepts os) (w.heap p) ≡ accepts os c = rw at_p refl in
    let held_first : at_channel [] held (w.heap p) ≡ held c = rw at_p refl in
    (
      rw
          (
            first,
            held_first,
            count-append fd (accepts os c) fds,
            count-append fd (held c) (all_held w.heap (ps ++ w.next_dtp_list)),
          )
          (omega (arith, ih, own fd, settled.balance fd, ap (count fd) settled.accepting)),
      plain,
    )

-- `dtp_poll` neither loses a descriptor nor closes one twice. Where the lists of channels are
-- sound, the channels in them copy to or from files, those that are pending have no connection
-- yet, and the poll does not fault, each descriptor that a channel in the lists held, that had
-- been closed, or that a pending passive channel accepts in this poll is held by a channel in the
-- list afterwards or has been closed, as often in all as before; and of the channels in the list
-- those two conditions hold again.
pub dtp_poll-balance :
    (os : Os) (w : Channels) {w' : Channels} (fd : ℤ)
    → IsSound w
    → AllPlain w.heap (w.dtp_list ++ w.next_dtp_list)
    → dtp_poll os w ≡ done w'
    → (count fd (all_held w'.heap w'.dtp_list) + count fd w'.closed
        ≡ count fd (all_accepts os w.heap w.dtp_list)
          + (count fd (all_held w.heap (w.dtp_list ++ w.next_dtp_list)) + count fd w.closed))
      × AllPlain w'.heap w'.dtp_list
unfolding dtp_poll
dtp_poll-balance os w {w'} fd l h e =
    let (v, polled, last) =
      >>=-eq-done (poll_list os w.dtp_list (record w { dtp_list = [] })) _ e in
    let is : record v { dtp_list = v.next_dtp_list; next_dtp_list = [] } ≡ w' = cc in
    subst
      (λ (u : Channels).
        (count fd (all_held u.heap u.dtp_list) + count fd u.closed
          ≡ count fd (all_accepts os w.heap w.dtp_list)
            + (count fd (all_held w.heap (w.dtp_list ++ w.next_dtp_list)) + count fd w.closed))
        × AllPlain u.heap u.dtp_list)
      is (poll_list-balance os w.dtp_list (record w { dtp_list = [] }) fd l h polled)
