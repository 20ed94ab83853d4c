-- ===== src/Commands/Invoke/Passive.antt =====
-- PASV: the channel that it makes and announces, and the one that it frees.
use mathlib.Core.Path.{subst}
use ftpserv_u.Prelude.{
  ℕ, ◌+◌, ◌≡◌, ◌≢◌, ap, sym, ◌∙◌, true, false, Option, none, some, ◌∷◌, ◌++◌, negsuc, is_neg, Out,
  done, fault, ◌>>=◌, >>=-eq-done, arith, ◌==◌, Bool-cases, Option-cases, Out-cases, inl, inr, ℤ,
  ==_self,
}
use ftpserv_u.Memory.{Bytes}
use ftpserv_u.IoBuffer.{IoBuffer, new_buffer}
use ftpserv_u.IoBuffer.Size.{new_buffer_lem}
use ftpserv_u.Network.{get_ephermal_port, create_serversocket}
use ftpserv_u.Dtp.{Channel, Os, passive, dtp_pending}
use ftpserv_u.Dtp.Channels.{
  Channels, update, load, store, free_data_channel, new_data_channel, made_channel, listen_on,
  new_passive_channel, dtp_poll,
}
use ftpserv_u.Dtp.Channels.Sound.{free-heap}
use ftpserv_u.Dtp.Channels.Dangling.{In, dtp_poll-fault}
use ftpserv_u.Client.{Session, respond}
use ftpserv_u.Client.Responses.{respond-frame}
use ftpserv_u.Commands.{passive as passive_command}
use ftpserv_u.Commands.{Env, do_passive, drop_channel, passive_text}
use ftpserv_u.Commands.Invoke.{run_func}

-- What the heap and the list of the round keep when a channel is made or freed.
abbrev Keeps : Channels → Channels → ℕ → Type 0
Keeps w w' p = (w'.heap p ≡ none) × (w'.dtp_list ≡ w.dtp_list) × (w'.next_address ≢ p)

freed-Keeps :
    (p : ℕ) (w : Channels) {w' : Channels}
    → p ≢ w.next_address
    → free_data_channel p w ≡ done w'
    → Keeps w w' p
freed-Keeps p w {w'} ne h =
    let (heap, _, list, next) = free-heap p w h in
    (
      ap (λ (k : ℕ → Option Channel). k p) heap ∙ ground (arith, ==_self p),
      list,
      λ e. ne (sym e ∙ next),
    )

buffer_made : (b : IoBuffer) × (new_buffer true true true 192000 ≡ some b)
buffer_made = let (b, e, _, _, _, _, _) = new_buffer_lem 192000 in (b, e)

-- The lists and the heap with a channel of a passive interface in a fresh place.
abbrev with_new : ℤ → ℕ → ℕ → IoBuffer → Channels → Channels
with_new garbage ip port b w = record w {
  heap = update w.heap w.next_address (
      some (record {
        state = dtp_pending;
        local = negsuc 0;
        remote_fd = negsuc 0;
        listen_fd = garbage;
        ip = ip;
        port = port;
        buffer = b;
        iface = passive;
      }));
  next_address = w.next_address + 1;
  next_dtp_list = w.next_address ∷ w.next_dtp_list;
}

new_data_channel-some :
    (garbage : ℤ) (ip port : ℕ) (w : Channels) {b : IoBuffer}
    → (ip == 0) ≡ false
    → new_buffer true true true 192000 ≡ some b
    → new_data_channel passive garbage ip port w
      ≡ done (with_new garbage ip port b w, some w.next_address)
unfolding new_data_channel
new_data_channel-some garbage ip port w z e = ground arith

new_data_channel-fault :
    (garbage : ℤ) (ip port : ℕ) (w : Channels)
    → (ip == 0) ≡ true
    → new_data_channel passive garbage ip port w ≡ fault
unfolding new_data_channel
new_data_channel-fault garbage ip port w z = ground arith

made-Keeps :
    (garbage : ℤ) (ip port p : ℕ) (w : Channels) {m : Channels × Option ℕ} {v : Channels} {q : ℕ}
    → w.heap p ≡ none
    → w.next_address ≢ p
    → new_data_channel passive garbage ip port w ≡ done m
    → made_channel m ≡ done (v, q)
    → (v.heap p ≡ none) × (v.dtp_list ≡ w.dtp_list) × (q ≢ p)
unfolding made_channel
made-Keeps garbage ip port p w {m} {v} {q} e ne h k = elim (Bool-cases (ip == 0)) [
  | inl z ↦ absurd (ground (arith, new_data_channel-fault garbage ip port w z))
  | inr z ↦
      let (b, made) = buffer_made in
      let m-is : m ≡ (with_new garbage ip port b w, some w.next_address) =
        let f = new_data_channel-some garbage ip port w z made in cc in
      let is : made_channel (with_new garbage ip port b w, some w.next_address) ≡ done (v, q) =
        ap made_channel (sym m-is) ∙ k in
      let v-is : with_new garbage ip port b w ≡ v = cc in
      let q-is : w.next_address ≡ q = cc in
      (
        ap (λ (u : Channels). u.heap p) (sym v-is) ∙ ground arith,
        ap (λ (u : Channels). u.dtp_list) (sym v-is),
        λ f. ne (q-is ∙ f),
      )
]

listened-Keeps :
    (env : Env) (q p : ℕ) (w : Channels) {v : Channels} {r : ℕ}
    → w.heap p ≡ none
    → q ≢ p
    → listen_on env.listening q w ≡ done (v, some r)
    → (v.heap p ≡ none) × (v.dtp_list ≡ w.dtp_list)
unfolding listen_on
listened-Keeps env q p w {v} {r} e ne h =
    let (c, l, rest) = >>=-eq-done (load w q) _ h in
    elim (Bool-cases (is_neg (create_serversocket env.listening).0)) [
      | inl bad ↦
          let w' =
            record (store w q (record c { listen_fd = (create_serversocket env.listening).0 })) {
              closed = w.closed ++ (create_serversocket env.listening).1;
            } in
          elim (Out-cases (free_data_channel q w')) [
            | inl f ↦ absurd (ground arith)
            | inr (u, f) ↦ absurd (ground arith)
          ]
      | inr good ↦ (ground arith, ground arith)
    ]

new_passive-Keeps :
    (env : Env) (port p : ℕ) (w : Channels) {v : Channels} {r : ℕ}
    → w.heap p ≡ none
    → w.next_address ≢ p
    → new_passive_channel env.listening env.garbage env.host_ip port w ≡ done (v, some r)
    → (v.heap p ≡ none) × (v.dtp_list ≡ w.dtp_list)
unfolding new_passive_channel
new_passive-Keeps env port p w e ne h =
    let (m, made, rest) =
      >>=-eq-done (new_data_channel passive env.garbage env.host_ip port w) _ h in
    let ((u, q), is, listening) = >>=-eq-done (made_channel m) _ rest in
    let (gone, list, other) = made-Keeps env.garbage env.host_ip port p w e ne made is in
    let (gone', list') = listened-Keeps env q p u gone other listening in (gone', list' ∙ list)

passive-Keeps :
    (env : Env) (s : Session) (p : ℕ) {s' : Session}
    → s.client.data_channel ≡ some p
    → p ≢ s.channels.next_address
    → passive_command env s ≡ done s'
    → (s'.channels.heap p ≡ none) × (s'.channels.dtp_list ≡ s.channels.dtp_list)
unfolding passive_command drop_channel
passive-Keeps env s p {s'} d ne h =
    let (w, dropped, rest) = >>=-eq-done (drop_channel s.client.data_channel s.channels) _ h in
    let freed : free_data_channel p s.channels ≡ done w =
      ap (λ (c : Option ℕ). drop_channel c s.channels) (sym d) ∙ dropped in
    let (gone, list, other) = freed-Keeps p s.channels ne freed in
    let ((w', m), listening, answered) =
      >>=-eq-done
        (new_passive_channel env.listening env.garbage env.host_ip
          (get_ephermal_port s.next_ephermal_port).0 w)
        _ rest in
    elim (Option-cases m) [
      | inl e ↦ absurd (ground arith)
      | inr (q, e) ↦
          let (c, _, sent) = >>=-eq-done (load w' q) _ (sym (ap (answer w') e) ∙ answered) in
          let same : s'.channels ≡ w' =
            ap (λ (t : Session). t.channels) (respond-frame 227 _ _ sent) in
          let (gone', list') =
            new_passive-Keeps env _ p w gone other
              (listening ∙ ap (λ (o : Option ℕ). done (w', o)) e) in
          (
            ap (λ (u : Channels). u.heap p) same ∙ gone',
            ap (λ (u : Channels). u.dtp_list) same ∙ list' ∙ list,
          )
    ]
  where
    answer : Channels → Option ℕ → Out Session
    answer w' o = elim o [
      | none ↦ fault
      | some q ↦ load w' q >>= λ c. respond 227 (passive_text c.ip c.port) (record {
        client = record s.client { data_channel = some q };
        channels = w';
        next_ephermal_port = (get_ephermal_port s.next_ephermal_port).1;
      })
    ]

-- A second PASV of a client frees the channel of the first, and leaves its place in the list of
-- channels: if it stands in the list that is polled next, and PASV does not fault, the poll uses
-- freed memory.
pub passive_again-dtp_poll :
    (env : Env) (args : Bytes) (s : Session) (p : ℕ) {s' : Session} (os : Os)
    → s.client.data_channel ≡ some p
    → p ≢ s.channels.next_address
    → In p s.channels.dtp_list
    → run_func env do_passive args s ≡ done s'
    → dtp_poll os s'.channels ≡ fault
unfolding run_func
passive_again-dtp_poll env args s p {s'} os d ne i h =
    let (gone, list) = passive-Keeps env s p d ne h in
    dtp_poll-fault os s'.channels p (subst (In p) (sym list) i) gone
