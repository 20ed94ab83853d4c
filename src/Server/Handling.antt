-- ===== src/Server/Handling.antt =====
-- What `handle_client` does with a client in each of its states.
use Prim.Native.Nat.{bit_and}
use ftpserv_u.Prelude.{
  ℕ, suc, ◌+◌, ◌-◌, ◌≤◌, ◌<◌, ◌≡◌, ap, ◌∙◌, ℤ, pos, is_neg, true, false, refl, none, some, List, [],
  ◌∷◌, ◌++◌, done, fault, not, Bool, ==_self, ◌^◌, ◌>>=◌, arith, ◌==◌, if◌then◌else◌, length, All,
  Out-cases, Bool-cases, inl, inr,
}
use ftpserv_u.Memory.{Bytes}
use ftpserv_u.IoBuffer.{IoBuffer}
use ftpserv_u.IoBuffer.Contents.{IsValid, contents, length-contents}
use ftpserv_u.IoBuffer.Loop.{fold_blocks, each_line-Looped, split_lines, holding, IsClean}
use ftpserv_u.Network.{Received, received, read_buffer}
use ftpserv_u.Network.Reading.{grown, read_buffer_lem, read_buffer-full}
use ftpserv_u.Dtp.{Channel, Os, get_state, dtp_closed, dtp_free, set_state, poll_channel}
use ftpserv_u.Dtp.Passive.{all_below-lookup, IsByte, set_state_lem}
use ftpserv_u.Dtp.Channels.{Channels, load, store, free_data_channel, settle, poll_list}
use ftpserv_u.Dtp.Channels.Sound.{load-store, free-heap}
use ftpserv_u.Text.{codes}
use ftpserv_u.Client.Responses.{Offered, respond-Offered}
use ftpserv_u.Client.{clear_flag, response_text, Session, has_flag, state_data}
use ftpserv_u.Commands.{Env}
use ftpserv_u.Server.Inside.{process_command-inside}
use ftpserv_u.Server.{
  Round, handle_data_events, process_command, process_lines, handle_control_events, handle_client,
  flush_client,
}

abbrev pub with_input : Session → IoBuffer → Session
with_input s b = record s { client = record s.client { input_buffer = b } }

abbrev pub input : Session → IoBuffer
input s = s.client.input_buffer

process_lines_lem :
    (env : Env) (before : ℕ) (s : Session) {xs : Bytes}
    → IsValid (input s)
    → contents (input s) ≡ xs
    → All (IsClean before false (input s).size) (split_lines xs).0
    → process_lines env before s ≡ (
        fold_blocks (process_command env) false (split_lines xs).0 (input s).line s
        >>= λ (block, s'). done (with_input s' (holding (input s) block (split_lines xs).1)))
unfolding process_lines
process_lines_lem env before s {xs} v held clean =
    rw
      (each_line-Looped (process_command env) (process_command-inside env) before false
        (suc (input s).head) xs s v held (omega (arith, ap length held, length-contents v)) clean)
      (elim (Out-cases
        (fold_blocks (process_command env) false (split_lines xs).0 (input s).line s)) [
          | inl f ↦ rw f
          | inr (p, f) ↦ rw f
        ])

-- What the client's socket gives in one round, and that there is room for it.
abbrev pub Receives : (ℤ → ℕ → Received) → Session → Bytes → Type 0
Receives recv s bytes =
    (recv s.client.fd ((input s).size - 1 - (input s).head) ≡ received bytes)
    × (length bytes ≤ (input s).size - 1 - (input s).head)

-- A client with an open socket that is not in a transfer, with room in its input buffer.
pub record IsIdle (s : Session) : Type 0 where
  pub idle : has_flag s.client state_data ≡ false
  pub open_fd : is_neg s.client.fd ≡ false
  pub valid_input : IsValid (input s)
  pub room : (input s).head + 1 < (input s).size

read_lem :
    (recv : ℤ → ℕ → Received) (s : Session) (bytes : Bytes)
    → IsIdle s
    → Receives recv s bytes
    → read_buffer (recv s.client.fd) s.client.fd (input s)
      ≡ done (pos (length bytes), grown (input s) bytes)
read_lem recv s bytes i r =
    (read_buffer_lem (recv s.client.fd) s.client.fd bytes i.open_fd i.valid_input i.room r.0 r.1).0

started :
    (env : Env) (recv : ℤ → ℕ → Received) (before : ℕ) (s : Session) (c : ℕ) (bytes : Bytes)
    → IsIdle s
    → Receives recv s (c ∷ bytes)
    → handle_control_events env recv before s ≡ (
        process_lines env before (with_input s (grown (input s) (c ∷ bytes))) >>= λ s'.
        done (some s'))
unfolding handle_control_events
started env recv before s c bytes i r = ground (arith, read_lem recv s (c ∷ bytes) i r, i.idle)

-- The commands that arrive at an idle client with room in its valid input buffer: if every
-- complete line can be taken with no fault, the bytes received, of which there is one at least,
-- are joined to those left from earlier, and each complete line, in order, is handed to
-- `ftp_process_command` until one faults. It is handed over in the block that still holds, behind
-- the line, what was left of the lines before it, with the word of a command in capitals and a NUL
-- behind it. The rest of the bytes stays in the input buffer for the next round.
pub handle_control_events-lines :
    (env : Env) (recv : ℤ → ℕ → Received) (before : ℕ) (s : Session) (c : ℕ) (bytes : Bytes)
    → IsIdle s
    → Receives recv s (c ∷ bytes)
    → All (IsClean before false (input s).size) (split_lines (contents (input s) ++ (c ∷ bytes))).0
    → handle_control_events env recv before s ≡ (
        let (lines, rest) = split_lines (contents (input s) ++ (c ∷ bytes)) in
        fold_blocks
          (process_command env)
          false
          lines
          (input s).line
          (with_input s (grown (input s) (c ∷ bytes)))
        >>= λ (block, s'). done (some (with_input s' (holding (input s) block rest))))
handle_control_events-lines env recv before s c bytes i r clean =
    let b = grown (input s) (c ∷ bytes) in
    let read =
      read_buffer_lem (recv s.client.fd) s.client.fd (c ∷ bytes) i.open_fd i.valid_input i.room r.0
        r.1 in
    let looped = process_lines_lem env before (with_input s b) read.1 read.2 clean in
    started env recv before s c bytes i r
    ∙ ap (λ m. m >>= λ s'. done (some s')) looped
    ∙ elim (Out-cases (
        fold_blocks (process_command env) false (split_lines (contents (input s) ++ (c ∷ bytes))).0
          (input s).line (with_input s b))) [ inl f ↦ rw f | inr (p, f) ↦ rw f ]

-- An idle client with room in its valid input buffer that closes its side brings the server
-- down: `handle_control_events` frees it, and `handle_client` goes on to use it.
pub handle_client-eof :
    (round : Round) (s : Session) (sent : List (ℤ × Bytes)) (closed : List ℤ)
    → IsIdle s
    → Receives round.recv s []
    → handle_client round s sent closed ≡ fault
unfolding handle_client handle_control_events
handle_client-eof round s sent closed i r = ground (arith, read_lem round.recv s [] i r, i.idle)

-- A client with an open socket, not in a transfer, whose input buffer is full: the full
-- buffer counts as an error of the connection, the client is freed, and then used.
pub handle_client-full :
    (round : Round) (s : Session) (sent : List (ℤ × Bytes)) (closed : List ℤ)
    → has_flag s.client state_data ≡ false
    → is_neg s.client.fd ≡ false
    → (input s).head + 1 ≡ (input s).size
    → handle_client round s sent closed ≡ fault
unfolding handle_client handle_control_events
handle_client-full round s sent closed idle o full =
    ground (arith, read_buffer-full (round.recv s.client.fd) s.client.fd (input s) o full)

handle_data_events-waiting :
    (s : Session) (p : ℕ) (c : Channel)
    → s.client.data_channel ≡ some p
    → load s.channels p ≡ done c
    → get_state c < dtp_closed
    → handle_data_events s ≡ done s
unfolding handle_data_events
handle_data_events-waiting s p c d l h = ground arith

-- While the data channel that a client waits for is not closed, whatever the state of its
-- transfer, the client is only sent what is queued: nothing is read from it, and no command is
-- carried out.
pub handle_client-waiting :
    (round : Round) (s : Session) (sent : List (ℤ × Bytes)) (closed : List ℤ) (p : ℕ) (c : Channel)
    → has_flag s.client state_data ≡ true
    → s.client.data_channel ≡ some p
    → load s.channels p ≡ done c
    → get_state c < dtp_closed
    → handle_client round s sent closed ≡ flush_client round.before s sent closed
unfolding handle_client
handle_client-waiting round s sent closed p c waits d l h =
    rw (handle_data_events-waiting s p c d l h) (ground arith)

flag_cleared_test : ℕ → Bool
flag_cleared_test state = bit_and (bit_and state (2 ^ 32 - 1 - 8)) 8 == 0

flag_cleared : (state : ℕ) → state < 32 → (bit_and (bit_and state (2 ^ 32 - 1 - 8)) 8 == 0) ≡ true
unfolding flag_cleared_test
flag_cleared state h = all_below-lookup 32 flag_cleared_test state refl h

-- What the client is told at the end of a transfer.
abbrev pub transfer_report : Channel → Bytes
transfer_report c =
    if get_state c == dtp_closed
    then response_text 226 (codes "Transfer complete.")
    else response_text 420 (codes "Transfer failed due to a network error.")

abbrev detached : Session → ℕ → Channel → IoBuffer → Session
detached s p c b = record s {
  client = clear_flag (record s.client { output_buffer = b; data_channel = none }) state_data;
  channels = store s.channels p (set_state c dtp_free);
}

finishes :
    (s : Session) (p : ℕ) (c : Channel)
    → has_flag s.client state_data ≡ true
    → s.client.data_channel ≡ some p
    → load s.channels p ≡ done c
    → dtp_closed ≤ get_state c
    → IsValid s.client.output_buffer
    → (b : IoBuffer) × (handle_data_events s ≡ done (detached s p c b))
      × Offered s (transfer_report c) b
unfolding handle_data_events
finishes s p c waits d l h v = elim (Bool-cases (get_state c == dtp_closed)) [
  | inl e ↦
      let (b, r, o) = respond-Offered 226 (codes "Transfer complete.") s v in
      (b, ground arith, rw e o)
  | inr e ↦
      let (b, r, o) = respond-Offered 420 (codes "Transfer failed due to a network error.") s v in
      (b, ground arith, rw e o)
]

handle_data_events-free :
    (s : Session) → has_flag s.client state_data ≡ false → handle_data_events s ≡ done s
unfolding handle_data_events
handle_data_events-free s f = ground arith

-- The next poll of a list with only a channel that is marked to be freed takes it off the heap.
poll_list-frees :
    (os : Os) (p : ℕ) (w : Channels) {c : Channel} {w' : Channels}
    → load w p ≡ done c
    → get_state c ≡ dtp_free
    → poll_list os (p ∷ []) w ≡ done w'
    → load w' p ≡ fault
unfolding poll_list settle poll_channel load
poll_list-frees os p w {c} {w'} l f h =
    let freed : free_data_channel p (record (store w p c) { closed = w.closed ++ [] }) ≡ done w' =
      ground arith in
    let (heap, _, _, _) =
      free-heap p (record (store w p c) { closed = w.closed ++ [] }) {w' = w'} freed in
    rw heap (ground (arith, ==_self p))

-- A transfer that has ended is reported once. Take a client in a transfer, with a valid output
-- buffer and a state below 32 (no flag from there on is ever set), whose channel, its state a
-- byte, has closed or failed. It is offered one response, queued if there is room: 226 if the
-- channel closed in good order, 420 if it failed. After that the client is in no transfer and
-- has no channel, so that handling its data events a second time changes nothing and says
-- nothing. A poll of that channel alone, if it does not fault, takes it off the heap.
pub handle_data_events-closed :
    (s : Session) (p : ℕ) (c : Channel)
    → has_flag s.client state_data ≡ true
    → s.client.state < 32
    → s.client.data_channel ≡ some p
    → load s.channels p ≡ done c
    → IsByte c
    → dtp_closed ≤ get_state c
    → IsValid s.client.output_buffer
    → (s' : Session) × (handle_data_events s ≡ done s')
      × Offered s (transfer_report c) s'.client.output_buffer
      × (has_flag s'.client state_data ≡ false)
      × (s'.client.data_channel ≡ none)
      × (handle_data_events s' ≡ done s')
      × ((os : Os) (w : Channels) → poll_list os (p ∷ []) s'.channels ≡ done w → load w p ≡ fault)
handle_data_events-closed s p c waits flags d l byte h v =
    let (b, ran, offered) = finishes s p c waits d l h v in
    let clear = ap not (flag_cleared s.client.state flags) in
    (
      detached s p c b,
      ran,
      offered,
      clear,
      refl,
      handle_data_events-free (detached s p c b) clear,
      λ os w.
          poll_list-frees os p (store s.channels p (set_state c dtp_free))
            {c = set_state c dtp_free} {w' = w} (load-store s.channels p (set_state c dtp_free))
            (set_state_lem c dtp_free byte (omega arith)).0,
    )
