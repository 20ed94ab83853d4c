-- ===== src/Server/Accepting.antt =====
-- What `ftp_accept_handler` makes of a connection.
use mathlib.Core.Path.{subst}
use ftpserv_u.Prelude.{
  ℕ, zero, suc, ◌+◌, ◌<◌, ◌≡◌, ◌≢◌, refl, ap, ◌∙◌, pos, true, Option, none, some, List, [], ◌∷◌,
  ◌++◌, done, arith, Option-cases, inl, inr, leb, get_elem?, set, length,
}
use ftpserv_u.Memory.{Bytes}
use ftpserv_u.Text.{codes, decimal}
use ftpserv_u.IoBuffer.{IoBuffer, new_buffer}
use ftpserv_u.IoBuffer.Contents.{IsValid, contents, append_lem}
use ftpserv_u.IoBuffer.Size.{new_buffer_lem}
use ftpserv_u.Path.{new_path}
use ftpserv_u.Client.{Client, response_text, state_none, ftp_response}
use ftpserv_u.Server.{Server, new_client, find_open_client_slot, accept_handler, ftp_buffer}

-- The slot found is the first one that is free.
pub record IsFirstFree (slots : List (Option Client)) (i : ℕ) : Type 0 where
  pub free : get_elem? slots i ≡ some none
  pub taken_before : (j : ℕ) → j < i → get_elem? slots j ≢ some none

first-later :
    (c : Client) {slots : List (Option Client)} {i : ℕ}
    → IsFirstFree slots i
    → IsFirstFree (some c ∷ slots) (suc i)
first-later c {slots} {i} f = record { free = f.free; taken_before = before }
  where
    before : (j : ℕ) → j < suc i → get_elem? (some c ∷ slots) j ≢ some none
    before zero h e = cc
    before (suc j) h e = f.taken_before j (omega arith) e

find-first :
    (slots : List (Option Client)) {i : ℕ}
    → find_open_client_slot slots ≡ some i
    → IsFirstFree slots i
unfolding find_open_client_slot
find-first [] e = absurd (ground arith)
find-first (none ∷ slots) {i} e =
    let is_zero : 0 ≡ i = cc in
    subst (IsFirstFree (none ∷ slots)) is_zero
      (record { free = refl; taken_before = λ j h. absurd (omega arith) })
find-first (some c ∷ slots) {i} e = elim (Option-cases (find_open_client_slot slots)) [
  | inl f ↦ absurd (ground arith)
  | inr (k, f) ↦
      let is_suc : suc k ≡ i = ground arith in
      subst (IsFirstFree (some c ∷ slots)) is_suc (first-later c (find-first slots f))
]

-- The response that greets a client.
abbrev pub welcome : Bytes
welcome = response_text 220 (codes "FTPservU, here to serve you!")

-- A new client: nobody has logged in, nothing has arrived, and the directory is the root.
pub record IsNew (c : Client) : Type 0 where
  pub no_state : c.state ≡ state_none
  pub at_root : c.cwd ≡ record { entities = []; absolute = true }
  pub no_channel : c.data_channel ≡ none
  pub valid_input : IsValid c.input_buffer
  pub roomy : ftp_buffer < c.input_buffer.size
  pub nothing_read : contents c.input_buffer ≡ []
  pub valid_output : IsValid c.output_buffer
  pub roomy_output : ftp_buffer < c.output_buffer.size

abbrev made_with : IoBuffer → Client
made_with b = record {
  fd = pos 0;
  ip = 0;
  port = 0;
  state = state_none;
  input_buffer = b;
  output_buffer = b;
  data_channel = none;
  cwd = record { entities = []; absolute = true };
}

new_client_lem :
    {b : IoBuffer}
    → new_buffer true true true ftp_buffer ≡ some b
    → new_client ≡ done (some (made_with b))
unfolding new_client
new_client_lem e = rw e (ground (arith, root_lem))
  where
    root_lem : new_path (b'/' ∷ 0 ∷ []) ≡ done (some (record { entities = []; absolute = true }))
    root_lem = unfold new_path in refl

pub length-welcome : length welcome ≡ 34
unfolding response_text decimal
length-welcome = refl

welcome_lem :
    {b : IoBuffer}
    → IsValid b
    → contents b ≡ []
    → ftp_buffer < b.size
    → (b' : IoBuffer) × (ftp_response 220 (made_with b) (codes "FTPservU, here to serve you!")
        ≡ done (record (made_with b) { output_buffer = b' }))
      × IsValid b'
      × (contents b' ≡ welcome)
      × (b'.size ≡ b.size)
unfolding ftp_response
welcome_lem {b} v empty big =
    let (b', queued, valid, held, size, _) = append_lem welcome v in
    let fits : leb (length (contents b) + length welcome) b.size ≡ true =
      ground (arith, ap length empty, length-welcome) in
    (b', ground arith, valid, held ∙ rw (fits, empty), size)

-- Where a slot is found, it is the first free one of the server, and the connection takes it:
-- the client there is new, has the connection's socket and address, and the welcome is all that
-- waits to be sent to it. Nothing else changes.
pub accept_handler_lem :
    (fd ip port : ℕ) (server : Server) {slot : ℕ}
    → find_open_client_slot server.clients ≡ some slot
    → IsFirstFree server.clients slot
      × ((c : Client) × (accept_handler fd ip port server
            ≡ done (record server { clients = set server.clients slot (some c) }))
          × IsNew c
          × (contents c.output_buffer ≡ welcome)
          × (c.fd ≡ pos fd)
          × (c.ip ≡ ip)
          × (c.port ≡ port))
unfolding accept_handler
accept_handler_lem fd ip port server {slot} e =
    let (b, made, valid, empty, big, _, _) = new_buffer_lem ftp_buffer in
    let (b', queued, valid', held, same_size) = welcome_lem valid empty big in
    let c : Client = record (made_with b) {
      output_buffer = b';
      fd = pos fd;
      ip = ip;
      port = port;
    } in
    (
      find-first server.clients e,
      (
        c,
        ground (arith, new_client_lem made, queued),
        record {
          no_state = refl;
          at_root = refl;
          no_channel = refl;
          valid_input = valid;
          roomy = big;
          nothing_read = empty;
          valid_output = valid';
          roomy_output = omega (arith, same_size, big);
        },
        held,
        refl,
        refl,
        refl,
      ),
    )

-- With every slot taken the connection is closed at once, and nothing else changes.
pub accept_handler-full :
    (fd ip port : ℕ) (server : Server)
    → find_open_client_slot server.clients ≡ none
    → accept_handler fd ip port server
      ≡ done (record server { closed = server.closed ++ (pos fd ∷ []) })
unfolding accept_handler
accept_handler-full fd ip port server e = ground arith
