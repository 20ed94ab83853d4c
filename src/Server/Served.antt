-- ===== src/Server/Served.antt =====
-- The clients that the server serves: what holds of each of them from round to round.
use ftpserv_u.Prelude.{
  ℕ, zero, suc, ◌≡◌, ℤ, pos, negsuc, is_neg, true, false, Option, none, some, List, [], ◌∷◌, ◌++◌,
  not, done, fault, ◌>>=◌, arith, ◌==◌, if◌then◌else◌, leb, Bool-cases, Option-cases, inl, inr, ◌⊎◌,
  Ensures, Ensures-bind, Ensures-then, Ensures-if, Ensures-of,
}
use ftpserv_u.Memory.{Bytes}
use ftpserv_u.Text.{codes}
use ftpserv_u.IoBuffer.{IoBuffer}
use ftpserv_u.IoBuffer.Contents.{IsValid}
use ftpserv_u.IoBuffer.Kept.{IsDrained, each_line-Kept}
use ftpserv_u.IoBuffer.Loop.{each_line}
use ftpserv_u.Path.{VfsPath}
use ftpserv_u.Mnemonic.{parse_command, mark_command}
use ftpserv_u.Network.{Received, eagain}
use ftpserv_u.Network.Reading.{IsReadable, Bounded, read_buffer-IsReadable}
use ftpserv_u.Dtp.{Channel, get_state, dtp_closed}
use ftpserv_u.Dtp.Channels.{load}
use ftpserv_u.Client.{Client, Session, has_flag, respond, state_data, state_disconn}
use ftpserv_u.Client.Responses.{ftp_response_lem}
use ftpserv_u.Commands.{Env}
use ftpserv_u.Commands.Invoke.{command_invoke}
use ftpserv_u.Commands.Invoke.Directory.{IsDirectory}
use ftpserv_u.Commands.Invoke.Kept.{IsKept, respond_lem, command_invoke_lem}
use ftpserv_u.Server.Inside.{process_command-inside, write_line-inside}
use ftpserv_u.Server.{
  Round, Handled, handle_data_events, finish_transfer, process_command, process_lines,
  handle_control_events, handle_client, handle_output, flush_client, write_line, socket_of,
}

-- The parts of a client of the socket `fd`: the socket is open, there is room to read, the output
-- buffer is valid, and the working directory is absolute and resolved.
pub record Serves (fd own : ℤ) (input output : IoBuffer) (cwd : VfsPath) : Type 0 where
  pub same_fd : own ≡ fd
  pub open_fd : is_neg fd ≡ false
  pub readable : IsReadable input
  pub valid_output : IsValid output
  pub in_directory : IsDirectory cwd

abbrev pub IsServed : ℤ → Client → Type 0
IsServed fd c = Serves fd c.fd c.input_buffer c.output_buffer c.cwd

module _ {fd own : ℤ} {input output : IoBuffer} {cwd : VfsPath}
    (i : Serves fd own input output cwd) where
  served :
      {input' output' : IoBuffer} {cwd' : VfsPath}
      → IsReadable input'
      → IsValid output'
      → IsDirectory cwd'
      → Serves fd own input' output' cwd'
  served r v d = record {
    same_fd = i.same_fd;
    open_fd = i.open_fd;
    readable = r;
    valid_output = v;
    in_directory = d;
  }

IsServed-IsKept : (fd : ℤ) → IsKept (IsServed fd)
IsServed-IsKept fd = record {
  state = λ c state i. i;
  channel = λ c p i. i;
  response = λ code c msg i.
      ftp_response_lem (IsServed fd) code c msg
        (λ b v. served i i.readable (v i.valid_output) i.in_directory);
  directory = λ c path d i. served i i.readable i.valid_output d;
  is_directory = λ c i. i.in_directory;
}

-- The socket gives no more than it is asked for.
abbrev pub Bounds : (ℤ → ℕ → Received) → Type 0
Bounds recv = (fd : ℤ) → Bounded (recv fd)

module _ (fd : ℤ) where
  abbrev Served : Session → Type 0
  Served s = IsServed fd s.client

  finish_transfer_lem :
      (p : ℕ) (channel : Channel) (s : Session)
      → Served s
      → Ensures Served (finish_transfer p channel s)
  unfolding finish_transfer
  finish_transfer_lem p channel s i =
      Ensures-bind Served Served
        (if get_state channel == dtp_closed
          then respond 226 (codes "Transfer complete.") s
          else respond 420 (codes "Transfer failed due to a network error.") s)
        _
        (Ensures-if Served (get_state channel == dtp_closed) _ _
          (respond_lem (IsServed fd) (IsServed-IsKept fd) 226 _ s i)
          (respond_lem (IsServed fd) (IsServed-IsKept fd) 420 _ s i))
        (λ s' i'. i')

  handle_data_events_lem : (s : Session) → Served s → Ensures Served (handle_data_events s)
  unfolding handle_data_events
  handle_data_events_lem s i =
      Ensures-if Served (not (has_flag s.client state_data)) _ _ i
        (elim (Option-cases s.client.data_channel) [
          | inl e ↦ rw e i
          | inr (p, e) ↦ rw e (
              Ensures-then Served (load s.channels p) _ (λ channel.
                Ensures-if Served (leb dtp_closed (get_state channel)) _ _
                  (finish_transfer_lem p channel s i) i))
        ])

  process_command_lem :
      (env : Env) (s : Session) (line : Bytes)
      → Served s
      → Ensures (λ (r : Session × Bytes). Served r.0) (process_command env s line)
  unfolding process_command
  process_command_lem env s line i = Ensures-then Left (parse_command line) _ (λ found.
      elim found
        as (λ (o : Option (Bytes × Bytes)). Ensures Left (elim o [
          | none ↦ done (s, line)
          | some (m, p) ↦ command_invoke env m p s >>= λ s'. done (s', mark_command line)
        ])) [
          | none ↦ i
          | some (m, p) ↦
              Ensures-bind Served Left (command_invoke env m p s) _
                (command_invoke_lem (IsServed fd) (IsServed-IsKept fd) env m p s i) (λ s' i'. i')
        ])
    where
      Left : Session × Bytes → Type 0
      Left r = Served r.0

  process_lines_lem :
      (env : Env) (before : ℕ) (s : Session)
      → Served s
      → Ensures Served (process_lines env before s)
  unfolding process_lines
  process_lines_lem env before s i =
      let b = s.client.input_buffer in
      let Looped = λ (r : IoBuffer × Session). IsDrained b r.0 × Served r.1 in
      Ensures-bind Looped Served (each_line (process_command env) (suc b.head) before false b s) _
        (each_line-Kept Served (process_command env) (process_command-inside env)
          (λ s line. process_command_lem env s line) (suc b.head) before false s i.readable.valid i)
        (λ (b', s') (d, i').
          served i'
            (record { valid = d.valid; room = omega (arith, d.less, d.same_size, i.readable.room) })
            i'.valid_output i'.in_directory)

  -- A client that is not freed is still served.
  abbrev Remains : Option Session → Type 0
  Remains none = Unit
  Remains (some s) = Served s

  handle_control_events_lem :
      (env : Env) (recv : ℤ → ℕ → Received) (before : ℕ) (s : Session)
      → Bounds recv
      → Served s
      → Ensures Remains (handle_control_events env recv before s)
  unfolding handle_control_events
  handle_control_events_lem env recv before s bounds i =
      Ensures-if Remains (has_flag s.client state_data) _ _ i (
        let same = i.same_fd in
        let (result, b, e, r) =
          read_buffer-IsReadable (recv s.client.fd) s.client.fd (bounds s.client.fd) (ground arith)
            i.readable in
        let s' = record s { client = record s.client { input_buffer = b } } in
        let i' : Served s' = served i r i.valid_output i.in_directory in
        rw e (answered result s' i'))
    where
      answered :
          (result : ℤ) (s' : Session)
          → Served s'
          → Ensures Remains (elim result [
            | pos zero ↦ done none
            | pos (suc n) ↦ process_lines env before s' >>= λ s''. done (some s'')
            | negsuc n ↦ done (if suc n == eagain then some s' else none)
          ])
      answered (pos zero) s' i' = tt
      answered (pos (suc n)) s' i' =
          Ensures-bind Served Remains (process_lines env before s') _
            (process_lines_lem env before s' i') (λ s'' i''. i'')
      answered (negsuc n) s' i' = elim (Bool-cases (suc n == eagain)) [
        | inl e ↦ rw e i'
        | inr e ↦ rw e tt
      ]

  handle_output_lem :
      (before : ℕ) (c : Client) (sent : List (ℤ × Bytes))
      → IsServed fd c
      → Ensures (λ (r : Client × List (ℤ × Bytes)). IsServed fd r.0) (handle_output before c sent)
  unfolding handle_output
  handle_output_lem before c sent i =
      let Flushed = λ (r : Client × List (ℤ × Bytes)). IsServed fd r.0 in
      let Looped = λ (r : IoBuffer × List (ℤ × Bytes)). IsDrained c.output_buffer r.0 × Unit {0} in
      let b = c.output_buffer in
      Ensures-if Flushed (b.head == 0) _ _ i (
        Ensures-bind Looped Flushed (each_line (write_line c.fd) (suc b.head) before true b sent) _
          (each_line-Kept (λ l. Unit) (write_line c.fd) (write_line-inside c.fd)
            (λ l line u. Ensures-of (λ r. Unit) (write_line c.fd l line) (λ a e. tt)) (suc b.head)
            before true sent i.valid_output tt)
          (λ (b', sent') (d, _). served i i.readable d.valid i.in_directory))

  -- What becomes of a client in a round: it stays served, and no socket of a client is closed, or
  -- it leaves its slot free, and its socket is closed once.
  abbrev pub Settles : List ℤ → Handled → Type 0
  Settles closed h =
      ((c : Client) × (h.slot ≡ some c) × IsServed fd c × (h.closed ≡ closed))
      ⊎ ((h.slot ≡ none) × (h.closed ≡ closed ++ (fd ∷ [])))

  flush_client_lem :
      (before : ℕ) (s : Session) (sent : List (ℤ × Bytes)) (closed : List ℤ)
      → Served s
      → Ensures (Settles closed) (flush_client before s sent closed)
  unfolding flush_client
  flush_client_lem before s sent closed i =
      let Flushed = λ (r : Client × List (ℤ × Bytes)). IsServed fd r.0 in
      Ensures-bind Flushed (Settles closed) (handle_output before s.client sent) _
        (handle_output_lem before s.client sent i)
        (λ (c, sent') i'. elim (Bool-cases (has_flag c state_disconn)) [
          | inl e ↦
              let own = i'.same_fd in
              let open_fd = i'.open_fd in
              let socket : socket_of c ≡ fd ∷ [] = ground arith in
              inr (ground arith, ground (arith, socket))
          | inr e ↦ inl (c, ground arith, i', ground arith)
        ])

  -- A round of a served client, when it does not fault.
  pub handle_client_lem :
      (round : Round) (s : Session) (sent : List (ℤ × Bytes)) (closed : List ℤ)
      → Bounds round.recv
      → Served s
      → Ensures (Settles closed) (handle_client round s sent closed)
  unfolding handle_client
  handle_client_lem round s sent closed bounds i =
      Ensures-bind Served (Settles closed)
        (if has_flag s.client state_data then handle_data_events s else done s) _
        (Ensures-if Served (has_flag s.client state_data) _ _ (handle_data_events_lem s i) i)
        (λ s' i'.
          Ensures-bind Remains (Settles closed)
            (if not (has_flag s'.client state_data)
              then handle_control_events round.env round.recv round.before s'
              else done (some s'))
            _
            (Ensures-if Remains (not (has_flag s'.client state_data)) _ _
              (handle_control_events_lem round.env round.recv round.before s' bounds i') i')
            (λ kept r.
              elim kept
                  as (λ (o : Option Session).
                    Remains o
                    → Ensures (Settles closed) (elim o [
                      | none ↦ fault
                      | some s'' ↦ flush_client round.before s'' sent closed
                    ])) [
                      | none ↦ λ r. tt
                      | some s'' ↦ λ r. flush_client_lem round.before s'' sent closed r
                    ]
                r))
