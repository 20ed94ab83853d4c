-- ===== src/Commands/Invoke/Framed.antt =====
-- What the commands keep that do not log in or out: a property of a client that survives the few
-- changes that they make to one.
use ftpserv_u.Prelude.{
  ℕ, ◌≡◌, [], ◌∷◌, ◌++◌, Bool, true, false, Option, none, some, done, ◌==◌, ◌||◌, is_neg,
  if◌then◌else◌, not, Ensures, Ensures-of, Ensures-bind, Ensures-then, Ensures-if, Ensures-some,
  arith,
}
use ftpserv_u.Memory.{Bytes}
use ftpserv_u.Text.{codes}
use ftpserv_u.Path.{VfsPath, path_acquire, path_merge, new_path, can_chdir, detach_last, dot_dot}
use ftpserv_u.Path.Resolve.{resolve_names-IsPlain, new_path-IsResolved}
use ftpserv_u.Path.Merge.{
  destination, path_merge-destination, path_merge-IsResolved, path_merge-null,
  detach_last-resolve_names,
}
use ftpserv_u.Port.{parse_port_args}
use ftpserv_u.Network.{get_ephermal_port}
use ftpserv_u.Vfs.{list_directory}
use ftpserv_u.Dtp.{is_connected, send_buffer}
use ftpserv_u.Dtp.Channels.{load, new_passive_channel, new_active_channel}
use ftpserv_u.Client.{Client, Session, respond, ftp_response, set_flag, state_data}
use ftpserv_u.Commands.{
  Env, Func, do_user, do_pass, do_quit, do_reinitialize, do_noop, do_list, do_pwd, do_cwd, do_cdup,
  do_passive, do_port, do_system, do_allocate, cwd, cdup, pwd, passive, port, drop_channel,
}
use ftpserv_u.Commands.Invoke.{run_func, data_send_buffer, channel_init}
use ftpserv_u.Commands.Invoke.Directory.{IsDirectory}

-- The changes are to the data channel and its flag, of a response in the output buffer, and to
-- another directory that is absolute and resolved.
pub record IsFramed (P : Client → Type 0) : Type 1 where
  pub flagged : (c : Client) → P c → P (set_flag c state_data)
  pub channel : (c : Client) (p : Option ℕ) → P c → P (record c { data_channel = p })
  pub response : (code : ℕ) (c : Client) (msg : Bytes) → P c → Ensures P (ftp_response code c msg)
  pub directory :
      (c : Client) (path : VfsPath) → IsDirectory path → P c → P (record c { cwd = path })
  pub is_directory : (c : Client) → P c → IsDirectory c.cwd

-- The handlers that log in or out.
abbrev pub logs : Func → Bool
logs do_user = true
logs do_pass = true
logs do_quit = true
logs do_reinitialize = true
logs _ = false

detached-IsDirectory :
    (d : VfsPath) → IsDirectory d → IsDirectory (record d { entities = detach_last d.entities })
detached-IsDirectory d h = (
  rw (detach_last-resolve_names d h.0) (resolve_names-IsPlain (d.entities ++ (dot_dot ∷ []))),
  h.1,
)

module _ (P : Client → Type 0) (framed : IsFramed P) where
  abbrev Holds : Session → Type 0
  Holds s = P s.client

  pub respond_lem :
      (code : ℕ) (msg : Bytes) (s : Session) → Holds s → Ensures Holds (respond code msg s)
  unfolding respond
  respond_lem code msg s h =
      Ensures-bind P Holds (ftp_response code s.client msg) _ (framed.response code s.client msg h)
        (λ c k. k)

  passive_lem : (env : Env) (s : Session) → Holds s → Ensures Holds (passive env s)
  unfolding passive
  passive_lem env s h = Ensures-then Holds (drop_channel s.client.data_channel s.channels) _ (λ w.
      Ensures-then Holds
        (new_passive_channel env.listening env.garbage env.host_ip
          (get_ephermal_port s.next_ephermal_port).0 w)
        _
        (λ (w', made). Ensures-some Holds made _ (λ p.
          Ensures-then Holds (load w' p) _
            (λ c. respond_lem 227 _ _ (framed.channel s.client (some p) h)))))

  port_lem : (env : Env) (args : Bytes) (s : Session) → Holds s → Ensures Holds (port env args s)
  unfolding port
  port_lem env args s h = Ensures-then Holds (parse_port_args args) _ (λ (ip, number).
      Ensures-if Holds (ip == 0 || number == 0) _ _ (respond_lem 500 _ s h) (
        Ensures-then Holds (new_active_channel env.garbage ip number s.channels) _
          (λ (w, p). framed.channel s.client (some p) h)))

  data_send_buffer_lem :
      (env : Env) (address : ℕ) (s : Session)
      → Holds s
      → Ensures Holds (data_send_buffer env address s)
  unfolding data_send_buffer
  data_send_buffer_lem env address s h =
      let c = set_flag s.client state_data in
      Ensures-then Holds (channel_init env c.data_channel c.ip c.port s.channels) _ (λ (w, p).
        let flagged = framed.channel c (some p) (framed.flagged s.client h) in
        Ensures-then Holds (load w p) _ (λ channel.
          let (connected, tried) = is_connected channel in
          let (result, sending) = send_buffer address tried in
          Ensures-if Holds (not connected) _ _ (respond_lem 425 _ _ flagged)
            (Ensures-if Holds (is_neg result) _ _ (respond_lem 425 _ _ flagged) flagged)))

  pwd_lem : (env : Env) (s : Session) → Holds s → Ensures Holds (pwd env s)
  unfolding pwd
  pwd_lem env s h =
      Ensures-some Holds (path_acquire env.path_max s.client.cwd) _ (λ text. respond_lem 257 _ s h)

  cwd_lem : (env : Env) (args : Bytes) (s : Session) → Holds s → Ensures Holds (cwd env args s)
  unfolding cwd
  cwd_lem env args s h =
      let Parsed = λ (o : Option VfsPath). new_path args ≡ done o in
      let d = framed.is_directory s.client h in
      Ensures-bind Parsed Holds (new_path args) _ (Ensures-of Parsed (new_path args) (λ o e. e))
        λ parsed e.
          elim parsed
              as (λ o.
                new_path args ≡ done o
                → Ensures Holds (
                    let refused = respond 550 (codes "That directory does not exist.") s in
                    elim (path_merge (some s.client.cwd) o) [
                      | none ↦ refused
                      | some path ↦
                          if can_chdir env.path_max env.stat path
                          then respond 250 (codes "CWD command successful.")
                              (record s { client = record s.client { cwd = path } })
                          else refused
                    ])) [
                      | none ↦ λ e. rw (path_merge-null s.client.cwd) (respond_lem 550 _ s h)
                      | some src ↦ λ e.
                          let path = destination s.client.cwd src in
                          let merged = path_merge-destination s.client.cwd src d.1 d.0 in
                          rw merged (
                            Ensures-if Holds (can_chdir env.path_max env.stat path) _ _
                              (respond_lem 250 _ _ (
                                framed.directory s.client path
                                  (path_merge-IsResolved s.client.cwd src d.1 d.0
                                    (new_path-IsResolved args e) merged)
                                  h))
                              (respond_lem 550 _ s h))
                    ]
            e

  cdup_lem : (s : Session) → Holds s → Ensures Holds (cdup s)
  unfolding cdup
  cdup_lem s h = respond_lem 250 _ _ (
      framed.directory s.client _
        (detached-IsDirectory s.client.cwd (framed.is_directory s.client h)) h)

  -- A handler that does not log in or out.
  pub run_other_lem :
      (env : Env) (f : Func) (args : Bytes) (s : Session)
      → logs f ≡ false
      → Holds s
      → Ensures Holds (run_func env f args s)
  unfolding run_func
  run_other_lem env do_user args s n h = absurd (ground arith)
  run_other_lem env do_pass args s n h = absurd (ground arith)
  run_other_lem env do_quit args s n h = absurd (ground arith)
  run_other_lem env do_reinitialize args s n h = absurd (ground arith)
  run_other_lem env do_cwd args s n h = cwd_lem env args s h
  run_other_lem env do_cdup args s n h = cdup_lem s h
  run_other_lem env do_noop args s n h = respond_lem 200 _ s h
  run_other_lem env do_list args s n h =
      Ensures-then Holds (list_directory env.path_max env.opendir env.fresh s.client.cwd) _
        (λ dir_listing. data_send_buffer_lem env _ s h)
  run_other_lem env do_pwd args s n h = pwd_lem env s h
  run_other_lem env do_passive args s n h = passive_lem env s h
  run_other_lem env do_port args s n h = port_lem env args s h
  run_other_lem env do_system args s n h = respond_lem 215 _ s h
  run_other_lem env do_allocate args s n h = respond_lem 202 _ s h
  run_other_lem env _ args s n h = h
