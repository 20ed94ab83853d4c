-- ===== src/Commands/Invoke/Kept.antt =====
-- What every command keeps: a property of a client that survives the few changes that commands
-- make to one.
use ftpserv_u.Prelude.{
  ℕ, refl, Option-cases, Option, ◌==◌, inl, inr, not, ◌&&◌, Ensures, Ensures-if,
}
use ftpserv_u.Memory.{Bytes}
use ftpserv_u.Path.{VfsPath}
use ftpserv_u.Client.{
  Client, Session, respond, ftp_response, is_authenticated, set_flag, state_none, state_user,
  state_data,
}
use ftpserv_u.Commands.{Env, Func, do_user, do_pass, do_quit, do_reinitialize, find_command, pass}
use ftpserv_u.Commands.Invoke.{run_func, invoke_found, command_invoke}
use ftpserv_u.Commands.Invoke.Directory.{IsDirectory}
use ftpserv_u.Commands.Invoke.Framed.{IsFramed, logs, run_other_lem}
use ftpserv_u.Commands.Invoke.Framed

-- The changes of `IsFramed`, and those to the state.
pub record IsKept (P : Client → Type 0) : Type 1 where
  pub state : (c : Client) (state : ℕ) → P c → P (record c { state = state })
  pub channel : (c : Client) (p : Option ℕ) → P c → P (record c { data_channel = p })
  pub response : (code : ℕ) (c : Client) (msg : Bytes) → P c → Ensures P (ftp_response code c msg)
  pub directory :
      (c : Client) (path : VfsPath) → IsDirectory path → P c → P (record c { cwd = path })
  pub is_directory : (c : Client) → P c → IsDirectory c.cwd

framed : {P : Client → Type 0} → IsKept P → IsFramed P
framed kept = record {
  flagged = λ c. kept.state c (set_flag c state_data).state;
  channel = kept.channel;
  response = kept.response;
  directory = kept.directory;
  is_directory = kept.is_directory;
}

module _ (P : Client → Type 0) (kept : IsKept P) where
  abbrev Holds : Session → Type 0
  Holds s = P s.client

  pub respond_lem :
      (code : ℕ) (msg : Bytes) (s : Session) → Holds s → Ensures Holds (respond code msg s)
  respond_lem = Framed.respond_lem P (framed kept)

  pass_lem : (s : Session) → Holds s → Ensures Holds (pass s)
  unfolding pass
  pass_lem s h = Ensures-if Holds (s.client.state == state_none) _ _ (respond_lem 332 _ s h) (
      Ensures-if Holds (s.client.state == state_user) _ _
        (respond_lem 230 _ _ (kept.state s.client 2 h)) (respond_lem 503 _ s h))

  run_func_lem :
      (env : Env) (f : Func) (args : Bytes) (s : Session)
      → Holds s
      → Ensures Holds (run_func env f args s)
  unfolding run_func
  run_func_lem env do_user args s h = respond_lem 331 _ _ (kept.state s.client 1 h)
  run_func_lem env do_pass args s h = pass_lem s h
  run_func_lem env do_quit args s h = respond_lem 221 _ _ (kept.state s.client _ h)
  run_func_lem env do_reinitialize args s h = respond_lem 220 _ _ (kept.state s.client 0 h)
  run_func_lem env f args s h = run_other_lem P (framed kept) env f args s refl h

  -- Whatever command a client sends, permitted or not, known or not.
  pub command_invoke_lem :
      (env : Env) (m args : Bytes) (s : Session)
      → Holds s
      → Ensures Holds (command_invoke env m args s)
  unfolding command_invoke invoke_found
  command_invoke_lem env m args s h = elim (Option-cases (find_command m)) [
    | inl e ↦ rw e (
        Ensures-if Holds (is_authenticated s.client) _ _ (respond_lem 502 _ s h)
          (respond_lem 530 _ s h))
    | inr (c, e) ↦ rw e (
        Ensures-if Holds (c.authentication && not (is_authenticated s.client)) _ _
          (respond_lem 530 _ s h) (run_func_lem env c.func args s h))
  ]
