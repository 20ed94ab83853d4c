-- ===== src/Commands/Invoke/Invariant.antt =====
-- What no command breaks.
use ftpserv_u.Prelude.{◌≡◌, done, Ensures-at}
use ftpserv_u.Memory.{Bytes}
use ftpserv_u.Client.{Client, Session}
use ftpserv_u.Client.Responses.{ftp_response_lem}
use ftpserv_u.Commands.{Env}
use ftpserv_u.Commands.Invoke.{command_invoke}
use ftpserv_u.Commands.Invoke.Directory.{IsDirectory}
use ftpserv_u.Commands.Invoke.Kept.{IsKept, command_invoke_lem}

IsDirectory-IsKept : IsKept (λ (c : Client). IsDirectory c.cwd)
IsDirectory-IsKept = record {
  state = λ c state d. d;
  channel = λ c p d. d;
  response =
      λ code c msg d. ftp_response_lem (λ (t : Client). IsDirectory t.cwd) code c msg (λ b v. d);
  directory = λ c path d old. d;
  is_directory = λ c d. d;
}

-- Whatever command a client sends, if its working directory is absolute with no "." or ".."
-- among its names, and the command does not fault, the directory is so again afterwards: this
-- holds for commands known or not, permitted or not.
pub command_invoke-IsDirectory :
    (env : Env) (m args : Bytes) (s : Session) {s' : Session}
    → IsDirectory s.client.cwd
    → command_invoke env m args s ≡ done s'
    → IsDirectory s'.client.cwd
command_invoke-IsDirectory env m args s d h =
    Ensures-at (λ (t : Session). IsDirectory t.client.cwd)
      (command_invoke_lem (λ (c : Client). IsDirectory c.cwd) IsDirectory-IsKept env m args s d) h
