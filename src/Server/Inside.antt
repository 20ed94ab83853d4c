-- ===== src/Server/Inside.antt =====
-- The handlers of the two loops over lines stay inside the block that holds the line.
use ftpserv_u.Prelude.{
  ◌≡◌, ℤ, refl, Option, none, some, List, done, ◌>>=◌, length, Ensures, Ensures-then,
}
use ftpserv_u.Memory.{Bytes}
use ftpserv_u.IoBuffer.Loop.{WritesInside}
use ftpserv_u.Client.{Session}
use ftpserv_u.Mnemonic.{parse_command, mark_command, length-mark_command}
use ftpserv_u.Commands.{Env}
use ftpserv_u.Commands.Invoke.{command_invoke}
use ftpserv_u.Server.{process_command, writeln, write_line}

-- `ftp_process_command` writes inside the block of its line.
pub process_command-inside : (env : Env) → WritesInside (process_command env)
unfolding process_command
process_command-inside env s line = Ensures-then Same (parse_command line) _ (λ found.
    elim found
      as (λ (o : Option (Bytes × Bytes)). Ensures Same (elim o [
        | none ↦ done (s, line)
        | some (m, p) ↦ command_invoke env m p s >>= λ s'. done (s', mark_command line)
      ])) [
        | none ↦ refl
        | some (m, p) ↦
            Ensures-then Same (command_invoke env m p s) _ (λ s'. length-mark_command line)
      ])
  where
    Same : Session × Bytes → Type 0
    Same r = length r.1 ≡ length line

pub write_line-inside : (fd : ℤ) → WritesInside (write_line fd)
write_line-inside fd sent line =
    Ensures-then (λ (r : List (ℤ × Bytes) × Bytes). length r.1 ≡ length line) (writeln fd sent line)
      _ (λ sent'. refl)
