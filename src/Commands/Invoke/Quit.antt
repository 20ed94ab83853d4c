-- ===== src/Commands/Invoke/Quit.antt =====
-- QUIT, and what a client may do behind it.
use Prim.Native.Nat.{bit_or}
use ftpserv_u.Prelude.{ℕ, zero, suc, ◌≡◌, refl, ap, sym, ◌∙◌, true, false, some, done, arith, leb}
use ftpserv_u.Memory.{Bytes, same_string}
use ftpserv_u.Text.{codes}
use ftpserv_u.Client.{Session, is_authenticated, state_auth, state_disconn}
use ftpserv_u.Commands.{Env, do_quit, Command, find_command}
use ftpserv_u.Commands.Invoke.{run_func, invoke_found, command_invoke}
use ftpserv_u.Commands.Invoke.Login.{quit, login_state, run_login, state-of}

quit_state : (state : ℕ) → leb state_auth state ≡ false → leb state_auth (bit_or state 16) ≡ true
quit_state zero h = refl
quit_state (suc zero) h = refl
quit_state (suc (suc n)) h = absurd (ground arith)

abbrev quit_command : Command
quit_command = record { mnemonic = codes "QUIT"; authentication = false; func = do_quit }

find_quit : find_command (codes "QUIT") ≡ some quit_command
unfolding find_command same_string
find_quit = refl

run_found :
    (env : Env) (m args : Bytes) (s : Session) {c : Command}
    → find_command m ≡ some c
    → is_authenticated s.client ≡ true
    → command_invoke env m args s ≡ run_func env c.func args s
unfolding command_invoke invoke_found
run_found env m args s {c} e a = ap (λ found. invoke_found env found args s) e ∙ ground arith

quit_login :
    (env : Env) (args : Bytes) (s : Session) {s' : Session}
    → command_invoke env (codes "QUIT") args s ≡ done s'
    → s'.client.state ≡ bit_or s.client.state state_disconn
unfolding command_invoke invoke_found login_state
quit_login env args s h = state-of s _ (
    run_login env args s (quit refl)
      (sym (ap (λ found. invoke_found env found args s) find_quit) ∙ h))

-- QUIT lets a client in: behind a QUIT of a client that has not logged in, any command of the
-- table is carried out, whatever it is, without USER and PASS, since the flag that QUIT sets
-- makes the state compare as authenticated.
pub quit-authenticates :
    (env : Env) (args : Bytes) (s : Session) {s' : Session} (m args' : Bytes) {c : Command}
    → is_authenticated s.client ≡ false
    → command_invoke env (codes "QUIT") args s ≡ done s'
    → find_command m ≡ some c
    → command_invoke env m args' s' ≡ run_func env c.func args' s'
quit-authenticates env args s {s'} m args' a h e =
    run_found env m args' s' e
      (ap (leb state_auth) (quit_login env args s h) ∙ quit_state s.client.state a)
