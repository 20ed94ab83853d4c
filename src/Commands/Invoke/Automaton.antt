-- ===== src/Commands/Invoke/Automaton.antt =====
-- The login of a client as an automaton of three states on the command words.
use mathlib.Core.Path.{subst}
use ftpserv_u.Prelude.{
  ℕ, zero, suc, ◌≡◌, refl, ap, sym, ◌∙◌, Bool, true, false, not, ◌&&◌, ◌||◌, Option-cases, none,
  some, List, [], ◌∷◌, done, arith, leb, ◌==◌, if◌then◌else◌, Bool-cases, inl, inr, Ensures-at, All,
  Out, ◌>>=◌, >>=-eq-done,
}
use ftpserv_u.Memory.{Bytes, same_string, same_string_iff}
use ftpserv_u.Text.{codes}
use ftpserv_u.Client.{Session, respond, is_authenticated, state_none, state_user, state_auth}
use ftpserv_u.Client.Responses.{respond-frame}
use ftpserv_u.Commands.{Env, Func, Command, commands, find_in, find_command}
use ftpserv_u.Commands.Invoke.{run_func, invoke_found, command_invoke}
use ftpserv_u.Commands.Invoke.Directory.{IsDirectory}
use ftpserv_u.Commands.Invoke.Invariant.{command_invoke-IsDirectory}
use ftpserv_u.Commands.Invoke.LoggedIn.{LoggedIn, LoggedIn-IsFramed}
use ftpserv_u.Commands.Invoke.Framed.{logs, run_other_lem}
use ftpserv_u.Commands.Invoke.Login.{
  IsLogin, user, password, quit, reinitialize, noop, login_state, run_login, state-of,
  found-IsGuarded, IsGuarded,
}

pub data Login : Type 0 where
  nobody named logged_in : Login

-- What the state byte says of the login.
abbrev pub login_of : ℕ → Login
login_of state =
    if state == state_none then nobody else if state == state_user then named else logged_in

abbrev pub give_password : Login → Login
give_password named = logged_in
give_password l = l

-- A command word moves the automaton.
abbrev pub step : Bytes → Login → Login
step m l =
    if same_string m (codes "USER")
    then named
    else if same_string m (codes "REIN")
    then nobody
    else if same_string m (codes "PASS")
    then give_password l
    else l

-- The words that move it.
abbrev moves : Bytes → Bool
moves m =
    same_string m (codes "USER") || same_string m (codes "REIN") || same_string m (codes "PASS")

step-steady : (m : Bytes) (l : Login) → moves m ≡ false → step m l ≡ l
step-steady m l h = ground arith

-- An entry for clients that have logged in does not log in or out.
abbrev entry : Command → Bool
entry c = not c.authentication || not (logs c.func || moves c.mnemonic)

abbrev all : (Command → Bool) → List Command → Bool
all b [] = true
all b (c ∷ cs) = let rest = all b cs in b c && rest

find_in-all :
    (b : Command → Bool) (cs : List Command) (m : Bytes) {c : Command}
    → all b cs ≡ true
    → find_in cs m ≡ some c
    → b c ≡ true
unfolding find_in
find_in-all b [] m h e = absurd (ground arith)
find_in-all b (x ∷ cs) m {c} h e = elim (Bool-cases (same_string m x.mnemonic)) [
  | inl same ↦
      let is : x ≡ c = ground arith in
      let holds : b x ≡ true = ground (arith, h) in subst (λ (k : Command). b k ≡ true) is holds
  | inr other ↦ find_in-all b cs m (ground (arith, h)) (ground arith)
]

commands-entry : all entry commands ≡ true
unfolding commands same_string
commands-entry = refl

found-entry : (m : Bytes) {c : Command} → find_command m ≡ some c → entry c ≡ true
unfolding find_command
found-entry m e = find_in-all entry commands m commands-entry e

-- A word that the table does not have.
unknown-word :
    (m : Bytes) (word : Bytes) {c : Command}
    → find_command m ≡ none
    → find_command word ≡ some c
    → same_string m word ≡ false
unknown-word m word n e = elim (Bool-cases (same_string m word)) [
  | inl same ↦
      let is : m ≡ word = (same_string_iff m word).0 same in
      absurd (ground (arith, n, e, ap find_command is))
  | inr other ↦ other
]

unknown-steady : (m : Bytes) → find_command m ≡ none → moves m ≡ false
unfolding find_command same_string
unknown-steady m n =
    rw
      (
        unknown-word m (codes "USER") n refl,
        unknown-word m (codes "REIN") n refl,
        unknown-word m (codes "PASS") n refl,
      )
      refl

login_of-logged_in : (state : ℕ) → leb state_auth state ≡ true → login_of state ≡ logged_in
login_of-logged_in state h = ground arith

-- An answer leaves the login as it is.
answered :
    (code : ℕ) (msg m : Bytes) (s : Session) {s' : Session}
    → moves m ≡ false
    → respond code msg s ≡ done s'
    → login_of s'.client.state ≡ step m (login_of s.client.state)
answered code msg m s {s'} steady h =
    ap (λ (t : Session). login_of t.client.state) (respond-frame code msg s {s' = s'} h)
    ∙ sym (step-steady m (login_of s.client.state) steady)

login_state-step :
    (m : Bytes) {f : Func} (state : ℕ)
    → IsLogin m f
    → same_string m (codes "QUIT") ≡ false
    → login_of (login_state f state) ≡ step m (login_of state)
unfolding login_state same_string
login_state-step m state (user e) n = rw e refl
login_state-step m state (password e) n = rw e (go state)
  where
    go :
        (state : ℕ)
        → login_of (if state == state_user then state_auth else state)
          ≡ give_password (login_of state)
    go zero = refl
    go (suc zero) = refl
    go (suc (suc k)) = ground arith
login_state-step m state (quit e) n = absurd (ground (arith, n, e))
login_state-step m state (reinitialize e) n = rw e refl
login_state-step m state (noop e) n = rw e refl

found-step :
    (env : Env) (c : Command) (args : Bytes) (s : Session) {s' : Session}
    → entry c ≡ true
    → IsGuarded c
    → IsDirectory s.client.cwd
    → same_string c.mnemonic (codes "QUIT") ≡ false
    → invoke_found env (some c) args s ≡ done s'
    → login_of s'.client.state ≡ step c.mnemonic (login_of s.client.state)
unfolding invoke_found
found-step env c args s {s'} checked guarded d n h = elim (Bool-cases c.authentication) [
  | inl a ↦
      let steady : moves c.mnemonic ≡ false = ground (arith, checked, a) in
      elim (Bool-cases (is_authenticated s.client)) [
        | inl in_ ↦
            let run : run_func env c.func args s ≡ done s' = ground (arith, h, a, in_) in
            let after =
              Ensures-at (λ (t : Session). LoggedIn t.client)
                (run_other_lem LoggedIn LoggedIn-IsFramed env c.func args s
                  (ground (arith, checked, a)) (d, in_))
                run in
            login_of-logged_in s'.client.state after.1
            ∙ sym (login_of-logged_in s.client.state in_)
            ∙ sym (step-steady c.mnemonic (login_of s.client.state) steady)
        | inr out ↦
            answered 530 (codes "Please login with USER and PASS.") c.mnemonic s {s' = s'} steady
              (ground (arith, h, a, out))
      ]
  | inr free ↦ elim guarded [
    | inl a ↦ absurd (ground (arith, a, free))
    | inr login ↦
        let run : run_func env c.func args s ≡ done s' = ground (arith, h, free) in
        ap login_of (state-of s _ (run_login env args s login run))
        ∙ login_state-step c.mnemonic s.client.state login n
  ]
]

unknown-step :
    (env : Env) (m args : Bytes) (s : Session) {s' : Session}
    → moves m ≡ false
    → invoke_found env none args s ≡ done s'
    → login_of s'.client.state ≡ step m (login_of s.client.state)
unfolding invoke_found
unknown-step env m args s {s'} steady h = elim (Bool-cases (is_authenticated s.client)) [
  | inl in_ ↦
      answered 502 (codes "Command not implemented.") m s {s' = s'} steady (ground (arith, h, in_))
  | inr out ↦
      answered 530 (codes "Please login with USER and PASS.") m s {s' = s'} steady
        (ground (arith, h, out))
]

-- One command.
pub command_invoke-step :
    (env : Env) (m args : Bytes) (s : Session) {s' : Session}
    → IsDirectory s.client.cwd
    → same_string m (codes "QUIT") ≡ false
    → command_invoke env m args s ≡ done s'
    → login_of s'.client.state ≡ step m (login_of s.client.state)
unfolding command_invoke
command_invoke-step env m args s {s'} d n h = elim (Option-cases (find_command m)) [
  | inl e ↦
      unknown-step env m args s {s' = s'} (unknown-steady m e)
        (ap (λ found. invoke_found env found args s) (sym e) ∙ h)
  | inr (c, e) ↦
      let (guarded, is_m) = found-IsGuarded m e in
      subst (λ (k : Bytes). login_of s'.client.state ≡ step k (login_of s.client.state)) is_m
        (found-step env c args s {s' = s'} (found-entry m e) guarded d
          (ap (λ (k : Bytes). same_string k (codes "QUIT")) is_m ∙ n)
          (ap (λ found. invoke_found env found args s) (sym e) ∙ h))
]

-- Commands with their parameters, one after another.
abbrev pub invoke_all : Env → List (Bytes × Bytes) → Session → Out Session
invoke_all env [] s = done s
invoke_all env ((m, args) ∷ more) s = command_invoke env m args s >>= λ s'. invoke_all env more s'

abbrev pub steps : List (Bytes × Bytes) → Login → Login
steps [] l = l
steps ((m, args) ∷ more) l = steps more (step m l)

-- The login of a client is the automaton of the standard, whatever commands run one after another,
-- known or not, permitted or not: USER names the client, PASS behind USER logs it in, REIN forgets
-- it, and nothing else moves it. This holds for commands with no QUIT among them, from any state
-- in a directory that is absolute and resolved, where no command faults.
pub invoke_all-steps :
    (env : Env) (cs : List (Bytes × Bytes)) (s : Session) {s' : Session}
    → IsDirectory s.client.cwd
    → All (λ (c : Bytes × Bytes). same_string c.0 (codes "QUIT") ≡ false) cs
    → invoke_all env cs s ≡ done s'
    → login_of s'.client.state ≡ steps cs (login_of s.client.state)
invoke_all-steps env [] s {s'} d n h =
    let is : s ≡ s' = cc in ap (λ (t : Session). login_of t.client.state) (sym is)
invoke_all-steps env ((m, args) ∷ more) s {s'} d n h =
    let (t, e, rest) = >>=-eq-done (command_invoke env m args s) _ h in
    invoke_all-steps env more t (command_invoke-IsDirectory env m args s d e) n.1 rest
    ∙ ap (steps more) (command_invoke-step env m args s d n.0 e)
