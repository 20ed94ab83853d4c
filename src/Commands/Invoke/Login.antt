-- ===== src/Commands/Invoke/Login.antt =====
-- Who may run what: the login state of a client under the commands.
use Prim.Native.Nat.{bit_or}
use mathlib.Core.Path.{subst}
use ftpserv_u.Prelude.{
  ℕ, ◌≡◌, refl, ap, sym, ◌∙◌, ◌⊎◌, true, false, none, some, List, [], ◌∷◌, done, arith, leb, ◌==◌,
  if◌then◌else◌, Bool-cases, Option-cases, inl, inr, All, drop,
}
use ftpserv_u.Memory.{Bytes, same_string, same_string_iff}
use ftpserv_u.Text.{codes}
use ftpserv_u.Client.{Session, is_authenticated, state_none, state_user, state_auth, state_disconn}
use ftpserv_u.Client.Responses.{with_output, respond-frame}
use ftpserv_u.Commands.{
  Env, Func, do_user, do_pass, do_quit, do_reinitialize, do_noop, Command, commands, find_in,
  find_command, pass,
}
use ftpserv_u.Commands.Invoke.{run_func, invoke_found, command_invoke}

-- The commands that the table gives to clients that have not logged in.
pub data IsLogin (m : Bytes) : Func → Type 0 where
  user : m ≡ codes "USER" → IsLogin m do_user
  password : m ≡ codes "PASS" → IsLogin m do_pass
  quit : m ≡ codes "QUIT" → IsLogin m do_quit
  reinitialize : m ≡ codes "REIN" → IsLogin m do_reinitialize
  noop : m ≡ codes "NOOP" → IsLogin m do_noop

abbrev pub IsGuarded : Command → Type 0
IsGuarded c = (c.authentication ≡ true) ⊎ IsLogin c.mnemonic c.func

find_in-All {κ} :
    (P : Command → Type κ) (cs : List Command) (m : Bytes) {c : Command}
    → All P cs
    → find_in cs m ≡ some c
    → P c × (c.mnemonic ≡ m)
unfolding find_in
find_in-All P [] m h e = absurd (ground arith)
find_in-All P (x ∷ cs) m {c} h e = elim (Bool-cases (same_string m x.mnemonic)) [
  | inl same ↦
      let x-is : x ≡ c = ground arith in
      (
        subst P x-is h.0,
        ap (λ (c : Command). c.mnemonic) (sym x-is) ∙ sym ((same_string_iff m x.mnemonic).0 same),
      )
  | inr other ↦ find_in-All P cs m h.1 (ground arith)
]

commands-IsGuarded : All IsGuarded commands
unfolding commands
commands-IsGuarded = (
  inr (user refl),
  (inr (password refl), (inr (quit refl), (inr (reinitialize refl), (inr (noop refl), rest)))),
)
  where
    rest : All IsGuarded (drop 5 commands)
    rest = (
      inl refl,
      (
        inl refl,
        (
          inl refl,
          (
            inl refl,
            (
              inl refl,
              (
                inl refl,
                (
                  inl refl,
                  (
                    inl refl,
                    (
                      inl refl,
                      (
                        inl refl,
                        (
                          inl refl,
                          (
                            inl refl,
                            (
                              inl refl,
                              (
                                inl refl,
                                (
                                  inl refl,
                                  (
                                    inl refl,
                                    (
                                      inl refl,
                                      (
                                        inl refl,
                                        (inl refl, (inl refl, (inl refl, (inl refl, tt)))),
                                      ),
                                    ),
                                  ),
                                ),
                              ),
                            ),
                          ),
                        ),
                      ),
                    ),
                  ),
                ),
              ),
            ),
          ),
        ),
      ),
    )

-- What a login command makes of the state of its client.
unfoldable pub login_state : Func → ℕ → ℕ
login_state do_user state = state_user
login_state do_pass state = if state == state_user then state_auth else state
login_state do_quit state = bit_or state state_disconn
login_state do_reinitialize state = state_none
login_state _ state = state

abbrev pub with_state : ℕ → Session → Session
with_state state s = record s { client = record s.client { state = state } }

pass-state :
    (s : Session) {s' : Session}
    → pass s ≡ done s'
    → s' ≡ with_output (with_state (login_state do_pass s.client.state) s) s'.client.output_buffer
unfolding pass login_state
pass-state s {s'} h = ground (
  arith,
  respond-frame 332 (codes "Need account for login.") s {s' = s'},
  respond-frame 230 (codes "User logged in successfully.") (with_state state_auth s) {s' = s'},
  respond-frame 503 (codes "Bad sequence of commands.") s {s' = s'},
)

pub run_login :
    (env : Env) {m : Bytes} {f : Func} (args : Bytes) (s : Session) {s' : Session}
    → IsLogin m f
    → run_func env f args s ≡ done s'
    → s' ≡ with_output (with_state (login_state f s.client.state) s) s'.client.output_buffer
unfolding run_func login_state
run_login env args s (user _) h = respond-frame 331 _ (with_state state_user s) h
run_login env args s (password _) h = pass-state s h
run_login env args s (quit _) h = respond-frame 221 _ (with_state (bit_or s.client.state 16) s) h
run_login env args s (reinitialize _) h = respond-frame 220 _ (with_state state_none s) h
run_login env args s (noop _) h = respond-frame 200 _ s h

pub found-IsGuarded :
    (m : Bytes) {c : Command} → find_command m ≡ some c → IsGuarded c × (c.mnemonic ≡ m)
unfolding find_command
found-IsGuarded m e = find_in-All IsGuarded commands m commands-IsGuarded e

unknown_lem :
    (env : Env) (args : Bytes) (s : Session) {s' : Session}
    → is_authenticated s.client ≡ false
    → invoke_found env none args s ≡ done s'
    → s' ≡ with_output s s'.client.output_buffer
unfolding invoke_found
unknown_lem env args s {s'} a h =
    ground (arith, respond-frame 530 (codes "Please login with USER and PASS.") s {s' = s'})

-- The two ways in which a command of a client that has not logged in can end.
abbrev Unauthenticated : Bytes → Session → Session → Type 0
Unauthenticated m s s' =
    (s' ≡ with_output s s'.client.output_buffer)
    ⊎ ((f : Func) × IsLogin m f
        × (s' ≡ with_output (with_state (login_state f s.client.state) s) s'.client.output_buffer))

invoke_found-Unauthenticated :
    (env : Env) (c : Command) (args : Bytes) (s : Session) {s' : Session}
    → IsGuarded c
    → is_authenticated s.client ≡ false
    → invoke_found env (some c) args s ≡ done s'
    → Unauthenticated c.mnemonic s s'
unfolding invoke_found
invoke_found-Unauthenticated env c args s {s'} (inl guarded) a h =
    inl (ground (arith, respond-frame 530 (codes "Please login with USER and PASS.") s {s' = s'}))
invoke_found-Unauthenticated env c args s {s'} (inr login) a h =
    elim (Bool-cases c.authentication) [
      | inl guarded ↦
          inl (
            ground
              (arith, respond-frame 530 (codes "Please login with USER and PASS.") s {s' = s'}))
      | inr free ↦ inr (c.func, login, run_login env args s login (ground arith))
    ]

invoke-Unauthenticated :
    (env : Env) (m args : Bytes) (s : Session) {s' : Session}
    → is_authenticated s.client ≡ false
    → command_invoke env m args s ≡ done s'
    → Unauthenticated m s s'
unfolding command_invoke
invoke-Unauthenticated env m args s {s'} a h = elim (Option-cases (find_command m)) [
  | inl e ↦ inl (unknown_lem env args s a (ap (λ found. invoke_found env found args s) (sym e) ∙ h))
  | inr (c, e) ↦
      let (guarded, is_m) = found-IsGuarded m e in
      subst (λ (k : Bytes). Unauthenticated k s s') is_m
        (invoke_found-Unauthenticated env c args s guarded a
          (ap (λ found. invoke_found env found args s) (sym e) ∙ h))
]

-- A client that has not logged in can do nothing but change its login state and be answered:
-- whatever the command, if it does not fault, the client's input buffer, directory, data
-- channel, socket and address, all channels and the port counter stay as they are.
pub command_invoke-unauthenticated :
    (env : Env) (m args : Bytes) (s : Session) {s' : Session}
    → is_authenticated s.client ≡ false
    → command_invoke env m args s ≡ done s'
    → s' ≡ with_output (with_state s'.client.state s) s'.client.output_buffer
command_invoke-unauthenticated env m args s {s'} a h =
    elim (invoke-Unauthenticated env m args s a h) [
      | inl same ↦ kept s s.client.state same
      | inr (f, login, e) ↦ kept s (login_state f s.client.state) e
    ]
  where
    kept :
        (s : Session) (state : ℕ)
        → s' ≡ with_output (with_state state s) s'.client.output_buffer
        → s' ≡ with_output (with_state s'.client.state s) s'.client.output_buffer
    kept s state e =
        e
        ∙ ap (λ (k : ℕ). with_output (with_state k s) s'.client.output_buffer)
            (sym (ap (λ (t : Session). t.client.state) e))

pub state-of :
    (s : Session) {s' : Session} (state : ℕ)
    → s' ≡ with_output (with_state state s) s'.client.output_buffer
    → s'.client.state ≡ state
state-of s state e = ap (λ (t : Session). t.client.state) e

becomes :
    (m : Bytes) {f : Func} (state : ℕ)
    → IsLogin m f
    → leb state_auth state ≡ false
    → leb state_auth (login_state f state) ≡ true
    → ((m ≡ codes "PASS") × (state ≡ state_user)) ⊎ (m ≡ codes "QUIT")
unfolding login_state
becomes m state (user e) a b = absurd (ground arith)
becomes m state (password e) a b = inl (e, ground arith)
becomes m state (quit e) a b = inr e
becomes m state (reinitialize e) a b = absurd (ground arith)
becomes m state (noop e) a b = absurd (ground arith)

-- A command that takes a client from not being authenticated to being so is PASS behind USER, or
-- QUIT.
pub authenticated_by :
    (env : Env) (m args : Bytes) (s : Session) {s' : Session}
    → is_authenticated s.client ≡ false
    → command_invoke env m args s ≡ done s'
    → is_authenticated s'.client ≡ true
    → ((m ≡ codes "PASS") × (s.client.state ≡ state_user)) ⊎ (m ≡ codes "QUIT")
authenticated_by env m args s {s'} a h b = elim (invoke-Unauthenticated env m args s a h) [
  | inl same ↦ absurd (ground (arith, state-of s s.client.state same))
  | inr (f, login, e) ↦
      becomes m s.client.state login a
        (ap (leb state_auth) (sym (state-of s (login_state f s.client.state) e)) ∙ b)
]
