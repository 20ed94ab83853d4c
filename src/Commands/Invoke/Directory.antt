-- ===== src/Commands/Invoke/Directory.antt =====
-- The working directory of a client under CWD, CDUP and PWD.
use mathlib.Core.Path.{subst}
use ftpserv_u.Prelude.{
  ℕ, ◌≡◌, ◌≢◌, refl, ap, sym, ◌∙◌, Bool, true, false, none, some, [], ◌∷◌, ◌++◌, Out, done, fault,
  arith, if◌then◌else◌, Out-cases, inl, inr,
}
use ftpserv_u.Memory.{Bytes}
use ftpserv_u.Text.{codes}
use ftpserv_u.Path.{VfsPath, dot_dot, new_path, can_chdir}
use ftpserv_u.Path.Resolve.{IsResolved, resolve_names-IsPlain, new_path-IsResolved}
use ftpserv_u.Path.Merge.{
  destination, path_merge-destination, path_merge-IsResolved, path_merge-null,
  detach_last-resolve_names,
}
use ftpserv_u.Client.{Session, respond}
use ftpserv_u.Client.Responses.{with_output, respond-frame}
use ftpserv_u.Commands.{Env, cwd, cdup, do_cwd, do_cdup}
use ftpserv_u.Commands.Invoke.{run_func}

-- What every working directory is: absolute, with no "." or ".." among its names.
abbrev pub IsDirectory : VfsPath → Type 0
IsDirectory p = IsResolved p × (p.absolute ≡ true)

abbrev pub moved : Session → VfsPath → Session
moved s path = record s { client = record s.client { cwd = path } }

-- From a resolved absolute directory, CWD with an argument that parses leads a client to the
-- destination of that path, with 250, if that is a directory, and leaves it where it is, with
-- 550, if not.
pub cwd-destination :
    (env : Env) (args : Bytes) (s : Session) (src : VfsPath)
    → IsDirectory s.client.cwd
    → new_path args ≡ done (some src)
    → run_func env do_cwd args s ≡ (
        let path = destination s.client.cwd src in
        if can_chdir env.path_max env.stat path
        then respond 250 (codes "CWD command successful.") (moved s path)
        else respond 550 (codes "That directory does not exist.") s)
unfolding run_func cwd
cwd-destination env args s src d e = ground (arith, path_merge-destination s.client.cwd src d.1 d.0)

cwd-unparsed :
    (env : Env) (args : Bytes) (s : Session)
    → new_path args ≡ done none
    → run_func env do_cwd args s ≡ respond 550 (codes "That directory does not exist.") s
unfolding run_func cwd
cwd-unparsed env args s e = ground (arith, path_merge-null s.client.cwd)

-- From a resolved absolute directory CDUP leads to where ".." behind the directory's names
-- leads, and always answers 250.
pub cdup-dot_dot :
    (env : Env) (args : Bytes) (s : Session)
    → IsDirectory s.client.cwd
    → run_func env do_cdup args s
      ≡ respond 250 (codes "CWD command successful.") (
          moved s (destination s.client.cwd (record { entities = dot_dot ∷ []; absolute = false })))
unfolding run_func cdup destination
cdup-dot_dot env args s d = ground (arith, detach_last-resolve_names s.client.cwd d.0)

-- The session behind a command that only moves its client and answers it.
abbrev pub MovesOnly : Session → Session → Type 0
MovesOnly s s' =
    IsDirectory s'.client.cwd × (s' ≡ with_output (moved s s'.client.cwd) s'.client.output_buffer)

respond-MovesOnly :
    (code : ℕ) (msg : Bytes) (s : Session) (path : VfsPath) {s' : Session}
    → IsDirectory path
    → respond code msg (moved s path) ≡ done s'
    → MovesOnly s s'
respond-MovesOnly code msg s path {s'} d h =
    let framed = respond-frame code msg (moved s path) h in
    let at : path ≡ s'.client.cwd = sym (ap (λ (t : Session). t.client.cwd) framed) in
    (
      subst IsDirectory at d,
      framed ∙ ap (λ (p : VfsPath). with_output (moved s p) s'.client.output_buffer) at,
    )

cwd_branches :
    (b : Bool) (s : Session) (path : VfsPath) {s' : Session}
    → IsDirectory s.client.cwd
    → IsDirectory path
    → (if b
        then respond 250 (codes "CWD command successful.") (moved s path)
        else respond 550 (codes "That directory does not exist.") s)
      ≡ done s'
    → MovesOnly s s'
cwd_branches true s path d p h = respond-MovesOnly 250 _ s path p h
cwd_branches false s path d p h = respond-MovesOnly 550 _ s s.client.cwd d h

run_cwd-fault :
    (env : Env) (args : Bytes) (s : Session)
    → new_path args ≡ fault
    → run_func env do_cwd args s ≡ fault
unfolding run_func cwd
run_cwd-fault env args s e = ground arith

done_ne_fault : {s : Session} {m : Out Session} → m ≡ fault → m ≢ done s
done_ne_fault e h = ground arith

-- Whatever a client sends as the argument of CWD, the command keeps the working directory
-- absolute and resolved, with no "." or ".." in it, and changes nothing else but the output.
pub cwd-IsDirectory :
    (env : Env) (args : Bytes) (s : Session) {s' : Session}
    → IsDirectory s.client.cwd
    → run_func env do_cwd args s ≡ done s'
    → MovesOnly s s'
cwd-IsDirectory env args s {s'} d h = elim (Out-cases (new_path args)) [
  | inl f ↦ absurd (done_ne_fault (run_cwd-fault env args s f) h)
  | inr (none, e) ↦ respond-MovesOnly 550 _ s s.client.cwd d (sym (cwd-unparsed env args s e) ∙ h)
  | inr (some src, e) ↦
      cwd_branches (can_chdir env.path_max env.stat (destination s.client.cwd src)) s
        (destination s.client.cwd src) d
        (path_merge-IsResolved s.client.cwd src d.1 d.0 (new_path-IsResolved args e)
          (path_merge-destination s.client.cwd src d.1 d.0))
        (sym (cwd-destination env args s src d e) ∙ h)
]

parent-IsDirectory :
    (dest : VfsPath)
    → IsDirectory (destination dest (record { entities = dot_dot ∷ []; absolute = false }))
unfolding destination
parent-IsDirectory dest = (resolve_names-IsPlain (dest.entities ++ (dot_dot ∷ [])), refl)

-- CDUP keeps the working directory absolute and resolved, and changes nothing else but the output.
pub cdup-IsDirectory :
    (env : Env) (args : Bytes) (s : Session) {s' : Session}
    → IsDirectory s.client.cwd
    → run_func env do_cdup args s ≡ done s'
    → MovesOnly s s'
cdup-IsDirectory env args s d h =
    respond-MovesOnly 250 _ s _ (parent-IsDirectory s.client.cwd)
      (sym (cdup-dot_dot env args s d) ∙ h)
