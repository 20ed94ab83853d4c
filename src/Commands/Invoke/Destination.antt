-- ===== src/Commands/Invoke/Destination.antt =====
-- src/commands/cwd.c: where CWD leads, by the text of its argument.
use ftpserv_u.Prelude.{
  ◌+◌, ◌≡◌, ◌≢◌, refl, ap, ◌∙◌, Bool, true, false, not, ◌||◌, ◌&&◌, none, some, List, [], ◌∷◌, ◌++◌,
  done, if◌then◌else◌, leb, length, All, Bool-cases, inl, inr, All-append,
}
use ftpserv_u.Memory.{Bytes, same_string}
use ftpserv_u.Text.{codes}
use ftpserv_u.Path.{VfsPath, new_path, can_chdir, is_empty}
use ftpserv_u.Path.Parse.{IsName, joined}
use ftpserv_u.Path.Resolve.{IsPlain, resolve_names-id}
use ftpserv_u.Path.RoundTrip.{path_text, path_acquire-path_text, new_path-text, new_path-joined}
use ftpserv_u.Path.Merge.{destination}
use ftpserv_u.Client.{Session, respond, is_authenticated}
use ftpserv_u.Commands.{Env, do_cwd, find_command}
use ftpserv_u.Commands.Invoke.{run_func, command_invoke, invoke_found}
use ftpserv_u.Commands.Invoke.Directory.{IsDirectory, moved, cwd-destination}

-- Whether the names lead from the root to a directory: the root itself is one, and any other if
-- `stat` says so of its text, which has to fit into the bytes of a path.
abbrev pub leads_to_directory : Env → List Bytes → Bool
leads_to_directory env names =
    is_empty names
    || (not (leb env.path_max (length (b'/' ∷ joined names) + 1))
        && elim (env.stat (b'/' ∷ joined names)) [ none ↦ false | some is_dir ↦ is_dir ])

abbrev pub directory_of : List Bytes → VfsPath
directory_of names = record { entities = names; absolute = true }

can_chdir_lem :
    (env : Env) (names : List Bytes)
    → can_chdir env.path_max env.stat (directory_of names) ≡ leads_to_directory env names
unfolding can_chdir
can_chdir_lem env [] = refl
can_chdir_lem env (n ∷ names) =
    rw (path_acquire-path_text env.path_max (directory_of (n ∷ names)))
      (elim (Bool-cases (leb env.path_max (length (b'/' ∷ joined (n ∷ names)) + 1))) [
        | inl long ↦ rw long refl
        | inr fits ↦ rw fits refl
      ])

-- A relative path has a name at least: without one there is no text.
abbrev pub HasText : VfsPath → Type 0
HasText p = p.absolute ≡ false → p.entities ≢ []

-- The text of a path with no links in it is read as that path.
new_path-path_text :
    (absolute : Bool) (names : List Bytes) (stale : Bytes)
    → HasText (record { entities = names; absolute = absolute })
    → All IsName names
    → All IsPlain names
    → new_path (path_text (record { entities = names; absolute = absolute }) ++ (0 ∷ stale))
      ≡ done (some (record { entities = names; absolute = absolute }))
new_path-path_text true names stale t h plain = new_path-text names stale h plain
new_path-path_text false [] stale t h plain = absurd (t refl refl)
new_path-path_text false (n ∷ names) stale t h plain =
    new_path-joined n names stale h
    ∙ ap (λ l. done (some (record { entities = l; absolute = false })))
        (resolve_names-id (n ∷ names) plain)

-- The names that a path leads to from a directory.
abbrev pub names_from : VfsPath → VfsPath → List Bytes
names_from dir p = (if p.absolute then [] else dir.entities) ++ p.entities

destination_lem :
    (dir : VfsPath) (absolute : Bool) (names : List Bytes)
    → IsDirectory dir
    → All IsPlain names
    → destination dir (record { entities = names; absolute = absolute })
      ≡ directory_of (names_from dir (record { entities = names; absolute = absolute }))
unfolding destination
destination_lem dir true names d plain = refl
destination_lem dir false names d plain = ap directory_of (
    resolve_names-id (dir.entities ++ names)
      (All-append (λ n. IsPlain n) dir.entities names d.0 plain))

invoke_cwd :
    (env : Env) (args : Bytes) (s : Session)
    → is_authenticated s.client ≡ true
    → command_invoke env (codes "CWD") args s ≡ run_func env do_cwd args s
unfolding command_invoke invoke_found find_command same_string
invoke_cwd env args s a = rw a refl

-- CWD with the text of a path, for a client that is logged in and in a resolved absolute
-- directory. The path is absolute, or relative with a name at least, and its names are not empty,
-- of printable bytes without a separator, and none of them "." or "..". The client is led to the directory of those names, behind the
-- names of its own directory if the path is relative, with 250, if it is the root, or if its text
-- fits and `stat` finds a directory there. If not, the client stays where it is, with 550.
-- Nothing else happens, whatever memory holds behind the text.
pub cwd-path_text :
    (env : Env) (s : Session) (p : VfsPath) (stale : Bytes)
    → is_authenticated s.client ≡ true
    → IsDirectory s.client.cwd
    → HasText p
    → All IsName p.entities
    → All IsPlain p.entities
    → command_invoke env (codes "CWD") (path_text p ++ (0 ∷ stale)) s ≡ (
        let names = names_from s.client.cwd p in
        if leads_to_directory env names
        then respond 250 (codes "CWD command successful.") (moved s (directory_of names))
        else respond 550 (codes "That directory does not exist.") s)
cwd-path_text env s p stale a d t h plain =
    let args = path_text p ++ (0 ∷ stale) in
    let names = names_from s.client.cwd p in
    invoke_cwd env args s a
    ∙ cwd-destination env args s p d (new_path-path_text p.absolute p.entities stale t h plain)
    ∙ rw (destination_lem s.client.cwd p.absolute p.entities d plain)
        (rw (can_chdir_lem env names) refl)
