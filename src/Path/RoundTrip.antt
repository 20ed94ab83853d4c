-- ===== src/Path/RoundTrip.antt =====
-- `vfs_path_acquire` prints a path, and `new_vfs_path` reads it back.
use ftpserv_u.Prelude.{
  ℕ, ◌+◌, ◌≡◌, refl, ap, sym, ◌∙◌, true, false, not, List, [], ◌∷◌, ◌++◌, none, some, arith, done,
  leb, if◌then◌else◌, ◌&&◌, All, append_assoc, append-nil, length, length-append,
}
use ftpserv_u.Memory.{Bytes}
use ftpserv_u.Path.{VfsPath, dot_dot, is_empty, acquire_from, path_acquire, new_path, pathent_parse}
use ftpserv_u.Path.Parse.{
  IsName, joined, joined-cons, name_byte_ne_zero, dot_dot-IsName, pathent_parse-joined,
}
use ftpserv_u.Path.Resolve.{
  IsPlain, IsResolved, resolve_names, path_resolve-plain, path_resolve-resolve_names,
  resolve_names-dot_dot_first,
}

-- The loop prints the names joined by separators, and refuses exactly the texts that do not fit
-- with their NUL, with one byte to spare.
acquire_from-joined :
    (path_max : ℕ) (buffer n : Bytes) (names : List Bytes)
    → acquire_from path_max buffer (n ∷ names) ≡ (
        if leb path_max (length buffer + length (joined (n ∷ names)) + 1)
        then none
        else some (buffer ++ joined (n ∷ names)))
unfolding acquire_from
acquire_from-joined path_max buffer n [] = ground (arith, length-append buffer n)
acquire_from-joined path_max buffer n (m ∷ names) =
    let named = (buffer ++ n) ++ (b'/' ∷ []) in
    let text : named ++ joined (m ∷ names) ≡ buffer ++ joined (n ∷ m ∷ names) =
      append_assoc (buffer ++ n) (b'/' ∷ []) _ ∙ append_assoc buffer n _ in
    ground (
      arith,
      acquire_from-joined path_max named m names,
      text,
      length-append (buffer ++ n) (b'/' ∷ []),
      length-append buffer n,
      length-append n (b'/' ∷ joined (m ∷ names)),
    )

acquire_from-text :
    (path_max : ℕ) (buffer : Bytes) (names : List Bytes)
    → acquire_from path_max buffer names ≡ (
        if not (is_empty names) && leb path_max (length (buffer ++ joined names) + 1)
        then none
        else some (buffer ++ joined names))
acquire_from-text path_max buffer [] = unfold acquire_from in ap some (sym (append-nil buffer))
acquire_from-text path_max buffer (n ∷ names) =
    acquire_from-joined path_max buffer n names
    ∙ ap (λ (k : ℕ). if leb path_max (k + 1) then none else some (buffer ++ joined (n ∷ names)))
        (sym (length-append buffer (joined (n ∷ names))))

-- The text of a path: its names joined, behind the root's separator if it is absolute.
abbrev pub path_text : VfsPath → Bytes
path_text p = (if p.absolute then b'/' ∷ [] else []) ++ joined p.entities

-- A path that has names is printed as its text, if that fits into `path_max` bytes with its NUL
-- and one more; a path that has none is always printed.
pub path_acquire-path_text :
    (path_max : ℕ) (p : VfsPath)
    → path_acquire path_max p ≡ (
        if not (is_empty p.entities) && leb path_max (length (path_text p) + 1)
        then none
        else some (path_text p))
unfolding path_acquire
path_acquire-path_text path_max p = acquire_from-text path_max _ p.entities

-- The root, and a path of names, as they are parsed.
new_path-root :
    (stale : Bytes)
    → new_path (b'/' ∷ 0 ∷ stale) ≡ done (some (record { entities = []; absolute = true }))
unfolding new_path
new_path-root stale = refl

new_path-names :
    (n : Bytes) (names : List Bytes) (stale : Bytes)
    → All IsName (n ∷ names)
    → All IsPlain (n ∷ names)
    → new_path (b'/' ∷ (joined (n ∷ names) ++ (0 ∷ stale)))
      ≡ done (some (record { entities = n ∷ names; absolute = true }))
unfolding new_path
new_path-names n names stale h plain = ground (
  arith,
  pathent_parse-joined (b'/' ∷ []) n names stale (refl, tt) h,
  path_resolve-plain (record { entities = n ∷ names; absolute = true }) plain,
)

pub new_path-text :
    (names : List Bytes) (stale : Bytes)
    → All IsName names
    → All IsPlain names
    → new_path ((b'/' ∷ joined names) ++ (0 ∷ stale))
      ≡ done (some (record { entities = names; absolute = true }))
new_path-text [] stale h plain = new_path-root stale
new_path-text (n ∷ names) stale h plain = new_path-names n names stale h plain

path_text-acquired :
    (path_max : ℕ) (p : VfsPath) {text : Bytes}
    → p.absolute ≡ true
    → path_acquire path_max p ≡ some text
    → text ≡ b'/' ∷ joined p.entities
path_text-acquired path_max p a e = ground (arith, path_acquire-path_text path_max p)

-- Printing and reading back: a resolved absolute path of well-formed names whose text fits comes
-- back from that text the same, whatever memory holds behind the text.
pub new_path-path_acquire :
    (path_max : ℕ) (p : VfsPath) (stale : Bytes) {text : Bytes}
    → p.absolute ≡ true
    → IsResolved p
    → All IsName p.entities
    → path_acquire path_max p ≡ some text
    → new_path (text ++ (0 ∷ stale)) ≡ done (some p)
new_path-path_acquire path_max p stale a r h e =
    ap (λ (t : Bytes). new_path (t ++ (0 ∷ stale))) (path_text-acquired path_max p a e)
    ∙ new_path-text p.entities stale h r
    ∙ ground arith

-- A relative path text of well-formed names is read as their resolution.
pub new_path-joined :
    (n : Bytes) (names : List Bytes) (stale : Bytes)
    → All IsName (n ∷ names)
    → new_path (joined (n ∷ names) ++ (0 ∷ stale))
      ≡ done (some (record { entities = resolve_names (n ∷ names); absolute = false }))
new_path-joined [] names stale h = absurd (h.0.1 refl)
new_path-joined (c ∷ n) names stale h = rw (joined-cons c n names) (
    unfold new_path in
    ground (
      arith,
      name_byte_ne_zero c h.0.0.0,
      h.0.0.0.1,
      ap pathent_parse (ap (λ (t : Bytes). t ++ (0 ∷ stale)) (sym (joined-cons c n names)))
          ∙ pathent_parse-joined [] (c ∷ n) names stale tt h,
      path_resolve-resolve_names (record { entities = (c ∷ n) ∷ names; absolute = false }),
    ))

-- A ".." that a relative path of well-formed names begins with has no effect: the path is read
-- as if it stood without, if there is another name.
pub new_path-dot_dot_first :
    (n : Bytes) (names : List Bytes) (stale : Bytes)
    → All IsName (n ∷ names)
    → new_path (joined (dot_dot ∷ n ∷ names) ++ (0 ∷ stale))
      ≡ new_path (joined (n ∷ names) ++ (0 ∷ stale))
new_path-dot_dot_first n names stale h =
    new_path-joined dot_dot (n ∷ names) stale (dot_dot-IsName, h)
    ∙ ap (λ l. done (some (record { entities = l; absolute = false })))
        (resolve_names-dot_dot_first (n ∷ names))
    ∙ sym (new_path-joined n names stale h)
