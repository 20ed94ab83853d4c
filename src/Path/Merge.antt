-- ===== src/Path/Merge.antt =====
-- `vfs_path_merge`, on which CWD rests, and what CDUP does to a path.
use mathlib.Core.Path.{subst}
use ftpserv_u.Prelude.{
  ◌≡◌, refl, ap, sym, ◌∙◌, true, false, List, [], ◌∷◌, ◌++◌, Option, none, some, arith,
  if◌then◌else◌, Bool-cases, List-cases, inl, inr, append_assoc, append-nil,
}
use ftpserv_u.Memory.{Bytes}
use ftpserv_u.Path.{VfsPath, dot_dot, path_clone, clone_onto, attach, path_merge, detach_last}
use ftpserv_u.Path.Resolve.{
  IsResolved, path_resolve-resolve_names, resolve_names, resolve_names-IsPlain, resolve_names-id,
  resolve_names-dot_dot,
}

clone_onto-append : (copied names : List Bytes) → clone_onto copied names ≡ copied ++ names
unfolding clone_onto
clone_onto-append copied [] = sym (append-nil copied)
clone_onto-append copied (x ∷ names) =
    clone_onto-append (copied ++ (x ∷ [])) names ∙ append_assoc copied (x ∷ []) names

pub path_clone-id : (p : VfsPath) → path_clone p ≡ p
unfolding path_clone
path_clone-id p = ground (arith, clone_onto-append [] p.entities)

pub attach-append : (xs ys : List Bytes) → attach xs ys ≡ xs ++ ys
unfolding attach
attach-append [] ys = refl
attach-append (x ∷ []) ys = refl
attach-append (x ∷ y ∷ xs) ys = ap (◌∷◌ x) (attach-append (y ∷ xs) ys)

-- What a path leads to from a directory.
unfoldable pub destination : VfsPath → VfsPath → VfsPath
destination dest src =
    if src.absolute
    then src
    else record { entities = resolve_names (dest.entities ++ src.entities); absolute = true }

destination-IsResolved :
    (dest src : VfsPath)
    → IsResolved src
    → IsResolved (destination dest src) × ((destination dest src).absolute ≡ true)
unfolding destination
destination-IsResolved dest src s = elim (Bool-cases src.absolute) [
  | inl e ↦ rw e (s, refl)
  | inr e ↦ rw e (resolve_names-IsPlain (dest.entities ++ src.entities), refl)
]

-- From a resolved absolute directory a path leads to itself if it is absolute, and otherwise to
-- the resolution of its names behind the directory's, be there any or none.
pub path_merge-destination :
    (dest src : VfsPath)
    → dest.absolute ≡ true
    → IsResolved dest
    → path_merge (some dest) (some src) ≡ some (destination dest src)
unfolding path_merge destination
path_merge-destination dest src a r = elim (List-cases src.entities) [
  | inl e ↦ ground (
    arith,
    path_clone-id dest,
    path_clone-id src,
    append-nil dest.entities,
    resolve_names-id dest.entities r,
  )
  | inr (x, xs, e) ↦ ground (
    arith,
    path_clone-id dest,
    path_clone-id src,
    attach-append dest.entities src.entities,
    path_resolve-resolve_names (record dest { entities = dest.entities ++ src.entities }),
  )
]

pub path_merge-null : (dest : VfsPath) → path_merge (some dest) none ≡ none
unfolding path_merge
path_merge-null dest = refl

-- The merge refuses null paths and a directory that is not absolute.
pub path_merge-relative :
    (dest : VfsPath) (src : Option VfsPath)
    → dest.absolute ≡ false
    → path_merge (some dest) src ≡ none
unfolding path_merge
path_merge-relative dest none a = refl
path_merge-relative dest (some src) a = ground arith

-- Merging keeps the working directory absolute and resolved, whichever path the client names.
pub path_merge-IsResolved :
    (dest src : VfsPath) {result : VfsPath}
    → dest.absolute ≡ true
    → IsResolved dest
    → IsResolved src
    → path_merge (some dest) (some src) ≡ some result
    → IsResolved result × (result.absolute ≡ true)
path_merge-IsResolved dest src {result} a r s e =
    let reached : destination dest src ≡ result = cc (path_merge-destination dest src a r) in
    subst (λ (p : VfsPath). IsResolved p × (p.absolute ≡ true)) reached
      (destination-IsResolved dest src s)

-- The parent directory, by CDUP: the last name is dropped, as ".." behind the names would do.
pub detach_last-resolve_names :
    (dest : VfsPath)
    → IsResolved dest
    → detach_last dest.entities ≡ resolve_names (dest.entities ++ (dot_dot ∷ []))
detach_last-resolve_names dest r = sym (resolve_names-dot_dot dest.entities r)
