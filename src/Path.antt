-- ===== src/Path.antt =====
-- src/vfs/vfs_path.c and src/vfs/vfs_pathent.c: a path as a list of directory names. Allocations
-- of path nodes are taken to succeed. `entities` is the linked list, empty for NULL.
pub mod Resolve
pub mod Parse
pub mod Merge
pub mod RoundTrip
use ftpserv_u.Prelude.{
  ℕ, ◌+◌, Bool, true, false, not, ◌&&◌, ◌||◌, Option, none, some, List, [], ◌∷◌, ◌++◌, Out, done,
  fault, ◌>>=◌, ltb, leb, ◌==◌, if◌then◌else◌, length,
}
use ftpserv_u.Memory.{Bytes, c_string, same_string, is_graph}

pub record VfsPath : Type 0 where
  pub entities : List Bytes
  pub absolute : Bool

-- `skip_separator`
pub skip_separator : Bytes → Out Bytes
skip_separator [] = fault
skip_separator (c ∷ cs) = let rest = skip_separator cs in if c == b'/' then rest else done (c ∷ cs)

abbrev pub is_empty {ℓ} : {A : Type ℓ} → List A → Bool
is_empty [] = true
is_empty (_ ∷ _) = false

-- The loop of `vfs_pathent_parse` over the bytes from `path[i]` on, and the code behind it.
-- `entity` holds the bytes from the pointer of that name up to `path[i]`, and `skipping` says
-- that the inner loop over separators is running. The byte that ends the inner loop is passed by
-- the outer `i++` with no test, be it a NUL. `none` is the jump to `error`.
unfoldable pub scan_entities : Bytes → Bool → Bytes → List Bytes → Out (Option (List Bytes))
unfolding c_string is_graph
scan_entities [] skipping entity pathents = fault
scan_entities (c ∷ cs) skipping entity pathents =
    let is_separator = c == b'/' in
    let ends_entity = not skipping && is_separator in
    let entity' = if is_separator then [] else if skipping then c ∷ [] else entity ++ (c ∷ []) in
    let pathents' = if ends_entity then pathents ++ (c_string entity ∷ []) else pathents in
    let rest = scan_entities cs is_separator entity' pathents' in
    let last = c_string entity in
    if skipping
    then rest
    else if c == 0
    then done (some (if is_empty last then pathents else pathents ++ (last ∷ [])))
    else if not (is_graph c) && not (c == b' ')
    then done none
    else rest

pub entities_or_null : Option (List Bytes) → List Bytes
entities_or_null none = []
entities_or_null (some pathents) = pathents

-- `vfs_pathent_parse`, with the empty list for NULL.
unfoldable pub pathent_parse : Bytes → Out (List Bytes)
unfolding skip_separator scan_entities entities_or_null
pathent_parse [] = fault
pathent_parse (c ∷ cs) = if c == 0 then done [] else do
  start ← skip_separator (c ∷ cs)
  found ← scan_entities start false [] []
  done (entities_or_null found)

abbrev pub dot : Bytes
dot = b'.' ∷ []

abbrev pub dot_dot : Bytes
dot_dot = b'.' ∷ b'.' ∷ []

-- One round of the first loop of `vfs_path_resolve`, on its stack.
pub resolve_step : List Bytes → Bytes → List Bytes
unfolding same_string
resolve_step stack name =
    if same_string name dot_dot
    then elim stack [ [] ↦ [] | top ∷ below ↦ below ]
    else if same_string name dot
    then stack
    else name ∷ stack

pub push_all : List Bytes → List Bytes → List Bytes
unfolding resolve_step
push_all stack [] = stack
push_all stack (name ∷ names) = push_all (resolve_step stack name) names

pub pop_all : List Bytes → List Bytes → List Bytes
pop_all [] entities = entities
pop_all (name ∷ stack) entities = pop_all stack (name ∷ entities)

unfoldable pub path_resolve : VfsPath → VfsPath
unfolding push_all pop_all
path_resolve path = record path { entities = pop_all (push_all [] path.entities) [] }

-- The string `path` is the block that it points to; NULL is never passed.
unfoldable pub new_path : Bytes → Out (Option VfsPath)
unfolding pathent_parse path_resolve
new_path [] = fault
new_path (c ∷ cs) = if c == 0 then done none else do
  names ← pathent_parse (c ∷ cs)
  done (some (path_resolve (record { entities = names; absolute = c == b'/' })))

-- The loop of `vfs_path_acquire` over the entities. `buffer` is the string built so far.
pub acquire_from : ℕ → Bytes → List Bytes → Option Bytes
acquire_from path_max buffer [] = some buffer
acquire_from path_max buffer (name ∷ names) =
    let has_next = not (is_empty names) in
    let len = length buffer + length name + 1 + (if has_next then 1 else 0) in
    let named = buffer ++ name in
    let rest = acquire_from path_max (if has_next then named ++ (b'/' ∷ []) else named) names in
    if leb path_max len then none else rest

-- `none` where the string would not fit into `PATH_MAX` bytes.
unfoldable pub path_acquire : ℕ → VfsPath → Option Bytes
unfolding acquire_from
path_acquire path_max path =
    acquire_from path_max (if path.absolute then b'/' ∷ [] else []) path.entities

-- `vfs_path_clone` copies name by name onto the end of the list.
pub clone_onto : List Bytes → List Bytes → List Bytes
clone_onto copied [] = copied
clone_onto copied (name ∷ names) = clone_onto (copied ++ (name ∷ [])) names

pub path_clone : VfsPath → VfsPath
unfolding clone_onto
path_clone path = record { entities = clone_onto [] path.entities; absolute = path.absolute }

-- The end of `vfs_path_merge`: the second list is hung behind the tail of the first.
pub attach : List Bytes → List Bytes → List Bytes
attach [] added = added
attach (name ∷ []) added = name ∷ added
attach (name ∷ next ∷ names) added = name ∷ attach (next ∷ names) added

pub merge_paths : VfsPath → VfsPath → Option VfsPath
unfolding path_clone attach path_resolve
merge_paths dest src =
    if not dest.absolute
    then none
    else if src.absolute
    then some (path_clone src)
    else elim src.entities [
      | [] ↦ some (path_clone dest)
      | _ ↦
          let result = path_clone dest in
          let tmp = path_clone src in
          some (path_resolve (record result { entities = attach result.entities tmp.entities }))
    ]

-- `vfs_path_merge`, with `none` for NULL.
unfoldable pub path_merge : Option VfsPath → Option VfsPath → Option VfsPath
unfolding merge_paths
path_merge none _ = none
path_merge (some dest) none = none
path_merge (some dest) (some src) = merge_paths dest src

-- `vfs_can_chdir`. `stat` says whether a path is a directory, and is `none` where it fails.
unfoldable pub can_chdir : ℕ → (Bytes → Option Bool) → VfsPath → Bool
unfolding path_acquire
can_chdir path_max stat path = if not path.absolute then false else elim path.entities [
  | [] ↦ true
  | _ ↦ elim (path_acquire path_max path) [
    | none ↦ false
    | some text ↦ elim (stat text) [ none ↦ false | some is_dir ↦ is_dir ]
  ]
]

-- src/commands/cdup.c, `detach_last_pathent`.
unfoldable pub detach_last : List Bytes → List Bytes
detach_last [] = []
detach_last (name ∷ []) = []
detach_last (name ∷ next ∷ names) = name ∷ detach_last (next ∷ names)
