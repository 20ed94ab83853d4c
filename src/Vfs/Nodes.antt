-- ===== src/Vfs/Nodes.antt =====
-- src/vfs/vfs.c: the nodes of a tree of files, which nothing builds yet.
use ftpserv_u.Prelude.{
  ℕ, ℤ, pos, negsuc, Bool, true, false, Option, none, some, List, [], ◌∷◌, if◌then◌else◌,
}

-- `struct vfs_node`: whether it has a neighbour and children, and the block of its name.
pub record VfsNode : Type 0 where
  pub name : Option ℕ
  pub next : Option ℕ
  pub children : Option ℕ

-- `new_vfs_node`, where malloc succeeds or not.
unfoldable pub new_vfs_node : Bool → Option VfsNode
new_vfs_node malloc_ok =
    if malloc_ok then some (record { name = none; next = none; children = none }) else none

-- What `free_vfs_node` does: what it returns, `none` where it ends without a `return`, the blocks
-- of names that are freed, and whether the node itself is.
pub record FreedNode : Type 0 where
  pub returned : Option ℤ
  pub freed_names : List ℕ
  pub node_freed : Bool

abbrev names_of : Option ℕ → List ℕ
names_of none = []
names_of (some p) = p ∷ []

abbrev has_links : VfsNode → Bool
has_links node = elim node.next [
  | some _ ↦ true
  | none ↦ elim node.children [ some _ ↦ true | none ↦ false ]
]

-- `free_vfs_node`
unfoldable pub free_vfs_node : Option VfsNode → FreedNode
free_vfs_node none = record { returned = some (pos 0); freed_names = []; node_freed = false }
free_vfs_node (some node) =
    if has_links node
    then record { returned = some (negsuc 0); freed_names = []; node_freed = false }
    else record { returned = none; freed_names = names_of node.name; node_freed = true }
