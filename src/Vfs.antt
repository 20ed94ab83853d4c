-- ===== src/Vfs.antt =====
-- src/vfs/vfs.c: the text of a directory listing, in the block that is allocated for it.
pub mod Nodes
use Prim.Native.Nat.{bit_and}
use ftpserv_u.Prelude.{
  ℕ, zero, suc, ◌+◌, ◌-◌, ◌/◌, ◌%◌, Bool, true, false, not, Option, none, some, List, [], ◌∷◌, ◌++◌,
  Out, done, fault, ◌>>=◌, ltb, leb, ◌==◌, if◌then◌else◌, length, replicate,
}
use ftpserv_u.Memory.{Bytes, write_at, c_string}
use ftpserv_u.Text.{codes}
use ftpserv_u.Path.{VfsPath, path_acquire}

-- What `stat` tells of a file. `modified` is the text that strftime makes of its time.
pub record Stat : Type 0 where
  pub st_mode : ℕ
  pub st_size : ℕ
  pub modified : Bytes

-- What `readdir` and `stat` give for an entry; `none` where `stat` fails.
pub record Entry : Type 0 where
  pub d_name : Bytes
  pub status : Option Stat

-- `get_buffer_size`
unfoldable pub get_buffer_size : List Entry → ℕ
get_buffer_size [] = 0
get_buffer_size (e ∷ es) = length e.d_name + 42 + get_buffer_size es

-- The loop of `strnumlen`, on fuel above the number.
unfoldable pub count_digits : ℕ → ℕ → ℕ → ℕ
count_digits zero n len = len
count_digits (suc fuel) n len =
    let rest = count_digits fuel (n / 10) (len + 1) in if ltb 10 n then rest else len

-- `strnumlen`, for a number that is not negative.
unfoldable pub strnumlen : ℕ → ℕ
unfolding count_digits
strnumlen number =
    let len = count_digits (suc number) number 1 in
    let grouped = if ltb 3 len then len + len / 3 else len in
    if ltb 0 number then grouped else grouped + 1

-- The second loop of `format_filesize`: the bytes that it stores in so many places, from the last
-- to the first.
unfoldable pub digit_cells : ℕ → ℕ → ℕ → Bytes
digit_cells zero count filesize = []
digit_cells (suc cells) count filesize =
    let separated = digit_cells cells 0 filesize in
    let digits = digit_cells cells (count + 1) (filesize / 10) in
    if count == 3 then separated ++ (b',' ∷ []) else digits ++ ((b'0' + filesize % 10) ∷ [])

-- The fifteen bytes that `format_filesize` stores.
unfoldable pub filesize_field : ℕ → Bytes
unfolding digit_cells
filesize_field filesize =
    let padding = 14 - strnumlen filesize in
    replicate padding b' ' ++ (digit_cells (14 - padding) 0 filesize ++ (b' ' ∷ []))

-- A store at the end of the string that the block begins with. With no NUL in the block the
-- search for that end leaves it.
unfoldable pub store_at_end : Bytes → Bytes → Out Bytes
store_at_end mem bytes =
    let end = length (c_string mem) in if end == length mem then fault else write_at mem end bytes

-- `strcat`
unfoldable pub strcat : Bytes → Bytes → Out Bytes
unfolding store_at_end
strcat mem text = store_at_end mem (text ++ (0 ∷ []))

-- `format_filesize`, which stores no NUL behind the field.
unfoldable pub format_filesize : Bytes → ℕ → Out Bytes
unfolding store_at_end
format_filesize buffer filesize = store_at_end buffer (filesize_field filesize)

-- `format_modifytime`: strftime stores its text with a NUL. Its result is never negative.
unfoldable pub format_modifytime : Bytes → Bytes → Out Bytes
unfolding strcat
format_modifytime buffer modified = strcat buffer modified

abbrev pub s_ifmt : ℕ
s_ifmt = 0xF000

abbrev pub s_ifdir : ℕ
s_ifdir = 0x4000

-- `statbuf.st_mode & S_IFMT == S_IFDIR`, as C reads it: the comparison comes first.
unfoldable pub has_marker : ℕ → Bool
has_marker st_mode = not (bit_and st_mode (if s_ifmt == s_ifdir then 1 else 0) == 0)

-- The loop body of `build_directory_list`.
unfoldable pub add_entry : Bytes → Entry → Out Bytes
unfolding strcat format_filesize format_modifytime has_marker
add_entry buffer e = elim e.status [
  | none ↦ done buffer
  | some status ↦ do
    marked ← strcat buffer (codes (if has_marker status.st_mode then "<DIR> " else "      "))
    sized ← format_filesize marked status.st_size
    timed ← format_modifytime sized status.modified
    named ← strcat timed e.d_name
    strcat named (b'\r' ∷ b'\n' ∷ [])
]

unfoldable pub add_entries : Bytes → List Entry → Out Bytes
unfolding add_entry
add_entries buffer [] = done buffer
add_entries buffer (e ∷ es) = add_entry buffer e >>= λ buffer'. add_entries buffer' es

-- `build_directory_list`. `fresh` is what malloc gives for a size, and `none` for NULL.
unfoldable pub build_directory_list : (ℕ → Option Bytes) → List Entry → ℕ → Out (Option Bytes)
unfolding add_entries
build_directory_list fresh entries size = elim (fresh size) [
  | none ↦ done none
  | some buffer ↦ add_entries buffer entries >>= λ listing. done (some listing)
]

-- `vfs_list_directory`. `opendir` gives the entries of a directory, and `none` where it fails.
unfoldable pub list_directory :
    ℕ → (Option Bytes → Option (List Entry)) → (ℕ → Option Bytes) → VfsPath → Out (Option Bytes)
unfolding build_directory_list get_buffer_size
list_directory path_max opendir fresh path = elim (opendir (path_acquire path_max path)) [
  | none ↦ done none
  | some entries ↦ build_directory_list fresh entries (get_buffer_size entries)
]
