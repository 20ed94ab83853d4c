-- ===== src/Mounts.antt =====
-- src/ftpservu.c: the file systems that are mounted and unmounted.
pub mod Sound
use Prim.Native.String.{String}
use ftpserv_u.Prelude.{
  ℕ, ℤ, negsuc, is_neg, ◌==◌, Bool, true, false, not, Option, none, some, List, [], ◌∷◌, ◌++◌, map,
  if◌then◌else◌,
}
use ftpserv_u.Memory.{Bytes}
use ftpserv_u.Text.{codes}

-- The calls that are made: to libfat, to IOSUHAX, with the descriptor that `IOSUHAX_FSA_Open`
-- returns, to `mount_fs` and `unmount_fs`, and to `mount_sd_fat` and `unmount_sd_fat`.
pub data MountCall : Type 0 where
  fat_init_default : MountCall
  fat_unmount : Bytes → MountCall
  fsa_open : ℤ → MountCall
  fsa_close : ℤ → MountCall
  mount_fs : Bytes → ℤ → Option Bytes → Bytes → MountCall
  unmount_fs : Bytes → MountCall
  mount_sd_fat : Bytes → MountCall
  unmount_sd_fat : Bytes → MountCall

-- The static state, and the calls made so far.
pub record Mounts : Type 0 where
  pub fs_mounted : Bool
  pub fsa_fd : ℤ
  pub calls : List MountCall

abbrev device : String → Option Bytes
device path = some (codes path)

-- What is mounted with a descriptor of IOSUHAX: the names, devices and paths.
unfoldable pub volumes : List (Bytes × Option Bytes × Bytes)
volumes =
    (codes "slccmpt01", device "/dev/slccmpt01", codes "/vol/storage_slccmpt01")
    ∷ (codes "storage_odd_tickets", device "/dev/odd01", codes "/vol/storage_odd_tickets")
    ∷ (codes "storage_odd_updates", device "/dev/odd02", codes "/vol/storage_odd_updates")
    ∷ (codes "storage_odd_content", device "/dev/odd03", codes "/vol/storage_odd_content")
    ∷ (codes "storage_odd_content2", device "/dev/odd04", codes "/vol/storage_odd_content2")
    ∷ (codes "storage_slc", none, codes "/vol/system")
    ∷ (codes "storage_mlc", none, codes "/vol/storage_mlc01")
    ∷ (codes "storage_usb", none, codes "/vol/storage_usb01")
    ∷ []

abbrev mount_calls : ℤ → List (Bytes × Option Bytes × Bytes) → List MountCall
mount_calls fd = map (λ (name, dev, path). mount_fs name fd dev path)

unfoldable pub unmount_calls : List MountCall
unmount_calls =
    unmount_fs (codes "slccmpt01")
    ∷ unmount_fs (codes "storage_odd_tickets")
    ∷ unmount_fs (codes "storage_odd_updates")
    ∷ unmount_fs (codes "storage_odd_content")
    ∷ unmount_fs (codes "storage_odd_content2")
    ∷ unmount_fs (codes "storage_slc")
    ∷ unmount_fs (codes "storage_mlc")
    ∷ unmount_fs (codes "storage_usb")
    ∷ []

-- The test `if(iosuhaxMount)`. The variable is an `int` in this file, whatever its bytes hold.
abbrev pub is_set : ℕ → Bool
is_set iosuhax_mount = not (iosuhax_mount == 0)

-- `__mount_filesystems`, where `there` is the outcome of that test, and `opened` is what
-- `IOSUHAX_FSA_Open` returns.
unfoldable pub mount_where : Bool → ℤ → Mounts → Mounts
unfolding volumes
mount_where there opened m =
    if m.fs_mounted
    then m
    else if there
    then record {
      fs_mounted = true;
      fsa_fd = opened;
      calls =
          m.calls
          ++ (fat_init_default
              ∷ fsa_open opened
              ∷ (if is_neg opened then [] else mount_calls opened volumes));
    }
    else record m { fs_mounted = true; calls = m.calls ++ (mount_sd_fat (codes "sd") ∷ []) }

-- `__mount_filesystems`, for the `int` that it reads.
unfoldable pub mount_filesystems : ℕ → ℤ → Mounts → Mounts
mount_filesystems iosuhax_mount opened m = mount_where (is_set iosuhax_mount) opened m

-- `__unmount_filesystems`, in the same way.
unfoldable pub unmount_where : Bool → Mounts → Mounts
unfolding unmount_calls
unmount_where there m =
    if not m.fs_mounted
    then m
    else if there
    then record {
      fs_mounted = false;
      fsa_fd = if is_neg m.fsa_fd then m.fsa_fd else negsuc 0;
      calls =
          m.calls
          ++ (fat_unmount (codes "sd")
              ∷ fat_unmount (codes "usb")
              ∷ (if is_neg m.fsa_fd then [] else unmount_calls ++ (fsa_close m.fsa_fd ∷ [])));
    }
    else record m { fs_mounted = false; calls = m.calls ++ (unmount_sd_fat (codes "sd") ∷ []) }

unfoldable pub unmount_filesystems : ℕ → Mounts → Mounts
unmount_filesystems iosuhax_mount m = unmount_where (is_set iosuhax_mount) m

-- `remount_filesystems`
unfoldable pub remount_filesystems : ℕ → ℤ → Mounts → Mounts
unfolding mount_filesystems unmount_filesystems
remount_filesystems iosuhax_mount opened m =
    mount_filesystems iosuhax_mount opened (unmount_filesystems iosuhax_mount m)
