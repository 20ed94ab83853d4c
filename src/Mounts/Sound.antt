-- ===== src/Mounts/Sound.antt =====
-- What is mounted after any mounting and unmounting, as replayed from the calls.
use Prim.Native.String.{String}
use ftpserv_u.Prelude.{
  ℕ, pos, ◌==◌, Option-cases, ◌≡◌, ◌∙◌, ℤ, negsuc, is_neg, Bool, true, false, not, ◌||◌, Option,
  none, some, List, [], ◌∷◌, ◌++◌, arith, if◌then◌else◌, inl, inr,
}
use ftpserv_u.Memory.{Bytes, same_string}
use ftpserv_u.Text.{codes}
use ftpserv_u.Mounts.{
  MountCall, fat_init_default, fat_unmount, fsa_open, fsa_close, mount_fs, unmount_fs, mount_sd_fat,
  unmount_sd_fat, Mounts, is_set, mount_where, unmount_where, mount_filesystems,
  unmount_filesystems, remount_filesystems,
}

-- A name, a device and a path.
abbrev Volume : Type 0
Volume = Bytes × Option Bytes × Bytes

-- What the calls leave, the latest first: what `mount_fs` and `mount_sd_fat` have mounted, what
-- libfat has, and the open descriptor of IOSUHAX.
pub record Mounted : Type 0 where
  pub volumes : List Volume
  pub cards : List Bytes
  pub fat : List Bytes
  pub descriptor : Option ℤ

-- A name taken off a list, and `none` if it is not on it.
abbrev pub remove : Bytes → List Bytes → Option (List Bytes)
remove name [] = none
remove name (n ∷ names) =
    let rest = remove name names in
    if same_string name n then some names else elim rest [ none ↦ none | some r ↦ some (n ∷ r) ]

abbrev pub remove_volume : Bytes → List Volume → Option (List Volume)
remove_volume name [] = none
remove_volume name ((n, dev, path) ∷ more) =
    let rest = remove_volume name more in
    if same_string name n
    then some more
    else elim rest [ none ↦ none | some r ↦ some ((n, dev, path) ∷ r) ]

abbrev pub is_mounted : Bytes → List Volume → Bool
is_mounted name [] = false
is_mounted name ((n, dev, path) ∷ more) =
    let rest = is_mounted name more in same_string name n || rest

abbrev pub same_fd : ℤ → Option ℤ → Bool
same_fd fd none = false
same_fd (pos n) (some (pos m)) = n == m
same_fd (negsuc n) (some (negsuc m)) = n == m
same_fd _ _ = false

-- `fatInitDefault` mounts the SD card and the USB drive.
abbrev pub fat_devices : List Bytes
fat_devices = codes "sd" ∷ codes "usb" ∷ []

-- One call, replayed. A call is refused that mounts a name that is mounted, unmounts one that is
-- not, mounts with a descriptor that is not open, opens a second one, or closes one that is not
-- open.
abbrev pub replay_call : MountCall → Mounted → Option Mounted
replay_call fat_init_default s = elim s.fat [
  | [] ↦ some (record s { fat = fat_devices })
  | _ ↦ none
]
replay_call (fat_unmount name) s = elim (remove name s.fat) [
  | none ↦ none
  | some left ↦ some (record s { fat = left })
]
replay_call (fsa_open fd) s = elim s.descriptor [
  | none ↦ some (if is_neg fd then s else record s { descriptor = some fd })
  | some _ ↦ none
]
replay_call (fsa_close fd) s =
    if same_fd fd s.descriptor then some (record s { descriptor = none }) else none
replay_call (mount_fs name fd dev path) s =
    if not (same_fd fd s.descriptor) || is_mounted name s.volumes
    then none
    else some (record s { volumes = (name, dev, path) ∷ s.volumes })
replay_call (unmount_fs name) s = elim (remove_volume name s.volumes) [
  | none ↦ none
  | some left ↦ some (record s { volumes = left })
]
replay_call (mount_sd_fat name) s = elim (remove name s.cards) [
  | none ↦ some (record s { cards = name ∷ s.cards })
  | some _ ↦ none
]
replay_call (unmount_sd_fat name) s = elim (remove name s.cards) [
  | none ↦ none
  | some left ↦ some (record s { cards = left })
]

unfoldable pub replay : List MountCall → Mounted → Option Mounted
unfolding same_string
replay [] s = some s
replay (c ∷ cs) s = elim (replay_call c s) [ none ↦ none | some s' ↦ replay cs s' ]

abbrev pub nothing_mounted : Mounted
nothing_mounted = record { volumes = []; cards = []; fat = []; descriptor = none }

abbrev volume : String → String → String → Volume
volume name dev path = (codes name, some (codes dev), codes path)

abbrev bare_volume : String → String → Volume
bare_volume name path = (codes name, none, codes path)

-- The volumes of the console: its optical disc, its Wii and Wii U memory, and its USB drive.
abbrev pub all_volumes : List Volume
all_volumes =
    bare_volume "storage_usb" "/vol/storage_usb01"
    ∷ bare_volume "storage_mlc" "/vol/storage_mlc01"
    ∷ bare_volume "storage_slc" "/vol/system"
    ∷ volume "storage_odd_content2" "/dev/odd04" "/vol/storage_odd_content2"
    ∷ volume "storage_odd_content" "/dev/odd03" "/vol/storage_odd_content"
    ∷ volume "storage_odd_updates" "/dev/odd02" "/vol/storage_odd_updates"
    ∷ volume "storage_odd_tickets" "/dev/odd01" "/vol/storage_odd_tickets"
    ∷ volume "slccmpt01" "/dev/slccmpt01" "/vol/storage_slccmpt01"
    ∷ []

-- What should be mounted.
unfoldable pub expected : Bool → Mounts → Mounted
expected there m =
    if not m.fs_mounted
    then nothing_mounted
    else if not there
    then record nothing_mounted { cards = codes "sd" ∷ [] }
    else if is_neg m.fsa_fd
    then record nothing_mounted { fat = fat_devices }
    else record { volumes = all_volumes; cards = []; fat = fat_devices; descriptor = some m.fsa_fd }

-- No call was refused, and what should be mounted is.
abbrev pub Agrees : Bool → Mounts → Type 0
Agrees there m = replay m.calls nothing_mounted ≡ some (expected there m)

abbrev pub IsSound : ℕ → Mounts → Type 0
IsSound iosuhax_mount = Agrees (is_set iosuhax_mount)

replay-append :
    (cs ds : List MountCall) (s : Mounted) {t : Mounted}
    → replay cs s ≡ some t
    → replay (cs ++ ds) s ≡ replay ds t
unfolding replay
replay-append [] ds s h = cc
replay-append (c ∷ cs) ds s {t} h = elim (Option-cases (replay_call c s)) [
  | inl e ↦ absurd (ground arith)
  | inr (s', e) ↦
      let rest : replay cs s' ≡ some t = ground arith in ground (arith, replay-append cs ds s' rest)
]

==-self : (n : ℕ) → (n == n) ≡ true
==-self n = ground arith

abbrev state : Bool → ℤ → List MountCall → Mounts
state fs_mounted fsa_fd calls = record { fs_mounted = fs_mounted; fsa_fd = fsa_fd; calls = calls }

mount_state-IsSound :
    (there fs_mounted : Bool) (fsa_fd opened : ℤ) (calls : List MountCall)
    → Agrees there (state fs_mounted fsa_fd calls)
    → Agrees there (mount_where there opened (state fs_mounted fsa_fd calls))
unfolding mount_where expected replay
mount_state-IsSound iosuhax_mount true fsa_fd opened calls h = h
mount_state-IsSound false false fsa_fd opened calls h = replay-append calls _ nothing_mounted h
mount_state-IsSound true false fsa_fd (negsuc n) calls h = replay-append calls _ nothing_mounted h
mount_state-IsSound true false fsa_fd (pos n) calls h =
    replay-append calls _ nothing_mounted h ∙ ground (arith, ==-self n)

unmount_state-IsSound :
    (there fs_mounted : Bool) (fsa_fd : ℤ) (calls : List MountCall)
    → Agrees there (state fs_mounted fsa_fd calls)
    → Agrees there (unmount_where there (state fs_mounted fsa_fd calls))
unfolding unmount_where expected replay
unmount_state-IsSound iosuhax_mount false fsa_fd calls h = h
unmount_state-IsSound false true fsa_fd calls h = replay-append calls _ nothing_mounted h
unmount_state-IsSound true true (negsuc n) calls h = replay-append calls _ nothing_mounted h
unmount_state-IsSound true true (pos n) calls h =
    replay-append calls _ nothing_mounted h ∙ ground (arith, ==-self n)

pub mount-IsSound :
    (iosuhax_mount : ℕ) (opened : ℤ) (m : Mounts)
    → IsSound iosuhax_mount m
    → IsSound iosuhax_mount (mount_filesystems iosuhax_mount opened m)
unfolding mount_filesystems
mount-IsSound iosuhax_mount opened m h =
    mount_state-IsSound (is_set iosuhax_mount) m.fs_mounted m.fsa_fd opened m.calls h

pub unmount-IsSound :
    (iosuhax_mount : ℕ) (m : Mounts)
    → IsSound iosuhax_mount m
    → IsSound iosuhax_mount (unmount_filesystems iosuhax_mount m)
unfolding unmount_filesystems
unmount-IsSound iosuhax_mount m h =
    unmount_state-IsSound (is_set iosuhax_mount) m.fs_mounted m.fsa_fd m.calls h

pub remount-IsSound :
    (iosuhax_mount : ℕ) (opened : ℤ) (m : Mounts)
    → IsSound iosuhax_mount m
    → IsSound iosuhax_mount (remount_filesystems iosuhax_mount opened m)
unfolding remount_filesystems
remount-IsSound iosuhax_mount opened m h =
    mount-IsSound iosuhax_mount opened _ (unmount-IsSound iosuhax_mount m h)

-- What the program does with the file systems, from its start to its end.
pub data MountStep : Type 0 where
  mount : ℤ → MountStep
  unmount : MountStep
  remount : ℤ → MountStep

abbrev pub step : ℕ → MountStep → Mounts → Mounts
step iosuhax_mount (mount opened) m = mount_filesystems iosuhax_mount opened m
step iosuhax_mount unmount m = unmount_filesystems iosuhax_mount m
step iosuhax_mount (remount opened) m = remount_filesystems iosuhax_mount opened m

unfoldable pub steps : ℕ → List MountStep → Mounts → Mounts
steps iosuhax_mount [] m = m
steps iosuhax_mount (s ∷ more) m = steps iosuhax_mount more (step iosuhax_mount s m)

-- Whatever is mounted, unmounted and mounted again, and whether a descriptor of IOSUHAX could be
-- opened or not, as long as `iosuhaxMount` reads as the same `int`: where all has gone well so far,
-- no name is ever mounted twice or unmounted twice, be it by libfat, `mount_fs` or `mount_sd_fat`,
-- no descriptor is used that is not open, opened while one is open, or closed twice. In the end
-- nothing is mounted if `fs_mounted` is false; otherwise the SD card alone without IOSUHAX, and with
-- it what libfat mounts, together with all volumes of the console, each with its device and path, if
-- the descriptor is open. Here libfat is taken to mount the SD card and the USB drive.
pub steps-IsSound :
    (iosuhax_mount : ℕ) (todo : List MountStep) (m : Mounts)
    → IsSound iosuhax_mount m
    → IsSound iosuhax_mount (steps iosuhax_mount todo m)
unfolding steps
steps-IsSound iosuhax_mount [] m h = h
steps-IsSound iosuhax_mount (mount opened ∷ more) m h =
    steps-IsSound iosuhax_mount more _ (mount-IsSound iosuhax_mount opened m h)
steps-IsSound iosuhax_mount (unmount ∷ more) m h =
    steps-IsSound iosuhax_mount more _ (unmount-IsSound iosuhax_mount m h)
steps-IsSound iosuhax_mount (remount opened ∷ more) m h =
    steps-IsSound iosuhax_mount more _ (remount-IsSound iosuhax_mount opened m h)
