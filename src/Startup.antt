-- ===== src/Startup.antt =====
-- src/main.c: what happens around `main`. IOSUHAX is opened, directly or through a hook on the MCP
-- thread, the file systems are mounted, and after the end of the program they are unmounted and
-- IOSUHAX is closed. The memory heaps, the constructors and the return to the menu are left out.
pub mod Released
use ftpserv_u.Prelude.{
  ℕ, ◌+◌, ◌^◌, ℤ, negsuc, is_neg, Bool, true, false, not, none, List, [], ◌∷◌, ◌++◌, Out, done,
  ◌>>=◌, if◌then◌else◌, replicate,
}
use ftpserv_u.Network.{Listening}
use ftpserv_u.Logging.{Log, NetInfo}
use ftpserv_u.Mounts.{Mounts, mount_filesystems, unmount_filesystems}
use ftpserv_u.Server.{Server, max_clients}
use ftpserv_u.MainLoop.{Turn, World, main}

-- The calls to IOS and to IOSUHAX, with the descriptor or the result that they return.
pub data IosCall : Type 0 where
  ios_open : ℤ → IosCall
  ios_ioctl_async : ℤ → IosCall
  ios_close : ℤ → IosCall
  iosuhax_open : ℤ → IosCall
  iosuhax_close : IosCall

-- The static state, and the calls made so far.
pub record Ios : Type 0 where
  pub iosuhax_mount : Bool
  pub mcp_hook_fd : ℤ
  pub calls : List IosCall

-- What the calls of the start return: `IOSUHAX_Open(NULL)`, `IOS_Open("/dev/mcp", 0)`,
-- `IOSUHAX_Open("/dev/mcp")` and `IOSUHAX_FSA_Open`; and the number in the three bytes that follow
-- `iosuhaxMount` in memory, which nothing is taken to write.
pub record Boot : Type 0 where
  pub iosuhax : ℤ
  pub mcp : ℤ
  pub iosuhax_mcp : ℤ
  pub fsa_open : ℤ
  pub behind : ℕ

-- `MCPHookOpen`: whether it succeeds. A hook that could not be opened leaves its error number.
unfoldable pub mcp_hook_open : Boot → Ios → Bool × Ios
mcp_hook_open boot i =
    if is_neg boot.mcp
    then (false, record i { mcp_hook_fd = boot.mcp; calls = i.calls ++ (ios_open boot.mcp ∷ []) })
    else if is_neg boot.iosuhax_mcp
    then (
      false,
      record i {
        mcp_hook_fd = negsuc 0;
        calls =
            i.calls
            ++ (ios_open boot.mcp
                ∷ ios_ioctl_async boot.mcp
                ∷ iosuhax_open boot.iosuhax_mcp
                ∷ ios_close boot.mcp
                ∷ []);
      },
    )
    else (
      true,
      record i {
        mcp_hook_fd = boot.mcp;
        calls =
            i.calls
            ++ (ios_open boot.mcp ∷ ios_ioctl_async boot.mcp ∷ iosuhax_open boot.iosuhax_mcp ∷ []);
      },
    )

-- `MCPHookClose`
unfoldable pub mcp_hook_close : Ios → Ios
mcp_hook_close i = if is_neg i.mcp_hook_fd then i else record i {
  mcp_hook_fd = negsuc 0;
  calls = i.calls ++ (iosuhax_close ∷ ios_close i.mcp_hook_fd ∷ []);
}

-- `try_init_iosuhax`
unfoldable pub try_init_iosuhax : Boot → Ios → Bool × Ios
unfolding mcp_hook_open
try_init_iosuhax boot i =
    let opened = record i { calls = i.calls ++ (iosuhax_open boot.iosuhax ∷ []) } in
    if is_neg boot.iosuhax then mcp_hook_open boot opened else (true, opened)

-- `try_shutdown_iosuhax`
unfoldable pub try_shutdown_iosuhax : Ios → Ios
unfolding mcp_hook_close
try_shutdown_iosuhax i =
    if not i.iosuhax_mount
    then i
    else let shut =
        if is_neg i.mcp_hook_fd
        then record i { calls = i.calls ++ (iosuhax_close ∷ []) }
        else mcp_hook_close i in
      record shut { iosuhax_mount = false }

-- `iosuhaxMount`, a `bool` here, as the `int` that src/ftpservu.c reads: the byte comes first.
abbrev pub as_int : Bool → ℕ → ℕ
as_int iosuhax_mount behind = (if iosuhax_mount then 2 ^ 24 else 0) + behind

-- `fsdev_init` and `fsdev_exit`, with the functions of src/ftpservu.c for the file systems.
unfoldable pub fsdev_init : Boot → Ios → Mounts → Ios × Mounts
unfolding try_init_iosuhax
fsdev_init boot i m =
    let (there, tried) = try_init_iosuhax boot i in
    let i' = record tried { iosuhax_mount = there } in
    (i', mount_filesystems (as_int there boot.behind) boot.fsa_open m)

unfoldable pub fsdev_exit : Boot → Ios → Mounts → Ios × Mounts
unfolding try_shutdown_iosuhax
fsdev_exit boot i m =
    (try_shutdown_iosuhax i, unmount_filesystems (as_int i.iosuhax_mount boot.behind) m)

-- The static state that the program starts from.
abbrev pub no_ios : Ios
no_ios = record { iosuhax_mount = false; mcp_hook_fd = negsuc 0; calls = [] }

abbrev pub no_mounts : Mounts
no_mounts = record { fs_mounted = false; fsa_fd = negsuc 0; calls = [] }

abbrev pub no_clients : Server
no_clients = record {
  clients = replicate max_clients none;
  channels = record {
    heap = λ p. none;
    next_address = 1;
    dtp_list = [];
    next_dtp_list = [];
    closed = [];
  };
  next_ephermal_port = 1024;
  sent = [];
  closed = [];
}

abbrev pub no_log : Log
no_log = record {
  udp_fd = negsuc 0;
  broadcast = record { sin_family = 0; sin_port = 0; s_addr = 0 };
  redirected = false;
  closed = [];
}

-- `_start` and `__entry_menu`: whether the program has ended, and the state.
unfoldable pub start : Boot → NetInfo → Listening → List Turn → Out (Bool × Ios × World × Log)
unfolding fsdev_init fsdev_exit
start boot net listening turns =
    let (i, mounts) = fsdev_init boot no_ios no_mounts in
    let w : World = record { server = no_clients; buttons = 0; mounts = mounts; accepted = [] } in
    main (as_int i.iosuhax_mount boot.behind) net listening turns w no_log >>= λ (ended, w', log).
    let (i', mounts') = fsdev_exit boot i w'.mounts in
    done (if ended then (true, i', record w' { mounts = mounts' }, log) else (false, i, w', log))
