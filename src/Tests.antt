-- ===== src/Tests.antt =====
-- Concrete inputs, and the theorems at them.
mod Buffers
mod Paths
mod Transfers
mod Clients
mod Rounds
mod Programs
mod Consoles
mod Logs
use ftpserv_u.Prelude.{
  ℕ, ◌^◌, ℤ, pos, negsuc, Bool, true, false, Option, none, some, List, [], ◌∷◌, ◌==◌, if◌then◌else◌,
  refl, arith, replicate, Out, done,
}
use ftpserv_u.Memory.{Bytes, same_string}
use ftpserv_u.Text.{codes}
use ftpserv_u.IoBuffer.{IoBuffer}
use ftpserv_u.IoBuffer.Contents.{IsValid}
use ftpserv_u.Path.{VfsPath}
use ftpserv_u.Network.{received, connection}
use ftpserv_u.Dtp.{Channel, Os, Iface, wrote}
use ftpserv_u.Dtp.Channels.{Channels}
use ftpserv_u.Client.{Client, Session}
use ftpserv_u.Commands.{Env}
use ftpserv_u.Commands.Invoke.Directory.{IsDirectory}

-- A buffer of eight bytes that holds the given ones, and one that holds nothing.
abbrev pub eight : Bytes → ℕ → IoBuffer
eight bytes head = record { buffer = bytes; line = replicate 8 0; size = 8; head = head }

abbrev pub empty_buffer : IoBuffer
empty_buffer = eight (replicate 8 0) 0

-- "ab", a newline, and "cd".
abbrev pub two_lines : IoBuffer
two_lines = eight (97 ∷ 98 ∷ 10 ∷ 99 ∷ 100 ∷ 0 ∷ 0 ∷ 0 ∷ []) 5

pub two_lines-IsValid : IsValid two_lines
two_lines-IsValid = record {
  buffer_size = refl;
  line_size = refl;
  head_in = omega arith;
  zeroed = refl;
}

pub empty_buffer-IsValid : IsValid empty_buffer
empty_buffer-IsValid = record {
  buffer_size = refl;
  line_size = refl;
  head_in = omega arith;
  zeroed = refl;
}

abbrev pub root : VfsPath
root = record { entities = []; absolute = true }

-- The path /games.
abbrev pub games : VfsPath
games = record { entities = codes "games" ∷ []; absolute = true }

pub games-IsDirectory : IsDirectory games
unfolding same_string
games-IsDirectory = (((refl, refl), tt), refl)

-- A socket library on which every call succeeds, and `stat` knows one directory.
abbrev pub env : Env
env = record {
  path_max = 64;
  stat = λ text. some true;
  opendir = λ text. some [];
  fresh = λ n. some (replicate n 0);
  place = λ text. 0x10000000;
  host_ip = 0xC0A80001;
  listening = record { socket = pos 9; bind = pos 0; listen = pos 0 };
  garbage = negsuc 0;
}

-- Every `write` takes two bytes, every `read` has one, and a connection waits.
abbrev pub os : Os
os = record {
  accept = λ fd. connection 5;
  write = λ fd bytes. wrote 2;
  read = λ fd n. received (b'x' ∷ []);
}

abbrev pub channel : ℕ → Channel
channel state = record {
  state = state;
  local = pos 3;
  remote_fd = pos 4;
  listen_fd = negsuc 0;
  ip = 1;
  port = 1024;
  buffer = two_lines;
  iface = Iface.passive;
}

-- One channel, at the address 1.
abbrev pub one_channel : ℕ → Channels
one_channel state = record {
  heap = λ p. if p == 1 then some (channel state) else none;
  next_address = 2;
  dtp_list = 1 ∷ [];
  next_dtp_list = [];
  closed = [];
}

abbrev pub client : ℕ → Option ℕ → Client
client state p = record {
  fd = pos 7;
  ip = 1;
  port = 2000;
  state = state;
  input_buffer = two_lines;
  output_buffer = empty_buffer;
  data_channel = p;
  cwd = games;
}

abbrev pub session : ℕ → ℕ → Option ℕ → Session
session client_state channel_state p = record {
  client = client client_state p;
  channels = one_channel channel_state;
  next_ephermal_port = 1024;
}
