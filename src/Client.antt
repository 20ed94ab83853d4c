-- ===== src/Client.antt =====
-- src/ftp.h and src/ftp.c: a client, the flags of its state, and the responses to it.
pub mod Responses
use Prim.Native.Nat.{bit_and, bit_or}
use ftpserv_u.Prelude.{
  ℕ, ◌+◌, ◌-◌, ◌^◌, ℤ, Bool, not, Option, none, some, List, [], ◌∷◌, ◌++◌, Out, done, ◌>>=◌, leb,
  ◌==◌,
}
use ftpserv_u.Memory.{Bytes}
use ftpserv_u.Text.{codes, decimal}
use ftpserv_u.IoBuffer.{IoBuffer, append}
use ftpserv_u.Path.{VfsPath}
use ftpserv_u.Dtp.Channels.{Channels}

abbrev pub state_none : ℕ
state_none = 0

abbrev pub state_user : ℕ
state_user = 1

abbrev pub state_auth : ℕ
state_auth = 2

abbrev pub state_data : ℕ
state_data = 8

abbrev pub state_disconn : ℕ
state_disconn = 0x10

-- `struct client_struct`. `data` is the address of a data channel, if there is one.
pub record Client : Type 0 where
  pub fd : ℤ
  pub ip : ℕ
  pub port : ℕ
  pub state : ℕ
  pub input_buffer : IoBuffer
  pub output_buffer : IoBuffer
  pub data_channel : Option ℕ
  pub cwd : VfsPath

-- `IS_AUTHENTICATED`
abbrev pub is_authenticated : Client → Bool
is_authenticated c = leb state_auth c.state

-- `client->state & flag`, `|= flag` and `&= ~flag`
abbrev pub has_flag : Client → ℕ → Bool
has_flag c flag = not (bit_and c.state flag == 0)

abbrev pub set_flag : Client → ℕ → Client
set_flag c flag = record c { state = bit_or c.state flag }

abbrev pub clear_flag : Client → ℕ → Client
clear_flag c flag = record c { state = bit_and c.state (2 ^ 32 - 1 - flag) }

-- The text of a response, with its end of line.
unfoldable pub response_text : ℕ → Bytes → Bytes
response_text code msg = decimal code ++ (b' ' ∷ (msg ++ (b'\r' ∷ b'\n' ∷ [])))

-- `ftp_response` and `ftp_responsef`. What `iobuffer_append` returns is ignored.
unfoldable pub ftp_response : ℕ → Client → Bytes → Out Client
ftp_response code c msg =
    append c.output_buffer (some (response_text code msg)) >>= λ (result, buffer).
    done (record c { output_buffer = buffer })

-- What a command works on: its client, the data channels, and the next ephemeral port.
pub record Session : Type 0 where
  pub client : Client
  pub channels : Channels
  pub next_ephermal_port : ℕ

-- A response to the session's client.
unfoldable pub respond : ℕ → Bytes → Session → Out Session
unfolding ftp_response
respond code msg s = ftp_response code s.client msg >>= λ c. done (record s { client = c })
