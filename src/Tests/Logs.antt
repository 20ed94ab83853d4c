-- ===== src/Tests/Logs.antt =====
-- The theorems on the log and on the buttons.
use ftpserv_u.Prelude.{
  ◌+◌, ◌-◌, ◌*◌, ◌^◌, ◌≡◌, refl, ℤ, pos, is_neg, true, none, some, List, [], ◌∷◌, length, arith,
  if◌then◌else◌, ◌||◌,
}
use ftpserv_u.Memory.{Bytes}
use ftpserv_u.Text.{codes}
use ftpserv_u.Logging.{Log, NetInfo, Sending, logging_write, get_broadcast_address}
use ftpserv_u.Logging.Writing.{Works, Written, logging_write-Written}
use ftpserv_u.Logging.Broadcast.{get_broadcast_address_lem}
use ftpserv_u.Input.{PadRead}
use ftpserv_u.Input.Presses.{exits, exits-press}

abbrev pub net : NetInfo
net = record {
  address_result = pos 0;
  my_ip = 0xC0A80105;
  subnet_result = pos 0;
  my_subnet = 0xFFFFFF00;
  socket = pos 4;
  bind = pos 0;
}

abbrev pub log : ℤ → Log
log fd = record {
  udp_fd = fd;
  broadcast = record { sin_family = 0; sin_port = 0; s_addr = 0 };
  redirected = true;
  closed = [];
}

-- Whole datagrams are sent.
abbrev sends : Sending
sends i block = pos (length block)

sends-Works : Works sends
sends-Works i block n h e = let is : length block ≡ n = ground arith in (omega arith, omega arith)

logging_write-Written_example :
    (blocks : List Bytes) × (logging_write 6 sends (log (pos 3)) (codes "hello") ≡ some (5, blocks))
    × Written sends 0 (codes "hello") blocks
logging_write-Written_example =
    logging_write-Written 6 sends (log (pos 3)) (codes "hello") refl sends-Works (omega arith)

get_broadcast_address_lem_example :
    get_broadcast_address net
    ≡ (if is_neg (pos 0) || is_neg (pos 0) then none else some (0xC0A801 * 2 ^ 8 + (2 ^ 8 - 1)))
get_broadcast_address_lem_example =
    get_broadcast_address_lem net 8 0xC0A801 5 refl refl (omega arith)

-- A read fails, and HOME is still held.
abbrev reads : List PadRead
reads = record { error = 1; hold = 0 } ∷ record { error = 0; hold = 2 } ∷ []

exits-press_example : exits (record { error = 0; hold = 2 } ∷ reads) 0 ≡ 1
exits-press_example =
    exits-press (record { error = 0; hold = 2 }) reads 0 refl refl refl
      ((λ e. absurd (ground arith)), ((λ e. refl), tt))
