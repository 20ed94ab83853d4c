-- ===== src/Tests/Transfers.antt =====
-- The theorems on data channels, at a channel that holds five bytes.
use ftpserv_u.Prelude.{
  ◌+◌, ◌≤◌, ◌≡◌, length, refl, ℤ, pos, negsuc, some, List, [], ◌∷◌, ◌++◌, done, arith, take,
}
use ftpserv_u.Memory.{Bytes}
use ftpserv_u.IoBuffer.Contents.{contents}
use ftpserv_u.Network.{received}
use ftpserv_u.Dtp.{
  Channel, Os, wrote, copy_data, get_state, set_state, poll_channel, send_data,
  write_buffered_data_to_fd, fill_buffer_from_fd,
}
use ftpserv_u.Dtp.Transfer.{IsBounded}
use ftpserv_u.Dtp.Stream.{Answers, stopped, copied, Copying-stream, copy_data-closes}
use ftpserv_u.Dtp.Rounds.{Copying-rounds}
use ftpserv_u.Dtp.Passive.{poll_channel-stall}
use ftpserv_u.Dtp.Channels.{Channels, update, dtp_poll, poll_list}
use ftpserv_u.Dtp.Channels.Held.{IsPlain, count}
use ftpserv_u.Dtp.Channels.Ledger.{all_held, all_accepts, AllPlain}
use ftpserv_u.Dtp.Channels.Balance.{dtp_poll-balance}
use ftpserv_u.Dtp.Channels.Sound.{IsSound, dtp_poll-IsSound}
use ftpserv_u.Tests.{two_lines, channel, one_channel, os}

two_lines-IsBounded : IsBounded two_lines
two_lines-IsBounded = record { buffer_size = refl; head_in = omega arith }

two_written : Answers os (pos 4) (pos 3) (channel 2) 1500 2 (b'x' ∷ [])
two_written = record {
  open_to = refl;
  open_from = refl;
  writes = refl;
  no_more = omega arith;
  reads = refl;
  fits = omega arith;
}

abbrev after_two : Channel
after_two = record (channel 2) {
  buffer = record two_lines { buffer = 10 ∷ 99 ∷ 100 ∷ 0 ∷ 0 ∷ 0 ∷ 0 ∷ 0 ∷ []; head = 3 };
}

two_copied :
    copy_data os (pos 4) (pos 3) (channel 2) 1500
    ≡ done (record { to = pos 4; from = pos 3; channel = after_two; closes = [] })
unfolding copy_data
two_copied = refl

Copying-stream_example :
    (97 ∷ 98 ∷ []) ++ contents after_two.buffer ≡ contents (channel 2).buffer ++ []
Copying-stream_example =
    Copying-stream two_lines-IsBounded
      (copied two_written two_copied (stopped (pos 4) (pos 3) after_two))

Copying-rounds_example : 1 ≤ length (contents (channel 2).buffer) + 0 + 1
Copying-rounds_example =
    Copying-rounds (copied two_written two_copied (stopped (pos 4) (pos 3) after_two))
      two_lines-IsBounded ((λ h. omega arith), tt)

-- A file that has ended, and a client that takes all.
abbrev ended : Os
ended = record os { write = λ fd bytes. wrote 5; read = λ fd n. received [] }

all_written : Answers ended (pos 4) (pos 3) (channel 2) 1500 5 []
all_written = record {
  open_to = refl;
  open_from = refl;
  writes = refl;
  no_more = omega arith;
  reads = refl;
  fits = omega arith;
}

abbrev closed_channel : Channel
closed_channel = record (channel 4) {
  buffer = record two_lines { buffer = 0 ∷ 0 ∷ 0 ∷ 99 ∷ 100 ∷ 0 ∷ 0 ∷ 0 ∷ []; head = 0 };
}

all_copied :
    copy_data ended (pos 4) (pos 3) (channel 2) 1500
    ≡ done (record {
      to = negsuc 0;
      from = negsuc 0;
      channel = closed_channel;
      closes = pos 4 ∷ pos 3 ∷ [];
    })
unfolding copy_data set_state
all_copied = refl

copy_data-closes_example :
    (◌≡◌ {A = Bytes} [] [])
    × (take 5 (contents two_lines) ≡ contents two_lines)
    × (contents closed_channel.buffer ≡ [])
copy_data-closes_example = copy_data-closes two_lines-IsBounded all_written all_copied (λ e. cc)

poll_channel-stall_example :
    (c' : Channel) × (closes : List ℤ) × (poll_channel os (channel 0x40) ≡ done (c', closes))
    × (c'.remote_fd ≡ pos 5)
    × (c'.local ≡ pos 3)
    × ((os' : Os) → poll_channel os' c' ≡ done (c', []))
unfolding get_state
poll_channel-stall_example = poll_channel-stall os (channel 0x40) 5 refl (omega arith) refl refl

abbrev polled : Channels
polled = record (one_channel 2) { heap = update (one_channel 2).heap 1 (some after_two) }

dtp_poll_once : dtp_poll os (one_channel 2) ≡ done polled
unfolding dtp_poll poll_channel get_state
dtp_poll_once = refl

dtp_poll-IsSound_example : IsSound polled
dtp_poll-IsSound_example =
    dtp_poll-IsSound os (one_channel 2) (((channel 2, refl), tt), (tt, tt)) dtp_poll_once

ended_polled : (w : Channels) × (dtp_poll ended (one_channel 2) ≡ done w)
unfolding dtp_poll poll_channel poll_list get_state send_data copy_data write_buffered_data_to_fd
    fill_buffer_from_fd
ended_polled = (_, refl)

channel_two-IsPlain : IsPlain (channel 2)
unfolding get_state
channel_two-IsPlain = record { file = refl; unconnected = λ pending. absurd (ground arith) }

dtp_poll-balance_example :
    (count (pos 4) (all_held ended_polled.0.heap ended_polled.0.dtp_list)
        + count (pos 4) ended_polled.0.closed
      ≡ count (pos 4) (all_accepts ended (one_channel 2).heap (one_channel 2).dtp_list)
        + (count (pos 4) (all_held (one_channel 2).heap (1 ∷ []))
            + count (pos 4) (one_channel 2).closed))
    × AllPlain ended_polled.0.heap ended_polled.0.dtp_list
dtp_poll-balance_example =
    dtp_poll-balance ended (one_channel 2) (pos 4) (((channel 2, refl), tt), (tt, tt))
      (channel_two-IsPlain, tt) ended_polled.1
