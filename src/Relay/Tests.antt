-- ===== src/Relay/Tests.antt =====
-- relay/: targets, dialling and headers on concrete inputs.
use caochuan.Base.{
  ◌+◌, ◌-◌, ◌*◌, ◌%◌, ◌≤◌, ◌<◌, ◌≡◌, refl, Bool, true, false, some, [], ◌∷◌, arith, ◌==◌, length,
  All,
}
use caochuan.Base.Int.{pos}
use caochuan.Proto.{UdpPacket}
use caochuan.Relay.Limiter.{Limiter, new_limiter, refill, round, sleep}
use caochuan.Relay.Limiter.Rate.{rounds, rounds-rate}
use caochuan.Relay.Backends.{
  new_backends, socket_of, forget, close, add_backend, write_to, on_packet, without, on_reader_end,
  close_all, on_end, packet, reader_end, stream_end, handle_event, events,
}
use caochuan.Relay.Backends.Readers.{reads, events-read}
use caochuan.Base.Text.{Text}
use caochuan.Relay.Targets.{
  parse_targets, split, collect, trim_space, trim_left, trim_right, keep, is_space,
}
use caochuan.Relay.Dial.{dial_balanced}
use caochuan.Relay.Dial.Rotation.{first_reached, rotate, dial_balanced-first}
use caochuan.Relay.Proxy.{TcpAddr}

-- "a , b" and the two targets in it.
abbrev two_targets : Text
two_targets = 97 ∷ 32 ∷ 44 ∷ 32 ∷ 98 ∷ []

parse_targets_test : parse_targets two_targets ≡ (97 ∷ []) ∷ (98 ∷ []) ∷ []
unfolding parse_targets split collect trim_space trim_left trim_right keep is_space
parse_targets_test = refl

abbrev only_b : Text → Bool
only_b [] = false
only_b (c ∷ _) = c == 98

dial_balanced-first_example : dial_balanced only_b two_targets 6 ≡ (
  first_reached only_b
      (rotate (6 % length (parse_targets two_targets)) (parse_targets two_targets)),
  7,
)
dial_balanced-first_example =
    dial_balanced-first only_b two_targets 6 (rw parse_targets_test (omega arith))
      (rw parse_targets_test (omega arith))

abbrev local_addr : TcpAddr
local_addr = record { ip = 10 ∷ 0 ∷ 0 ∷ 1 ∷ []; port = 80 }

-- A limiter of one megabit per second.
abbrev slow : Limiter
slow = record { rate = 131_072; tokens = 131_072 * 1_000_000_000; last = 0 }

slow-new_limiter : new_limiter 0 (pos 1) ≡ some slow
unfolding new_limiter
slow-new_limiter = refl

rounds-rate_example :
    (rounds ((7, 100_000) ∷ []) (rounds ((5, 60_000) ∷ []) slow).1).0 * 1_000_000_000
    ≤ 131_072 * (1_000_000_000 + (7 - 5))
rounds-rate_example =
    rounds-rate 0 (pos 1) slow ((5, 60_000) ∷ []) ((7, 100_000) ∷ []) slow-new_limiter
      (omega arith, tt) (omega arith, tt)

-- A limiter that has given all.
abbrev spent : Limiter
spent = record { rate = 131_072; tokens = 0; last = 0 }

spent-sleep : 0 + sleep 1000 (round 0 1000 spent).1 < 9_000_000
unfolding sleep round refill
spent-sleep = omega arith

abbrev to_target : UdpPacket
to_target = record { conn_id = 1; payload = 7 ∷ [] }

events-read_example :
    All
      (λ b.
        reads b (events (packet true true to_target ∷ stream_end ∷ []) (new_backends 0)).readers
        ≡ true)
      (events (packet true true to_target ∷ stream_end ∷ []) (new_backends 0)).live
    × ((events (packet true true to_target ∷ stream_end ∷ []) (new_backends 0)).conns
        ≡ 0
          + length (events (packet true true to_target ∷ stream_end ∷ []) (new_backends 0)).readers)
events-read_example = events-read 0 (packet true true to_target ∷ stream_end ∷ [])

-- A write fails, the next packet gets a new socket, and then the goroutine of the old one ends: the new
-- socket is forgotten, and still open after the end of the stream.
forgotten_test :
    (events
      (packet true true to_target
        ∷ packet true false to_target
        ∷ packet true true to_target
        ∷ reader_end 1
        ∷ stream_end
        ∷ [])
      (new_backends 0)).live
    ≡ 1 ∷ []
unfolding events handle_event on_packet socket_of add_backend write_to forget close without
    on_reader_end close_all on_end new_backends
forgotten_test = refl
