-- ===== src/Proto/Tests.antt =====
-- Runs of the frames at concrete inputs.
use caochuan.Base.{ℕ, zero, suc, ◌≡◌, refl, ap, false, some, [], ◌∷◌, ◌++◌, arith, length}
use caochuan.Proto.{
  Bytes, ok, Codec, Writer, UdpPacket, read_full, read_json_frame, write_json_frame,
  read_udp_packet, read_packets,
}
use caochuan.Proto.RoundTrip.{read-write_json_frame}
use caochuan.Proto.Packets.{read_packets-write_all, write_all}

-- A stand-in for JSON: the value is its own text.
abbrev plain : Codec Bytes
plain = record { marshal = λ v. some v; unmarshal = λ b. some b }

abbrev sink : Writer
sink = record { sent = []; is_broken = false }

abbrev zeros : ℕ → Bytes
zeros zero = []
zeros (suc n) = 0 ∷ zeros n

length-zeros : (n : ℕ) → length (zeros n) ≡ n
length-zeros zero = refl
length-zeros (suc n) = ap suc (length-zeros n)

write_json_frame_test :
    write_json_frame plain sink (123 ∷ 125 ∷ [])
    ≡ ok (record sink { sent = 0 ∷ 2 ∷ 123 ∷ 125 ∷ [] })
unfolding write_json_frame
write_json_frame_test = refl

read_udp_packet_test :
    read_udp_packet (0 ∷ 0 ∷ 1 ∷ 2 ∷ 0 ∷ 1 ∷ 7 ∷ 9 ∷ [])
    ≡ ok (record { conn_id = 258; payload = 7 ∷ [] }, 9 ∷ [])
unfolding read_udp_packet read_full
read_udp_packet_test = refl

read-write_json_frame_example :
    (frame : Bytes) × (write_json_frame plain sink (123 ∷ 125 ∷ [])
      ≡ ok (record sink { sent = frame }))
    × (read_json_frame plain (frame ++ (5 ∷ [])) ≡ ok (123 ∷ 125 ∷ [], 5 ∷ []))
read-write_json_frame_example =
    read-write_json_frame plain sink (123 ∷ 125 ∷ []) (5 ∷ []) (123 ∷ 125 ∷ []) refl refl
      (omega arith) (omega arith) refl

abbrev ping : UdpPacket
ping = record { conn_id = 3; payload = 1 ∷ 2 ∷ [] }

read_packets-write_all_example :
    (w : Writer) × (write_all sink (ping ∷ ping ∷ []) ≡ ok w)
    × (read_packets 9 w.sent ≡ ping ∷ ping ∷ [])
read_packets-write_all_example =
    read_packets-write_all 9 (ping ∷ ping ∷ []) (omega arith) (omega arith)
