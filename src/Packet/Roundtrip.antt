-- ===== src/Packet/Roundtrip.antt =====
-- `FromBytes` on the bytes of `ToBytes`, of common/net/packet.h.
use rtsp_wasm_player.Base.{
  ℕ, ◌+◌, ◌%◌, ◌^◌, ◌≤◌, ◌<◌, ◌≡◌, ap, ◌∙◌, some, List, ◌++◌, append_assoc, arith, length, drop,
  length-append,
}
use rtsp_wasm_player.Bytes.{to, from}
use rtsp_wasm_player.Bytes.Words.{from-to_32}
use rtsp_wasm_player.Packet.{Data}
use rtsp_wasm_player.Packet.Encode.{get_byte_size, write_side_data, write_packet, write}
use rtsp_wasm_player.Packet.Decode.{Av, success, next, read_packet, from_bytes, finish}
use rtsp_wasm_player.Packet.Size.{length-write, length-write_packet, length-to_append}
use rtsp_wasm_player.Packet.Reads.{drop_to, drop-add, from_byte, AreSendable, HasMemory}
use rtsp_wasm_player.Packet.Parts.{received, packet-write}

-- A packet as `ToBytes` can carry it: every int holds its value, and the whole fits 32 bits.
pub record CanTravel (d : Data) : Type 0 where
  pub kind_fits : d.kind < 256
  pub size_fits : length d.packet.bytes < 2 ^ 31
  pub index_fits : d.packet.stream_index < 2 ^ 32
  pub flags_fit : d.packet.flags < 2 ^ 32
  pub sides_fit : AreSendable d.packet.side_data
  pub elems_fit : length d.packet.side_data < 2 ^ 31
  pub total_fits : get_byte_size d.packet < 2 ^ 32

-- The head of a message: its media type, its size, and the packet behind them.
module _ (d : Data) (extra : List ℕ) where
  framed : List ℕ
  framed = to 4 (get_byte_size d.packet % 2 ^ 32) ++ (write_packet d.packet ++ extra)

  length-head : length (write d) ≡ 7 + length (write_packet d.packet)
  unfolding write
  length-head =
      omega (arith, length-to_append 4 (get_byte_size d.packet % 2 ^ 32) (write_packet d.packet))

  length-message : length (write d ++ extra) ≡ 7 + length (write_packet d.packet) + length extra
  length-message = omega (arith, length-append (write d) extra, length-head)

  message_at_3 : drop 3 (write d ++ extra) ≡ framed
  unfolding write framed
  message_at_3 = append_assoc (to 4 (get_byte_size d.packet % 2 ^ 32)) (write_packet d.packet) extra

  message_at_7 : drop 7 (write d ++ extra) ≡ write_packet d.packet ++ extra
  unfolding framed
  message_at_7 =
      drop-add 3 4 (write d ++ extra)
      ∙ ap (drop 4) message_at_3
      ∙ drop_to 4 (get_byte_size d.packet % 2 ^ 32) (write_packet d.packet ++ extra)

  kind_read : d.kind < 256 → from 1 (drop 2 (write d ++ extra)) ≡ some d.kind
  unfolding write
  kind_read h = from_byte d.kind _ ∙ ap some (omega (arith, h))

  size_read :
      get_byte_size d.packet < 2 ^ 32
      → from 4 (drop 3 (write d ++ extra)) ≡ some (get_byte_size d.packet)
  unfolding framed
  size_read h =
      ap (from 4) message_at_3
      ∙ from-to_32 (get_byte_size d.packet % 2 ^ 32) (write_packet d.packet ++ extra) (omega arith)
      ∙ ap some (omega (arith, h))

module _ (av : Av) (memory : HasMemory av) where
  pub from_bytes_lem :
      (bytes : List ℕ) (old : Data) (kind n : ℕ)
      → 7 ≤ length bytes
      → from 1 (drop 2 bytes) ≡ some kind
      → from 4 (drop 3 bytes) ≡ some n
      → n ≤ length bytes
      → from_bytes av bytes old
        ≡ finish av n (
            read_packet av
              (record { rest = drop 7 bytes; pos = 7; filled = record old { kind = kind } }))
  unfolding from_bytes
  from_bytes_lem bytes old kind n h e₁ e₂ p = ground arith

  -- `FromBytes` reads what `ToBytes` wrote, also with more bytes behind it: it succeeds, every
  -- 32-bit field, the payload and the side data are as sent, the 64-bit fields are as the wire
  -- gives them, and the position is the duration's value.
  pub from_bytes-write :
      (d old : Data) (extra : List ℕ)
      → CanTravel d
      → from_bytes av (write d ++ extra) old
        ≡ (success, record { kind = d.kind; packet = received av memory d.packet old.packet })
  from_bytes-write d old extra ok =
      from_bytes_lem (write d ++ extra) old d.kind n (omega (arith, length-message d extra))
        (kind_read d extra ok.kind_fits) (size_read d extra ok.total_fits)
        (omega (arith, length-message d extra, length-head d extra, length-write d))
      ∙ ap (finish av n) (
          packet-write av memory d.packet extra _ ok.size_fits ok.index_fits ok.flags_fit
            ok.sides_fit ok.elems_fit (message_at_7 d extra))
      ∙ ends
    where
      n : ℕ
      n = get_byte_size d.packet

      ends :
          finish av n (
            next tt,
            record {
              rest = drop 16 (to 8 d.packet.duration ++ (to 8 d.packet.pos ++ extra));
              pos =
                  7
                  + 20
                  + length d.packet.bytes
                  + 12
                  + length (write_side_data d.packet.side_data)
                  + 16;
              filled = record { kind = d.kind; packet = received av memory d.packet old.packet };
            },
          )
          ≡ (success, record { kind = d.kind; packet = received av memory d.packet old.packet })
      ends = ground (arith, length-write d, length-head d extra, length-write_packet d.packet)
