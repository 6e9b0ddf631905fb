-- ===== src/Packet/Parts.antt =====
-- The three parts of `FromBytes` on the bytes of `ToBytes`, of common/net/packet.h.
use rtsp_wasm_player.Base.{
  ℕ, ◌+◌, ◌%◌, ◌^◌, ◌<◌, ◌≡◌, refl, ap, ◌∙◌, some, List, ◌++◌, append_assoc, arith, length, drop,
  drop_all,
}
use rtsp_wasm_player.Bytes.{to, from, copy, widen, wire}
use rtsp_wasm_player.Bytes.Words.{from-to, from-to_32}
use rtsp_wasm_player.Packet.{Packet}
use rtsp_wasm_player.Packet.Encode.{write_side_data, write_packet}
use rtsp_wasm_player.Packet.Decode.{
  Av, Reader, Step, next, continue, read_sides, read_head, read_middle, read_tail, read_packet,
}
use rtsp_wasm_player.Packet.Reads.{
  read_head_lem, read_tail_lem, drop_to, drop-add, copy_part, AreSendable, HasMemory, add_all,
  malloc_size, read_sides-write,
}

module _ (av : Av) (memory : HasMemory av) where
  -- The packet after each of the three parts.
  abbrev pub after_head : Packet → Packet → Packet
  after_head p old =
      av.packet_from_data p.bytes (record old { pts = wire 8 p.pts; dts = wire 8 p.dts })

  abbrev pub after_middle : Packet → Packet → Packet
  after_middle p old =
      add_all av p.side_data (record old { stream_index = p.stream_index; flags = p.flags })

  abbrev pub after_tail : Packet → Packet → Packet
  after_tail p old = record old { duration = wire 8 p.duration; pos = wire 8 p.duration }

  head-write :
      (p : Packet) (tail : List ℕ) (r : Reader)
      → length p.bytes < 2 ^ 31
      → r.rest ≡ to 8 p.pts ++ (to 8 p.dts ++ (to 4 (length p.bytes % 2 ^ 32) ++ (p.bytes ++ tail)))
      → read_head av r ≡ (
        next tt,
        record {
          rest = tail;
          pos = r.pos + 20 + length p.bytes;
          filled = record r.filled { packet = after_head p r.filled.packet };
        },
      )
  head-write p tail r fits e =
      read_head_lem av r (wire 8 p.pts) (wire 8 p.dts) n p.bytes first second third
        (malloc_size av memory n fits) block
      ∙ ap
          (λ (t : List ℕ).
            let q : Step (Unit {0}) × Reader = (
              next tt,
              record {
                rest = t;
                pos = r.pos + 20 + n;
                filled = record r.filled { packet = after_head p r.filled.packet };
              },
            ) in
            q)
          behind
    where
      n : ℕ
      n = length p.bytes

      sized : List ℕ
      sized = to 4 (n % 2 ^ 32) ++ (p.bytes ++ tail)

      first : from 8 r.rest ≡ some (wire 8 p.pts)
      first = ap (from 8) e ∙ from-to 8 p.pts _

      at_8 : drop 8 r.rest ≡ to 8 p.dts ++ sized
      at_8 = ap (drop 8) e ∙ drop_to 8 p.pts (to 8 p.dts ++ sized)

      second : from 8 (drop 8 r.rest) ≡ some (wire 8 p.dts)
      second = ap (from 8) at_8 ∙ from-to 8 p.dts sized

      at_16 : drop 16 r.rest ≡ sized
      at_16 = drop-add 8 8 r.rest ∙ ap (drop 8) at_8 ∙ drop_to 8 p.dts sized

      third : from 4 (drop 16 r.rest) ≡ some n
      third =
          ap (from 4) at_16
          ∙ from-to_32 (n % 2 ^ 32) (p.bytes ++ tail) (omega arith)
          ∙ ap some (omega (arith, fits))

      at_20 : drop 20 r.rest ≡ p.bytes ++ tail
      at_20 = drop-add 16 4 r.rest ∙ ap (drop 4) at_16 ∙ drop_to 4 (n % 2 ^ 32) (p.bytes ++ tail)

      block : copy (widen 8 n) (drop 20 r.rest) ≡ some p.bytes
      block = ap (copy (widen 8 n)) at_20 ∙ copy_part n p.bytes tail refl fits

      behind : drop n (drop 20 r.rest) ≡ tail
      behind = ap (drop n) at_20 ∙ drop_all p.bytes tail

  middle_lem :
      (r : Reader) (i f n : ℕ)
      → from 4 r.rest ≡ some i
      → from 4 (drop 4 r.rest) ≡ some f
      → from 4 (drop 8 r.rest) ≡ some n
      → n < 2 ^ 31
      → read_middle av r
        ≡ read_sides av n (record {
          rest = drop 12 r.rest;
          pos = r.pos + 12;
          filled = record r.filled {
            packet = record r.filled.packet { stream_index = i; flags = f };
          };
        })
  unfolding read_middle
  middle_lem r i f n e₁ e₂ e₃ h = ground arith

  middle-write :
      (p : Packet) (tail : List ℕ) (r : Reader)
      → p.stream_index < 2 ^ 32
      → p.flags < 2 ^ 32
      → AreSendable p.side_data
      → length p.side_data < 2 ^ 31
      → r.rest
        ≡ to 4 p.stream_index
          ++ (to 4 p.flags
              ++ (to 4 (length p.side_data % 2 ^ 32) ++ (write_side_data p.side_data ++ tail)))
      → read_middle av r ≡ (
        next tt,
        record {
          rest = tail;
          pos = r.pos + 12 + length (write_side_data p.side_data);
          filled = record r.filled { packet = after_middle p r.filled.packet };
        },
      )
  middle-write p tail r i f sides elems e =
      middle_lem r p.stream_index p.flags n first second third elems
      ∙ read_sides-write av memory p.side_data tail _ sides at_12
    where
      n : ℕ
      n = length p.side_data

      counted : List ℕ
      counted = to 4 (n % 2 ^ 32) ++ (write_side_data p.side_data ++ tail)

      first : from 4 r.rest ≡ some p.stream_index
      first = ap (from 4) e ∙ from-to_32 p.stream_index _ i

      at_4 : drop 4 r.rest ≡ to 4 p.flags ++ counted
      at_4 = ap (drop 4) e ∙ drop_to 4 p.stream_index (to 4 p.flags ++ counted)

      second : from 4 (drop 4 r.rest) ≡ some p.flags
      second = ap (from 4) at_4 ∙ from-to_32 p.flags counted f

      at_8 : drop 8 r.rest ≡ counted
      at_8 = drop-add 4 4 r.rest ∙ ap (drop 4) at_4 ∙ drop_to 4 p.flags counted

      third : from 4 (drop 8 r.rest) ≡ some n
      third =
          ap (from 4) at_8
          ∙ from-to_32 (n % 2 ^ 32) (write_side_data p.side_data ++ tail) (omega arith)
          ∙ ap some (omega (arith, elems))

      at_12 : drop 12 r.rest ≡ write_side_data p.side_data ++ tail
      at_12 =
          drop-add 8 4 r.rest
          ∙ ap (drop 4) at_8
          ∙ drop_to 4 (n % 2 ^ 32) (write_side_data p.side_data ++ tail)

  -- What `FromBytes` makes of the packet: the two timestamps and the duration as the wire gives
  -- them, and the position from the place of the duration.
  abbrev pub received : Packet → Packet → Packet
  received p old = after_tail p (after_middle p (after_head p old))

  pub packet-write :
      (p : Packet) (extra : List ℕ) (r : Reader)
      → length p.bytes < 2 ^ 31
      → p.stream_index < 2 ^ 32
      → p.flags < 2 ^ 32
      → AreSendable p.side_data
      → length p.side_data < 2 ^ 31
      → r.rest ≡ write_packet p ++ extra
      → read_packet av r ≡ (
        next tt,
        record {
          rest = drop 16 (to 8 p.duration ++ (to 8 p.pos ++ extra));
          pos = r.pos + 20 + length p.bytes + 12 + length (write_side_data p.side_data) + 16;
          filled = record r.filled { packet = received p r.filled.packet };
        },
      )
  unfolding read_packet write_packet
  packet-write p extra r size i f sides elems e =
      ap
        (λ (q : Step (Unit {0}) × Reader).
          continue q (λ _ r. continue (read_middle av r) (λ _. read_tail av)))
        (head-write p _ r size (e ∙ regroup))
      ∙ ap (λ (q : Step (Unit {0}) × Reader). continue q (λ _. read_tail av))
          (middle-write p _ _ i f sides elems refl)
      ∙ read_tail_lem av _ (wire 8 p.duration) (from-to 8 p.duration (to 8 p.pos ++ extra))
    where
      regroup :
          write_packet p ++ extra
          ≡ to 8 p.pts
            ++ (to 8 p.dts
                ++ (to 4 (length p.bytes % 2 ^ 32)
                    ++ (p.bytes
                        ++ (to 4 p.stream_index
                            ++ (to 4 p.flags
                                ++ (to 4 (length p.side_data % 2 ^ 32)
                                    ++ (write_side_data p.side_data
                                        ++ (to 8 p.duration ++ (to 8 p.pos ++ extra)))))))))
      regroup = simp append_assoc
