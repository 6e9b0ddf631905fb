-- ===== src/Packet/Examples.antt =====
-- A concrete FFmpeg, and the results about packets applied to it.
use rtsp_wasm_player.Base.{ℕ, ◌-◌, ◌^◌, ◌≡◌, refl, ◌↔◌, List, [], ◌∷◌, ◌++◌, arith, ltb}
use rtsp_wasm_player.Bytes.{to, from, copy, join_byte}
use rtsp_wasm_player.Packet.{Data}
use rtsp_wasm_player.Packet.Encode.{get_byte_size, write}
use rtsp_wasm_player.Packet.Decode.{
  Av, success, fault, from_bytes, read_packet, read_head, read_middle, read_sides, read_side,
  read_tail,
}
use rtsp_wasm_player.Packet.Reads.{HasMemory}
use rtsp_wasm_player.Packet.Roundtrip.{CanTravel}
use rtsp_wasm_player.Packet.Ffmpeg.{
  IsFfmpeg, IsPlain, arrived, from_bytes_arrives, from_bytes_whole_iff,
}
use rtsp_wasm_player.Packet.Overread.{from_bytes_overreads}

abbrev ffmpeg : Av
ffmpeg = record {
  malloc = λ n. ltb n (2 ^ 31);
  packet_from_data = λ b p. record p { bytes = b };
  packet_add_side_data = λ s p. record p { side_data = p.side_data ++ (s ∷ []) };
}

memory : HasMemory ffmpeg
memory n h = ground arith

ffmpeg-IsFfmpeg : IsFfmpeg ffmpeg
ffmpeg-IsFfmpeg = record { memory = memory; adopts = λ b p h. refl; appends = λ s p new. refl }

abbrev fresh : Data
fresh = record {
  kind = 2 ^ 32 - 1;
  packet = record {
    pts = 2 ^ 63;
    dts = 2 ^ 63;
    bytes = [];
    stream_index = 0;
    flags = 0;
    side_data = [];
    duration = 0;
    pos = 2 ^ 64 - 1;
  };
}

abbrev key_frame : Data
key_frame = record {
  kind = 0;
  packet = record {
    pts = 3600;
    dts = 3000;
    bytes = 9 ∷ 8 ∷ 7 ∷ [];
    stream_index = 1;
    flags = 1;
    side_data = record { kind = 5; bytes = 4 ∷ 2 ∷ [] } ∷ [];
    duration = 40;
    pos = 1000;
  };
}

key_frame-CanTravel : CanTravel key_frame
unfolding get_byte_size
key_frame-CanTravel = omega arith

key_frame-IsPlain : IsPlain key_frame.packet
key_frame-IsPlain = record { payload = omega arith; kinds = (tt, tt) }

key_frame_size : get_byte_size key_frame.packet ≡ 65
unfolding get_byte_size
key_frame_size = refl

arrives_test :
    from_bytes ffmpeg (write key_frame) fresh
    ≡ (success, record key_frame { packet = record key_frame.packet { pos = 40 } })
unfolding from_bytes write get_byte_size to from copy join_byte read_packet read_head read_middle
    read_sides read_side read_tail
arrives_test = refl

from_bytes_arrives_example :
    from_bytes ffmpeg (write key_frame ++ (1 ∷ [])) fresh
    ≡ (success, record { kind = 0; packet = arrived key_frame.packet })
from_bytes_arrives_example =
    from_bytes_arrives ffmpeg key_frame fresh (1 ∷ []) ffmpeg-IsFfmpeg key_frame-CanTravel
      key_frame-IsPlain refl

from_bytes_whole_iff_example :
    (from_bytes ffmpeg (write key_frame ++ []) fresh ≡ (success, key_frame))
    ↔ (key_frame.packet.pos ≡ key_frame.packet.duration)
from_bytes_whole_iff_example =
    from_bytes_whole_iff ffmpeg key_frame fresh [] ffmpeg-IsFfmpeg key_frame-CanTravel
      key_frame-IsPlain refl (omega arith) (omega arith) (omega arith)

abbrev two_bytes : List ℕ
two_bytes = 0 ∷ 0 ∷ []

-- 27 bytes that promise a payload of 1000.
abbrev short_message : List ℕ
short_message =
    1 ∷ 0 ∷ 0 ∷ 0 ∷ 0 ∷ 0 ∷ 27 ∷ 0 ∷ 0 ∷ 0 ∷ 0 ∷ 0 ∷ 0 ∷ 0 ∷ 1 ∷ 0 ∷ 0 ∷ 0 ∷ 0 ∷ 0 ∷ 0 ∷ 0 ∷ 1 ∷ 0
    ∷ 0 ∷ 3 ∷ 232 ∷ []

from_bytes_overreads_example : (from_bytes ffmpeg short_message fresh).0 ≡ fault
unfolding from join_byte
from_bytes_overreads_example =
    from_bytes_overreads ffmpeg memory short_message fresh 0 27 1 1 1000 refl refl refl refl refl
      (omega arith) (omega arith) (omega arith) (omega arith)
