-- ===== src/Packet.antt =====
-- common/net/packet.h: class net::Data, one media packet as it goes over the WebSocket.
-- `Encode` writes it and `Decode` reads it; the other modules hold the proofs.
pub mod Encode
pub mod Decode
pub mod Size
pub mod Reads
pub mod Parts
pub mod Roundtrip
pub mod Ffmpeg
pub mod Overread
mod Examples
use rtsp_wasm_player.Base.{ℕ, List}

-- `AVPacketSideData`
pub record SideData : Type 0 where
  pub kind : ℕ
  pub bytes : List ℕ

-- The fields of `AVPacket` that are sent. `size` and `side_data_elems` are the lengths of the two
-- lists; integers are bit patterns.
pub record Packet : Type 0 where
  pub pts : ℕ
  pub dts : ℕ
  pub bytes : List ℕ
  pub stream_index : ℕ
  pub flags : ℕ
  pub side_data : List SideData
  pub duration : ℕ
  pub pos : ℕ

-- `kind` is the `AVMediaType` as a 32-bit integer.
pub record Data : Type 0 where
  pub kind : ℕ
  pub packet : Packet
