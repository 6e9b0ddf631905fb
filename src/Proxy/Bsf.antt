-- ===== src/Proxy/Bsf.antt =====
-- class StreamFilterVideoBSF of rtsp-ws-proxy/stream_filter.cc: the bitstream filter of a stream.
-- libavcodec is the parameter `Bitstream`; errors are told apart by a number.
use Prim.Native.String.{String}
use rtsp_wasm_player.Base.{ℕ, Option, none, some}
use rtsp_wasm_player.Proxy.Filter.{
  StreamFilterStatus, Status, status, error, Received, last_packet, nothing, fatal, Filters,
}

-- What libavcodec answers to a packet sent, `again` for AVERROR(EAGAIN).
pub data Sent : Type 0 where
  accepted again : Sent
  failed : ℕ → Sent

pub data Reply (P : Type 0) : Type 0 where
  filled : P → Reply P
  again : Reply P
  failed : ℕ → Reply P

-- A result, or an error by its code.
pub data Made (A : Type 0) : Type 0 where
  made : A → Made A
  failed : ℕ → Made A

pub record Bitstream (P : Type 0) : Type 1 where
  pub Bsf : Type 0
  pub Ctx : Type 0
  pub get_by_name : String → Option Bsf
  pub alloc : Bsf → Made Ctx
  pub parameters_copy : Ctx → Option ℕ × Ctx
  pub init : Ctx → Option ℕ × Ctx
  pub send_packet : Option P → Ctx → Sent × Ctx
  pub receive_packet : Ctx → Reply P × Ctx

-- The codecs that the switch names.
pub data CodecId : Type 0 where
  h264 hevc rawvideo other : CodecId

-- The number of an error that has only a message.
abbrev pub stream_error_any : ℕ
stream_error_any = 0

-- `name` is the option `bsf_name`, none where it is empty.
module _ {P : Type 0} (av : Bitstream P) (name : Option String) (codec_id : CodecId) where
  open av use {Bsf, Ctx}

  unfoldable pub bsf_name : Option String → CodecId → Option String
  bsf_name (some n) id = some n
  bsf_name none h264 = some "h264_mp4toannexb"
  bsf_name none hevc = some "hevc_mp4toannexb"
  bsf_name none rawvideo = some "null"
  bsf_name none other = none

  -- A step of the opening with `bsf_ctx_` set: an error leaves it set.
  abbrev pub then_do : Option ℕ × Ctx → (Ctx → Status × Option Ctx) → Status × Option Ctx
  then_do (some e, c) k = (error e, some c)
  then_do (none, c) k = k c

  -- `av_bsf_send_packet` and what its answer is to the caller.
  abbrev pub answered : Sent × Ctx → Status × Option Ctx
  answered (accepted, c) = (status StreamFilterStatus.ok, some c)
  answered (again, c) = (status StreamFilterStatus.break, some c)
  answered (failed e, c) = (error e, some c)

  abbrev pub allocated : Made Ctx → Option P → Status × Option Ctx
  allocated (failed e) pkt = (error e, none)
  allocated (made c) pkt =
      then_do (av.parameters_copy c)
        (λ c₁. then_do (av.init c₁) (λ c₂. answered (av.send_packet pkt c₂)))

  abbrev pub found : Option Bsf → Option P → Status × Option Ctx
  found none pkt = (error stream_error_any, none)
  found (some b) pkt = allocated (av.alloc b) pkt

  abbrev pub named : Option String → Option P → Status × Option Ctx
  named none pkt = (error stream_error_any, none)
  named (some n) pkt = found (av.get_by_name n) pkt

  -- `SendPacket` and `RecvPacket`; the state is `bsf_ctx_`.
  unfoldable pub send_packet : Option P → Option Ctx → Status × Option Ctx
  send_packet pkt none = named (bsf_name name codec_id) pkt
  send_packet pkt (some c) = answered (av.send_packet pkt c)

  abbrev pub replied : Reply P × Ctx → Received P × Option Ctx
  replied (filled p, c) = (last_packet p, some c)
  replied (again, c) = (nothing, some c)
  replied (failed e, c) = (error e, some c)

  unfoldable pub recv_packet : Option Ctx → Received P × Option Ctx
  recv_packet none = (fatal, none)
  recv_packet (some c) = replied (av.receive_packet c)

  abbrev pub video_bsf : Filters P
  video_bsf = record { State = Option Ctx; send_packet = send_packet; recv_packet = recv_packet }
