-- ===== src/Decoder/Defs.antt =====
-- The state of the class Decoder of ws-wasm-player/src/decoder.h, and `Open`.
use rtsp_wasm_player.Base.{
  ℕ, ◌^◌, bit_and, Bool, true, false, not, ◌&&◌, Option, none, some, List, [], ◌∷◌, ltb, ◌==◌,
  if◌then◌else◌,
}
use rtsp_wasm_player.Packet.{Packet, Data}

pub data PixelFormat : Type 0 where
  yuv420p yuvj420p other : PixelFormat

-- `jpeg` is AVCOL_RANGE_JPEG.
pub data ColorRange : Type 0 where
  jpeg other : ColorRange

pub data MediaType : Type 0 where
  video other : MediaType

-- One entry of `stream_info_.subs`: the media type and what is read of its codec parameters.
pub record SubInfo : Type 0 where
  pub kind : MediaType
  pub format : PixelFormat
  pub color_range : ColorRange

-- `StreamVideoOptions` as `Open` sets them; `dec_name` is empty and `sws_enable` true.
pub record VideoOptions : Type 0 where
  pub dec_thread_count : ℕ
  pub dec_thread_type : ℕ
  pub sws_dst_pix_fmt : PixelFormat

-- What `StreamVideoOp::GetFrame` answers: a picture, nothing yet, or a `StreamError`.
pub data Answer (P : Type 0) : Type 0 where
  picture : P → Answer P
  need_more error : Answer P

-- `StreamVideoOp`, which wraps FFmpeg's decoder and scaler.
pub record VideoOp : Type 1 where
  pub State : Type 0
  pub Picture : Type 0
  pub create : VideoOptions → State
  pub get_frame : Packet → State → Answer Picture × State

-- `flags & AV_PKT_FLAG_KEY`
unfoldable pub is_key : Packet → Bool
is_key p = not (bit_and p.flags 1 == 0)

module _ (op : VideoOp) where
  open op use {State, Picture, create}

  -- A frame with its media type.
  pub record Frame : Type 0 where
    pub kind : ℕ
    pub image : Picture

  -- `stream_ops_` can hold a video entry only, so it is an option. `none` among `datas` is the
  -- null pointer that stops the thread.
  pub record Decoder : Type 0 where
    pub video_op : Option State
    pub has_callback : Bool
    pub from_key_frame : Bool
    pub stopped : Bool
    pub datas_maxsize : ℕ
    pub datas : List (Option Data)
    pub results : List Frame

  abbrev pub fresh_decoder : Decoder
  fresh_decoder = record {
    video_op = none;
    has_callback = false;
    from_key_frame = false;
    stopped = true;
    datas_maxsize = 2;
    datas = [];
    results = [];
  }

  abbrev pub pixel_format : SubInfo → PixelFormat
  pixel_format s = by s.format s.color_range
    where
      by : PixelFormat → ColorRange → PixelFormat
      by yuvj420p r = yuvj420p
      by yuv420p jpeg = yuvj420p
      by _ _ = yuv420p

  -- One round of the loop of `Open`.
  abbrev pub open_sub : ℕ → ℕ → SubInfo → MediaType → Decoder → Decoder
  open_sub count kind s other d = d
  open_sub count kind s video d = record d {
    video_op = some (
        create (record {
          dec_thread_count = count;
          dec_thread_type = kind;
          sws_dst_pix_fmt = pixel_format s;
        }));
  }

  unfoldable pub open_subs : ℕ → ℕ → List SubInfo → Decoder → Decoder
  open_subs count kind [] d = d
  open_subs count kind (s ∷ l) d = open_subs count kind l (open_sub count kind s s.kind d)

  -- `Open`; `queue_size` is a 32-bit pattern, so 2 to 2^31 - 1 are the sizes from 2 on.
  unfoldable pub open_decoder : List SubInfo → ℕ → ℕ → ℕ → Bool → Decoder → Decoder
  unfolding open_subs
  open_decoder subs queue_size count kind lambda d =
      let sized : Decoder =
        (if ltb 1 queue_size && ltb queue_size (2 ^ 31)
          then record d { datas_maxsize = queue_size }
          else d) in
      open_subs count kind subs (record sized { has_callback = lambda })
