-- ===== src/Media/VideoOp.antt =====
-- class StreamVideoOp of common/media/stream_video.cc: decoding and scaling of a stream's packets
-- into the one frame, or the one scaled frame, that the object owns. libavcodec and libswscale are
-- the parameter `Codecs`; allocations of frames and buffers succeed. Logs and timings are left out.
use rtsp_wasm_player.Base.{
  ℕ, ◌^◌, ◌≡◌, Bool, true, false, ◌&&◌, Option, none, some, List, ltb, leb, if◌then◌else◌, length,
  ◌==◌, ◌+◌,
}

-- `int` fields, in two's complement of 32 bits.
abbrev pub is_positive : ℕ → Bool
is_positive n = ltb 0 n && ltb n (2 ^ 31)

-- A pixel format; none is AV_PIX_FMT_NONE.
pub record Options : Type 0 where
  pub dec_name : List ℕ
  pub dec_thread_count : ℕ
  pub dec_thread_type : ℕ
  pub sws_enable : Bool
  pub sws_dst_width : ℕ
  pub sws_dst_height : ℕ
  pub sws_dst_pix_fmt : Option ℕ
  pub sws_flags : ℕ

pub record Size : Type 0 where
  pub pix_fmt : ℕ
  pub width : ℕ
  pub height : ℕ

-- What `avcodec_send_packet` and `avcodec_receive_frame` return; `again` is AVERROR(EAGAIN).
pub data Sent : Type 0 where
  accepted again refused : Sent

-- The contents of a frame.
pub record Image (Pixels : Type 0) : Type 0 where
  pub pts : ℕ
  pub pixels : Pixels

pub data Received (Pixels : Type 0) : Type 0 where
  image : Image Pixels → Received Pixels
  again refused : Received Pixels

pub record Codecs (Packet : Type 0) : Type 1 where
  pub Codec : Type 0
  pub Context : Type 0
  pub Scaler : Type 0
  pub Pixels : Type 0
  pub find_decoder_by_name : List ℕ → Option Codec
  -- By the id of the stream's codec.
  pub find_decoder : Option Codec
  pub alloc_context : Codec → Option Context
  -- `InitAVCodecContext`, none where it throws.
  pub parameters_to_context : Context → Option Context
  pub set_thread_count : ℕ → Context → Context
  pub set_thread_type : ℕ → Context → Context
  pub open2 : Codec → Context → Bool × Context
  pub send_packet : Packet → Context → Sent × Context
  pub receive_frame : Context → Received Pixels × Context
  pub flush_buffers : Context → Context
  pub size : Context → Size
  pub get_buffer_size : Size → ℕ
  pub get_scaler : Size → Size → ℕ → Option Scaler
  pub scale : Scaler → ℕ → Pixels → Pixels
  -- `avcodec_is_open`, with what the libraries document: a context is open after `open2` succeeded
  -- on it, and one that is not open takes no packet.
  pub is_open : Context → Bool
  pub closed_at_first : (c : Codec) (x : Context) → alloc_context c ≡ some x → is_open x ≡ false
  pub closed_on_failure :
      (c : Codec) (x : Context) → (open2 c x).0 ≡ false → is_open (open2 c x).1 ≡ false
  pub takes_none :
      (p : Packet) (x : Context)
      → is_open x ≡ false
      → ((send_packet p x).0 ≡ refused) × (is_open (send_packet p x).1 ≡ false)
  pub flushed_open : (x : Context) → is_open (flush_buffers x) ≡ is_open x

-- Which of its two frames the object hands out.
pub data Pointer : Type 0 where
  frame_ sws_frame_ : Pointer

-- What `GetFrame` returns: a frame, the null pointer, or a `StreamError`; `crashed` is the use of
-- a null pointer.
pub data Got : Type 0 where
  got : Pointer → Got
  null failed crashed : Got

module _ {Packet : Type 0} (av : Codecs Packet) (options : Options) where
  open av use {Codec, Context, Scaler, Pixels}

  -- The object; a frame that is there holds an image once one was decoded into it. `lost` counts
  -- frames that no pointer leads to any more.
  pub record VideoOp : Type 0 where
    pub codec_ctx : Option Context
    pub frame : Option (Option (Image Pixels))
    pub sws_ctx : Option Scaler
    pub sws_frame : Option (Option (Image Pixels))
    pub sws_buf : Option ℕ
    pub lost : ℕ

  abbrev pub construct : VideoOp
  construct = record {
    codec_ctx = none;
    frame = none;
    sws_ctx = none;
    sws_frame = none;
    sws_buf = none;
    lost = 0;
  }

  abbrev pub or_else : {A : Type 0} → Option A → Option A → Option A
  or_else none o = o
  or_else (some a) o = some a

  abbrev pub found : Option Codec
  found =
      or_else
        (if leb (length options.dec_name) 0 then none else av.find_decoder_by_name options.dec_name)
        av.find_decoder

  abbrev pub with_threads : Context → Context
  with_threads x =
      let y =
        (if is_positive options.dec_thread_count
          then av.set_thread_count options.dec_thread_count x
          else x) in
      if is_positive options.dec_thread_type
      then av.set_thread_type options.dec_thread_type y
      else y

  -- `avcodec_open2`, and the frame where it succeeds.
  abbrev pub opened : Bool × Context → VideoOp → Bool × VideoOp
  opened (true, x) s = (true, record s { codec_ctx = some x; frame = some none })
  opened (false, x) s = (false, record s { codec_ctx = some x })

  abbrev pub initialised : Codec → Context → Option Context → VideoOp → Bool × VideoOp
  initialised c x none s = (false, record s { codec_ctx = some x })
  initialised c x (some y) s = opened (av.open2 c (with_threads y)) s

  abbrev pub allocated : Codec → Option Context → VideoOp → Bool × VideoOp
  allocated c none s = (false, s)
  allocated c (some x) s = initialised c x (av.parameters_to_context x) s

  abbrev pub open_by : Option Codec → VideoOp → Bool × VideoOp
  open_by none s = (false, s)
  open_by (some c) s = allocated c (av.alloc_context c) s

  -- The first block of `GetFrame`: false where it throws.
  abbrev pub open_once : Option Context → VideoOp → Bool × VideoOp
  open_once none s = open_by found s
  open_once (some x) s = (true, s)

  -- Where the source leaves it open, the scaled picture has the decoded one's format and sides.
  abbrev pub target : Size → Size
  target src = record {
    pix_fmt = elim options.sws_dst_pix_fmt [ none ↦ src.pix_fmt | some f ↦ f ];
    width = if is_positive options.sws_dst_width then options.sws_dst_width else src.width;
    height = if is_positive options.sws_dst_height then options.sws_dst_height else src.height;
  }

  -- SWS_BICUBIC is 4.
  abbrev pub flags : ℕ
  flags = if options.sws_flags == 0 then 4 else options.sws_flags

  -- The buffer is kept when it has the size that is wanted.
  abbrev pub rebuffer : ℕ → Option ℕ → Option ℕ
  rebuffer n none = some n
  rebuffer n (some m) = if m == n then some m else some n

  abbrev pub dropped : Option (Option (Image Pixels)) → ℕ → ℕ
  dropped none n = n
  dropped (some f) n = n + 1

  -- Another scaled frame, whatever there was before.
  abbrev pub new_frame : Context → VideoOp → VideoOp
  new_frame x s = record s {
    sws_frame = some none;
    sws_buf = rebuffer (av.get_buffer_size (target (av.size x))) s.sws_buf;
    lost = dropped s.sws_frame s.lost;
  }

  -- `sws_scale` and the time stamp.
  abbrev pub scaled : Scaler → Context → Image Pixels → VideoOp → Got × VideoOp
  scaled k x i s = (
    got sws_frame_,
    record s {
      sws_frame =
          some (some (record { pts = i.pts; pixels = av.scale k (av.size x).height i.pixels }));
    },
  )

  abbrev pub with_scaler : Option Scaler → Context → Image Pixels → VideoOp → Got × VideoOp
  with_scaler none x i s = (failed, s)
  with_scaler (some k) x i s = scaled k x i (record s { sws_ctx = some k })

  abbrev pub scale_into :
      Option (Option (Image Pixels)) → Scaler → Context → Image Pixels → VideoOp → Got × VideoOp
  scale_into none k x i s = (crashed, s)
  scale_into (some f) k x i s = scaled k x i s

  -- The scaling block: the scaler is made once.
  abbrev pub rescale : Option Scaler → Context → Image Pixels → VideoOp → Got × VideoOp
  rescale none x i s =
      with_scaler (av.get_scaler (av.size x) (target (av.size x)) flags) x i (new_frame x s)
  rescale (some k) x i s = scale_into s.sws_frame k x i s

  abbrev pub received : Received Pixels × Context → VideoOp → Got × VideoOp
  received (again, x) s = (null, record s { codec_ctx = some x; frame = some none })
  received (refused, x) s = (failed, record s { codec_ctx = some x; frame = some none })
  received (image i, x) s =
      let v = record s { codec_ctx = some x; frame = some (some i) } in
      if options.sws_enable then rescale v.sws_ctx x i v else (got frame_, v)

  -- `avcodec_receive_frame` into `frame_`, which it empties first.
  abbrev pub receive : Option (Option (Image Pixels)) → Context → VideoOp → Got × VideoOp
  receive none x s = (crashed, s)
  receive (some f) x s = received (av.receive_frame x) s

  abbrev pub sent : Sent × Context → VideoOp → Got × VideoOp
  sent (again, x) s = (null, record s { codec_ctx = some x })
  sent (refused, x) s = (failed, record s { codec_ctx = some x })
  sent (accepted, x) s = receive s.frame x (record s { codec_ctx = some x })

  abbrev pub send : Option Context → Packet → VideoOp → Got × VideoOp
  send none p s = (crashed, s)
  send (some x) p s = sent (av.send_packet p x) s

  abbrev pub after_open : Packet → Bool × VideoOp → Got × VideoOp
  after_open p (false, s) = (failed, s)
  after_open p (true, s) = send s.codec_ctx p s

  unfoldable pub get_frame : Packet → VideoOp → Got × VideoOp
  get_frame p s = after_open p (open_once s.codec_ctx s)

  abbrev pub flush : VideoOp → VideoOp
  flush s = record s {
    codec_ctx = elim s.codec_ctx [ none ↦ none | some x ↦ some (av.flush_buffers x) ];
  }

  -- `Free`, which the destructor calls.
  abbrev pub free : VideoOp → VideoOp
  free s = record s {
    sws_buf = none;
    sws_frame = none;
    sws_ctx = none;
    frame = none;
    codec_ctx = none;
  }

  -- The image that a pointer of the object leads to.
  abbrev pub contents : Pointer → VideoOp → Option (Image Pixels)
  contents frame_ s = elim s.frame [ none ↦ none | some f ↦ f ]
  contents sws_frame_ s = elim s.sws_frame [ none ↦ none | some f ↦ f ]
