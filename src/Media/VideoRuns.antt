-- ===== src/Media/VideoRuns.antt =====
-- Histories of a StreamVideoOp of common/media/stream_video.cc, and what its pictures hold.
use rtsp_wasm_player.Base.{
  ◌≡◌, refl, sym, ◌≢◌, Bool, true, false, Option, none, some, List, [], ◌∷◌, if◌then◌else◌,
}
use mathlib.Core.Path.{subst, ap₂}
use rtsp_wasm_player.Media.VideoOp.{
  Options, Image, accepted, image, Codecs, Pointer, frame_, sws_frame_, Got, got, null, failed,
  crashed, VideoOp, target, flags, new_frame, scaled, scale_into, with_scaler, rescale, received,
  receive, sent, send, open_once, after_open, get_frame, flush, free, contents,
}
use rtsp_wasm_player.Media.VideoOp.{Sent, Received}
use rtsp_wasm_player.Media.VideoSafe.{Frames, not-none}

module _ {Packet : Type 0} (av : Codecs Packet) (options : Options) where
  open av use {Codec, Context, Scaler, Pixels}

  pub data Call : Type 0 where
    call_get_frame : Packet → Call
    call_flush call_free : Call

  -- What the calls of `GetFrame` return, and the object.
  unfoldable pub run : List Call → VideoOp av options → List Got × VideoOp av options
  run [] s = ([], s)
  run (call_get_frame p ∷ cs) s =
      let (g, s₁) = get_frame av options p s in let (gs, s₂) = run cs s₁ in (g ∷ gs, s₂)
  run (call_flush ∷ cs) s = run cs (flush av options s)
  run (call_free ∷ cs) s = run cs (free av options s)

  abbrev pub NoCrash : List Got → Type 0
  NoCrash [] = Unit {0}
  NoCrash (g ∷ gs) = (g ≢ crashed) × NoCrash gs

  abbrev pub all_failed : List Packet → List Got
  all_failed [] = []
  all_failed (p ∷ ps) = failed ∷ all_failed ps

  abbrev pub packets : List Packet → List Call
  packets [] = []
  packets (p ∷ ps) = call_get_frame p ∷ packets ps

  -- A call that failed on a context that is not open.
  abbrev IsFailed : Got × VideoOp av options → Type 0
  IsFailed (g, s) = (g ≡ failed) × (x : Context) × (s.codec_ctx ≡ some x) × (av.is_open x ≡ false)

  refused-IsFailed :
      (r : Sent × Context) (s : VideoOp av options)
      → r.0 ≡ Sent.refused
      → av.is_open r.1 ≡ false
      → IsFailed (sent av options r s)
  refused-IsFailed (Sent.refused, x) s e closed = (refl, x, refl, closed)
  refused-IsFailed (Sent.again, x) s e closed = absurd (cc e)
  refused-IsFailed (accepted, x) s e closed = absurd (cc e)

  closed-IsFailed :
      (p : Packet) (s : VideoOp av options) (x : Context)
      → s.codec_ctx ≡ some x
      → av.is_open x ≡ false
      → IsFailed (get_frame av options p s)
  unfolding get_frame
  closed-IsFailed p s x e closed = entered s.codec_ctx e
    where
      sends : (o : Option Context) → o ≡ some x → IsFailed (send av options o p s)
      sends none f = absurd (not-none av options (sym f))
      sends (some y) f =
          subst (λ o. IsFailed (send av options o p s)) (sym f)
            (refused-IsFailed (av.send_packet p x) s (av.takes_none p x closed).0
              (av.takes_none p x closed).1)

      entered :
          (o : Option Context)
          → o ≡ some x
          → IsFailed (after_open av options p (open_once av options o s))
      entered none f = absurd (not-none av options (sym f))
      entered (some y) f = sends s.codec_ctx e

  -- An object whose context could not be opened fails on every packet from then on.
  pub never_opens :
      (ps : List Packet) (s : VideoOp av options) (x : Context)
      → s.codec_ctx ≡ some x
      → av.is_open x ≡ false
      → (run (packets ps) s).0 ≡ all_failed ps
  unfolding run
  never_opens [] s x e closed = refl
  never_opens (p ∷ ps) s x e closed =
      let (f, y, g, c) = closed-IsFailed p s x e closed in
      ap₂ ◌∷◌ f (never_opens ps (get_frame av options p s).1 y g c)

  -- The pointer that every picture has.
  abbrev pub out : Bool → Pointer
  out true = sws_frame_
  out false = frame_

  -- What the pointer leads to: the decoded image, or what the scaler makes of it with its time stamp.
  abbrev pub IsImage : Bool → Image Pixels → VideoOp av options → Type 0
  IsImage false i s = contents av options frame_ s ≡ some i
  IsImage true i s =
      (k : Scaler) × (x : Context) × (s.sws_ctx ≡ some k)
      × (s.codec_ctx ≡ some x)
      × (contents av options sws_frame_ s
          ≡ some (record { pts = i.pts; pixels = av.scale k (av.size x).height i.pixels }))

  -- A picture that was returned, of an image that the codec gave into the frame.
  abbrev pub IsPicture : Bool → Got × VideoOp av options → Type 0
  IsPicture b (got q, s) =
      (q ≡ out b) × (i : Image Pixels) × (s.frame ≡ some (some i)) × IsImage b i s
  IsPicture b (null, s) = Unit {0}
  IsPicture b (failed, s) = Unit {0}
  IsPicture b (crashed, s) = Unit {0}

  scaled-IsPicture :
      (k : Scaler) (x : Context) (i : Image Pixels) (s : VideoOp av options)
      → s.frame ≡ some (some i)
      → s.sws_ctx ≡ some k
      → s.codec_ctx ≡ some x
      → IsPicture true (scaled av options k x i s)
  scaled-IsPicture k x i s e f g = (refl, i, e, (k, x, f, g, refl))

  rescale-IsPicture :
      (o : Option Scaler) (x : Context) (i : Image Pixels) (s : VideoOp av options)
      → s.sws_ctx ≡ o
      → s.frame ≡ some (some i)
      → s.codec_ctx ≡ some x
      → IsPicture true (rescale av options o x i s)
  rescale-IsPicture none x i s f e g =
      made (av.get_scaler (av.size x) (target av options (av.size x)) (flags av options))
    where
      made :
          (o : Option Scaler)
          → IsPicture true (with_scaler av options o x i (new_frame av options x s))
      made none = tt
      made (some k) =
          scaled-IsPicture k x i (record (new_frame av options x s) { sws_ctx = some k }) e refl g
  rescale-IsPicture (some k) x i s f e g = into s.sws_frame
    where
      into : (o : Frames av options) → IsPicture true (scale_into av options o k x i s)
      into none = tt
      into (some h) = scaled-IsPicture k x i s e f g

  received-IsPicture :
      (r : Received Pixels × Context) (s : VideoOp av options)
      → IsPicture options.sws_enable (received av options r s)
  received-IsPicture (Received.again, x) s = tt
  received-IsPicture (Received.refused, x) s = tt
  received-IsPicture (image i, x) s = by options.sws_enable
    where
      v : VideoOp av options
      v = record s { codec_ctx = some x; frame = some (some i) }

      by :
          (b : Bool)
          → IsPicture b (if b then rescale av options s.sws_ctx x i v else (got frame_, v))
      by true = rescale-IsPicture s.sws_ctx x i v refl refl refl
      by false = (refl, i, refl, refl)

  -- A picture that `GetFrame` returns is always the same pointer, and it leads to the image that the
  -- codec gave into the frame, or to what the scaler makes of that image.
  pub get_frame-IsPicture :
      (p : Packet) (s : VideoOp av options)
      → IsPicture options.sws_enable (get_frame av options p s)
  unfolding get_frame
  get_frame-IsPicture p s = entered (open_once av options s.codec_ctx s)
    where
      into :
          (o : Frames av options) (x : Context) (t : VideoOp av options)
          → IsPicture options.sws_enable (receive av options o x t)
      into none x t = tt
      into (some f) x t = received-IsPicture (av.receive_frame x) t

      handed :
          (r : Sent × Context) (t : VideoOp av options)
          → IsPicture options.sws_enable (sent av options r t)
      handed (Sent.again, x) t = tt
      handed (Sent.refused, x) t = tt
      handed (accepted, x) t = into t.frame x (record t { codec_ctx = some x })

      sends :
          (o : Option Context) (t : VideoOp av options)
          → IsPicture options.sws_enable (send av options o p t)
      sends none t = tt
      sends (some x) t = handed (av.send_packet p x) t

      entered :
          (r : Bool × VideoOp av options) → IsPicture options.sws_enable (after_open av options p r)
      entered (false, t) = tt
      entered (true, t) = sends t.codec_ctx t
