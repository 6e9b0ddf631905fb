-- ===== src/Decoder/Shared.antt =====
-- Decoder of ws-wasm-player/src/decoder.h with StreamVideoOp of common/media/stream_video.cc: the
-- pictures that wait for delivery share one frame.
use rtsp_wasm_player.Base.{ℕ, ◌≡◌, refl, sym, ap, ◌∙◌, true, Option, some, List, [], ◌∷◌, ◌++◌, map}
use mathlib.Core.Path.{subst, ap₂}
use rtsp_wasm_player.Packet.{Packet, Data}
use rtsp_wasm_player.Media.VideoOp.{
  Options, Image, Codecs, Pointer, Got, got, null, failed, crashed, contents,
}
use rtsp_wasm_player.Media.VideoOp as Op
use rtsp_wasm_player.Media.VideoRuns.{out, IsPicture, get_frame-IsPicture}
use rtsp_wasm_player.Decoder.Defs.{
  PixelFormat, Answer, picture, need_more, error, VideoOptions, VideoOp, Frame, Decoder,
}
use rtsp_wasm_player.Decoder.KeyFirst.{through, pictures}
use rtsp_wasm_player.Decoder.Batch.{run_batch, GivesPictures, run_batch-pictures}

module _ (av : Codecs Packet) (format : PixelFormat → ℕ) where
  open av use {Pixels}

  -- The options of `Open`; `format` is the number that FFmpeg gives to a pixel format.
  abbrev pub options_of : VideoOptions → Options
  options_of o = record {
    dec_name = [];
    dec_thread_count = o.dec_thread_count;
    dec_thread_type = o.dec_thread_type;
    sws_enable = true;
    sws_dst_width = 0;
    sws_dst_height = 0;
    sws_dst_pix_fmt = some (format o.sws_dst_pix_fmt);
    sws_flags = 0;
  }

  -- An object with the options that it was made with.
  pub record State : Type 0 where
    pub options : VideoOptions
    pub object : Op.VideoOp av (options_of options)

  -- An object never crashes, so that case is of no matter.
  abbrev pub answer_of : Got → Answer Pointer
  answer_of (got q) = picture q
  answer_of null = need_more
  answer_of failed = error
  answer_of crashed = error

  abbrev pub stream_video_op : VideoOp
  stream_video_op = record {
    State = State;
    Picture = Pointer;
    create = λ o. record { options = o; object = Op.construct av (options_of o) };
    get_frame = λ p s.
        let (g, v) = Op.get_frame av (options_of s.options) p s.object in
        (answer_of g, record { options = s.options; object = v });
  }

  abbrev pub image_of : State → Pointer → Option (Image Pixels)
  image_of s q = contents av (options_of s.options) q s.object

  picture-out :
      (p : Packet) (s s' : State) (q : Pointer)
      → stream_video_op.get_frame p s ≡ (picture q, s')
      → q ≡ out av (options_of s.options) true
  picture-out p s s' q e =
      from (Op.get_frame av (options_of s.options) p s.object)
        (get_frame-IsPicture av (options_of s.options) p s.object)
        (ap (λ (r : Answer Pointer × State). r.0) e)
    where
      from :
          (r : Got × Op.VideoOp av (options_of s.options))
          → IsPicture av (options_of s.options) true r
          → answer_of r.0 ≡ picture q
          → q ≡ out av (options_of s.options) true
      from (got r, v) h f = let a = h.0 in cc (f, a)
      from (null, v) h f = absurd (cc f)
      from (failed, v) h f = absurd (cc f)
      from (crashed, v) h f = absurd (cc f)

  -- Whatever is looked at through the frames of a batch, it is looked at through the scaled frame.
  pictures-out :
      {A : Type 0} (look : Pointer → A) (xs : List Data) (s : State)
      → GivesPictures stream_video_op xs s
      → map (λ (f : Frame stream_video_op). look f.image) (pictures stream_video_op xs s).0
        ≡ map (λ (x : Data). look Pointer.sws_frame_) xs
  unfolding pictures
  pictures-out look [] s gives = refl
  pictures-out look (x ∷ xs) s (video, q, s', e, gives) =
      subst
        (λ (a : Answer Pointer × State).
          map (λ (f : Frame stream_video_op). look f.image)
            (through stream_video_op x.kind a (pictures stream_video_op xs)).0
          ≡ look Pointer.sws_frame_ ∷ map (λ (x : Data). look Pointer.sws_frame_) xs)
        (sym e) (ap₂ ◌∷◌ (ap look (picture-out x.packet s s' q e)) (pictures-out look xs s' gives))

  -- Where each video packet of a batch gives a picture and no other waits, the results that wait after
  -- the batch, one for each packet, all show one and the same image: what the object's scaled frame
  -- holds after the last packet.
  pub results_share :
      (xs : List Data) (d : Decoder stream_video_op) (s : State)
      → d.video_op ≡ some s
      → d.results ≡ []
      → GivesPictures stream_video_op xs s
      → (t : Decoder stream_video_op) × (v : State) × (run_batch stream_video_op (map some xs) d
          ≡ some t)
        × (t.video_op ≡ some v)
        × (map (λ (f : Frame stream_video_op). image_of v f.image) t.results
            ≡ map (λ (x : Data). image_of v Pointer.sws_frame_) xs)
  results_share xs d s has no_results gives =
      let v = (pictures stream_video_op xs s).1 in
      (
        record d { video_op = some v; results = d.results ++ (pictures stream_video_op xs s).0 },
        v,
        run_batch-pictures stream_video_op xs d s has gives,
        refl,
        ap
              (λ (l : List (Frame stream_video_op)).
                map (λ (f : Frame stream_video_op). image_of v f.image)
                  (l ++ (pictures stream_video_op xs s).0))
              no_results
            ∙ pictures-out (image_of v) xs s gives,
      )
