-- ===== src/Media/VideoSafe.antt =====
-- StreamVideoOp of common/media/stream_video.cc never uses a null pointer, what its pictures hold,
-- and what a failed opening leaves.
use rtsp_wasm_player.Base.{
  ◌≡◌, refl, sym, ◌∙◌, ◌≢◌, ◌⊎◌, inl, inr, Bool, true, false, Option, none, some, if◌then◌else◌,
}
use mathlib.Core.Path.{subst}
use rtsp_wasm_player.Media.VideoOp.{
  Options, Image, accepted, image, Codecs, Got, crashed, VideoOp, found, with_threads, opened,
  initialised, allocated, open_by, open_once, target, flags, new_frame, scaled, scale_into,
  with_scaler, rescale, received, receive, sent, send, after_open, get_frame,
}
use rtsp_wasm_player.Media.VideoOp.{Sent, Received}

module _ {Packet : Type 0} (av : Codecs Packet) (options : Options) where
  open av use {Codec, Context, Scaler, Pixels}

  pub not-none : {A : Type 0} {x : A} → some x ≢ none
  not-none e = cc e

  again_refused : Sent.again ≢ Sent.refused
  again_refused e = cc e

  accepted_refused : accepted ≢ Sent.refused
  accepted_refused e = cc e

  abbrev pub Op : Type 0
  Op = VideoOp av options

  abbrev pub Frames : Type 0
  Frames = Option (Option (Image Pixels))

  -- Without a frame the context is not open.
  abbrev pub IsFramed : Option Context → Frames → Type 0
  IsFramed none f = Unit {0}
  IsFramed (some x) none = av.is_open x ≡ false
  IsFramed (some x) (some f) = Unit {0}

  -- A scaler has its frame.
  abbrev pub IsScaled : Option Scaler → Frames → Type 0
  IsScaled none f = Unit {0}
  IsScaled (some k) none = ⊥
  IsScaled (some k) (some f) = Unit {0}

  pub record IsSound (s : Op) : Type 0 where
    pub framed : IsFramed s.codec_ctx s.frame
    pub scaler : IsScaled s.sws_ctx s.sws_frame

  -- Nothing is used that is not there, and the object is sound afterwards.
  abbrev pub IsSafe : Got × Op → Type 0
  IsSafe (g, s) = (g ≢ crashed) × IsSound s

  holding-IsFramed :
      {f : Frames} {g : Option (Image Pixels)} (x : Context) → f ≡ some g → IsFramed (some x) f
  holding-IsFramed {f} x e = rw e tt

  always-IsScaled : (k : Option Scaler) (f : Option (Image Pixels)) → IsScaled k (some f)
  always-IsScaled none f = tt
  always-IsScaled (some k) f = tt

  scaled-IsSafe :
      (k : Scaler) (x : Context) (i : Image Pixels) (s : Op)
      → IsFramed s.codec_ctx s.frame
      → IsSafe (scaled av options k x i s)
  scaled-IsSafe k x i s h =
      (λ e. absurd (cc e), record { framed = h; scaler = always-IsScaled s.sws_ctx _ })

  rescale-IsSafe :
      (k : Option Scaler) (x : Context) (i : Image Pixels) (s : Op)
      → IsScaled k s.sws_frame
      → IsFramed s.codec_ctx s.frame
      → IsSafe (rescale av options k x i s)
  rescale-IsSafe none x i s a h =
      made (av.get_scaler (av.size x) (target av options (av.size x)) (flags av options))
    where
      made : (k : Option Scaler) → IsSafe (with_scaler av options k x i (new_frame av options x s))
      made none =
          (λ e. absurd (cc e), record { framed = h; scaler = always-IsScaled s.sws_ctx none })
      made (some k) = scaled-IsSafe k x i (record (new_frame av options x s) { sws_ctx = some k }) h
  rescale-IsSafe (some k) x i s a h = into s.sws_frame a
    where
      into : (f : Frames) → IsScaled (some k) f → IsSafe (scale_into av options f k x i s)
      into none a = absurd a
      into (some f) a = scaled-IsSafe k x i s h

  either-IsSafe : (b : Bool) (r q : Got × Op) → IsSafe r → IsSafe q → IsSafe (if b then r else q)
  either-IsSafe true r q a b = a
  either-IsSafe false r q a b = b

  received-IsSafe :
      (r : Received Pixels × Context) (s : Op) (f : Option (Image Pixels))
      → s.frame ≡ some f
      → IsSound s
      → IsSafe (received av options r s)
  received-IsSafe (image i, x) s f e h =
      either-IsSafe options.sws_enable _ _ (rescale-IsSafe s.sws_ctx x i _ h.scaler tt)
        (λ e. absurd (cc e), record { framed = tt; scaler = h.scaler })
  received-IsSafe (Received.again, x) s f e h =
      (λ e. absurd (cc e), record { framed = tt; scaler = h.scaler })
  received-IsSafe (Received.refused, x) s f e h =
      (λ e. absurd (cc e), record { framed = tt; scaler = h.scaler })

  receive-IsSafe :
      (o : Frames) (x : Context) (s : Op) (f : Option (Image Pixels))
      → o ≡ some f
      → s.frame ≡ some f
      → IsSound s
      → IsSafe (receive av options o x s)
  receive-IsSafe none x s f e h sound = absurd (not-none (sym e))
  receive-IsSafe (some g) x s f e h sound = received-IsSafe (av.receive_frame x) s f h sound

  closed-IsFramed : (x : Context) (f : Frames) → av.is_open x ≡ false → IsFramed (some x) f
  closed-IsFramed x none e = e
  closed-IsFramed x (some f) e = tt

  -- After a packet was handed in, where a context without a frame refuses it.
  sent-IsSafe :
      (f : Frames) (r : Sent × Context) (s : Op)
      → s.frame ≡ f
      → (f ≡ none → (r.0 ≡ Sent.refused) × (av.is_open r.1 ≡ false))
      → IsScaled s.sws_ctx s.sws_frame
      → IsSafe (sent av options r s)
  sent-IsSafe none (Sent.refused, x) s e closed h = (
    λ e. absurd (cc e),
    record { framed = closed-IsFramed x s.frame (closed refl).1; scaler = h },
  )
  sent-IsSafe none (Sent.again, x) s e closed h = absurd (again_refused (closed refl).0)
  sent-IsSafe none (accepted, x) s e closed h = absurd (accepted_refused (closed refl).0)
  sent-IsSafe (some f) (Sent.refused, x) s e closed h =
      (λ e. absurd (cc e), record { framed = holding-IsFramed x e; scaler = h })
  sent-IsSafe (some f) (Sent.again, x) s e closed h =
      (λ e. absurd (cc e), record { framed = holding-IsFramed x e; scaler = h })
  sent-IsSafe (some f) (accepted, x) s e closed h =
      receive-IsSafe s.frame x (record s { codec_ctx = some x }) f e e
        (record { framed = holding-IsFramed x e; scaler = h })

  send-IsSafe :
      (o : Option Context) (p : Packet) (s : Op)
      → s.codec_ctx ≡ o
      → o ≢ none
      → IsSound s
      → IsSafe (send av options o p s)
  send-IsSafe none p s e there h = absurd (there refl)
  send-IsSafe (some x) p s e there h =
      sent-IsSafe s.frame (av.send_packet p x) s refl
        (λ n.
          av.takes_none p x
            (subst (λ f. IsFramed (some x) f) n (subst (λ o. IsFramed o s.frame) e h.framed)))
        h.scaler

  -- The opening block: false is its error.
  abbrev Opens : Bool × Op → Type 0
  Opens (b, s) = IsSound s × ((b ≡ false) ⊎ (s.codec_ctx ≢ none))

  failing-Opens :
      (x : Context) (s : Op)
      → IsScaled s.sws_ctx s.sws_frame
      → av.is_open x ≡ false
      → Opens (false, record s { codec_ctx = some x })
  failing-Opens x s h closed =
      (record { framed = closed-IsFramed x s.frame closed; scaler = h }, inl refl)

  opened-Opens :
      (r : Bool × Context) (s : Op)
      → IsScaled s.sws_ctx s.sws_frame
      → (r.0 ≡ false → av.is_open r.1 ≡ false)
      → Opens (opened av options r s)
  opened-Opens (true, x) s h closed = (record { framed = tt; scaler = h }, inr not-none)
  opened-Opens (false, x) s h closed = failing-Opens x s h (closed refl)

  open_by-Opens : (o : Option Codec) (s : Op) → IsSound s → Opens (open_by av options o s)
  open_by-Opens none s h = (h, inl refl)
  open_by-Opens (some c) s h = by (av.alloc_context c) refl
    where
      by : (a : Option Context) → av.alloc_context c ≡ a → Opens (allocated av options c a s)
      by none e = (h, inl refl)
      by (some x) e = begun (av.parameters_to_context x)
        where
          begun : (o : Option Context) → Opens (initialised av options c x o s)
          begun none = failing-Opens x s h.scaler (av.closed_at_first c x e)
          begun (some y) =
              opened-Opens (av.open2 c (with_threads av options y)) s h.scaler
                (av.closed_on_failure c (with_threads av options y))

  open_once-Opens :
      (o : Option Context) (s : Op) → s.codec_ctx ≡ o → IsSound s → Opens (open_once av options o s)
  open_once-Opens none s e h = open_by-Opens (found av options) s h
  open_once-Opens (some x) s e h = (h, inr (λ n. not-none (sym e ∙ n)))

  pub get_frame-IsSafe : (p : Packet) (s : Op) → IsSound s → IsSafe (get_frame av options p s)
  unfolding get_frame
  get_frame-IsSafe p s h =
      after (open_once av options s.codec_ctx s) (open_once-Opens s.codec_ctx s refl h)
    where
      after : (r : Bool × Op) → Opens r → IsSafe (after_open av options p r)
      after (false, t) (a, b) = (λ e. absurd (cc e), a)
      after (true, t) (a, inl e) = absurd (cc e)
      after (true, t) (a, inr b) = send-IsSafe t.codec_ctx p t refl b a
