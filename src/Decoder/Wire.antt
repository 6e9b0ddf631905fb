-- ===== src/Decoder/Wire.antt =====
-- From the proxy's `ToBytes` to the player's `Decode`, and what `Open` sets up.
use rtsp_wasm_player.Base.{
  ℕ, ◌^◌, ◌≤◌, ◌<◌, ◌≡◌, refl, sym, ap, ◌∙◌, ◌⊎◌, inl, inr, Bool, true, false, ◌&&◌, ◌||◌, Option,
  List, [], ◌∷◌, append-nil, arith, ltb, if◌then◌else◌, Bool-cases, is_some,
}
use rtsp_wasm_player.Packet.{Data}
use rtsp_wasm_player.Packet.Encode.{write}
use rtsp_wasm_player.Packet.Decode.{Av, Status, from_bytes}
use rtsp_wasm_player.Packet.Roundtrip.{CanTravel}
use rtsp_wasm_player.Packet.Ffmpeg.{IsFfmpeg, IsPlain, arrived, from_bytes_arrives}
use rtsp_wasm_player.Decoder.Defs.{
  VideoOp, MediaType, video, other, SubInfo, Decoder, open_sub, open_subs, open_decoder,
}
use rtsp_wasm_player.Decoder.Sync.{decode, decode_bytes}

module _ (op : VideoOp) where
  -- Where FFmpeg does as the code relies on, a message that `ToBytes` makes of a packet that it can
  -- carry is decoded, into an object without side data, as the packet that arrives of it: the same
  -- media type, payload and key flag.
  pub decode_bytes-write :
      (av : Av) (blank x : Data) (d : Decoder op)
      → IsFfmpeg av
      → CanTravel x
      → IsPlain x.packet
      → blank.packet.side_data ≡ []
      → decode_bytes op av blank (write x) d
        ≡ decode op (record { kind = x.kind; packet = arrived x.packet }) d
  unfolding decode_bytes
  decode_bytes-write av blank x d f ok plain empty =
      ap (λ (r : Status × Data). decode op r.1 d)
        (ap (λ (bytes : List ℕ). from_bytes av bytes blank) (sym (append-nil (write x)))
          ∙ from_bytes_arrives av x blank [] f ok plain empty)

  is_video : MediaType → Bool
  is_video video = true
  is_video other = false

  unfoldable pub has_video : List SubInfo → Bool
  unfolding is_video
  has_video [] = false
  has_video (s ∷ l) = is_video s.kind || has_video l

  open_sub-video_op :
      (count kind : ℕ) (s : SubInfo) (t : MediaType) (d : Decoder op)
      → is_some (open_sub op count kind s t d).video_op ≡ (is_video t || is_some d.video_op)
  unfolding is_video
  open_sub-video_op count kind s video d = refl
  open_sub-video_op count kind s other d = refl

  or_swap : (a b c : Bool) → (a || (b || c)) ≡ ((b || a) || c)
  or_swap a b c = ground arith

  open_subs-video_op :
      (count kind : ℕ) (l : List SubInfo) (d : Decoder op)
      → is_some (open_subs op count kind l d).video_op ≡ (has_video l || is_some d.video_op)
  unfolding open_subs has_video
  open_subs-video_op count kind [] d = refl
  open_subs-video_op count kind (s ∷ l) d =
      open_subs-video_op count kind l (open_sub op count kind s s.kind d)
      ∙ ap (λ (b : Bool). has_video l || b) (open_sub-video_op count kind s s.kind d)
      ∙ or_swap (has_video l) (is_video s.kind) (is_some d.video_op)

  open_sub-size :
      (count kind : ℕ) (s : SubInfo) (t : MediaType) (d : Decoder op)
      → (open_sub op count kind s t d).datas_maxsize ≡ d.datas_maxsize
  open_sub-size count kind s video d = refl
  open_sub-size count kind s other d = refl

  open_subs-size :
      (count kind : ℕ) (l : List SubInfo) (d : Decoder op)
      → (open_subs op count kind l d).datas_maxsize ≡ d.datas_maxsize
  unfolding open_subs
  open_subs-size count kind [] d = refl
  open_subs-size count kind (s ∷ l) d =
      open_subs-size count kind l _ ∙ open_sub-size count kind s s.kind d

  -- After `Open` there is a video decoder exactly when the stream has a video part or there was
  -- one, and the queue's limit is the one asked for when that is an int of at least 2, else the
  -- one before.
  pub open_decoder_lem :
      (subs : List SubInfo) (queue_size count kind : ℕ) (lambda : Bool) (d : Decoder op)
      → let e = open_decoder op subs queue_size count kind lambda d in
        (is_some e.video_op ≡ (has_video subs || is_some d.video_op))
        × (((2 ≤ queue_size) × (queue_size < 2 ^ 31) × (e.datas_maxsize ≡ queue_size))
            ⊎ (((queue_size < 2) ⊎ (2 ^ 31 ≤ queue_size)) × (e.datas_maxsize ≡ d.datas_maxsize)))
  unfolding open_decoder
  open_decoder_lem subs queue_size count kind lambda d = (
    open_subs-video_op count kind subs _
        ∙ ap (λ (o : Option op.State). has_video subs || is_some o) (same_op wanted),
    elim (Bool-cases wanted) [
      | inl e ↦
          inl (ground arith, ground arith, open_subs-size count kind subs _ ∙ new_size wanted e)
      | inr e ↦ inr (ground arith, open_subs-size count kind subs _ ∙ old_size wanted e)
    ],
  )
    where
      wanted : Bool
      wanted = ltb 1 queue_size && ltb queue_size (2 ^ 31)

      sized : Bool → Decoder op
      sized b = if b then record d { datas_maxsize = queue_size } else d

      same_op : (b : Bool) → (sized b).video_op ≡ d.video_op
      same_op true = refl
      same_op false = refl

      new_size : (b : Bool) → b ≡ true → (sized b).datas_maxsize ≡ queue_size
      new_size true e = refl
      new_size false e = absurd (cc e)

      old_size : (b : Bool) → b ≡ false → (sized b).datas_maxsize ≡ d.datas_maxsize
      old_size true e = absurd (cc e)
      old_size false e = refl
