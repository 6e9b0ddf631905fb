-- ===== src/Decoder/Stream.antt =====
-- A stream of packets from `Data::ToBytes` of common/net/packet.h in the proxy to the frames that
-- `Decoder::Decode` of ws-wasm-player/src/decoder.h hands to the player's callback.
use rtsp_wasm_player.Base.{
  ℕ, ◌≡◌, refl, ap, ◌∙◌, inl, inr, true, false, Option, some, List, [], ◌∷◌, map, Bool-cases,
}
use rtsp_wasm_player.Packet.{Data}
use rtsp_wasm_player.Packet.Encode.{write}
use rtsp_wasm_player.Packet.Decode.{Av}
use rtsp_wasm_player.Packet.Roundtrip.{CanTravel}
use rtsp_wasm_player.Packet.Ffmpeg.{IsFfmpeg, IsPlain, arrived}
use rtsp_wasm_player.Decoder.Defs.{VideoOp, Frame, Decoder, is_key}
use rtsp_wasm_player.Decoder.Sync.{Outcome, answered, crashed, decode, decode_bytes}
use rtsp_wasm_player.Decoder.KeyFirst.{
  collect, decode_all, pictures, from_first_key, AllVideo, outcome_of, seen,
  decode_all-from_first_key,
}
use rtsp_wasm_player.Decoder.Wire.{decode_bytes-write}

abbrev pub arrives : Data → Data
arrives x = record { kind = x.kind; packet = arrived x.packet }

-- Video packets that `ToBytes` can carry.
abbrev pub AreSent : List Data → Type 0
AreSent [] = Unit {0}
AreSent (x ∷ xs) = (CanTravel x × IsPlain x.packet × (x.kind ≡ 0)) × AreSent xs

is_key-arrives : (x : Data) → is_key (arrives x).packet ≡ is_key x.packet
unfolding is_key
is_key-arrives x = refl

module _ (op : VideoOp) where
  open op use {State}

  -- `Decode` on one message after the other, each with a new `net::Data`.
  unfoldable pub decode_messages :
      Av → Data → List (List ℕ) → Decoder op → Option (List (Frame op) × Decoder op)
  decode_messages av blank [] d = some ([], d)
  decode_messages av blank (m ∷ ms) d =
      collect op (decode_bytes op av blank m d) (decode_messages av blank ms)

  AreSent-AllVideo : (xs : List Data) → AreSent xs → AllVideo op (map arrives xs)
  AreSent-AllVideo [] a = tt
  AreSent-AllVideo (x ∷ xs) ((t, p, k), a) = (k, AreSent-AllVideo xs a)

  collect-eq :
      (o : Outcome op) (k k' : Decoder op → Option (List (Frame op) × Decoder op))
      → ((d : Decoder op) → k d ≡ k' d)
      → collect op o k ≡ collect op o k'
  collect-eq crashed k k' h = refl
  collect-eq (answered r d) k k' h = rw (h d, collect)

  messages-eq :
      (av : Av) (blank : Data) (xs : List Data) (d : Decoder op)
      → IsFfmpeg av
      → AreSent xs
      → blank.packet.side_data ≡ []
      → decode_messages av blank (map write xs) d ≡ decode_all op (map arrives xs) d
  unfolding decode_messages decode_all
  messages-eq av blank [] d f a e = refl
  messages-eq av blank (x ∷ xs) d f ((t, p, k), a) e =
      rw (decode_bytes-write op av blank x d f t p e)
        (collect-eq (decode op (arrives x) d) _ _ (λ d. messages-eq av blank xs d f a e))

  from_first_key-arrives :
      (xs : List Data) → from_first_key op (map arrives xs) ≡ map arrives (from_first_key op xs)
  unfolding from_first_key
  from_first_key-arrives [] = refl
  from_first_key-arrives (x ∷ xs) = elim (Bool-cases (is_key x.packet)) [
    | inl e ↦ rw (is_key-arrives x, e)
    | inr e ↦ rw (is_key-arrives x, e) (from_first_key-arrives xs)
  ]

  -- Video packets that `ToBytes` can carry go through it, one message each, and into `Decode` of a
  -- decoder that waits for its first key frame, with a callback and a video decoder, where FFmpeg
  -- does as the code relies on: the callback gets exactly the frames that the video decoder makes,
  -- in order, of the packets from the first key frame on, as they arrive.
  pub decode_messages-write :
      (av : Av) (blank : Data) (xs : List Data) (d : Decoder op) (s : State)
      → IsFfmpeg av
      → AreSent xs
      → blank.packet.side_data ≡ []
      → d.from_key_frame ≡ false
      → d.has_callback ≡ true
      → d.video_op ≡ some s
      → outcome_of op (decode_messages av blank (map write xs) d)
        ≡ seen op (pictures op (map arrives (from_first_key op xs)) s)
  decode_messages-write av blank xs d s f a e waits callback has =
      ap (outcome_of op) (messages-eq av blank xs d f a e)
      ∙ decode_all-from_first_key op (map arrives xs) d s (AreSent-AllVideo xs a) waits callback has
      ∙ ap (λ (l : List Data). seen op (pictures op l s)) (from_first_key-arrives xs)
