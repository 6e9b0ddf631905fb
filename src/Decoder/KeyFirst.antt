-- ===== src/Decoder/KeyFirst.antt =====
-- A stream of packets through `Decoder::Decode`: the video decoder sees exactly the packets from
-- the first key frame on.
use rtsp_wasm_player.Base.{
  ℕ, ◌≡◌, refl, ap, ◌∙◌, inl, inr, Bool, true, false, Option, none, some, List, [], ◌∷◌, ◌++◌,
  arith, if◌then◌else◌, Bool-cases,
}
use rtsp_wasm_player.Packet.{Data}
use rtsp_wasm_player.Decoder.Defs.{
  Answer, picture, need_more, error, VideoOp, is_key, Frame, Decoder,
}
use rtsp_wasm_player.Decoder.Sync.{Outcome, answered, crashed, answer, decode}

module _ (op : VideoOp) where
  open op use {State, Picture, get_frame}

  -- Calls of `Decode` one after the other: the frames that the callback got, and the decoder.
  abbrev pub collect :
      Outcome op
      → (Decoder op → Option (List (Frame op) × Decoder op))
      → Option (List (Frame op) × Decoder op)
  collect crashed k = none
  collect (answered r d) k = elim (k d) [
    | none ↦ none
    | some (fs, d') ↦ some (r.callbacks ++ fs, d')
  ]

  unfoldable pub decode_all : List Data → Decoder op → Option (List (Frame op) × Decoder op)
  decode_all [] d = some ([], d)
  decode_all (x ∷ xs) d = collect (decode op x d) (decode_all xs)

  -- The specification: a list of packets through the video decoder alone.
  abbrev pub through :
      ℕ → Answer Picture × State → (State → List (Frame op) × State) → List (Frame op) × State
  through kind (picture p, s) k = let (fs, s') = k s in (record { kind = kind; image = p } ∷ fs, s')
  through kind (need_more, s) k = k s
  through kind (error, s) k = k s

  unfoldable pub pictures : List Data → State → List (Frame op) × State
  pictures [] s = ([], s)
  pictures (x ∷ xs) s = through x.kind (get_frame x.packet s) (pictures xs)

  -- The packets from the first key frame on.
  unfoldable pub from_first_key : List Data → List Data
  from_first_key [] = []
  from_first_key (x ∷ xs) = if is_key x.packet then x ∷ xs else from_first_key xs

  abbrev pub AllVideo : List Data → Type 0
  AllVideo [] = Unit {0}
  AllVideo (x ∷ xs) = (x.kind ≡ 0) × AllVideo xs

  -- The frames and the video decoder's state at the end.
  abbrev pub outcome_of :
      Option (List (Frame op) × Decoder op) → Option (List (Frame op) × Option State)
  outcome_of none = none
  outcome_of (some (fs, d)) = some (fs, d.video_op)

  abbrev pub seen : List (Frame op) × State → Option (List (Frame op) × Option State)
  seen (fs, s) = some (fs, some s)

  decode_started :
      (x : Data) (d : Decoder op) (s : State)
      → x.kind ≡ 0
      → d.from_key_frame ≡ true
      → d.video_op ≡ some s
      → decode op x d ≡ answer op x.kind (get_frame x.packet s) (record d { from_key_frame = true })
  unfolding decode
  decode_started x d s video started has = ground arith

  decode_first :
      (x : Data) (d : Decoder op) (s : State)
      → x.kind ≡ 0
      → is_key x.packet ≡ true
      → d.video_op ≡ some s
      → decode op x d ≡ answer op x.kind (get_frame x.packet s) (record d { from_key_frame = true })
  unfolding decode
  decode_first x d s video key has = ground arith

  decode_waits :
      (x : Data) (d : Decoder op)
      → is_key x.packet ≡ false
      → d.from_key_frame ≡ false
      → decode op x d ≡ answered (record { callbacks = []; result = none }) d
  unfolding decode
  decode_waits x d key waits = ground arith

  prefix :
      (f : Frame op) (r : Option (List (Frame op) × Decoder op)) (q : List (Frame op) × State)
      → outcome_of r ≡ seen q
      → outcome_of (elim r [ none ↦ none | some (fs, d') ↦ some ((f ∷ []) ++ fs, d') ])
        ≡ seen (f ∷ q.0, q.1)
  prefix f none q e = absurd (cc e)
  prefix f (some (fs, d)) q e =
      ap
        (λ (o : Option (List (Frame op) × Option State)).
          let r : Option (List (Frame op) × Option State) = elim o [
            | none ↦ none
            | some (gs, s) ↦ some (f ∷ gs, s)
          ] in
          r)
        e

  prefix_if :
      (b : Bool) (f : Frame op) (r : Option (List (Frame op) × Decoder op))
      (q : List (Frame op) × State)
      → b ≡ true
      → outcome_of r ≡ seen q
      → outcome_of
          (elim r [ none ↦ none | some (fs, d') ↦ some ((if b then f ∷ [] else []) ++ fs, d') ])
        ≡ seen (f ∷ q.0, q.1)
  prefix_if true f r q c e = prefix f r q e
  prefix_if false f r q c e = absurd (cc c)

  no_prefix :
      (r : Option (List (Frame op) × Decoder op))
      → outcome_of (elim r [ none ↦ none | some (fs, d') ↦ some ([] ++ fs, d') ]) ≡ outcome_of r
  no_prefix none = refl
  no_prefix (some (fs, d)) = refl

  -- One answer of the video decoder, and then the rest.
  step_answer :
      (kind : ℕ) (a : Answer Picture × State) (d : Decoder op)
      (k : Decoder op → Option (List (Frame op) × Decoder op)) (q : State → List (Frame op) × State)
      → d.has_callback ≡ true
      → ((s : State) → outcome_of (k (record d { video_op = some s })) ≡ seen (q s))
      → outcome_of (collect (answer op kind a d) k) ≡ seen (through kind a q)
  step_answer kind (picture p, s) d k q callback rest =
      prefix_if d.has_callback (record { kind = kind; image = p }) _ (q s) callback (rest s)
  step_answer kind (need_more, s) d k q callback rest = no_prefix _ ∙ rest s
  step_answer kind (error, s) d k q callback rest = no_prefix _ ∙ rest s

  started_all :
      (xs : List Data) (d : Decoder op) (s : State)
      → AllVideo xs
      → d.from_key_frame ≡ true
      → d.has_callback ≡ true
      → d.video_op ≡ some s
      → outcome_of (decode_all xs d) ≡ seen (pictures xs s)
  unfolding decode_all pictures
  started_all [] d s video started callback has =
      ap (λ (o : Option State). let r : Option (List (Frame op) × Option State) = some ([], o) in r)
        has
  started_all (x ∷ xs) d s video started callback has =
      rw (decode_started x d s video.0 started has) (
        step_answer x.kind (get_frame x.packet s) (record d { from_key_frame = true })
          (decode_all xs) (pictures xs) callback
          (λ s'. started_all xs _ s' video.1 refl callback refl))

  -- For video packets and a decoder that waits for its first key frame, with a callback and a video
  -- decoder: until a key frame comes nothing is decoded; from the first key frame on the callback
  -- gets exactly the frames that the video decoder makes of the packets in order, and nothing else
  -- changes the video decoder.
  pub decode_all-from_first_key :
      (xs : List Data) (d : Decoder op) (s : State)
      → AllVideo xs
      → d.from_key_frame ≡ false
      → d.has_callback ≡ true
      → d.video_op ≡ some s
      → outcome_of (decode_all xs d) ≡ seen (pictures (from_first_key xs) s)
  unfolding decode_all pictures from_first_key
  decode_all-from_first_key [] d s video waits callback has =
      ap (λ (o : Option State). let r : Option (List (Frame op) × Option State) = some ([], o) in r)
        has
  decode_all-from_first_key (x ∷ xs) d s video waits callback has =
      elim (Bool-cases (is_key x.packet)) [
        | inl key ↦
            rw (key, decode_first x d s video.0 key has)
              (step_answer x.kind (get_frame x.packet s) (record d { from_key_frame = true })
                (decode_all xs) (pictures xs) callback
                (λ s'. started_all xs _ s' video.1 refl callback refl))
        | inr other ↦
            rw (other, decode_waits x d other waits)
              (no_prefix (decode_all xs d)
                ∙ decode_all-from_first_key xs d s video.1 waits callback has)
      ]
