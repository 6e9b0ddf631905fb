-- ===== src/Decoder/Batch.antt =====
-- The `for` loop of `Decoder::ThreadRun` of ws-wasm-player/src/decoder.h over one batch of packets.
use mathlib.Core.Path.{ap₂}
use rtsp_wasm_player.Base.{
  ℕ, ◌≡◌, refl, sym, ap, ◌∙◌, Option, none, some, List, [], ◌∷◌, ◌++◌, map, append-nil,
  append_assoc, arith,
}
use rtsp_wasm_player.Packet.{Data}
use rtsp_wasm_player.Decoder.Defs.{Answer, picture, need_more, error, VideoOp, Frame, Decoder}
use rtsp_wasm_player.Decoder.Sync.{op_for}
use rtsp_wasm_player.Decoder.KeyFirst.{through, pictures}

module _ (op : VideoOp) where
  open op use {State, Picture, get_frame}

  -- One answer: a picture joins the results and the loop goes on, otherwise it breaks.
  abbrev pub work :
      ℕ
      → Answer Picture × State
      → Decoder op
      → (Decoder op → Option (Decoder op))
      → Option (Decoder op)
  work kind (picture p, s) d k = k (record d {
    video_op = some s;
    results = d.results ++ (record { kind = kind; image = p } ∷ []);
  })
  work kind (need_more, s) d k = some (record d { video_op = some s })
  work kind (error, s) d k = some (record d { video_op = some s })

  abbrev pub work_with :
      Option State → Data → Decoder op → (Decoder op → Option (Decoder op)) → Option (Decoder op)
  work_with none x d k = none
  work_with (some s) x d k = work x.kind (get_frame x.packet s) d k

  -- `none` is the use of a null pointer.
  unfoldable pub run_batch : List (Option Data) → Decoder op → Option (Decoder op)
  run_batch [] d = some d
  run_batch (none ∷ xs) d = none
  run_batch (some x ∷ xs) d = work_with (op_for op x.kind d) x d (run_batch xs)

  -- Each packet gives a picture, and is a video packet.
  abbrev pub GivesPictures : List Data → State → Type 0
  GivesPictures [] s = Unit {0}
  GivesPictures (x ∷ xs) s =
      (x.kind ≡ 0)
      × (p : Picture) × (s' : State) × (get_frame x.packet s ≡ (picture p, s'))
      × GivesPictures xs s'

  work_first :
      (x : Data) (xs : List (Option Data)) (d : Decoder op) (s : State)
      → x.kind ≡ 0
      → d.video_op ≡ some s
      → run_batch (some x ∷ xs) d ≡ work x.kind (get_frame x.packet s) d (run_batch xs)
  unfolding run_batch
  work_first x xs d s video has = ground arith

  -- While each video packet of a batch gives a picture, the batch makes the frames that decoding in
  -- the call makes, behind those that wait already.
  pub run_batch-pictures :
      (xs : List Data) (d : Decoder op) (s : State)
      → d.video_op ≡ some s
      → GivesPictures xs s
      → run_batch (map some xs) d
        ≡ some (record d {
          video_op = some (pictures op xs s).1;
          results = d.results ++ (pictures op xs s).0;
        })
  unfolding run_batch pictures
  run_batch-pictures [] d s has gives =
      ap₂
        (λ (o : Option State) (l : List (Frame op)).
          let r : Option (Decoder op) = some (record d { video_op = o; results = l }) in r)
        has (sym (append-nil d.results))
  run_batch-pictures (x ∷ xs) d s has (video, p, s', e, gives) =
      work_first x (map some xs) d s video has
      ∙ ap (λ (a : Answer Picture × State). work x.kind a d (run_batch (map some xs))) e
      ∙ run_batch-pictures xs _ s' refl gives
      ∙ ap₂
          (λ (o : State) (l : List (Frame op)).
            let r : Option (Decoder op) = some (record d { video_op = some o; results = l }) in r)
          (ap (λ (a : Answer Picture × State). (through op x.kind a (pictures op xs)).1) (sym e))
          (append_assoc d.results (record { kind = x.kind; image = p } ∷ []) (pictures op xs s').0
            ∙ ap
                (λ (a : Answer Picture × State).
                  d.results ++ (through op x.kind a (pictures op xs)).0)
                (sym e))
