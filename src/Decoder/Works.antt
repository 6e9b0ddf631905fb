-- ===== src/Decoder/Works.antt =====
-- The thread's moves on a batch and the `for` loop of `Decoder::ThreadRun` of
-- ws-wasm-player/src/decoder.h come to the same.
use mathlib.Core.Option.{some-injective, none-ne-some}
use rtsp_wasm_player.Base.{
  ℕ, zero, suc, ◌≡◌, refl, ap, ◌∙◌, Bool, true, false, Option, none, some, List, [], ◌∷◌,
  if◌then◌else◌, length,
}
use rtsp_wasm_player.Packet.{Data}
use rtsp_wasm_player.Decoder.Defs.{Answer, picture, need_more, error, VideoOp, Decoder}
use rtsp_wasm_player.Decoder.Sync.{op_for}
use rtsp_wasm_player.Decoder.Thread.{System, Move, work_one, worked, with_op, step, and_then, run}
use rtsp_wasm_player.Decoder.Batch.{work, work_with, run_batch}

if_same : {A : Type 0} (b : Bool) (x : A) → (if b then x else x) ≡ x
if_same true x = refl
if_same false x = refl

if_false : {A : Type 0} (b : Bool) (x y : A) → b ≡ false → (if b then x else y) ≡ y
if_false true x y e = absurd (cc e)
if_false false x y e = refl

module _ (op : VideoOp) where
  open op use {State, Picture, get_frame}

  -- As many moves on single packets.
  abbrev pub works : ℕ → List (Move op)
  works zero = []
  works (suc n) = work_one ∷ works n

  -- The moves lead to a system with the decoder `d` and no batch.
  abbrev pub LeadsTo : Decoder op → Option (System op) → Type 0
  LeadsTo d o = (s : System op) × (o ≡ some s) × (s.decoder ≡ d) × (s.batch ≡ [])

  idle :
      (n : ℕ) (s : System op)
      → run op (works n) (record s { batch = [] }) ≡ some (record s { batch = [] })
  unfolding run step
  idle zero s = refl
  idle (suc n) s =
      ap (λ (o : Option (System op)). and_then op o (run op (works n)))
        (if_same s.decoder.stopped (some (record s { batch = [] })))
      ∙ idle n s

  -- What is shown of the packets behind an answer.
  abbrev Rest : List (Option Data) → Type 0
  Rest b =
      (s : System op) (d : Decoder op)
      → s.decoder.stopped ≡ false
      → run_batch op b s.decoder ≡ some d
      → LeadsTo d (run op (works (length b)) (record s { batch = b }))

  after_answer :
      (kind : ℕ) (a : Answer Picture × State) (b : List (Option Data)) (s : System op)
      (d : Decoder op)
      → Rest b
      → s.decoder.stopped ≡ false
      → work op kind a s.decoder (run_batch op b) ≡ some d
      → LeadsTo d (run op (works (length b)) (worked op kind a b s))
  after_answer kind (picture p, v) b s d rest f e = rest (worked op kind (picture p, v) b s) d f e
  after_answer kind (need_more, v) b s d rest f e =
      (_, idle (length b) (worked op kind (need_more, v) b s), some-injective _ _ e, refl)
  after_answer kind (error, v) b s d rest f e =
      (_, idle (length b) (worked op kind (error, v) b s), some-injective _ _ e, refl)

  after_op :
      (o : Option State) (x : Data) (b : List (Option Data)) (s : System op) (d : Decoder op)
      → Rest b
      → s.decoder.stopped ≡ false
      → work_with op o x s.decoder (run_batch op b) ≡ some d
      → LeadsTo d (and_then op (with_op op o x b s) (run op (works (length b))))
  after_op none x b s d rest f e = absurd (none-ne-some _ e)
  after_op (some v) x b s d rest f e = after_answer x.kind (get_frame x.packet v) b s d rest f e

  -- While the thread is not stopped, its moves on the packets of a batch come to what the loop over
  -- the batch comes to, where that uses no null pointer.
  pub works-run_batch :
      (b : List (Option Data)) (s : System op) (d : Decoder op)
      → s.decoder.stopped ≡ false
      → run_batch op b s.decoder ≡ some d
      → LeadsTo d (run op (works (length b)) (record s { batch = b }))
  unfolding run run_batch step
  works-run_batch [] s d f e = (_, refl, some-injective _ _ e, refl)
  works-run_batch (none ∷ b) s d f e = absurd (none-ne-some _ e)
  works-run_batch (some x ∷ b) s d f e =
      let (t, p, q, r) =
        after_op (op_for op x.kind s.decoder) x b (record s { batch = some x ∷ b }) d
          (works-run_batch b) f e in
      (
        t,
        ap (λ (o : Option (System op)). and_then op o (run op (works (length b))))
              (if_false s.decoder.stopped _ _ f)
            ∙ p,
        q,
        r,
      )
