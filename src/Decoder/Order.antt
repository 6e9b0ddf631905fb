-- ===== src/Decoder/Order.antt =====
-- Any interleaving of `DecodeAsync` and the decoding thread: nothing crashes, no key frame is lost
-- on the way to the thread, and the frames reach the callback in the order in which they were made.
use mathlib.Core.Path.{ap₂, subst}
use rtsp_wasm_player.Base.{
  ℕ, ◌≡◌, refl, sym, ap, ◌∙◌, Bool, true, false, not, ◌&&◌, Option, none, some, List, [], ◌∷◌, ◌++◌,
  append-nil, append_assoc, arith, if◌then◌else◌, is_some,
}
use rtsp_wasm_player.Packet.{Data}
use rtsp_wasm_player.Decoder.Defs.{VideoOp, Frame, Decoder, is_key}
use rtsp_wasm_player.Decoder.Queue.{
  push, keys, waiting, after_push, push-eq, push-InBound, keys-after_push, keys-append,
}
use rtsp_wasm_player.Decoder.Thread.{
  thread_start, flush, queued, enqueue, System, Move, feed, deliver, take_batch, work_one, fed,
  step, and_then, run,
}
use rtsp_wasm_player.Decoder.Sound.{AllVideo-after_push, IsSound, Keeps, take-IsSound, work-IsSound}

module _ (op : VideoOp) where
  open op use {State, Picture, get_frame}

  -- Two decoders that differ in the flag that stops the thread at most.
  record Alike (d e : Decoder op) : Type 0 where
    datas : e.datas ≡ d.datas
    results : e.results ≡ d.results
    key : e.from_key_frame ≡ d.from_key_frame
    video_op : e.video_op ≡ d.video_op
    has_callback : e.has_callback ≡ d.has_callback
    datas_maxsize : e.datas_maxsize ≡ d.datas_maxsize

  thread_start-Alike : (d : Decoder op) → Alike d (thread_start op d)
  unfolding thread_start
  thread_start-Alike d = ground arith

  -- A packet that is dropped before the first key frame.
  waits-IsSound :
      (n : ℕ) (x : Data) (s : System op) (d : Decoder op)
      → Alike s.decoder d
      → IsSound op n s
      → IsSound op n (record s { decoder = d })
  waits-IsSound n x s d a v = record {
    queue = v.queue;
    batch = v.batch;
    taken = v.taken;
    queue_eq = a.datas ∙ v.queue_eq;
    batch_eq = v.batch_eq;
    taken_eq = v.taken_eq;
    queue_video = v.queue_video;
    batch_video = v.batch_video;
    size = a.datas_maxsize ∙ v.size;
    callback = a.has_callback ∙ v.callback;
    decodes = ap is_some a.video_op ∙ v.decodes;
    bound = v.bound;
    keys_kept = v.keys_kept;
    in_order = ap (λ (l : List (Frame op)). s.delivered ++ l) a.results ∙ v.in_order;
  }

  -- A packet that joins the queue.
  joins-IsSound :
      (n : ℕ) (x : Data) (s : System op) (d : Decoder op)
      → Alike s.decoder d
      → x.kind ≡ 0
      → IsSound op n s
      → Keeps op n (
          fed op x s
            (queued op (push d.datas_maxsize x d.datas) (record d { from_key_frame = true })))
  joins-IsSound n x s d a video v =
      subst
        (λ (o : Option (List (Option Data))).
          Keeps op n (fed op x s (queued op o (record d { from_key_frame = true }))))
        (sym pushes)
        (record {
          queue = after_push n x v.queue;
          batch = v.batch;
          taken = v.taken;
          queue_eq = refl;
          batch_eq = v.batch_eq;
          taken_eq = v.taken_eq;
          queue_video = AllVideo-after_push n x v.queue video v.queue_video;
          batch_video = v.batch_video;
          size = a.datas_maxsize ∙ v.size;
          callback = a.has_callback ∙ v.callback;
          decodes = ap is_some a.video_op ∙ v.decodes;
          bound = push-InBound n x v.queue v.bound;
          keys_kept =
              rw (keys-after_push, keys-append)
                (sym (append_assoc (keys v.taken) (keys v.queue) (keys (x ∷ [])))
                  ∙ ap (λ (l : List Data). l ++ keys (x ∷ [])) v.keys_kept);
          in_order = ap (λ (l : List (Frame op)). s.delivered ++ l) a.results ∙ v.in_order;
        })
    where
      pushes : push d.datas_maxsize x d.datas ≡ some (waiting (after_push n x v.queue))
      pushes =
          ap₂ (λ (m : ℕ) (l : List (Option Data)). push m x l) (a.datas_maxsize ∙ v.size)
            (a.datas ∙ v.queue_eq)
          ∙ push-eq n x v.queue

  deliver-IsSound : (n : ℕ) (s : System op) → IsSound op n s → Keeps op n (step op deliver s)
  unfolding step flush
  deliver-IsSound n s v = record {
    queue = v.queue;
    batch = v.batch;
    taken = v.taken;
    queue_eq = v.queue_eq;
    batch_eq = v.batch_eq;
    taken_eq = v.taken_eq;
    queue_video = v.queue_video;
    batch_video = v.batch_video;
    size = v.size;
    callback = v.callback;
    decodes = v.decodes;
    bound = v.bound;
    keys_kept = v.keys_kept;
    in_order =
        append-nil _
        ∙ ap (λ (l : List (Frame op)). s.delivered ++ l) (if_true s.decoder.has_callback v.callback)
        ∙ v.in_order;
  }
    where
      if_true : (b : Bool) {l : List (Frame op)} → b ≡ true → (if b then l else []) ≡ l
      if_true true h = refl
      if_true false h = absurd (cc h)

  feed-IsSound :
      (n : ℕ) (x : Data) (s : System op)
      → x.kind ≡ 0
      → IsSound op n s
      → Keeps op n (step op (feed x) s)
  unfolding step enqueue
  feed-IsSound n x s video v =
      choose (not d.from_key_frame && not (is_key x.packet)) _ _ (waits-IsSound n x s d a v)
        (joins-IsSound n x s d a video v)
    where
      d : Decoder op
      d = thread_start op s.decoder

      a : Alike s.decoder d
      a = thread_start-Alike s.decoder

      choose :
          (b : Bool) (p q : Option (Bool × Decoder op))
          → Keeps op n (fed op x s p)
          → Keeps op n (fed op x s q)
          → Keeps op n (fed op x s (if b then p else q))
      choose true p q f g = f
      choose false p q f g = g

  -- What a move needs: a packet that is fed is a video packet.
  abbrev pub IsVideoMove : Move op → Type 0
  IsVideoMove (feed x) = x.kind ≡ 0
  IsVideoMove _ = Unit {0}

  abbrev pub AreVideoMoves : List (Move op) → Type 0
  AreVideoMoves [] = Unit {0}
  AreVideoMoves (m ∷ ms) = IsVideoMove m × AreVideoMoves ms

  step-IsSound :
      (n : ℕ) (m : Move op) (s : System op)
      → IsVideoMove m
      → IsSound op n s
      → Keeps op n (step op m s)
  step-IsSound n (feed x) s video v = feed-IsSound n x s video v
  step-IsSound n deliver s video v = deliver-IsSound n s v
  step-IsSound n take_batch s video v = take-IsSound op n s v
  step-IsSound n work_one s video v = work-IsSound op n s v

  onward :
      {n : ℕ} (o : Option (System op)) (k : System op → Option (System op))
      → Keeps op n o
      → ((t : System op) → IsSound op n t → (s' : System op) × (k t ≡ some s') × IsSound op n s')
      → (s' : System op) × (and_then op o k ≡ some s') × IsSound op n s'
  onward none k w f = absurd w
  onward (some t) k w f = f t w

  -- However the locked parts of `DecodeAsync` calls on video packets and of the thread interleave,
  -- a system in order never comes to the use of a null pointer, and in the state reached the queue
  -- holds its limit or key frames only, every accepted key frame was taken by the thread or waits,
  -- in order, and the frames made are those that the callback got followed by those that wait, in
  -- order.
  pub run-IsSound :
      (n : ℕ) (ms : List (Move op)) (s : System op)
      → AreVideoMoves ms
      → IsSound op n s
      → (s' : System op) × (run op ms s ≡ some s') × IsSound op n s'
  unfolding run
  run-IsSound n [] s video v = (s, refl, v)
  run-IsSound n (m ∷ ms) s video v =
      onward (step op m s) (run op ms) (step-IsSound n m s video.0 v)
        (λ t w. run-IsSound n ms t video.1 w)
