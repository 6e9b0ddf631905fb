-- ===== src/WsClient/Message.antt =====
-- `#onmessage`: what it releases and what it shows.
use rtsp_wasm_player.Base.{
  ℕ, ◌≡◌, refl, ap, ◌∙◌, Bool, true, false, Option, none, some, List, [], ◌∷◌, arith, length,
}
use rtsp_wasm_player.WsClient.Options.{Player}
use rtsp_wasm_player.WsClient.World.{
  Frame, Effect, World, Outcome, returned, thrown, Js, continue, remove, remove_head, emit, decode,
  decode_async, write_heap,
}
use rtsp_wasm_player.WsClient.Client.{
  Env, Reply, ondecode_frame, ondecode, each_frame, run_decoder, feed, onmessage, release_result,
  decode_by, message_with, stamp,
}

-- What a message leaves alone: the connection, the decoders and the blocks of the wasm heap.
pub record IsKept (w w' : World) : Type 0 where
  pub ws : w'.ws ≡ w.ws
  pub decoder : w'.decoder ≡ w.decoder
  pub decoders : w'.decoders ≡ w.decoders
  pub buffers : w'.buffers ≡ w.buffers
  pub options : w'.options ≡ w.options

IsKept-trans : {u v w : World} → IsKept u v → IsKept v w → IsKept u w
IsKept-trans p q = record {
  ws = q.ws ∙ p.ws;
  decoder = q.decoder ∙ p.decoder;
  decoders = q.decoders ∙ p.decoders;
  buffers = q.buffers ∙ p.buffers;
  options = q.options ∙ p.options;
}

module _ (env : Env) where
  pub ondecode_frame-IsKept : (f : Frame) (w : World) → IsKept w (ondecode_frame env f w).1
  unfolding ondecode_frame
  ondecode_frame-IsKept f w = ground arith

  -- A call that returned gave its frame's handle back.
  ondecode_frame-handles :
      (f : Frame) (w : World)
      → (ondecode_frame env f w).0 ≡ returned tt
      → (ondecode_frame env f w).1.handles ≡ w.handles
  unfolding ondecode_frame
  ondecode_frame-handles f w h = ground (arith, remove_head f.handle w.handles)

  -- A call and then another one, through what both keep.
  continue-IsKept :
      (w : World) (r : Outcome (Unit {0}) × World) (k : Js (Unit {0}))
      → IsKept w r.1
      → ((v : World) → IsKept v (k v).1)
      → IsKept w (continue r (λ _. k)).1
  continue-IsKept w (returned _, v) k p q = IsKept-trans p (q v)
  continue-IsKept w (thrown, v) k p q = p

  each_frame-IsKept : (fs : List Frame) (w : World) → IsKept w (each_frame env fs w).1
  unfolding each_frame ondecode
  each_frame-IsKept [] w = record {
    ws = refl;
    decoder = refl;
    decoders = refl;
    buffers = refl;
    options = refl;
  }
  each_frame-IsKept (f ∷ fs) w =
      continue-IsKept w (ondecode_frame env f w) (each_frame env fs) (ondecode_frame-IsKept f w)
        (λ v. each_frame-IsKept fs v)

  continue-handles :
      (w : World) (r : Outcome (Unit {0}) × World) (k : Js (Unit {0}))
      → (r.0 ≡ returned tt → r.1.handles ≡ w.handles)
      → ((v : World) → (k v).0 ≡ returned tt → (k v).1.handles ≡ v.handles)
      → (continue r (λ _. k)).0 ≡ returned tt
      → (continue r (λ _. k)).1.handles ≡ w.handles
  continue-handles w (returned _, v) k p q h = q v h ∙ p refl
  continue-handles w (thrown, v) k p q h = cc

  each_frame-handles :
      (fs : List Frame) (w : World)
      → (each_frame env fs w).0 ≡ returned tt
      → (each_frame env fs w).1.handles ≡ w.handles
  unfolding each_frame ondecode
  each_frame-handles [] w h = refl
  each_frame-handles (f ∷ fs) w h =
      continue-handles w (ondecode_frame env f w) (each_frame env fs) (ondecode_frame-handles f w)
        (λ v. each_frame-handles fs v) h

  -- A step that touches none of what is kept may come first.
  IsKept-refl : (w : World) → IsKept w w
  IsKept-refl w = record {
    ws = refl;
    decoder = refl;
    decoders = refl;
    buffers = refl;
    options = refl;
  }

  release-IsKept : (o : Option Frame) (w : World) → IsKept w (release_result env o w).1
  release-IsKept none w = IsKept-refl w
  release-IsKept (some f) w = ground arith

  release-handles : (o : Option Frame) (w : World) → (release_result env o w).1.handles ≡ w.handles
  release-handles none w = refl
  release-handles (some f) w = remove_head f.handle w.handles

  emit-IsKept : (e : Effect) (w : World) → IsKept w (emit e w)
  emit-IsKept e w = record {
    ws = refl;
    decoder = refl;
    decoders = refl;
    buffers = refl;
    options = refl;
  }

  decode_by-IsKept :
      (async : Bool) (d buf n : ℕ) (reply : Reply) (w : World)
      → IsKept w (decode_by env async d buf n reply w).1
  decode_by-IsKept true d buf n reply w =
      IsKept-trans (emit-IsKept (decode_async d buf n) w) (each_frame-IsKept reply.callbacks _)
  decode_by-IsKept false d buf n reply w = IsKept-trans (emit-IsKept (decode d buf n) w) (
      continue-IsKept _ (each_frame env reply.callbacks (emit (decode d buf n) w))
        (release_result env reply.result) (each_frame-IsKept reply.callbacks _)
        (release-IsKept reply.result))

  decode_by-handles :
      (async : Bool) (d buf n : ℕ) (reply : Reply) (w : World)
      → (decode_by env async d buf n reply w).0 ≡ returned tt
      → (decode_by env async d buf n reply w).1.handles ≡ w.handles
  decode_by-handles true d buf n reply w h = each_frame-handles reply.callbacks _ h
  decode_by-handles false d buf n reply w h =
      continue-handles (emit (decode d buf n) w)
        (each_frame env reply.callbacks (emit (decode d buf n) w)) (release_result env reply.result)
        (each_frame-handles reply.callbacks _) (λ v h. release-handles reply.result v) h

  -- The block is taken back on both ways out of the `try`.
  feed-IsKept :
      (d : ℕ) (bytes : List ℕ) (reply : Reply) (w : World) → IsKept w (feed env d bytes reply w).1
  unfolding feed run_decoder
  feed-IsKept d bytes reply w = record {
    ws = k.ws;
    decoder = k.decoder;
    decoders = k.decoders;
    buffers = ap (remove buf) k.buffers ∙ remove_head buf w.buffers;
    options = k.options;
  }
    where
      buf : ℕ
      buf = env.malloc (length bytes) w.buffers

      v : World
      v = emit (write_heap buf bytes) (record w { buffers = buf ∷ w.buffers })

      k : IsKept v (decode_by env w.options.decode_async d buf (length bytes) reply v).1
      k = decode_by-IsKept w.options.decode_async d buf (length bytes) reply v

  feed-handles :
      (d : ℕ) (bytes : List ℕ) (reply : Reply) (w : World)
      → (feed env d bytes reply w).0 ≡ returned tt
      → (feed env d bytes reply w).1.handles ≡ w.handles
  unfolding feed run_decoder
  feed-handles d bytes reply w h =
      decode_by-handles w.options.decode_async d (env.malloc (length bytes) w.buffers)
        (length bytes) reply _ h

  message_with-IsKept :
      (o : Option ℕ) (bytes : List ℕ) (reply : Reply) (w : World)
      → IsKept w (message_with env o bytes reply w).1
  message_with-IsKept none bytes reply w = ground arith
  message_with-IsKept (some d) bytes reply w = feed-IsKept d bytes reply w

  message_with-handles :
      (o : Option ℕ) (bytes : List ℕ) (reply : Reply) (w : World)
      → (message_with env o bytes reply w).0 ≡ returned tt
      → (message_with env o bytes reply w).1.handles ≡ w.handles
  message_with-handles none bytes reply w h = ground arith
  message_with-handles (some d) bytes reply w h = feed-handles d bytes reply w h

  -- What `#onmessage` does before it looks at the decoder.
  pub stamp-IsKept : (now : ℕ) (w : World) → IsKept w (stamp env now w).1
  unfolding stamp
  stamp-IsKept now w = ground arith

  pub stamp-handles :
      (now : ℕ) (w : World)
      → ((stamp env now w).0 ≡ returned tt) × ((stamp env now w).1.handles ≡ w.handles)
  unfolding stamp
  stamp-handles now w = ground arith

  pub onmessage-IsKept :
      (now : ℕ) (bytes : List ℕ) (reply : Reply) (w : World)
      → IsKept w (onmessage env now bytes reply w).1
  unfolding onmessage
  onmessage-IsKept now bytes reply w =
      continue-IsKept w (stamp env now w) _ (stamp-IsKept now w)
        (λ v. message_with-IsKept v.decoder bytes reply v)

  -- A message that returns leaves no frame handle behind.
  pub onmessage-handles :
      (now : ℕ) (bytes : List ℕ) (reply : Reply) (w : World)
      → (onmessage env now bytes reply w).0 ≡ returned tt
      → (onmessage env now bytes reply w).1.handles ≡ w.handles
  unfolding onmessage
  onmessage-handles now bytes reply w h =
      continue-handles w (stamp env now w) _ (λ e. (stamp-handles now w).1)
        (λ v k. message_with-handles v.decoder bytes reply v k) h

  -- With a player whose rendering of the frame throws, the callback throws before `frame.delete()`:
  -- the handle stays.
  pub ondecode_throws-handles :
      (f : Frame) (w : World) (p : Player)
      → w.options.player ≡ some p
      → env.render_throws f ≡ true
      → ((ondecode env (some f) w).0 ≡ thrown)
        × ((ondecode env (some f) w).1.handles ≡ f.handle ∷ w.handles)
  unfolding ondecode
  ondecode_throws-handles f w p has throws = ground arith
