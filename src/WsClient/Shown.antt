-- ===== src/WsClient/Shown.antt =====
-- Which frames a message shows.
use rtsp_wasm_player.Base.{
  ℕ, ◌≡◌, refl, sym, ap, ◌∙◌, Bool, true, false, Option, none, some, List, [], ◌∷◌, ◌++◌,
  append-nil, append_assoc, arith, length,
}
use rtsp_wasm_player.WsClient.Options.{Options, Player}
use rtsp_wasm_player.WsClient.World.{
  Frame, Effect, render, emit, World, Outcome, returned, thrown, log, user_frame, continue, decode,
  decode_async, write_heap,
}
use rtsp_wasm_player.WsClient.Client.{
  Env, Reply, ondecode_frame, ondecode, each_frame, run_decoder, feed, onmessage, decode_by,
  release_result, stamp, message_with,
}
use rtsp_wasm_player.WsClient.Message.{IsKept, ondecode_frame-IsKept, stamp-IsKept, stamp-handles}

-- The frames that were rendered and the players that rendered them, in order.
pub shown : List Effect → List (Player × Frame)
shown [] = []
shown (render p f ∷ es) = (p, f) ∷ shown es
shown (_ ∷ es) = shown es

shown-append : (xs ys : List Effect) → shown (xs ++ ys) ≡ shown xs ++ shown ys
unfolding shown
shown-append [] ys = refl
shown-append (render p f ∷ es) ys =
    ap (λ (l : List (Player × Frame)). (p, f) ∷ l) (shown-append es ys)
shown-append (_ ∷ es) ys = shown-append es ys

-- Frames rendered by one player.
abbrev pub by_player : Player → List Frame → List (Player × Frame)
by_player p [] = []
by_player p (f ∷ fs) = (p, f) ∷ by_player p fs

module _ (env : Env) where
  -- The player and the callback do not throw.
  abbrev pub IsQuiet : Frame → Type 0
  IsQuiet f = (env.render_throws f ≡ false) × (env.ondata_throws f ≡ false)

  abbrev pub AreQuiet : List Frame → Type 0
  AreQuiet [] = Unit {0}
  AreQuiet (f ∷ fs) = IsQuiet f × AreQuiet fs

  -- A step that returned, kept the options and the decoder, and showed the frames `fs`.
  record Showed (fs : List (Player × Frame)) (w : World) (r : Outcome (Unit {0}) × World)
      : Type 0 where
    returns : r.0 ≡ returned tt
    options : r.1.options ≡ w.options
    decoder : r.1.decoder ≡ w.decoder
    frames : shown r.1.trace ≡ shown w.trace ++ fs

  -- The lines before the rendering, and the callback after it.
  abbrev before : Bool → List Effect → List Effect
  before true t = t ++ (log "ws frame" ∷ [])
  before false t = t

  abbrev after : Bool → Frame → List Effect → List Effect
  after true f t = t ++ (user_frame f ∷ [])
  after false f t = t

  shown-before : (b : Bool) (t : List Effect) → shown (before b t) ≡ shown t
  unfolding shown
  shown-before true t = simp (shown-append, append-nil)
  shown-before false t = refl

  shown-after : (b : Bool) (f : Frame) (t : List Effect) → shown (after b f t) ≡ shown t
  unfolding shown
  shown-after true f t = simp (shown-append, append-nil)
  shown-after false f t = refl

  ondecode_frame-trace :
      (f : Frame) (w : World) (p : Player)
      → w.options.player ≡ some p
      → IsQuiet f
      → ((ondecode_frame env f w).0 ≡ returned tt)
        × ((ondecode_frame env f w).1.trace
            ≡ after w.options.ondata f (before w.options.dbg w.trace ++ (render p f ∷ [])))
  unfolding ondecode_frame
  ondecode_frame-trace f w p has quiet = ground arith

  ondecode_frame-Showed :
      (f : Frame) (w : World) (p : Player)
      → w.options.player ≡ some p
      → IsQuiet f
      → Showed ((p, f) ∷ []) w (ondecode_frame env f w)
  unfolding shown
  ondecode_frame-Showed f w p has quiet = record {
    returns = (ondecode_frame-trace f w p has quiet).0;
    options = (ondecode_frame-IsKept env f w).options;
    decoder = (ondecode_frame-IsKept env f w).decoder;
    frames =
        rw ((ondecode_frame-trace f w p has quiet).1)
          (simp (shown-after, shown-append, shown-before));
  }

  each_frame-Showed :
      (fs : List Frame) (w : World) (p : Player)
      → w.options.player ≡ some p
      → AreQuiet fs
      → Showed (by_player p fs) w (each_frame env fs w)
  unfolding each_frame ondecode
  each_frame-Showed [] w p has quiet = record {
    returns = refl;
    options = refl;
    decoder = refl;
    frames = sym (append-nil _);
  }
  each_frame-Showed (f ∷ fs) w p has quiet =
      join (ondecode_frame env f w) (ondecode_frame-Showed f w p has quiet.0)
        (λ v e. each_frame-Showed fs v p (ap (λ (o : Options). o.player) e ∙ has) quiet.1)
    where
      join :
          (r : Outcome (Unit {0}) × World)
          → Showed ((p, f) ∷ []) w r
          → ((v : World) → v.options ≡ w.options → Showed (by_player p fs) v (each_frame env fs v))
          → Showed ((p, f) ∷ by_player p fs) w (continue r (λ _. each_frame env fs))
      join (returned _, v) a b = record {
        returns = (b v a.options).returns;
        options = (b v a.options).options ∙ a.options;
        decoder = (b v a.options).decoder ∙ a.decoder;
        frames =
            (b v a.options).frames
            ∙ rw a.frames (append_assoc (shown w.trace) ((p, f) ∷ []) (by_player p fs));
      }
      join (thrown, v) a b = absurd (bad a.returns)
        where
          bad : {A : Type 0} {x : A} → thrown ≡ returned x → ⊥
          bad e = cc

  -- The decoder's call and the frame that it returns show nothing more.
  then_release :
      (fs : List (Player × Frame)) (o : Option Frame) (w : World) (r : Outcome (Unit {0}) × World)
      → Showed fs w r
      → Showed fs w (continue r (λ _. release_result env o))
  then_release fs o w (returned _, v) a = released o
    where
      released : (o : Option Frame) → Showed fs w (release_result env o v)
      released none = record {
        returns = refl;
        options = a.options;
        decoder = a.decoder;
        frames = a.frames;
      }
      released (some f) = record {
        returns = refl;
        options = a.options;
        decoder = a.decoder;
        frames = a.frames;
      }
  then_release fs o w (thrown, v) a = record {
    returns = a.returns;
    options = a.options;
    decoder = a.decoder;
    frames = a.frames;
  }

  -- An effect that shows nothing may come first.
  after_effect :
      (fs : List (Player × Frame)) (e : Effect) (w : World) (r : Outcome (Unit {0}) × World)
      → shown (e ∷ []) ≡ []
      → Showed fs (emit e w) r
      → Showed fs w r
  after_effect fs e w r quiet a = record {
    returns = a.returns;
    options = a.options;
    decoder = a.decoder;
    frames = a.frames ∙ ap (λ (l : List (Player × Frame)). l ++ fs) same;
  }
    where
      same : shown (w.trace ++ (e ∷ [])) ≡ shown w.trace
      same = simp (shown-append, quiet, append-nil)

  decode_by-Showed :
      (async : Bool) (d buf n : ℕ) (reply : Reply) (w : World) (p : Player)
      → w.options.player ≡ some p
      → AreQuiet reply.callbacks
      → Showed (by_player p reply.callbacks) w (decode_by env async d buf n reply w)
  unfolding shown
  decode_by-Showed true d buf n reply w p has quiet =
      after_effect _ (decode_async d buf n) w _ refl
        (each_frame-Showed reply.callbacks _ p has quiet)
  decode_by-Showed false d buf n reply w p has quiet =
      after_effect _ (decode d buf n) w _ refl
        (then_release _ reply.result _ _ (each_frame-Showed reply.callbacks _ p has quiet))

  feed-Showed :
      (d : ℕ) (bytes : List ℕ) (reply : Reply) (w : World) (p : Player)
      → w.options.player ≡ some p
      → AreQuiet reply.callbacks
      → Showed (by_player p reply.callbacks) w (feed env d bytes reply w)
  unfolding feed run_decoder shown
  feed-Showed d bytes reply w p has quiet = record {
    returns = a.returns;
    options = a.options;
    decoder = a.decoder;
    frames = a.frames;
  }
    where
      buf : ℕ
      buf = env.malloc (length bytes) w.buffers

      v : World
      v = record w { buffers = buf ∷ w.buffers }

      a : Showed (by_player p reply.callbacks) v (
          decode_by env w.options.decode_async d buf
            (length bytes)
            reply
            (emit (write_heap buf bytes) v))
      a =
          after_effect _ (write_heap buf bytes) v _ refl
            (decode_by-Showed w.options.decode_async d buf (length bytes) reply _ p has quiet)

  stamp-shown : (now : ℕ) (w : World) → shown (stamp env now w).1.trace ≡ shown w.trace
  unfolding stamp shown
  stamp-shown now w =
      ground (arith, shown-append w.trace (log "ws message" ∷ []), append-nil (shown w.trace))

  message_with-Showed :
      (o : Option ℕ) (bytes : List ℕ) (reply : Reply) (w : World) (d : ℕ) (p : Player)
      → o ≡ some d
      → w.options.player ≡ some p
      → AreQuiet reply.callbacks
      → Showed (by_player p reply.callbacks) w (message_with env o bytes reply w)
  message_with-Showed none bytes reply w d p e has quiet = absurd (cc e)
  message_with-Showed (some c) bytes reply w d p e has quiet =
      feed-Showed c bytes reply w p has quiet

  -- While a connection is open, with a player and with callbacks that do not throw, a message
  -- returns, and that player renders exactly the frames that the decoder hands over, in their order.
  pub onmessage-shown :
      (now : ℕ) (bytes : List ℕ) (reply : Reply) (w : World) (d : ℕ) (p : Player)
      → w.decoder ≡ some d
      → w.options.player ≡ some p
      → AreQuiet reply.callbacks
      → ((onmessage env now bytes reply w).0 ≡ returned tt)
        × (shown (onmessage env now bytes reply w).1.trace
            ≡ shown w.trace ++ by_player p reply.callbacks)
  unfolding onmessage
  onmessage-shown now bytes reply w d p decoder has quiet =
      rest (stamp env now w) (stamp-handles env now w).0 (stamp-IsKept env now w)
        (stamp-shown now w)
    where
      fs : List (Player × Frame)
      fs = by_player p reply.callbacks

      rest :
          (r : Outcome (Unit {0}) × World)
          → r.0 ≡ returned tt
          → IsKept w r.1
          → shown r.1.trace ≡ shown w.trace
          → ((continue r (λ _ v. message_with env v.decoder bytes reply v)).0 ≡ returned tt)
            × (shown (continue r (λ _ v. message_with env v.decoder bytes reply v)).1.trace
                ≡ shown w.trace ++ fs)
      rest (returned _, v) e k same =
          let m : Showed fs v (message_with env v.decoder bytes reply v) =
            message_with-Showed v.decoder bytes reply v d p (k.decoder ∙ decoder)
              (ap (λ (o : Options). o.player) k.options ∙ has) quiet in
          (m.returns, m.frames ∙ ap (λ (l : List (Player × Frame)). l ++ fs) same)
      rest (thrown, v) e k same = absurd (cc e)
