-- ===== src/WsClient/Life.antt =====
-- Opening and closing: what a client owns between calls.
use Prim.Native.String.{String}
use rtsp_wasm_player.Base.{
  ℕ, ◌≡◌, refl, sym, ap, ◌∙◌, false, Option, none, some, List, [], ◌∷◌, arith, is_some,
}
use rtsp_wasm_player.WsClient.Options.{Given, merge}
use rtsp_wasm_player.WsClient.World.{
  World, Outcome, returned, thrown, continue, remove, remove_head,
}
use rtsp_wasm_player.WsClient.Client.{
  Env, Reply, construct, connect, connect_with, prepare, open_by, open_client, close_with, close,
  onopen, onclose, onerror, onmessage,
}
use rtsp_wasm_player.WsClient.Message.{IsKept, onmessage-IsKept}

-- The decoders that the field `#decoder` accounts for.
abbrev pub owned : Option ℕ → List ℕ
owned none = []
owned (some d) = d ∷ []

-- A socket and a decoder go together, no other decoder is alive, and no heap block is held.
pub record IsLinked (w : World) : Type 0 where
  pub linked : is_some w.ws ≡ is_some w.decoder
  pub alive : w.decoders ≡ owned w.decoder
  pub heap : w.buffers ≡ []

IsKept-IsLinked : {w w' : World} → IsKept w w' → IsLinked w → IsLinked w'
IsKept-IsLinked k l = record {
  linked = ap is_some k.ws ∙ l.linked ∙ sym (ap is_some k.decoder);
  alive = k.decoders ∙ l.alive ∙ sym (ap owned k.decoder);
  heap = k.buffers ∙ l.heap;
}

module _ (env : Env) where
  -- A new client has no socket and no decoder, no decoder is alive and no heap block is held.
  pub construct-IsLinked : (g : Given) (now : ℕ) → IsLinked (construct env g now)
  unfolding construct
  construct-IsLinked g now = ground arith

  onopen-IsKept : (w : World) → IsKept w (onopen env w).1
  unfolding onopen
  onopen-IsKept w = ground arith

  onclose-IsKept : (w : World) → IsKept w (onclose env w).1
  unfolding onclose
  onclose-IsKept w = ground arith

  onerror-IsKept : (w : World) → IsKept w (onerror env w).1
  unfolding onerror
  onerror-IsKept w = ground arith

  remove-owned : (d : ℕ) → remove d (owned (some d)) ≡ []
  remove-owned d = remove_head d []

  -- What `close` does to a connected client.
  pub record IsReleased (w : World) (r : Outcome (Unit {0}) × World) : Type 0 where
    pub returns : r.0 ≡ returned tt
    pub ws : r.1.ws ≡ none
    pub decoder : r.1.decoder ≡ none
    pub decoders : r.1.decoders ≡ []
    pub buffers : r.1.buffers ≡ w.buffers

  close_connected :
      (w : World) (s d : ℕ)
      → w.ws ≡ some s
      → w.decoder ≡ some d
      → w.decoders ≡ d ∷ []
      → IsReleased w (close env w)
  unfolding close
  close_connected w s d e f g = ground (arith, remove-owned d)

  pub close_idle : (w : World) → w.ws ≡ none → close env w ≡ (returned tt, w)
  unfolding close
  close_idle w e = rw (e, close_with)

  -- `close` on a client in order returns, and afterwards the client has no socket and no decoder,
  -- every decoder is deleted, and the heap is as it was.
  pub close_releases : (w : World) → IsLinked w → IsReleased w (close env w)
  close_releases w l = go w.ws refl w.decoder refl
    where
      idle : w.ws ≡ none → w.decoder ≡ none → IsReleased w (close env w)
      idle e f = rw (close_idle w e) (record {
        returns = refl;
        ws = e;
        decoder = f;
        decoders = l.alive ∙ ap owned f;
        buffers = refl;
      })

      go : (o : Option ℕ) → w.ws ≡ o → (p : Option ℕ) → w.decoder ≡ p → IsReleased w (close env w)
      go none e none f = idle e f
      go none e (some d) f = absurd (cc (ap is_some e, ap is_some f, l.linked))
      go (some s) e none f = absurd (cc (ap is_some e, ap is_some f, l.linked))
      go (some s) e (some d) f = close_connected w s d e f (l.alive ∙ ap owned f)

  close-IsLinked : (w : World) → IsLinked w → IsLinked (close env w).1
  close-IsLinked w l = record {
    linked = ap is_some c.ws ∙ sym (ap is_some c.decoder);
    alive = c.decoders ∙ sym (ap owned c.decoder);
    heap = c.buffers ∙ l.heap;
  }
    where
      c : IsReleased w (close env w)
      c = close_releases w l

  connect-IsLinked :
      (url stream : String) (w : World)
      → env.decoder_open_throws stream ≡ false
      → env.socket_throws url ≡ false
      → w.decoders ≡ []
      → w.buffers ≡ []
      → IsLinked (connect env url stream w).1
  unfolding connect
  connect-IsLinked url stream w a b e f = ground arith

  -- Creating the decoder or the socket never throws.
  pub record IsSmooth : Type 0 where
    pub decoder_opens : (stream : String) → env.decoder_open_throws stream ≡ false
    pub socket_opens : (url : String) → env.socket_throws url ≡ false

  same-IsLinked :
      (w v : World)
      → v.ws ≡ w.ws
      → v.decoder ≡ w.decoder
      → v.decoders ≡ w.decoders
      → v.buffers ≡ w.buffers
      → IsLinked w
      → IsLinked v
  same-IsLinked w v a b c d l = record {
    linked = ap is_some a ∙ l.linked ∙ sym (ap is_some b);
    alive = c ∙ l.alive ∙ sym (ap owned b);
    heap = d ∙ l.heap;
  }

  not_linked : (w : World) → IsLinked w → w.ws ≡ none → w.decoder ≡ none
  not_linked w l e = ground arith

  connect_with-IsLinked :
      (url stream : Option String) (w : World)
      → IsSmooth
      → w.ws ≡ none
      → IsLinked w
      → IsLinked (connect_with env url stream w).1
  connect_with-IsLinked none stream w q e l = same-IsLinked w _ refl refl refl refl l
  connect_with-IsLinked (some url) none w q e l = same-IsLinked w _ refl refl refl refl l
  connect_with-IsLinked (some url) (some stream) w q e l =
      connect-IsLinked url stream w (q.decoder_opens stream) (q.socket_opens url)
        (l.alive ∙ ap owned (not_linked w l e)) l.heap

  pub prepare_keeps :
      (g : Given) (w : World)
      → let (r, v) = prepare env g w in
        (r ≡ returned tt)
        × (v.options ≡ merge w.options g)
        × (v.ws ≡ w.ws)
        × (v.decoder ≡ w.decoder)
        × (v.decoders ≡ w.decoders)
        × (v.buffers ≡ w.buffers)
  unfolding prepare
  prepare_keeps g w = ground arith

  open_by-IsLinked :
      (o : Option ℕ) (g : Given) (w : World)
      → w.ws ≡ o
      → IsSmooth
      → IsLinked w
      → IsLinked (open_by env o g w).1
  open_by-IsLinked (some s) g w e q l = same-IsLinked w _ refl refl refl refl l
  open_by-IsLinked none g w e q l = go (prepare env g w) (prepare_keeps g w)
    where
      go :
          (r : Outcome (Unit {0}) × World)
          → (r.0 ≡ returned tt)
            × (r.1.options ≡ merge w.options g)
            × (r.1.ws ≡ w.ws)
            × (r.1.decoder ≡ w.decoder)
            × (r.1.decoders ≡ w.decoders)
            × (r.1.buffers ≡ w.buffers)
          → IsLinked (continue r (λ _ v. connect_with env v.options.url v.options.stream v)).1
      go (returned _, v) k =
          connect_with-IsLinked v.options.url v.options.stream v q (k.2 ∙ e)
            (same-IsLinked w v k.2 k.3 k.4 k.5 l)
      go (thrown, v) k = same-IsLinked w v k.2 k.3 k.4 k.5 l

  open_client-IsLinked :
      (g : Given) (w : World) → IsSmooth → IsLinked w → IsLinked (open_client env g w).1
  unfolding open_client
  open_client-IsLinked g w q l = open_by-IsLinked w.ws g w refl q l

  -- What a page and its browser do with a client, in any order.
  pub data Event : Type 0 where
    call_open : Given → Event
    call_close : Event
    socket_open socket_close socket_error : Event
    socket_message : ℕ → List ℕ → Reply → Event

  -- An exception ends the handler, and the client stays.
  unfoldable pub step : Event → World → World
  step (call_open g) w = (open_client env g w).1
  step call_close w = (close env w).1
  step socket_open w = (onopen env w).1
  step socket_close w = (onclose env w).1
  step socket_error w = (onerror env w).1
  step (socket_message now bytes reply) w = (onmessage env now bytes reply w).1

  unfoldable pub run : List Event → World → World
  run [] w = w
  run (e ∷ es) w = run es (step e w)

  step-IsLinked : (e : Event) (w : World) → IsSmooth → IsLinked w → IsLinked (step e w)
  unfolding step
  step-IsLinked (call_open g) w q l = open_client-IsLinked g w q l
  step-IsLinked call_close w q l = close-IsLinked w l
  step-IsLinked socket_open w q l = IsKept-IsLinked (onopen-IsKept w) l
  step-IsLinked socket_close w q l = IsKept-IsLinked (onclose-IsKept w) l
  step-IsLinked socket_error w q l = IsKept-IsLinked (onerror-IsKept w) l
  step-IsLinked (socket_message now bytes reply) w q l =
      IsKept-IsLinked (onmessage-IsKept env now bytes reply w) l

  -- Whatever the page and the browser do, and whether players and callbacks throw or not, a
  -- client whose decoder and socket can be created owns one decoder while it is open and none
  -- while it is not, and no heap block between events.
  pub run-IsLinked : (es : List Event) (w : World) → IsSmooth → IsLinked w → IsLinked (run es w)
  unfolding run
  run-IsLinked [] w q l = l
  run-IsLinked (e ∷ es) w q l = run-IsLinked es (step e w) q (step-IsLinked e w q l)
