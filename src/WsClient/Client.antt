-- ===== src/WsClient/Client.antt =====
-- class WsClient of ws-wasm-player/lib/ws_client.js. A log line is named by its first words, and
-- the console's timers are left out; the user's log, onopen, onclose and onerror do not throw.
use Prim.Native.String.{String}
use rtsp_wasm_player.Base.{
  ℕ, ◌+◌, Bool, true, false, ◌&&◌, Option, none, some, List, [], ◌∷◌, if◌then◌else◌, is_some,
  length,
}
use rtsp_wasm_player.WsClient.Options.{Given, Player, default_options, merge}
use rtsp_wasm_player.WsClient.World.{
  Frame, Effect, log, log_options, set_log_v, open_decoder, open_socket, close_socket, leak_check,
  write_heap, decode, decode_async, render, user_open, user_close, user_error, user_frame,
  user_bytes, World, returned, thrown, Js, ◌>>=◌, ◌>>◌, done, throw, get, modify, finally, when,
  emit, perform, remove,
}

-- What the code outside does: where `_malloc` puts a block while others are live, whether the
-- build has `DoLeakCheck`, and which calls throw.
pub record Env : Type 0 where
  pub malloc : ℕ → List ℕ → ℕ
  pub has_leak_check : Bool
  pub decoder_open_throws : String → Bool
  pub socket_throws : String → Bool
  pub render_throws : Frame → Bool
  pub ondata_throws : Frame → Bool

-- What the decoder does in one call: the frames that it hands to the callback, in order, and
-- the frame that it returns.
pub record Reply : Type 0 where
  pub callbacks : List Frame
  pub result : Option Frame

module _ (env : Env) where
  -- A call of a function that may throw.
  abbrev may_throw : Bool → Effect → Js (Unit {0})
  may_throw fails e = do perform e; if fails then throw else done

  unfoldable pub logd : Effect → Js (Unit {0})
  logd e = do w ← get; when w.options.dbg (perform e)

  -- The constructor.
  unfoldable pub construct : Given → ℕ → World
  unfolding logd
  construct given now =
      let w : World = record {
        options = merge default_options given;
        ws = none;
        decoder = none;
        t_onmsg = now;
        buffers = [];
        handles = [];
        decoders = [];
        next = 0;
        trace = [];
      } in
      let (r, w') =
        (logd (log "ws options:")
            >> logd (log_options w.options)
            >> perform (set_log_v w.options.wasm_log_v))
          w in
      w'

  unfoldable pub is_open : World → Bool
  is_open w = is_some w.ws

  -- `new Module.Decoder()` and `new WebSocket(url)` give new objects.
  abbrev new_decoder : Js ℕ
  new_decoder w = (
    returned w.next,
    record w { next = w.next + 1; decoders = w.next ∷ w.decoders; decoder = some w.next },
  )

  abbrev new_socket : String → Js ℕ
  new_socket url w =
      if env.socket_throws url
      then (thrown, w)
      else (returned w.next, emit (open_socket w.next url) (record w { next = w.next + 1 }))

  -- `open` from the creation of the decoder on.
  unfoldable pub connect : String → String → Js (Unit {0})
  connect url stream = do
    d ← new_decoder
    w ← get
    may_throw (env.decoder_open_throws stream) (
        open_decoder d stream w.options.decode_queue_size w.options.decode_thread_count
          w.options.decode_thread_type)
    s ← new_socket url
    modify (λ w. record w { ws = some s })

  abbrev pub connect_with : Option String → Option String → Js (Unit {0})
  connect_with none stream = perform (log "ws open error: url is null")
  connect_with (some url) none = perform (log "ws open error: stream is null")
  connect_with (some url) (some stream) = connect url stream

  -- `open` merges the options and logs them.
  unfoldable pub prepare : Given → Js (Unit {0})
  unfolding logd
  prepare given = do
    modify (λ w. record w { options = merge w.options given })
    logd (log "ws open options:")
    w ← get
    logd (log_options w.options)

  abbrev pub open_by : Option ℕ → Given → Js (Unit {0})
  open_by (some s) given = perform (log "ws open error: already opened")
  open_by none given = do prepare given; w ← get; connect_with w.options.url w.options.stream

  unfoldable pub open_client : Given → Js (Unit {0})
  open_client given w = open_by w.ws given w

  abbrev release_decoder : Option ℕ → World → World
  release_decoder none w = w
  release_decoder (some d) w = record w { decoders = remove d w.decoders; decoder = none }

  -- `this.#decoder.delete()` throws on null.
  abbrev delete_decoder : Js (Unit {0})
  delete_decoder w = if is_some w.decoder then done (release_decoder w.decoder w) else throw w

  abbrev pub close_with : Option ℕ → Js (Unit {0})
  close_with none = done
  close_with (some s) = do
    logd (log "ws close")
    perform (close_socket s)
    modify (λ w. record w { ws = none })
    delete_decoder
    w ← get
    when (w.options.dbg && env.has_leak_check) (perform leak_check)

  unfoldable pub close : Js (Unit {0})
  unfolding logd
  close w = close_with w.ws w

  unfoldable pub onopen : Js (Unit {0})
  unfolding logd
  onopen = do logd (log "ws open"); w ← get; when w.options.onopen (perform user_open)

  unfoldable pub onclose : Js (Unit {0})
  unfolding logd
  onclose = do logd (log "ws close"); w ← get; when w.options.onclose (perform user_close)

  unfoldable pub onerror : Js (Unit {0})
  unfolding logd
  onerror = do logd (log "ws error"); w ← get; when w.options.onerror (perform user_error)

  -- `frame.delete()`
  abbrev delete_frame : Frame → Js (Unit {0})
  delete_frame f = modify (λ w. record w { handles = remove f.handle w.handles })

  abbrev render_with : Option Player → Frame → Js (Unit {0})
  render_with none f = done
  render_with (some p) f = may_throw (env.render_throws f) (render p f)

  -- `#ondecode` on a frame that is not null. The binding makes the handle that it passes.
  unfoldable pub ondecode_frame : Frame → Js (Unit {0})
  unfolding logd
  ondecode_frame f = do
    modify (λ w. record w { handles = f.handle ∷ w.handles })
    logd (log "ws frame")
    w ← get
    render_with w.options.player f
    (if w.options.ondata then may_throw (env.ondata_throws f) (user_frame f) else done)
    delete_frame f

  unfoldable pub ondecode : Option Frame → Js (Unit {0})
  unfolding logd ondecode_frame
  ondecode none = logd (log "ws frame is null: decode error or need new packets")
  ondecode (some f) = ondecode_frame f

  unfoldable pub each_frame : List Frame → Js (Unit {0})
  each_frame [] = done
  each_frame (f ∷ fs) = ondecode (some f) >> each_frame fs

  -- The frame that `decode` returns: a handle of its own, released at once.
  abbrev pub release_result : Option Frame → Js (Unit {0})
  release_result none = done
  release_result (some f) = do
    modify (λ w. record w { handles = f.handle ∷ w.handles })
    delete_frame f

  -- The two branches on `decode_async`.
  abbrev pub decode_by : Bool → ℕ → ℕ → ℕ → Reply → Js (Unit {0})
  decode_by true d buf n reply = do perform (decode_async d buf n); each_frame reply.callbacks
  decode_by false d buf n reply = do
    perform (decode d buf n)
    each_frame reply.callbacks
    release_result reply.result

  unfoldable pub run_decoder : ℕ → ℕ → ℕ → Reply → Js (Unit {0})
  run_decoder d buf n reply w = decode_by w.options.decode_async d buf n reply w

  unfoldable pub feed : ℕ → List ℕ → Reply → Js (Unit {0})
  feed d bytes reply w =
      let buf = env.malloc (length bytes) w.buffers in
      finally (do perform (write_heap buf bytes); run_decoder d buf (length bytes) reply)
        (λ w. record w { buffers = remove buf w.buffers }) (record w { buffers = buf ∷ w.buffers })

  abbrev pub message_with : Option ℕ → List ℕ → Reply → Js (Unit {0})
  message_with none bytes reply = do w ← get; when w.options.ondata (perform (user_bytes bytes))
  message_with (some d) bytes reply = feed d bytes reply

  -- What `#onmessage` does in debug mode before it looks at the decoder.
  unfoldable pub stamp : ℕ → Js (Unit {0})
  unfolding logd
  stamp now = do
    w ← get
    when w.options.dbg (do logd (log "ws message"); modify (λ w. record w { t_onmsg = now }))

  -- `#onmessage` at the time `now`, where the decoder would answer with `reply`.
  unfoldable pub onmessage : ℕ → List ℕ → Reply → Js (Unit {0})
  onmessage now bytes reply = do stamp now; v ← get; message_with v.decoder bytes reply
