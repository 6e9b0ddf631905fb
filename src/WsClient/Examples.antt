-- ===== src/WsClient/Examples.antt =====
-- A client at work, and the results about it applied to it.
use Prim.Native.String.{String}
use text.Mathlib.Text.{◌==◌ as str_eq}
use rtsp_wasm_player.Base.{ℕ, ◌≡◌, refl, true, false, none, some, List, [], ◌∷◌, ◌++◌, ◌==◌}
use rtsp_wasm_player.WsClient.Options.{Given, web_gl, merge}
use rtsp_wasm_player.WsClient.World.{Frame, World, returned, thrown}
use rtsp_wasm_player.WsClient.Client.{
  Env, Reply, construct, is_open, prepare, connect, open_client, close, ondecode, each_frame,
  run_decoder, feed, stamp, onmessage,
}
use rtsp_wasm_player.WsClient.Message.{onmessage-handles, ondecode_throws-handles}
use rtsp_wasm_player.WsClient.Shown.{shown, onmessage-shown}
use rtsp_wasm_player.WsClient.Life.{
  IsLinked, construct-IsLinked, IsReleased, close_releases, IsSmooth, Event, call_open, call_close,
  socket_open, socket_message, run, run-IsLinked,
}
use rtsp_wasm_player.WsClient.Opening.{Opening, open_client_lem, open_socket_throws}

-- The socket of the URL "bad" cannot be created, and no call but a rendering at width 0 throws.
abbrev browser : Env
browser = record {
  malloc = λ n live. 4096;
  has_leak_check = false;
  decoder_open_throws = λ s. false;
  socket_throws = λ u. str_eq u "bad";
  render_throws = λ f. f.width == 0;
  ondata_throws = λ f. false;
}

-- The same with every URL good.
abbrev good_browser : Env
good_browser = record browser { socket_throws = λ u. false }

abbrev frame : ℕ → ℕ → Frame
frame handle width = record { handle = handle; width = width; height = 2; pts = 40; bytes = [] }

abbrev given : String → Given
given url = record {
  url = some (some url);
  stream = some (some "{}");
  decode_async = none;
  decode_queue_size = none;
  decode_thread_count = none;
  decode_thread_type = none;
  player = some (some web_gl);
  onopen = none;
  onclose = none;
  onerror = none;
  ondata = some true;
  dbg = some true;
  wasm_log_v = none;
}

abbrev fresh : World
fresh = construct good_browser (given "ws://host/stream/a") 7

abbrev connected : World
connected = (open_client good_browser (given "ws://host/stream/a") fresh).1

abbrev reply : Reply
reply = record { callbacks = frame 10 2 ∷ []; result = some (frame 11 2) }

abbrev failing : Reply
failing = record { callbacks = frame 10 0 ∷ []; result = some (frame 11 0) }

smooth : IsSmooth good_browser
smooth = record { decoder_opens = λ s. refl; socket_opens = λ u. refl }

connected_after_open : (is_open good_browser connected ≡ true) × (connected.decoders ≡ 0 ∷ [])
unfolding construct merge open_client prepare connect is_open
connected_after_open = (refl, refl)

message_after_open : (onmessage good_browser 9 (1 ∷ 2 ∷ []) failing connected).0 ≡ thrown
unfolding construct merge open_client prepare connect onmessage stamp feed run_decoder each_frame
    ondecode
message_after_open = refl

onmessage-handles_example :
    (onmessage good_browser 9 (1 ∷ 2 ∷ []) reply connected).1.handles ≡ connected.handles
unfolding construct merge open_client prepare connect onmessage stamp feed run_decoder each_frame
    ondecode
onmessage-handles_example = onmessage-handles good_browser 9 (1 ∷ 2 ∷ []) reply connected refl

onmessage-shown_example :
    ((onmessage good_browser 9 (1 ∷ 2 ∷ []) reply connected).0 ≡ returned tt)
    × (shown (onmessage good_browser 9 (1 ∷ 2 ∷ []) reply connected).1.trace
        ≡ shown connected.trace ++ ((web_gl, frame 10 2) ∷ []))
unfolding construct merge open_client prepare connect
onmessage-shown_example =
    onmessage-shown good_browser 9 (1 ∷ 2 ∷ []) reply connected 0 web_gl refl refl
      ((refl, refl), tt)

ondecode_throws-handles_example :
    ((ondecode good_browser (some (frame 10 0)) connected).0 ≡ thrown)
    × ((ondecode good_browser (some (frame 10 0)) connected).1.handles ≡ 10 ∷ connected.handles)
unfolding construct merge open_client prepare connect
ondecode_throws-handles_example =
    ondecode_throws-handles good_browser (frame 10 0) connected web_gl refl refl

abbrev session : List (Event good_browser)
session =
    call_open (given "ws://host/stream/a")
    ∷ socket_open
    ∷ socket_message 9 (1 ∷ []) reply
    ∷ socket_message 10 (2 ∷ []) failing
    ∷ call_close
    ∷ []

run-IsLinked_example : IsLinked (run good_browser session fresh)
run-IsLinked_example =
    run-IsLinked good_browser session fresh smooth
      (construct-IsLinked good_browser (given "ws://host/stream/a") 7)

close_releases_example : IsReleased good_browser fresh (close good_browser fresh)
close_releases_example =
    close_releases good_browser fresh
      (construct-IsLinked good_browser (given "ws://host/stream/a") 7)

abbrev fresh_bad : World
fresh_bad = construct browser (given "bad") 7

open_socket_throws_example :
    let v = (open_client browser (given "bad") fresh_bad).1 in
    (is_open browser v ≡ false)
    × (v.decoders ≡ fresh_bad.next ∷ fresh_bad.decoders)
    × (close browser v ≡ (returned tt, v))
unfolding construct merge
open_socket_throws_example =
    open_socket_throws browser (given "bad") "bad" "{}" fresh_bad refl refl refl refl refl

open_client_lem_example :
    Opening browser (given "bad") fresh_bad (open_client browser (given "bad") fresh_bad)
open_client_lem_example = open_client_lem browser (given "bad") fresh_bad
