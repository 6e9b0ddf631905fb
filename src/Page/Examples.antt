-- ===== src/Page/Examples.antt =====
-- A client that plays on a concrete WebGL context, and the result about the page applied to it.
use rtsp_wasm_player.Base.{false, none, some, [], ◌∷◌}
use rtsp_wasm_player.WebGl.Player.{player}
use rtsp_wasm_player.WsClient.Options.{Given, web_gl}
use rtsp_wasm_player.WsClient.World.{Frame, World}
use rtsp_wasm_player.WsClient.Client.{Env, Reply, construct, open_client}

-- Every call succeeds.
abbrev browser : Env
browser = record {
  malloc = λ n live. 4096;
  has_leak_check = false;
  decoder_open_throws = λ s. false;
  socket_throws = λ u. false;
  render_throws = λ f. false;
  ondata_throws = λ f. false;
}

abbrev given : Given
given = record {
  url = some (some "ws://host/stream/a");
  stream = some (some "{}");
  decode_async = none;
  decode_queue_size = none;
  decode_thread_count = none;
  decode_thread_type = none;
  player = some (some web_gl);
  onopen = none;
  onclose = none;
  onerror = none;
  ondata = none;
  dbg = none;
  wasm_log_v = none;
}

abbrev connected : World
connected = (open_client browser given (construct browser given 7)).1

-- A frame whose bytes are cut off, and the picture of 2 by 2.
abbrev broken : Frame
broken = record { handle = 10; width = 4; height = 2; pts = 40; bytes = 9 ∷ [] }

abbrev small : Frame
small = record { handle = 11; width = 2; height = 2; pts = 80; bytes = 1 ∷ 2 ∷ 3 ∷ 4 ∷ 5 ∷ 6 ∷ [] }

abbrev reply : Reply
reply = record { callbacks = broken ∷ small ∷ []; result = none }
