-- ===== src/WsClient/Options.antt =====
-- The options object of ws-wasm-player/lib/ws_client.js and its merging by `{ ...a, ...b }`.
-- `log` is left out: what it prints is an effect of the model.
use Prim.Native.String.{String}
use rtsp_wasm_player.Base.{ℕ, Bool, false, Option, none, some}

-- `player instanceof WebGLPlayer`, or another player.
pub data Player : Type 0 where
  web_gl other : Player

-- A callback is user code: the option is whether there is one. `stream` is the value that
-- `JSON.stringify` prints, by its text.
pub record Options : Type 0 where
  pub url : Option String
  pub stream : Option String
  pub decode_async : Bool
  pub decode_queue_size : ℕ
  pub decode_thread_count : ℕ
  pub decode_thread_type : ℕ
  pub player : Option Player
  pub onopen : Bool
  pub onclose : Bool
  pub onerror : Bool
  pub ondata : Bool
  pub dbg : Bool
  pub wasm_log_v : ℕ

-- `WsClientOptions`
abbrev pub default_options : Options
default_options = record {
  url = none;
  stream = none;
  decode_async = false;
  decode_queue_size = 0;
  decode_thread_count = 0;
  decode_thread_type = 0;
  player = none;
  onopen = false;
  onclose = false;
  onerror = false;
  ondata = false;
  dbg = false;
  wasm_log_v = 0;
}

-- The caller's object: `none` is a key that is not there.
pub record Given : Type 0 where
  pub url : Option (Option String)
  pub stream : Option (Option String)
  pub decode_async : Option Bool
  pub decode_queue_size : Option ℕ
  pub decode_thread_count : Option ℕ
  pub decode_thread_type : Option ℕ
  pub player : Option (Option Player)
  pub onopen : Option Bool
  pub onclose : Option Bool
  pub onerror : Option Bool
  pub ondata : Option Bool
  pub dbg : Option Bool
  pub wasm_log_v : Option ℕ

abbrev pub over {ℓ} : {A : Type ℓ} → A → Option A → A
over old none = old
over old (some new) = new

-- `{ ...options, ...given }`
unfoldable pub merge : Options → Given → Options
merge o g = record {
  url = over o.url g.url;
  stream = over o.stream g.stream;
  decode_async = over o.decode_async g.decode_async;
  decode_queue_size = over o.decode_queue_size g.decode_queue_size;
  decode_thread_count = over o.decode_thread_count g.decode_thread_count;
  decode_thread_type = over o.decode_thread_type g.decode_thread_type;
  player = over o.player g.player;
  onopen = over o.onopen g.onopen;
  onclose = over o.onclose g.onclose;
  onerror = over o.onerror g.onerror;
  ondata = over o.ondata g.ondata;
  dbg = over o.dbg g.dbg;
  wasm_log_v = over o.wasm_log_v g.wasm_log_v;
}
