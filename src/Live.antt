-- ===== src/Live.antt =====
-- From WsStreamServer::Send of rtsp-ws-proxy/ws_stream_server.cc through a session's queue of
-- rtsp-ws-proxy/ws_session.h to Decoder::Decode of ws-wasm-player/src/decoder.h.
mod Examples
use mathlib.Core.List.{Sublist, Sublistᴰ}
use mathlib.Core.List.Sublist as Sub
use rtsp_wasm_player.Base.{ℕ, ◌≡◌, List, map}
use rtsp_wasm_player.Packet.{Data}
use rtsp_wasm_player.Packet.Encode.{write}
use rtsp_wasm_player.Packet.Decode.{Av}
use rtsp_wasm_player.Decoder.Defs.{VideoOp, Decoder}
use rtsp_wasm_player.Decoder.KeyFirst.{pictures, from_first_key, outcome_of, seen}
use rtsp_wasm_player.Decoder.Stream.{arrives, decode_messages}
use rtsp_wasm_player.Proxy.Connection.{Connection}
use rtsp_wasm_player.Proxy.Server.{Server}

-- A part of a list's images is the images of a part of the list.
record Part {A B : Type 0} (f : A → B) (ys : List B) (xs : List A) : Type 0 where
  of : List A
  part : Sublistᴰ of xs
  images : ys ≡ map f of

module _ (op : VideoOp) where
  open op use {State}

  -- What the page makes of the messages `ms`: the frames of some of the packets `xs`, in order.
  abbrev pub Plays : Av → Data → Decoder op → State → List (List ℕ) → List Data → Type 0
  Plays av blank d s ms xs = ∥ (
      (ys : List Data) × Sublistᴰ ys xs
      × (ms ≡ map write ys)
      × (outcome_of op (decode_messages op av blank ms d)
          ≡ seen op (pictures op (map arrives (from_first_key op ys)) s))) ∥₁
