-- ===== src/Page/Canvas.antt =====
-- What the renderings of a client of ws-wasm-player/lib/ws_client.js make of the canvas of its
-- player of ws-wasm-player/lib/webgl.js.
use rtsp_wasm_player.Base.{ℕ, Option, none, some, List, [], ◌∷◌}
use rtsp_wasm_player.WsClient.Options.{Player, web_gl, other}
use rtsp_wasm_player.WsClient.World.{Frame, World}
use rtsp_wasm_player.WebGl.Context.{WebGl}
use rtsp_wasm_player.WebGl.Player.{Textures, FrameView, render}
use rtsp_wasm_player.WebGl.Units.{IsReady}
use rtsp_wasm_player.WebGl.Planes.{Planes}
use rtsp_wasm_player.WebGl.Picture.{Shows}

-- `frame.bytes = frame.getBytes()`: what the WebGL player reads of the decoded frame.
abbrev pub view : Frame → FrameView
view f = record { width = f.width; height = f.height; bytes = f.bytes }

module _ (gl : WebGl) (width height : ℕ) where
  open gl use {State}

  -- The player's state after the renderings; another player draws elsewhere.
  unfoldable pub canvas :
      List (Player × Frame) → Option (Textures × State) → Option (Textures × State)
  canvas [] s = s
  canvas ((web_gl, f) ∷ fs) s = canvas fs (render gl s width height (view f)).0
  canvas ((other, f) ∷ fs) s = canvas fs s

  -- A player whose textures are on their units.
  abbrev pub IsUsable : Option (Textures × State) → Type 0
  IsUsable none = ⊥
  IsUsable (some (t, s)) = IsReady gl t s

  -- A player that shows the planes `p`.
  abbrev pub IsShowing : Planes → Option (Textures × State) → Type 0
  IsShowing p none = ⊥
  IsShowing p (some (t, s)) = IsReady gl t s × Shows gl t p s
