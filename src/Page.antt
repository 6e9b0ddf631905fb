-- ===== src/Page.antt =====
-- A page: the client of ws-wasm-player/lib/ws_client.js with the player of
-- ws-wasm-player/lib/webgl.js. `Canvas` is what the client's renderings make of the canvas.
pub mod Canvas
mod Examples
