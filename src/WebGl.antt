-- ===== src/WebGl.antt =====
-- ws-wasm-player/lib/webgl.js: the browser-side player that draws a YUV 4:2:0 frame with WebGL.
-- `Context` is what the code uses of the browser's WebGL context, `Texture` and `Player` are the
-- two classes, `Screen` is the full-screen fallback, and the other modules hold the proofs.
pub mod Context
pub mod Texture
pub mod Player
pub mod Screen
pub mod Units
pub mod Planes
pub mod Picture
pub mod Software
mod Examples
