-- ===== src/WsClient.antt =====
-- ws-wasm-player/lib/ws_client.js: the browser's WebSocket client, which feeds the decoder.
-- `Options` is the options object, `World` the client's fields and what it touches outside, with
-- the monad of JavaScript calls that may throw, `Client` the class; the others hold the proofs.
pub mod Options
pub mod World
pub mod Client
pub mod Message
pub mod Shown
pub mod Life
pub mod Opening
mod Examples
