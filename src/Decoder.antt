-- ===== src/Decoder.antt =====
-- ws-wasm-player/src/decoder.h: the decoder that the browser's client feeds, with decoding in the
-- call (`Decode`) and on a thread (`DecodeAsync` and `ThreadRun`).
pub mod Defs
pub mod Sync
pub mod KeyFirst
pub mod Queue
pub mod Thread
pub mod Sound
pub mod Order
pub mod Works
pub mod Batch
pub mod Wire
pub mod Stream
pub mod Shared
mod Examples
mod SharedExample
