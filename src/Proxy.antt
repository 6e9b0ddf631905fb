-- ===== src/Proxy.antt =====
-- rtsp-ws-proxy: the WebSocket side of the proxy. `Session` is a session's handlers, `Connection`
-- a session with its outstanding operations, `Room` the sets of sessions, `Server` the sending of
-- a packet to them, `Grant` the choice of a stream, `Http` the list of streams and `Cors` the rules
-- for other origins. `Writes`, `Settle`, `Queue`, `Drain`, `Keeps` and `Broken` are about the send
-- queue, `Posts` about what sessions are given, `Members`, `Once`, `Watch` and `Watchers` about the sets.
-- `Filter` is the handler of a stream and `Bsf` its bitstream filter, which `Pipeline`, `Leak` and
-- `Passes` are about.
pub mod Session
pub mod Connection
pub mod Writes
pub mod Settle
pub mod Queue
pub mod Drain
pub mod Keeps
pub mod Broken
pub mod Room
pub mod Members
pub mod Server
pub mod Once
pub mod Posts
pub mod Cors
pub mod Filter
pub mod Pipeline
pub mod Leak
pub mod Bsf
pub mod Passes
pub mod Http
pub mod Watch
pub mod Watchers
mod WatchExample
mod FilterExample
mod PassesExample
mod Examples
pub mod Grant
