-- ===== src/Lib.antt =====
-- RTSP over WebSocket into a browser: rtsp-ws-proxy reads an RTSP stream with FFmpeg and sends
-- each packet as one WebSocket message, and ws-wasm-player decodes and draws them in a page. This
-- library models the path of a packet from its encoding to the picture on the canvas.
--
-- The program's parts and their files:
-- * Bytes.antt, Bytes/: common/util/bytes.h, `bytes::to` and `bytes::from`, big-endian integers,
--   blocks and padded text. Words are natural numbers below 2 ^ w; the int that C++ promotes a
--   byte to is written out (`shift_int`, `widen`), with shifts of 32 and more taken modulo 32.
-- * Packet.antt, Packet/: common/net/packet.h, class Data. Encode has GetByteSize and ToBytes,
--   Decode has FromBytes as a reader that fills the object as it goes; a read behind the end of
--   the bytes is the outcome `fault`, the fatal log lines are `aborted`. Signed fields are their
--   two's complement. FFmpeg's functions are the parameter `Av`, and `IsFfmpeg` states what the
--   code relies on: allocation succeeds, the payload is set, a side data entry is added at the end.
-- * Decoder.antt, Decoder/: ws-wasm-player/src/decoder.h. Defs has Open and the state, Sync has
--   Decode, Queue and Thread have DecodeAsync, ThreadStart, ThreadStop and ThreadRun, Batch has one
--   batch of the thread. `VideoOp` stands for a video operation, any
--   state machine that answers a packet with a picture, with "need more" or with an error; Shared
--   puts StreamVideoOp in its place, whose pictures are pointers to its one frame. What
--   DecodeAsync and the thread do under a lock are moves of a system, in any order. Sound has the
--   invariant, Order and Works the results about the moves.
-- * WsClient.antt, WsClient/: ws-wasm-player/lib/ws_client.js, class WsClient. World has the state,
--   with the live decoders, frame handles and heap blocks beside the class's own fields, and a
--   monad of outcomes for JavaScript exceptions; Client has the methods. What the decoder answers
--   to a message, and which foreign calls throw, are parameters (`Reply`, `Env`).
-- * WebGl.antt, WebGl/: ws-wasm-player/lib/webgl.js, classes Texture and WebGLPlayer. The browser's
--   context is the record `WebGl`, with laws for what a call does to the active unit, the bound
--   textures, their images and the samplers.
-- * Page.antt, Page/: the client and the WebGL player together: Canvas runs the renderings of a
--   client's history on the player.
-- * Proxy.antt, Proxy/: rtsp-ws-proxy/ws_session.h (Session has WsSession's handlers, Connection the
--   session with the operations that Boost.Asio has outstanding, which complete in any order and
--   with any error), rtsp-ws-proxy/ws_stream_room.cc (Room) and Send,
--   DoSessionWebSocket and OnHandleHttpRequest of rtsp-ws-proxy/ws_stream_server.cc (Server, Grant,
--   Http). Stream ids and sessions are any types with an equality.
--   Filter is OnRunning and DoFilter of rtsp-ws-proxy/stream_handler.cc, over a parameter `Filters`
--   for the bitstream filter and the encoder; the one packet that nested calls share is a cell.
--   Bsf is StreamFilterVideoBSF of rtsp-ws-proxy/stream_filter.cc over a parameter `Bitstream`, and
--   Passes is what the handler hands on with it.
--   Watch and Watchers are WsStreamSession of rtsp-ws-proxy/ws_stream_session.cc, a session that joins
--   and leaves its stream's set by its events; what it is sent then comes from the room.
--   Posts is a history of joins, leaves and packets on one server, and Keeps is about a queue that
--   loses nothing.
-- * Proxy/Cors.antt, Proxy/Cors/: common/net/cors.h, class Cors, on texts as lists of bytes. std::regex
--   and the fields that Boost.Beast sets by itself are the parameter `Library`.
-- * Live.antt, Live/: the way from WsStreamServer::Send through a session's queue to Decoder::Decode.
-- * Media.antt, Media/: common/media/stream_thread.cc, class StreamThread. Thread is `Run` with its
--   events, over a parameter `Source` for what Stream answers and a count of the tests of
--   `is_running_` that are true; Owner is the constructor, Start, Stop and the destructor. VideoOp is
--   class StreamVideoOp of common/media/stream_video.cc over the parameter `Codecs`, which stands for
--   libavcodec and libswscale with what they document of contexts that are not open.
-- * Base.antt, Base/: the numbers, tests and list lemmas that the parts share.
--
-- Interaction: Proxy.Server.send_packet encodes a packet with Packet.Encode.to_bytes for the
-- sessions of a room, whose queues are those of Proxy.Session. In the page a message enters
-- WsClient.Client.onmessage, which hands its bytes to the decoder; Decoder.Sync.decode_bytes reads
-- them with Packet.Decode.from_bytes, which uses Bytes; the frames come back through the callback
-- and go to WebGl.Player.render.
--
-- Fuel: Proxy.Filter.do_filter bounds the rounds of its two loops, and a fuel above the number of
-- packets that a filter gives for one is enough. Media.Thread.run bounds how often StreamThread::Run
-- calls itself, since nothing in the code does; a fuel above the number of true tests is enough. Every other loop of
-- these parts is over a list or a count that is known when it starts, and is structural recursion.
--
-- Not modelled: the accept loops of rtsp-ws-proxy, the options with which common/media/stream.cc opens
-- a stream, the encoding filter and its encoder, the desktop players and OpenGL helpers,
-- configuration, JSON and logging, which are calls of other libraries; the generated ws-wasm-player/lib/decoder.js; the page
-- and its development server, which are glue.
pub mod Base
pub mod WebGl
pub mod WsClient
pub mod Page
pub mod Bytes
pub mod Packet
pub mod Decoder
pub mod Proxy
pub mod Media
pub mod Live
