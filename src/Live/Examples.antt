-- ===== src/Live/Examples.antt =====
-- A server with two streams and two sessions, and a page that plays what one of them is sent.
use rtsp_wasm_player.Base.{
  ℕ, suc, ◌^◌, ◌≡◌, refl, true, false, some, List, [], ◌∷◌, ◌++◌, ltb, ◌==◌, ==_iff,
}
use rtsp_wasm_player.Packet.{Data}
use rtsp_wasm_player.Packet.Encode.{write}
use rtsp_wasm_player.Packet.Decode.{Av}
use rtsp_wasm_player.Decoder.Defs.{picture, VideoOp, Decoder}
use rtsp_wasm_player.Proxy.Session.{success, do_write}
use rtsp_wasm_player.Proxy.Connection.{Connection, start, send, settle, sends}
use rtsp_wasm_player.Proxy.Room.{Equality, send as room_send}
use rtsp_wasm_player.Proxy.Server.{Server, Post}
use rtsp_wasm_player.Proxy.Posts.{Act, joins, leaves, sends as gets, feed, IsGiven, serve-feed}

-- Every packet gives its timestamp.
abbrev op : VideoOp
op = record { State = ℕ; Picture = ℕ; create = λ o. 0; get_frame = λ p s. (picture p.pts, suc s) }

abbrev packet_at : ℕ → ℕ → Data
packet_at pts flags = record {
  kind = 0;
  packet = record {
    pts = pts;
    dts = pts;
    bytes = 1 ∷ 2 ∷ [];
    stream_index = 0;
    flags = flags;
    side_data = [];
    duration = 40;
    pos = 40;
  };
}

abbrev waiting : Decoder op
waiting = record {
  video_op = some 0;
  has_callback = true;
  from_key_frame = false;
  stopped = true;
  datas_maxsize = 2;
  datas = [];
  results = [];
}

abbrev ffmpeg : Av
ffmpeg = record {
  malloc = λ n. ltb n (2 ^ 31);
  packet_from_data = λ b p. record p { bytes = b };
  packet_add_side_data = λ s p. record p { side_data = p.side_data ++ (s ∷ []) };
}

abbrev number : Equality ℕ
number = record { same = ◌==◌; same_iff = ==_iff }

-- Session 7 joins stream 1 after its first packet, and leaves before its last; 8 watches stream 2.
abbrev history : List (Act ℕ number number)
history =
    gets (λ s. true) 1 100 (packet_at 1 1)
    ∷ joins 1 7
    ∷ joins 2 8
    ∷ gets (λ s. true) 1 100 (packet_at 2 0)
    ∷ gets (λ s. true) 2 100 (packet_at 3 1)
    ∷ gets (λ s. true) 1 100 (packet_at 4 1)
    ∷ leaves 1 7
    ∷ gets (λ s. true) 1 100 (packet_at 5 0)
    ∷ []

abbrev empty_server : Server ℕ number number
empty_server = record { stream_map = []; room = [] }

serve-feed_example :
    IsGiven ℕ number number 7 history empty_server (feed ℕ number number 7 (λ j. false) history)
serve-feed_example = serve-feed ℕ number number 7 history

history-feed : feed ℕ number number 7 (λ j. false) history ≡ packet_at 2 0 ∷ packet_at 4 1 ∷ []
unfolding feed
history-feed = refl

abbrev watched : List (List ℕ)
watched = write (packet_at 2 0) ∷ write (packet_at 4 1) ∷ []

abbrev given : List (Post ℕ number number)
given = (7, write (packet_at 2 0)) ∷ (8, write (packet_at 3 1)) ∷ (7, write (packet_at 4 1)) ∷ []

abbrev served_server : Server ℕ number number
served_server = record { stream_map = (1, 100) ∷ (2, 100) ∷ []; room = (1, []) ∷ (2, 8 ∷ []) ∷ [] }

-- Two messages were sent, the first is written, and the second is being written.
abbrev sent_both : Connection (List ℕ)
sent_both = send (write (packet_at 4 1)) (send (write (packet_at 2 0)) (start 2))

abbrev session : Connection (List ℕ)
session =
    settle success []
      (
        do_write (write (packet_at 4 1)),
        record { send_queue = write (packet_at 4 1) ∷ []; send_queue_max_size = 2 },
      )
      sent_both
