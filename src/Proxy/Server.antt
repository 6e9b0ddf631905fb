-- ===== src/Proxy/Server.antt =====
-- `WsStreamServer::Send` of rtsp-ws-proxy/ws_stream_server.cc: one encoded packet to every session
-- of its stream.
use rtsp_wasm_player.Base.{
  ℕ, ◌≡◌, refl, ◌∙◌, inl, inr, Bool, true, false, Option, none, some, List, [], ◌∷◌, if◌then◌else◌,
  Bool-cases,
}
use rtsp_wasm_player.Packet.{Data}
use rtsp_wasm_player.Packet.Encode.{
  Written, done, error_not_enough, aborted, to_bytes, write, grow, get_byte_size,
}
use rtsp_wasm_player.Packet.Size.{to_bytes_lem}
use rtsp_wasm_player.Proxy.Room.{Equality, Room, sessions_at, at, is_empty, empty, living, send}
use rtsp_wasm_player.Proxy.Members.{same_self, at_same}

module _ {K S : Type 0} (P : Type 0) (keys : Equality K) (values : Equality S) where
  -- `stream_map_`, which holds a pointer to each stream, and the room.
  pub record Server : Type 0 where
    pub stream_map : List (K × P)
    pub room : Room keys values

  unfoldable pub find : K → List (K × P) → Option P
  find id [] = none
  find id ((k, p) ∷ m) = let rest = find id m in if keys.same k id then some p else rest

  -- `emplace`, or the assignment where there is an entry.
  unfoldable pub put : K → P → List (K × P) → List (K × P)
  put id p [] = (id, p) ∷ []
  put id p ((k, q) ∷ m) =
      let rest = put id p m in if keys.same k id then (k, p) ∷ m else (k, q) ∷ rest

  -- What a session is given to send.
  abbrev pub Post : Type 0
  Post = S × List ℕ

  unfoldable pub post_to : List ℕ → List S → List Post
  post_to bytes [] = []
  post_to bytes (s ∷ v) = (s, bytes) ∷ post_to bytes v

  abbrev pub post_all : (S → Bool) → K → List ℕ → Server → Option (List Post × Server)
  post_all alive id bytes server =
      let (v, room) = send keys values alive id server.room in
      some (post_to bytes v, record server { room = room })

  -- What `ToBytes` returns is not looked at: without room for the packet it has resized the vector
  -- only. `none` is its fatal log line.
  abbrev pub encoded : (S → Bool) → K → Data → Written → Server → Option (List Post × Server)
  encoded alive id d (done bytes) server = post_all alive id bytes server
  encoded alive id d error_not_enough server =
      post_all alive id (grow (get_byte_size d.packet) []) server
  encoded alive id d aborted server = none

  abbrev pub if_watched : (S → Bool) → K → Data → Bool × Server → Option (List Post × Server)
  if_watched alive id d (true, server) = some ([], server)
  if_watched alive id d (false, server) = encoded alive id d (to_bytes d) server

  unfoldable pub send_packet : (S → Bool) → K → P → Data → Server → Option (List Post × Server)
  send_packet alive id stream d server =
      let (none_there, room) = empty keys values id server.room in
      if_watched alive id d
        (none_there, record { stream_map = put id stream server.stream_map; room = room })

  is_empty_nil : (v : List S) → is_empty keys values v ≡ true → v ≡ []
  is_empty_nil [] e = refl
  is_empty_nil (s ∷ v) e = absurd (cc e)

  find-put : (id : K) (p : P) (m : List (K × P)) → find id (put id p m) ≡ some p
  unfolding find put
  find-put id p [] = rw (same_self keys id)
  find-put id p ((k, q) ∷ m) = elim (Bool-cases (keys.same k id)) [
    | inl e ↦ rw (e, e)
    | inr e ↦ rw (e, e) (find-put id p m)
  ]

  -- What the server has sent and become: every living session of the stream's set was given
  -- exactly the packet's bytes, the sets are as before, and the stream is known.
  pub record IsSent (alive : S → Bool) (id : K) (stream : P) (d : Data) (server : Server)
      : Type 0 where
    pub after : Server
    pub posts :
        send_packet alive id stream d server
        ≡ some (
          post_to (write d) (living keys values alive (sessions_at keys values id server.room)),
          after,
        )
    pub sets :
        (j : K) → sessions_at keys values j after.room ≡ sessions_at keys values j server.room
    pub known : find id after.stream_map ≡ some stream

  -- `Send` never aborts; it gives the packet's bytes to every living session of the stream, none
  -- more and none less, and neither it nor its look for sessions changes who watches what.
  pub send_packet_lem :
      (alive : S → Bool) (id : K) (stream : P) (d : Data) (server : Server)
      → IsSent alive id stream d server
  unfolding send_packet empty send at living post_to
  send_packet_lem alive id stream d server = elim (Bool-cases (is_empty keys values v)) [
    | inl e ↦ record {
      after = record { stream_map = m; room = room };
      posts = rw (e, is_empty_nil v e);
      sets = λ j. at_same keys values id j server.room;
      known = find-put id stream server.stream_map;
    }
    | inr e ↦ record {
      after = record { stream_map = m; room = (at keys values id room).1 };
      posts = rw (e, to_bytes_lem d, at_same keys values id id server.room);
      sets = λ j. at_same keys values id j room ∙ at_same keys values id j server.room;
      known = find-put id stream server.stream_map;
    }
  ]
    where
      v : List S
      v = sessions_at keys values id server.room

      m : List (K × P)
      m = put id stream server.stream_map

      room : Room keys values
      room = (at keys values id server.room).1
