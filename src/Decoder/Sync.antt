-- ===== src/Decoder/Sync.antt =====
-- `Decoder::Decode` of ws-wasm-player/src/decoder.h.
use rtsp_wasm_player.Base.{
  ℕ, true, not, ◌&&◌, Option, none, some, List, [], ◌∷◌, ◌==◌, if◌then◌else◌,
}
use rtsp_wasm_player.Packet.{Data}
use rtsp_wasm_player.Packet.Decode.{Av, from_bytes}
use rtsp_wasm_player.Decoder.Defs.{
  Answer, picture, need_more, error, VideoOp, is_key, Frame, Decoder,
}

module _ (op : VideoOp) where
  open op use {State, Picture, get_frame}

  -- What the caller sees: the frames that went to the callback and the one returned.
  pub record Reply : Type 0 where
    pub callbacks : List (Frame op)
    pub result : Option (Frame op)

  -- `crashed` is the use of the null pointer that `stream_ops_` gives for a type without entry.
  pub data Outcome : Type 0 where
    answered : Reply → Decoder op → Outcome
    crashed : Outcome

  -- `stream_ops_[data.type]`, where AVMEDIA_TYPE_VIDEO is 0.
  abbrev pub op_for : ℕ → Decoder op → Option State
  op_for kind d = if kind == 0 then d.video_op else none

  abbrev nothing : Reply
  nothing = record { callbacks = []; result = none }

  abbrev pub answer : ℕ → Answer Picture × State → Decoder op → Outcome
  answer kind (picture p, s) d =
      let f : Frame op = record { kind = kind; image = p } in
      answered (record { callbacks = if d.has_callback then f ∷ [] else []; result = some f })
        (record d { video_op = some s })
  answer kind (need_more, s) d = answered nothing (record d { video_op = some s })
  answer kind (error, s) d = answered nothing (record d { video_op = some s })

  abbrev pub with_op : Option State → Data → Decoder op → Outcome
  with_op none data' d = crashed
  with_op (some s) data' d = answer data'.kind (get_frame data'.packet s) d

  -- `Decode` once the bytes are read.
  unfoldable pub decode : Data → Decoder op → Outcome
  decode x d =
      if not d.from_key_frame && not (is_key x.packet)
      then answered nothing d
      else let d' : Decoder op = record d { from_key_frame = true } in
        with_op (op_for x.kind d') x d'

  -- `Decode`: what `FromBytes` returns is not looked at, only what it filled in.
  unfoldable pub decode_bytes : Av → Data → List ℕ → Decoder op → Outcome
  decode_bytes av blank bytes d = decode (from_bytes av bytes blank).1 d
