-- ===== src/Decoder/Thread.antt =====
-- `DecodeAsync`, the thread and their interleavings, of ws-wasm-player/src/decoder.h.
use rtsp_wasm_player.Base.{
  ℕ, Bool, true, false, not, ◌&&◌, Option, none, some, List, [], ◌∷◌, ◌++◌, if◌then◌else◌,
}
use rtsp_wasm_player.Packet.{Data}
use rtsp_wasm_player.Decoder.Defs.{
  Answer, picture, need_more, error, VideoOp, Frame, Decoder, is_key,
}
use rtsp_wasm_player.Decoder.Sync.{op_for}
use rtsp_wasm_player.Decoder.Queue.{push}

module _ (op : VideoOp) where
  open op use {State, Picture, get_frame}

  -- `ThreadStart`
  unfoldable pub thread_start : Decoder op → Decoder op
  thread_start d = if d.stopped then record d { stopped = false } else d

  -- The waiting results go to the callback; `DecodeAsync` does this on the caller's thread.
  unfoldable pub flush : Decoder op → List (Frame op) × Decoder op
  flush d = (if d.has_callback then d.results else [], record d { results = [] })

  abbrev pub queued : Option (List (Option Data)) → Decoder op → Option (Bool × Decoder op)
  queued none d = none
  queued (some q) d = some (true, record d { datas = q })

  -- The first half of `DecodeAsync`, once the bytes are read: whether the packet was accepted, and
  -- the decoder.
  unfoldable pub enqueue : Data → Decoder op → Option (Bool × Decoder op)
  unfolding thread_start
  enqueue x d =
      let d₁ = thread_start d in
      if not d₁.from_key_frame && not (is_key x.packet)
      then some (false, d₁)
      else queued (push d₁.datas_maxsize x d₁.datas) (record d₁ { from_key_frame = true })

  abbrev pub then_flush : Option (Bool × Decoder op) → Option (List (Frame op) × Decoder op)
  then_flush none = none
  then_flush (some (false, d)) = some ([], d)
  then_flush (some (true, d)) = some (flush d)

  -- `DecodeAsync` where the thread does nothing between its halves: what goes to the callback, and
  -- the decoder.
  unfoldable pub decode_async : Data → Decoder op → Option (List (Frame op) × Decoder op)
  unfolding enqueue flush
  decode_async x d = then_flush (enqueue x d)

  -- `ThreadStop`: the flag, and a null pointer that wakes the thread.
  unfoldable pub thread_stop : Decoder op → Decoder op
  thread_stop d =
      if d.stopped then d else record d { stopped = true; datas = d.datas ++ (none ∷ []) }

  -- The decoder, the batch that the thread works on, and the history: what the callback got, the
  -- packets that were accepted and those that the thread took, and the frames that it made.
  pub record System : Type 0 where
    pub decoder : Decoder op
    pub batch : List (Option Data)
    pub delivered : List (Frame op)
    pub accepted : List Data
    pub taken : List (Option Data)
    pub made : List (Frame op)

  -- A call of `DecodeAsync` is `feed` and, for an accepted packet, `deliver`; each holds its lock.
  pub data Move : Type 0 where
    feed : Data → Move
    deliver : Move
    take_batch : Move
    work_one : Move

  abbrev pub fed : Data → System → Option (Bool × Decoder op) → Option System
  fed x s none = none
  fed x s (some (accepted, d)) =
      some (record s {
        decoder = d;
        accepted = if accepted then s.accepted ++ (x ∷ []) else s.accepted;
      })

  abbrev pub delivered_to : System → List (Frame op) × Decoder op → System
  delivered_to s (fs, d) = record s { decoder = d; delivered = s.delivered ++ fs }

  -- The thread has a packet and the video decoder's answer to it.
  abbrev pub worked : ℕ → Answer Picture × State → List (Option Data) → System → System
  worked kind (picture p, v) rest s =
      let f : Frame op = record { kind = kind; image = p } in
      let d : Decoder op = s.decoder in
      record s {
        decoder = record d { video_op = some v; results = d.results ++ (f ∷ []) };
        batch = rest;
        made = s.made ++ (f ∷ []);
      }
  worked kind (need_more, v) rest s =
      let d : Decoder op = s.decoder in
      record s { decoder = record d { video_op = some v }; batch = [] }
  worked kind (error, v) rest s =
      let d : Decoder op = s.decoder in
      record s { decoder = record d { video_op = some v }; batch = [] }

  abbrev pub with_op : Option State → Data → List (Option Data) → System → Option System
  with_op none x rest s = none
  with_op (some v) x rest s = some (worked x.kind (get_frame x.packet v) rest s)

  abbrev pub work_on : List (Option Data) → System → Option System
  work_on [] s = some s
  work_on (none ∷ rest) s = none
  work_on (some x ∷ rest) s = with_op (op_for op x.kind s.decoder) x rest s

  -- The thread takes the whole queue when it has worked off its batch.
  abbrev pub take_on : List (Option Data) → System → System
  take_on [] s =
      let d : Decoder op = s.decoder in
      record s { decoder = record d { datas = [] }; batch = d.datas; taken = s.taken ++ d.datas }
  take_on (x ∷ rest) s = s

  -- One move of the caller or of the running thread; `none` is the use of a null pointer.
  unfoldable pub step : Move → System → Option System
  step (feed x) s = fed x s (enqueue x s.decoder)
  step deliver s = some (delivered_to s (flush s.decoder))
  step take_batch s = some (if s.decoder.stopped then s else take_on s.batch s)
  step work_one s = if s.decoder.stopped then some s else work_on s.batch s

  abbrev pub and_then : Option System → (System → Option System) → Option System
  and_then none k = none
  and_then (some s) k = k s

  unfoldable pub run : List Move → System → Option System
  run [] s = some s
  run (m ∷ ms) s = and_then (step m s) (run ms)
