-- ===== src/Proxy/Filter.antt =====
-- `StreamHandler::DoFilter` and `OnRunning` of rtsp-ws-proxy/stream_handler.cc: a packet through the
-- stream's filters. The filters are a parameter; a packet that is unreferenced is blank, `none`.
use rtsp_wasm_player.Base.{
  ℕ, zero, suc, Option, none, some, List, [], ◌∷◌, ◌++◌, if◌then◌else◌, length, Bool, is_some, ◌+◌,
}

-- StreamFilterStatus of rtsp-ws-proxy/stream_filter.h.
pub data StreamFilterStatus : Type 0 where
  ok again break : StreamFilterStatus

-- What a filter's call gives: a status, or a `StreamError` by its code.
pub data Status : Type 0 where
  status : StreamFilterStatus → Status
  error : ℕ → Status

-- A filter's RecvPacket fills its packet where the status is not `break`; `fatal` is a fatal log line.
pub data Received (P : Type 0) : Type 0 where
  fatal : Received P
  packet : P → Received P
  last_packet : P → Received P
  nothing : Received P
  error : ℕ → Received P

pub record Filters (P : Type 0) : Type 1 where
  pub State : Type 0
  pub send_packet : Option P → State → Status × State
  pub recv_packet : State → Received P × State

-- How a call ends; `stuck` is a loop that does not end within the fuel, `aborted` a fatal log line.
pub data Outcome : Type 0 where
  returned stuck aborted : Outcome
  thrown : ℕ → Outcome

-- Which packet a call of `DoFilter` works on.
pub data Slot : Type 0 where
  input packet_recv_ : Slot

module _ {P : Type 0} (filters : Filters P) where
  open filters use {State}

  -- The two packets, and what `on_recv` was called with.
  pub record Packets : Type 0 where
    pub pkt : Option P
    pub recv : Option P
    pub out : List (Option P)

  abbrev pub load : Slot → Packets → Option P
  load input m = m.pkt
  load packet_recv_ m = m.recv

  -- `av_packet_unref`
  abbrev pub unref : Slot → Packets → Packets
  unref input m = record m { pkt = none }
  unref packet_recv_ m = record m { recv = none }

  -- The first loop. A status of the outcome `returned` is not `again`.
  abbrev pub sent :
      Status × State
      → Slot
      → Packets
      → (State → Packets → Status × State × Packets)
      → Status × State × Packets
  sent (error e, f) slot m k = (error e, f, m)
  sent (status again, f) slot m k = k f (unref slot m)
  sent (status ok, f) slot m k = (status ok, f, unref slot m)
  sent (status break, f) slot m k = (status break, f, unref slot m)

  unfoldable pub send_loop : ℕ → Slot → State → Packets → Status × State × Packets
  send_loop zero slot f m = (status again, f, m)
  send_loop (suc n) slot f m = sent (filters.send_packet (load slot m) f) slot m (send_loop n slot)

  -- The outcome with the filters after it and the packets.
  abbrev pub Done : Type 0
  Done = Outcome × List State × Packets

  -- The rest of the chain has had the packet.
  abbrev pub passed : State → Done → (List State → Packets → Done) → Done
  passed f (returned, fs, m) k = k fs (unref packet_recv_ m)
  passed f (stuck, fs, m) k = (stuck, f ∷ fs, m)
  passed f (aborted, fs, m) k = (aborted, f ∷ fs, m)
  passed f (thrown e, fs, m) k = (thrown e, f ∷ fs, m)

  abbrev pub finish : State → List State → Packets → Done
  finish f fs m = (returned, f ∷ fs, m)

  -- The second loop, where `next` is `DoFilter` on the filters behind this one.
  abbrev pub taken :
      Received P × State
      → (List State → Packets → Done)
      → List State
      → Packets
      → (State → List State → Packets → Done)
      → Done
  taken (nothing, f) next fs m k = (returned, f ∷ fs, unref packet_recv_ m)
  taken (error e, f) next fs m k = (thrown e, f ∷ fs, m)
  taken (fatal, f) next fs m k = (aborted, f ∷ fs, m)
  taken (packet p, f) next fs m k = passed f (next fs (record m { recv = some p })) (k f)
  taken (last_packet p, f) next fs m k = passed f (next fs (record m { recv = some p })) (finish f)

  unfoldable pub recv_loop : ℕ → (List State → Packets → Done) → State → List State → Packets → Done
  recv_loop zero next f fs m = (stuck, f ∷ fs, m)
  recv_loop (suc n) next f fs m = taken (filters.recv_packet f) next fs m (recv_loop n next)

  abbrev pub after_send :
      Status × State × Packets → List State → (State → List State → Packets → Done) → Done
  after_send (error e, f, m) fs k = (thrown e, f ∷ fs, m)
  after_send (status break, f, m) fs k = (returned, f ∷ fs, m)
  after_send (status again, f, m) fs k = (stuck, f ∷ fs, m)
  after_send (status ok, f, m) fs k = k f fs m

  -- `DoFilter` on a chain of filters, with `n` rounds of each loop at most.
  unfoldable pub do_filter : ℕ → ℕ → Slot → List State → Packets → Done
  do_filter n depth slot [] m = (returned, [], record m { out = m.out ++ (load slot m ∷ []) })
  do_filter n zero slot (f ∷ fs) m = (stuck, f ∷ fs, m)
  do_filter n (suc depth) slot (f ∷ fs) m =
      after_send (send_loop n slot f m) fs (recv_loop n (do_filter n depth packet_recv_))

  -- The handler with the packet of its stream. `video_filters` is none until `InitVideoFilters` has
  -- made them. `lost` counts the packets that were overwritten while they were still referenced.
  pub record Handler : Type 0 where
    pub video_filters : Option (List State)
    pub packets : Packets
    pub lost : ℕ

  -- `GetPacket(false)`: `av_read_frame` overwrites what the stream's packet holds.
  abbrev pub get_packet : P → Handler → Handler
  get_packet p h =
      let m : Packets = h.packets in
      record h {
        packets = record m { pkt = some p };
        lost = if is_some m.pkt then h.lost + 1 else h.lost;
      }

  abbrev pub init_video_filters : List State → Option (List State) → List State
  init_video_filters made none = made
  init_video_filters made (some fs) = fs

  abbrev pub filtered : Done → Handler → Outcome × Handler
  filtered (o, fs, m) h = (o, record h { video_filters = some fs; packets = m })

  -- A packet of the video: without filters it goes to the callback as it is.
  abbrev pub on_video : ℕ → List State → Handler → Outcome × Handler
  on_video n [] h =
      let m : Packets = h.packets in
      (
        returned,
        record h {
          video_filters = some [];
          packets = record m { out = m.out ++ (m.pkt ∷ []); pkt = none };
        },
      )
  on_video n (f ∷ fs) h = filtered (do_filter n (length (f ∷ fs)) input (f ∷ fs) h.packets) h

  -- `OnRunning` with the packet that the stream gives; `made` are the filters that the options ask
  -- for. A packet of another stream is left as it is.
  unfoldable pub on_running : ℕ → List State → Bool → P → Handler → Outcome × Handler
  on_running n made is_video p h =
      let h₁ = get_packet p h in
      if is_video then on_video n (init_video_filters made h₁.video_filters) h₁ else (returned, h₁)

  abbrev pub and_then : Outcome × Handler → (Handler → Outcome × Handler) → Outcome × Handler
  and_then (returned, h) k = k h
  and_then (stuck, h) k = (stuck, h)
  and_then (aborted, h) k = (aborted, h)
  and_then (thrown e, h) k = (thrown e, h)

  -- The rounds of the thread, while none of them throws.
  unfoldable pub rounds : ℕ → List State → List (Bool × P) → Handler → Outcome × Handler
  rounds n made [] h = (returned, h)
  rounds n made ((b, p) ∷ l) h = and_then (on_running n made b p h) (rounds n made l)
