-- ===== src/Media/Thread.antt =====
-- `StreamThread::Run` of common/media/stream_thread.cc with the events of
-- common/media/stream_thread.h. What a Stream answers is the parameter `Source`; the event
-- callback's calls are recorded; it does not throw.
use rtsp_wasm_player.Base.{ℕ, zero, suc, Bool, true, false, Option, none, some, List, [], ◌∷◌, ◌++◌}

-- `StreamError` by its code.
pub data StreamError : Type 0 where
  stream_error_eof : StreamError
  other : ℕ → StreamError

pub data Result (A : Type 0) : Type 0 where
  ok : A → Result A
  failed : StreamError → Result A

-- What the thread uses of Stream, each call with the state of the stream and what is behind it.
-- `open_new` is the construction of a new Stream and `Open`; `running_cb` is the callback that takes
-- the place of reading, where there is one.
pub record Source : Type 1 where
  pub State : Type 0
  pub Packet : Type 0
  pub Frame : Type 0
  pub open_new : State → Result (Unit {0}) × State
  pub get_packet : State → Result Packet × State
  pub get_frame : ℕ → Packet → State → Result (Option Frame) × State
  pub unref_packet : State → State
  pub close : State → State
  pub running_cb : Option (State → Result (Unit {0}) × State)

module _ (source : Source) where
  open source use {State, Packet, Frame}

  pub data StreamEvent : Type 0 where
    stream_event_open stream_event_opened : StreamEvent
    stream_event_get_packet : Packet → StreamEvent
    stream_event_get_frame : ℕ → Frame → StreamEvent
    stream_event_close stream_event_closed stream_event_loop : StreamEvent
    stream_event_error : StreamError → StreamEvent

  -- `stop_after` is the number of times that `is_running_` will still read true.
  pub record World : Type 0 where
    pub state : State
    pub stop_after : ℕ
    pub events : List StreamEvent

  abbrev pub Action : Type 0 → Type 0
  Action A = World → Result A × World

  abbrev pub continue : {A B : Type 0} → Result A × World → (A → Action B) → Result B × World
  continue (ok a, w) k = k a w
  continue (failed e, w) k = (failed e, w)

  infixl 5 ◌>>=◌ ◌>>◌
  abbrev pub ◌>>=◌ : {A B : Type 0} → Action A → (A → Action B) → Action B
  ◌>>=◌ m k w = continue (m w) k

  abbrev pub ◌>>◌ : {B : Type 0} → Action (Unit {0}) → Action B → Action B
  m >> k = m >>= λ _. k

  abbrev pub done : Action (Unit {0})
  done w = (ok tt, w)

  -- A call of the stream.
  abbrev pub call : {A : Type 0} → (State → Result A × State) → Action A
  call f w = let (r, s) = f w.state in (r, record w { state = s })

  abbrev pub change : (State → State) → Action (Unit {0})
  change f w = (ok tt, record w { state = f w.state })

  abbrev pub note : StreamEvent → World → World
  note e w = record w { events = w.events ++ (e ∷ []) }

  abbrev pub dispatch_event : StreamEvent → Action (Unit {0})
  dispatch_event e w = (ok tt, note e w)

  -- The event of a frame, when there is one.
  abbrev pub dispatch_frame : ℕ → Option Frame → Action (Unit {0})
  dispatch_frame t none = done
  dispatch_frame t (some f) = dispatch_event (stream_event_get_frame t f)

  -- `for (auto &&type : get_types_)`
  unfoldable pub get_frames : List ℕ → Packet → Action (Unit {0})
  get_frames [] p = done
  get_frames (t ∷ ts) p = do f ← call (source.get_frame t p); dispatch_frame t f; get_frames ts p

  abbrev pub read : List ℕ → Action (Unit {0})
  read types = do
    p ← call source.get_packet
    dispatch_event (stream_event_get_packet p)
    get_frames types p
    change source.unref_packet

  -- The body of `while (is_running_)`, without the sleep.
  abbrev pub round_with : Option (State → Result (Unit {0}) × State) → List ℕ → Action (Unit {0})
  round_with none types = read types
  round_with (some cb) types = call cb

  unfoldable pub round : List ℕ → Action (Unit {0})
  round types = round_with source.running_cb types

  -- The loop, on the number of tests that will succeed.
  unfoldable pub rounds : ℕ → List ℕ → Action (Unit {0})
  rounds zero types = done
  rounds (suc n) types = do (λ w. (ok tt, record w { stop_after = n })); round types; rounds n types

  abbrev pub shut : Action (Unit {0})
  shut = do
    dispatch_event stream_event_close
    change source.close
    dispatch_event stream_event_closed

  abbrev pub serve : List ℕ → Action (Unit {0})
  serve types = do dispatch_event stream_event_opened; (λ w. rounds w.stop_after types w); shut

  -- The `try` block.
  unfoldable pub attempt : List ℕ → Action (Unit {0})
  attempt types = do dispatch_event stream_event_open; call source.open_new; serve types

  -- What `catch` and the line after it do: the outcome of another `Run` is `again`.
  abbrev pub caught : Bool → Result (Unit {0}) × World → (World → Option World) → Option World
  caught loop_on_eof (ok _, w) again = some w
  caught true (failed stream_error_eof, w) again = again (note stream_event_loop w)
  caught false (failed stream_error_eof, w) again =
      some (note (stream_event_error stream_error_eof) w)
  caught loop_on_eof (failed (other n), w) again = some (note (stream_event_error (other n)) w)

  -- `Run`, with at most `fuel` calls of itself; `none` when they do not end it.
  unfoldable pub run : ℕ → Bool → List ℕ → World → Option World
  run zero loop_on_eof types w = none
  run (suc fuel) loop_on_eof types w =
      caught loop_on_eof (attempt types w) (run fuel loop_on_eof types)
