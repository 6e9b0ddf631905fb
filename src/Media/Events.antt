-- ===== src/Media/Events.antt =====
-- The order of the events of a StreamThread of common/media/stream_thread.cc.
use rtsp_wasm_player.Base.{
  ℕ, zero, suc, ◌≡◌, refl, ◌⊎◌, inl, inr, Option, none, some, List, [], ◌∷◌, ◌++◌,
}
use rtsp_wasm_player.Media.Thread.{
  Source, Result, ok, failed, StreamEvent, stream_event_open, stream_event_opened,
  stream_event_get_packet, stream_event_get_frame, stream_event_close, stream_event_closed,
  stream_event_loop, stream_event_error, World, Action, continue, call, note, dispatch_frame,
  get_frames, read, round_with, round, rounds, shut, serve, attempt,
}

-- Where a thread is by its events: `served` is reading with a packet of the present stream.
pub data Phase : Type 0 where
  idle opening running served closing over : Phase

module _ (source : Source) where
  open source use {State, Packet, Frame}

  -- What may come next.
  unfoldable pub next : Phase → StreamEvent source → Option Phase
  next idle stream_event_open = some opening
  next opening stream_event_opened = some running
  next running (stream_event_get_packet p) = some served
  next served (stream_event_get_packet p) = some served
  next served (stream_event_get_frame t f) = some served
  next running stream_event_close = some closing
  next served stream_event_close = some closing
  next closing stream_event_closed = some over
  next opening stream_event_loop = some idle
  next running stream_event_loop = some idle
  next served stream_event_loop = some idle
  next opening (stream_event_error e) = some over
  next running (stream_event_error e) = some over
  next served (stream_event_error e) = some over
  next q e = none

  unfoldable pub walk : Option Phase → List (StreamEvent source) → Option Phase
  walk o [] = o
  walk none (e ∷ es) = none
  walk (some q) (e ∷ es) = walk (next q e) es

  walk-append :
      (o : Option Phase) (xs : List (StreamEvent source)) (e : StreamEvent source) (q r : Phase)
      → walk o xs ≡ some q
      → next q e ≡ some r
      → walk o (xs ++ (e ∷ [])) ≡ some r
  unfolding walk
  walk-append o [] e q r a b = rw (a, b)
  walk-append none (x ∷ xs) e q r a b = absurd (cc a)
  walk-append (some p) (x ∷ xs) e q r a b = walk-append (next p x) xs e q r a b

  -- The events so far lead to the phase `q`.
  abbrev pub At : Phase → World source → Type 0
  At q w = walk (some idle) w.events ≡ some q

  pub note-At :
      (q r : Phase) (e : StreamEvent source) (w : World source)
      → At q w
      → next q e ≡ some r
      → At r (note source e w)
  note-At q r e w a b = walk-append (some idle) w.events e q r a b

  -- The stream is open.
  abbrev pub IsReading : World source → Type 0
  IsReading w = At running w ⊎ At served w

  abbrev pub IsTrying : World source → Type 0
  IsTrying w = At opening w ⊎ IsReading w

  -- A part of the thread that keeps `P`, whether it fails or not.
  abbrev pub Keeps : {A : Type 0} → (World source → Type 0) → Action source A → Type 0
  Keeps P m = (w : World source) → P w → P (m w).1

  continue-Keeps :
      {A B : Type 0} (P : World source → Type 0) (k : A → Action source B)
      (r : Result A × World source)
      → ((a : A) → Keeps P (k a))
      → P r.1
      → P (continue source r k).1
  continue-Keeps P k (ok a, w) b h = b a w h
  continue-Keeps P k (failed e, w) b h = h

  dispatch_frame-At : (t : ℕ) (o : Option Frame) → Keeps (At served) (dispatch_frame source t o)
  unfolding next
  dispatch_frame-At t none w h = h
  dispatch_frame-At t (some f) w h = note-At served served (stream_event_get_frame t f) w h refl

  get_frames-At : (ts : List ℕ) (p : Packet) → Keeps (At served) (get_frames source ts p)
  unfolding get_frames
  get_frames-At [] p w h = h
  get_frames-At (t ∷ ts) p w h =
      continue-Keeps (At served) _ (call source (source.get_frame t p) w)
        (λ o v a.
          continue-Keeps (At served) _ (dispatch_frame source t o v) (λ _. get_frames-At ts p)
            (dispatch_frame-At t o v a))
        h

  read-IsReading : (ts : List ℕ) → Keeps IsReading (read source ts)
  unfolding next
  read-IsReading ts w h =
      continue-Keeps IsReading _ (call source source.get_packet w)
        (λ p v a. inr (
          continue-Keeps (At served) _ (get_frames source ts p _) (λ _ u b. b)
            (get_frames-At ts p _ (got p v a))))
        h
    where
      got :
          (p : Packet) (v : World source)
          → IsReading v
          → At served (note source (stream_event_get_packet p) v)
      got p v (inl a) = note-At running served (stream_event_get_packet p) v a refl
      got p v (inr a) = note-At served served (stream_event_get_packet p) v a refl

  round-IsReading : (ts : List ℕ) → Keeps IsReading (round source ts)
  unfolding round
  round-IsReading ts w h = by source.running_cb
    where
      by : (o : Option (State → Result (Unit {0}) × State)) → IsReading (round_with source o ts w).1
      by none = read-IsReading ts w h
      by (some cb) = h

  rounds-IsReading : (n : ℕ) (ts : List ℕ) → Keeps IsReading (rounds source n ts)
  unfolding rounds
  rounds-IsReading zero ts w h = h
  rounds-IsReading (suc n) ts w h =
      continue-Keeps IsReading _ (round source ts _) (λ _. rounds-IsReading n ts)
        (round-IsReading ts _ h)

  -- How the `try` block ends: closed, or failed while the stream was open or to be opened.
  abbrev pub Tried : Result (Unit {0}) × World source → Type 0
  Tried (ok _, w) = At over w
  Tried (failed e, w) = IsTrying w

  shut-Tried : (w : World source) → IsReading w → Tried (shut source w)
  unfolding next
  shut-Tried w h = note-At closing over stream_event_closed closed (closing_at h) refl
    where
      closed : World source
      closed = record (note source stream_event_close w) { state = source.close w.state }

      closing_at : IsReading w → At closing closed
      closing_at (inl a) = note-At running closing stream_event_close w a refl
      closing_at (inr a) = note-At served closing stream_event_close w a refl

  serve-Tried : (ts : List ℕ) (w : World source) → At opening w → Tried (serve source ts w)
  unfolding next
  serve-Tried ts w h =
      finished (rounds source w.stop_after ts (note source stream_event_opened w)) (
        rounds-IsReading w.stop_after ts _
          (inl (note-At opening running stream_event_opened w h refl)))
    where
      finished :
          (r : Result (Unit {0}) × World source)
          → IsReading r.1
          → Tried (continue source r (λ _. shut source))
      finished (ok _, v) a = shut-Tried v a
      finished (failed e, v) a = inr a

  pub attempt-Tried : (ts : List ℕ) (w : World source) → At idle w → Tried (attempt source ts w)
  unfolding attempt next
  attempt-Tried ts w h =
      opened (call source source.open_new (note source stream_event_open w))
        (note-At idle opening stream_event_open w h refl)
    where
      opened :
          (r : Result (Unit {0}) × World source)
          → At opening r.1
          → Tried (continue source r (λ _. serve source ts))
      opened (ok _, v) a = serve-Tried ts v a
      opened (failed e, v) a = inl a
