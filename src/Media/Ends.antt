-- ===== src/Media/Ends.antt =====
-- The thread of a StreamThread of common/media/stream_thread.cc ends once it is stopped, and when
-- it does not.
use rtsp_wasm_player.Base.{
  ℕ, zero, suc, ◌<◌, ◌≡◌, refl, ◌∙◌, ◌≢◌, inl, inr, Bool, true, false, Option, none, some, List, [],
  ◌∷◌, arith,
}
use mathlib.Core.Path.{subst}
use rtsp_wasm_player.Media.Thread.{
  Source, StreamError, Result, ok, failed, stream_event_open, stream_event_opened,
  stream_event_get_packet, stream_event_loop, stream_event_error, World, Action, continue, call,
  note, dispatch_frame, get_frames, round_with, round, rounds, shut, serve, attempt, caught, run,
  stream_error_eof, other,
}
use rtsp_wasm_player.Media.Events.{
  idle, over, opening, running, served, At, next, note-At, IsTrying, Tried, attempt-Tried,
}

module _ (source : Source) where
  open source use {State, Packet, Frame}

  -- No call of a round changes how often `is_running_` will read true.
  abbrev Same : ℕ → {A : Type 0} → Result A × World source → Type 0
  Same n r = r.1.stop_after ≡ n

  continue-Same :
      {A B : Type 0} (n : ℕ) (k : A → Action source B) (r : Result A × World source)
      → ((a : A) (w : World source) → w.stop_after ≡ n → Same n (k a w))
      → Same n r
      → Same n (continue source r k)
  continue-Same n k (ok a, w) b h = b a w h
  continue-Same n k (failed e, w) b h = h

  get_frames-Same :
      (ts : List ℕ) (p : Packet) (w : World source) → Same w.stop_after (get_frames source ts p w)
  unfolding get_frames
  get_frames-Same [] p w = refl
  get_frames-Same (t ∷ ts) p w =
      continue-Same w.stop_after _ (call source (source.get_frame t p) w)
        (λ o v e.
          continue-Same w.stop_after _ (dispatch_frame source t o v)
            (λ _ u a. get_frames-Same ts p u ∙ a) (framed o v ∙ e))
        refl
    where
      framed :
          (o : Option Frame) (v : World source) → Same v.stop_after (dispatch_frame source t o v)
      framed none v = refl
      framed (some f) v = refl

  round-Same : (ts : List ℕ) (w : World source) → Same w.stop_after (round source ts w)
  unfolding round
  round-Same ts w = kept source.running_cb
    where
      kept :
          (o : Option (State → Result (Unit {0}) × State))
          → Same w.stop_after (round_with source o ts w)
      kept none =
          continue-Same w.stop_after _ (call source source.get_packet w)
            (λ p v e.
              continue-Same w.stop_after _
                (get_frames source ts p (note source (stream_event_get_packet p) v)) (λ _ u a. a)
                (get_frames-Same ts p _ ∙ e))
            refl
      kept (some cb) = refl

  -- A part of the thread that fails, fails with fewer than `n` tests left.
  abbrev Fewer : ℕ → Result (Unit {0}) × World source → Type 0
  Fewer n (ok _, w) = Unit {0}
  Fewer n (failed e, w) = w.stop_after < n

  rounds-Fewer :
      (n : ℕ) (ts : List ℕ) (w : World source) → w.stop_after ≡ n → Fewer n (rounds source n ts w)
  unfolding rounds
  rounds-Fewer zero ts w h = tt
  rounds-Fewer (suc n) ts w h =
      more (round source ts (record w { stop_after = n }))
        (round-Same ts (record w { stop_after = n })) (rounds-Fewer n ts)
    where
      less : (r : Result (Unit {0}) × World source) → Fewer n r → Fewer (suc n) r
      less (ok _, v) a = tt
      less (failed e, v) a = omega arith

      more :
          (r : Result (Unit {0}) × World source)
          → Same n r
          → ((v : World source) → v.stop_after ≡ n → Fewer n (rounds source n ts v))
          → Fewer (suc n) (continue source r (λ _. rounds source n ts))
      more (ok _, v) a rest = less _ (rest v a)
      more (failed e, v) a rest = omega arith

  -- A stream that was opened fails with an end of file later only, after a test.
  abbrev Later : ℕ → Result (Unit {0}) × World source → Type 0
  Later n (failed stream_error_eof, w) = w.stop_after < n
  Later n (ok _, w) = Unit {0}
  Later n (failed (other _), w) = Unit {0}

  -- No stream comes to its end while it is opened.
  abbrev pub OpensUnended : Type 0
  OpensUnended = (s : State) → (source.open_new s).0 ≢ failed stream_error_eof

  attempt-Later :
      (ts : List ℕ) (w : World source) → OpensUnended → Later w.stop_after (attempt source ts w)
  unfolding attempt
  attempt-Later ts w unended =
      opened (call source source.open_new (note source stream_event_open w)) refl (unended w.state)
    where
      shown_by :
          (r : Result (Unit {0}) × World source)
          → Fewer w.stop_after r
          → Later w.stop_after (continue source r (λ _. shut source))
      shown_by (ok _, v) a = tt
      shown_by (failed stream_error_eof, v) a = a
      shown_by (failed (other n), v) a = tt

      opened :
          (r : Result (Unit {0}) × World source)
          → Same w.stop_after r
          → r.0 ≢ failed stream_error_eof
          → Later w.stop_after (continue source r (λ _. serve source ts))
      opened (ok _, v) a b = shown_by _ (
          subst (λ n. Fewer n (rounds source v.stop_after ts (note source stream_event_opened v))) a
            (rounds-Fewer v.stop_after ts (note source stream_event_opened v) refl))
      opened (failed stream_error_eof, v) a b = absurd (b refl)
      opened (failed (other n), v) a b = tt

  error-At :
      (v : World source) (e : StreamError)
      → IsTrying source v
      → At source over (note source (stream_event_error e) v)
  unfolding next
  error-At v e (inl a) = note-At source opening over (stream_event_error e) v a refl
  error-At v e (inr (inl a)) = note-At source running over (stream_event_error e) v a refl
  error-At v e (inr (inr a)) = note-At source served over (stream_event_error e) v a refl

  loop-At :
      (v : World source) → IsTrying source v → At source idle (note source stream_event_loop v)
  unfolding next
  loop-At v (inl a) = note-At source opening idle stream_event_loop v a refl
  loop-At v (inr (inl a)) = note-At source running idle stream_event_loop v a refl
  loop-At v (inr (inr a)) = note-At source served idle stream_event_loop v a refl

  -- The thread's `Run` ends with `w`, and its events are those of a thread that is over.
  abbrev pub EndsOver : Option (World source) → Type 0
  EndsOver o = (v : World source) × (o ≡ some v) × At source over v

  -- Where no stream ends while it is opened, a thread that is stopped comes to an end: with more
  -- calls of `Run` allowed than `is_running_` reads true, the calls end, and the events from the
  -- first open to the last are those that `next` lets follow each other, the last of them that the
  -- stream is closed or that it failed.
  pub run_ends :
      (fuel : ℕ) (loop_on_eof : Bool) (ts : List ℕ) (w : World source)
      → OpensUnended
      → At source idle w
      → w.stop_after < fuel
      → EndsOver (run source fuel loop_on_eof ts w)
  unfolding run
  run_ends zero loop_on_eof ts w unended h less = absurd (omega arith)
  run_ends (suc fuel) loop_on_eof ts w unended h less =
      ended loop_on_eof (attempt source ts w) (attempt-Tried source ts w h)
        (attempt-Later ts w unended) (λ v a l. run_ends fuel loop_on_eof ts v unended a l)
    where
      ended :
          (b : Bool) (r : Result (Unit {0}) × World source)
          → Tried source r
          → Later w.stop_after r
          → ((v : World source)
              → At source idle v
              → v.stop_after < fuel
              → EndsOver (run source fuel loop_on_eof ts v))
          → EndsOver (caught source b r (run source fuel loop_on_eof ts))
      ended b (ok _, v) a l again = (v, refl, a)
      ended b (failed (other n), v) a l again =
          (note source (stream_event_error (other n)) v, refl, error-At v (other n) a)
      ended false (failed stream_error_eof, v) a l again =
          (note source (stream_event_error stream_error_eof) v, refl, error-At v stream_error_eof a)
      ended true (failed stream_error_eof, v) a l again =
          again (note source stream_event_loop v) (loop-At v a) (omega arith)

  -- Where every stream ends while it is opened, and the thread loops at the end of a stream, no
  -- number of calls of `Run` ends it, however soon it is stopped.
  pub run_never_ends :
      (fuel : ℕ) (ts : List ℕ) (w : World source)
      → ((s : State) → (source.open_new s).0 ≡ failed stream_error_eof)
      → run source fuel true ts w ≡ none
  unfolding run attempt
  run_never_ends zero ts w ends = refl
  run_never_ends (suc fuel) ts w ends =
      again (call source source.open_new (note source stream_event_open w)) (ends w.state)
        (λ v. run_never_ends fuel ts v ends)
    where
      again :
          (r : Result (Unit {0}) × World source)
          → r.0 ≡ failed stream_error_eof
          → ((v : World source) → run source fuel true ts v ≡ none)
          → caught source true (continue source r (λ _. serve source ts)) (run source fuel true ts)
            ≡ none
      again (ok _, v) e rest = absurd (cc e)
      again (failed (other n), v) e rest = absurd (cc e)
      again (failed stream_error_eof, v) e rest = rest (note source stream_event_loop v)
