-- ===== src/Media/Owner.antt =====
-- The owner's side of StreamThread of common/media/stream_thread.cc: the constructor, `Start`,
-- `Stop` and the destructor, with the thread that they start. Calls come from one thread, which is
-- not the one that was started.
use rtsp_wasm_player.Base.{
  ℕ, ◌+◌, ◌-◌, ◌^◌, ◌≤◌, ◌≡◌, refl, ◌≢◌, Bool, true, false, not, ◌&&◌, Option, none, some, List, [],
  ◌∷◌, arith, ltb, if◌then◌else◌,
}

-- How a call ends; `terminated` is what C++ does when a joinable thread is assigned to or destroyed.
pub data Outcome : Type 0 where
  returned thrown terminated : Outcome

-- A frequency is an int of 32 bits, in two's complement.
abbrev pub is_positive : ℕ → Bool
is_positive f = ltb 0 f && ltb f (2 ^ 31)

module _ (O : Type 0) where
  -- `alive` is the number of threads that are in `Run`.
  pub record StreamThread : Type 0 where
    pub loop_on_eof : Bool
    pub options : Option O
    pub frequency : ℕ
    pub is_running : Bool
    pub joinable : Bool
    pub alive : ℕ

  abbrev pub construct : Bool → StreamThread
  construct loop_on_eof = record {
    loop_on_eof = loop_on_eof;
    options = none;
    frequency = 20;
    is_running = false;
    joinable = false;
    alive = 0;
  }

  -- `thread_ = std::thread(&StreamThread::Run, this)`
  abbrev pub spawn : StreamThread → Outcome × StreamThread
  spawn t =
      if t.joinable
      then (terminated, t)
      else (returned, record t { joinable = true; alive = t.alive + 1 })

  unfoldable pub start : O → ℕ → StreamThread → Outcome × StreamThread
  start options frequency t =
      if not (is_positive frequency)
      then (thrown, t)
      else if t.is_running
      then (returned, t)
      else spawn (record t { is_running = true; options = some options; frequency = frequency })

  -- `join` waits for the thread's end.
  abbrev pub join : StreamThread → StreamThread
  join t = if t.joinable then record t { joinable = false; alive = t.alive - 1 } else t

  unfoldable pub stop : StreamThread → StreamThread
  stop t = if not t.is_running then t else join (record t { is_running = false })

  unfoldable pub destroy : StreamThread → Outcome
  destroy t = let u = stop t in if u.joinable then terminated else returned

  -- `Run` has returned: nothing of the object is changed by that.
  abbrev pub over : StreamThread → StreamThread
  over t = record t { alive = t.alive - 1 }

  pub data Move : Type 0 where
    call_start : O → ℕ → Move
    call_stop run_returns : Move

  abbrev pub move : Move → StreamThread → Outcome × StreamThread
  move (call_start options frequency) t = start options frequency t
  move call_stop t = (returned, stop t)
  move run_returns t = (returned, over t)

  unfoldable pub moves : List Move → StreamThread → StreamThread
  moves [] t = t
  moves (m ∷ ms) t = moves ms (move m t).1

  -- The thread object is joinable exactly while the flag is set, and at most one thread reads.
  pub record IsOwned (t : StreamThread) : Type 0 where
    pub joined : t.joinable ≡ t.is_running
    pub at_most : t.alive ≤ (if t.is_running then 1 else 0)

  start-IsOwned :
      (options : O) (f : ℕ) (t : StreamThread)
      → IsOwned t
      → ((start options f t).0 ≢ terminated) × IsOwned (start options f t).1
  unfolding start
  start-IsOwned options f t h =
      (ground arith, record { joined = ground arith; at_most = ground arith })

  stop-IsOwned : (t : StreamThread) → IsOwned t → ((stop t).is_running ≡ false) × IsOwned (stop t)
  unfolding stop
  stop-IsOwned t h = (ground arith, record { joined = ground arith; at_most = ground arith })

  over-IsOwned : (t : StreamThread) → IsOwned t → IsOwned (over t)
  over-IsOwned t h = record { joined = h.joined; at_most = ground arith }

  -- After any calls: what holds of the object, and what destroying it then does.
  pub record IsSafe (t : StreamThread) : Type 0 where
    pub owned : IsOwned t
    pub starts : (options : O) (f : ℕ) → (start options f t).0 ≢ terminated
    pub destroyed : destroy t ≡ returned
    pub stopped : (stop t).alive ≡ 0

  IsOwned-IsSafe : (t : StreamThread) → IsOwned t → IsSafe t
  unfolding destroy
  IsOwned-IsSafe t h = record {
    owned = h;
    starts = λ options f. (start-IsOwned options f t h).0;
    destroyed = let (e, u) = stop-IsOwned t h in let j = u.joined in ground arith;
    stopped = let (e, u) = stop-IsOwned t h in let l = u.at_most in ground arith;
  }

  move-IsOwned : (m : Move) (t : StreamThread) → IsOwned t → IsOwned (move m t).1
  move-IsOwned (call_start options f) t h = (start-IsOwned options f t h).1
  move-IsOwned call_stop t h = (stop-IsOwned t h).1
  move-IsOwned run_returns t h = over-IsOwned t h

  moves-IsOwned : (ms : List Move) (t : StreamThread) → IsOwned t → IsOwned (moves ms t)
  unfolding moves
  moves-IsOwned [] t h = h
  moves-IsOwned (m ∷ ms) t h = moves-IsOwned ms (move m t).1 (move-IsOwned m t h)

  construct-IsOwned : (loop_on_eof : Bool) → IsOwned (construct loop_on_eof)
  construct-IsOwned loop_on_eof = record { joined = refl; at_most = omega arith }

  -- Whatever the owner calls, and whenever the thread ends: `Start` never makes the process
  -- terminate, at most one thread reads, the thread object is joinable exactly while the flag is
  -- set, and stopping or destroying the object leaves no thread.
  pub moves-IsSafe :
      (ms : List Move) (loop_on_eof : Bool) → IsSafe (moves ms (construct loop_on_eof))
  moves-IsSafe ms loop_on_eof =
      IsOwned-IsSafe _ (moves-IsOwned ms (construct loop_on_eof) (construct-IsOwned loop_on_eof))

  abbrev pub all_starts : List (O × ℕ) → List Move
  all_starts [] = []
  all_starts ((options, f) ∷ l) = call_start options f ∷ all_starts l
