-- ===== src/Media/Examples.antt =====
-- A file of two packets that a thread reads, and the results about threads applied to it.
use rtsp_wasm_player.Base.{
  ℕ, ◌≡◌, refl, true, none, some, List, [], ◌∷◌, arith, ◌==◌, if◌then◌else◌,
}
use rtsp_wasm_player.Media.Thread.{Source, Result, ok, failed, World, run, stream_error_eof}
use rtsp_wasm_player.Media.Events.{At, idle, over}
use rtsp_wasm_player.Media.Ends.{EndsOver, run_ends, run_never_ends}
use rtsp_wasm_player.Media.Owner.{
  StreamThread, construct, call_start, call_stop, run_returns, moves, IsSafe, moves-IsSafe,
}

-- The state is the packets that are left; every second packet gives a frame.
next_packet : List ℕ → Result ℕ × List ℕ
next_packet [] = (failed stream_error_eof, [])
next_packet (p ∷ ps) = (ok p, ps)

abbrev file : Source
file = record {
  State = List ℕ;
  Packet = ℕ;
  Frame = ℕ;
  open_new = λ s. (ok tt, 1 ∷ 2 ∷ []);
  get_packet = next_packet;
  get_frame = λ t p s. (ok (if p == 2 then some 7 else none), s);
  unref_packet = λ s. s;
  close = λ s. [];
  running_cb = none;
}

abbrev looping : World file
looping = record { state = []; stop_after = 5; events = [] }

run_ends_example : EndsOver file (run file 6 true (0 ∷ []) looping)
unfolding rtsp_wasm_player.Media.Events.walk
run_ends_example = run_ends file 6 true (0 ∷ []) looping (λ s e. absurd (cc e)) refl (omega arith)

abbrev ended_file : Source
ended_file = record file { open_new = λ s. (failed stream_error_eof, []) }

abbrev hopeless : World ended_file
hopeless = record { state = []; stop_after = 5; events = [] }

run_never_ends_example : run ended_file 100 true (0 ∷ []) hopeless ≡ none
run_never_ends_example = run_never_ends ended_file 100 (0 ∷ []) hopeless (λ s. refl)

moves-IsSafe_example : IsSafe ℕ (
    moves ℕ
      (call_start 5 20 ∷ call_start 6 0 ∷ run_returns ∷ call_stop ∷ call_start 7 10 ∷ [])
      (construct ℕ true))
moves-IsSafe_example =
    moves-IsSafe ℕ
      (call_start 5 20 ∷ call_start 6 0 ∷ run_returns ∷ call_stop ∷ call_start 7 10 ∷ []) true

abbrev ended : StreamThread ℕ
ended = record {
  loop_on_eof = true;
  options = some 5;
  frequency = 20;
  is_running = true;
  joinable = true;
  alive = 0;
}
