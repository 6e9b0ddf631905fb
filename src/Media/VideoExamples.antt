-- ===== src/Media/VideoExamples.antt =====
-- A small codec at work, and the results about StreamVideoOp applied to it.
use rtsp_wasm_player.Base.{ℕ, ◌≡◌, refl, Bool, true, false, none, List, [], ◌∷◌}
use rtsp_wasm_player.Media.VideoOp.{
  Options, Codecs, got, failed, sws_frame_, VideoOp, construct as construct_op, get_frame,
}
use rtsp_wasm_player.Media.VideoRuns.{
  Call, call_get_frame, call_flush, call_free, run as run_calls, packets, never_opens,
}
use rtsp_wasm_player.Media.Software.{software, closed}

abbrev scaling : Options
scaling = record {
  dec_name = [];
  dec_thread_count = 0;
  dec_thread_type = 0;
  sws_enable = true;
  sws_dst_width = 0;
  sws_dst_height = 0;
  sws_dst_pix_fmt = none;
  sws_flags = 0;
}

abbrev codecs : Bool → Codecs ℕ
codecs opens = software ℕ (λ n. n) opens

abbrev calls : List (Call (codecs true) scaling)
calls = call_get_frame 7 ∷ call_flush ∷ call_get_frame 8 ∷ call_free ∷ call_get_frame 9 ∷ []

calls_run :
    (run_calls (codecs true) scaling calls (construct_op (codecs true) scaling)).0
    ≡ got sws_frame_ ∷ got sws_frame_ ∷ got sws_frame_ ∷ []
unfolding run_calls get_frame
calls_run = refl

-- The object after a packet, where the context cannot be opened.
abbrev unopened : VideoOp (codecs false) scaling
unopened = (get_frame (codecs false) scaling 7 (construct_op (codecs false) scaling)).1

never_opens_example :
    (run_calls (codecs false) scaling (packets (codecs false) scaling (8 ∷ 9 ∷ [])) unopened).0
    ≡ failed ∷ failed ∷ []
unfolding get_frame
never_opens_example = never_opens (codecs false) scaling (8 ∷ 9 ∷ []) unopened closed refl refl
