-- ===== src/Decoder/Examples.antt =====
-- A small video decoder, and the results about the player's decoder applied to it.
use rtsp_wasm_player.Base.{ℕ, zero, suc, ◌≡◌, refl, inl, true, false, some, List, [], ◌∷◌, arith}
use rtsp_wasm_player.Packet.{Data}
use rtsp_wasm_player.Decoder.Defs.{
  Answer, picture, need_more, VideoOp, Decoder, is_key, SubInfo, video, yuv420p, jpeg,
}
use rtsp_wasm_player.Decoder.Sync.{decode}
use rtsp_wasm_player.Decoder.KeyFirst.{
  decode_all, pictures, from_first_key, outcome_of, seen, decode_all-from_first_key,
}
use rtsp_wasm_player.Decoder.Queue.{keys}
use rtsp_wasm_player.Decoder.Thread.{System, Move, feed, deliver, take_batch, work_one, run}
use rtsp_wasm_player.Decoder.Sound.{IsSound}
use rtsp_wasm_player.Decoder.Order.{run-IsSound}

-- The first packet gives no picture yet, the others give their timestamps.
abbrev answer_at : ℕ → ℕ → Answer ℕ × ℕ
answer_at pts zero = (need_more, 1)
answer_at pts (suc n) = (picture pts, suc n)

abbrev delayed : VideoOp
delayed = record { State = ℕ; Picture = ℕ; create = λ o. 0; get_frame = λ p s. answer_at p.pts s }

abbrev packet_at : ℕ → ℕ → Data
packet_at pts flags = record {
  kind = 0;
  packet = record {
    pts = pts;
    dts = pts;
    bytes = 1 ∷ 2 ∷ [];
    stream_index = 0;
    flags = flags;
    side_data = [];
    duration = 40;
    pos = 40;
  };
}

abbrev ready : ℕ → Decoder delayed
ready s = record {
  video_op = some s;
  has_callback = true;
  from_key_frame = false;
  stopped = true;
  datas_maxsize = 2;
  datas = [];
  results = [];
}

abbrev stream : List Data
stream = packet_at 1 0 ∷ packet_at 2 1 ∷ packet_at 3 0 ∷ packet_at 4 0 ∷ []

stream_frames :
    decode_all delayed stream (ready 0)
    ≡ some (
      record { kind = 0; image = 3 } ∷ record { kind = 0; image = 4 } ∷ [],
      record (ready 1) { from_key_frame = true },
    )
unfolding decode_all decode is_key
stream_frames = refl

decode_all-from_first_key_example :
    outcome_of delayed (decode_all delayed stream (ready 0))
    ≡ seen delayed (pictures delayed (from_first_key delayed stream) 0)
decode_all-from_first_key_example =
    decode_all-from_first_key delayed stream (ready 0) 0 (refl, (refl, (refl, (refl, tt)))) refl
      refl refl

abbrev system : System delayed
system = record {
  decoder = ready 0;
  batch = [];
  delivered = [];
  accepted = [];
  taken = [];
  made = [];
}

system-IsSound : IsSound delayed 2 system
unfolding keys
system-IsSound = record {
  queue = [];
  batch = [];
  taken = [];
  queue_eq = refl;
  batch_eq = refl;
  taken_eq = refl;
  queue_video = tt;
  batch_video = tt;
  size = refl;
  callback = refl;
  decodes = refl;
  bound = inl (omega arith);
  keys_kept = refl;
  in_order = refl;
}

abbrev schedule : List (Move delayed)
schedule =
    feed (packet_at 2 1)
    ∷ feed (packet_at 3 0)
    ∷ take_batch
    ∷ feed (packet_at 4 0)
    ∷ work_one
    ∷ deliver
    ∷ take_batch
    ∷ work_one
    ∷ []

run-IsSound_example :
    (s' : System delayed) × (run delayed schedule system ≡ some s') × IsSound delayed 2 s'
run-IsSound_example =
    run-IsSound delayed 2 schedule system (refl, (refl, (tt, (refl, (tt, (tt, (tt, (tt, tt))))))))
      system-IsSound

abbrev subs : List SubInfo
subs = record { kind = video; format = yuv420p; color_range = jpeg } ∷ []
