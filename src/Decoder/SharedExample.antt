-- ===== src/Decoder/SharedExample.antt =====
-- A batch of two packets through a small codec, and the result about shared pictures applied to it.
use rtsp_wasm_player.Base.{ℕ, ◌≡◌, refl, true, false, some, [], ◌∷◌, map}
use rtsp_wasm_player.Packet.{Packet, Data}
use rtsp_wasm_player.Media.Software.{software}
use rtsp_wasm_player.Media.VideoOp.{Codecs, sws_frame_, get_frame}
use rtsp_wasm_player.Decoder.Defs.{PixelFormat, yuv420p, VideoOp, Frame, Decoder}
use rtsp_wasm_player.Decoder.Batch.{run_batch}
use rtsp_wasm_player.Decoder.Shared.{State, stream_video_op, image_of, results_share}

abbrev codecs : Codecs Packet
codecs = software Packet (λ p. p.pts) true

abbrev numbers : PixelFormat → ℕ
numbers f = 0

abbrev op : VideoOp
op = stream_video_op codecs numbers

abbrev packet_at : ℕ → Data
packet_at pts = record {
  kind = 0;
  packet = record {
    pts = pts;
    dts = pts;
    bytes = 1 ∷ [];
    stream_index = 0;
    flags = 1;
    side_data = [];
    duration = 40;
    pos = 40;
  };
}

abbrev fresh : State codecs numbers
fresh = op.create (record { dec_thread_count = 0; dec_thread_type = 0; sws_dst_pix_fmt = yuv420p })

abbrev ready : Decoder op
ready = record {
  video_op = some fresh;
  has_callback = true;
  from_key_frame = true;
  stopped = false;
  datas_maxsize = 2;
  datas = [];
  results = [];
}

results_share_example :
    (t : Decoder op) × (v : State codecs numbers) × (run_batch op
        (some (packet_at 3) ∷ some (packet_at 4) ∷ [])
        ready
      ≡ some t)
    × (t.video_op ≡ some v)
    × (map (λ (f : Frame op). image_of codecs numbers v f.image) t.results
        ≡ map (λ (x : Data). image_of codecs numbers v sws_frame_) (packet_at 3 ∷ packet_at 4 ∷ []))
unfolding get_frame
results_share_example =
    results_share codecs numbers (packet_at 3 ∷ packet_at 4 ∷ []) ready fresh refl refl
      (refl, _, _, refl, (refl, _, _, refl, tt))
