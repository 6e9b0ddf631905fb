-- ===== src/Proxy/PassesExample.antt =====
-- A bitstream filter that copies each packet and one that splits each in two, and the results about
-- them.
use rtsp_wasm_player.Base.{ℕ, ◌≡◌, refl, Bool, true, false, Option, none, some, List, [], ◌∷◌}
use rtsp_wasm_player.Proxy.Filter.{
  Handler, returned, rounds, on_running, do_filter, send_loop, recv_loop,
}
use rtsp_wasm_player.Proxy.Bsf.{
  Bitstream, made, Sent, accepted, again, Reply, filled, h264, bsf_name, send_packet, recv_packet,
  video_bsf,
}
use rtsp_wasm_player.Proxy.Passes.{IsFull, GivesOne, refused_forever, one_for_one}

-- The packets that the filter has made, and the packet that it has not looked at.
record Buffers : Type 0 where
  parts : List ℕ
  next : Option ℕ

abbrev accept : Option ℕ → Buffers → Sent × Buffers
accept pkt c = elim c.next [ none ↦ (accepted, record c { next = pkt }) | some p ↦ (again, c) ]

abbrev give : (ℕ → List ℕ) → List ℕ → Option ℕ → Reply ℕ × Buffers
give split (p ∷ ps) next = (filled p, record { parts = ps; next = next })
give split [] none = (again, record { parts = []; next = none })
give split [] (some p) = (filled p, record { parts = split p; next = none })

abbrev by : (ℕ → List ℕ) → Bitstream ℕ
by split = record {
  Bsf = Unit {0};
  Ctx = Buffers;
  get_by_name = λ n. some tt;
  alloc = λ b. made (record { parts = []; next = none });
  parameters_copy = λ c. (none, c);
  init = λ c. (none, c);
  send_packet = accept;
  receive_packet = λ c. give split c.parts c.next;
}

abbrev copying : Bitstream ℕ
copying = by (λ p. [])

abbrev splitting : Bitstream ℕ
splitting = by (λ p. p ∷ [])

abbrev untouched : (av : Bitstream ℕ) → Handler (video_bsf av none h264)
untouched av = record {
  video_filters = none;
  packets = record { pkt = none; recv = none; out = [] };
  lost = 0;
}

copying-GivesOne : GivesOne copying none h264 (λ p. p)
unfolding bsf_name
copying-GivesOne = record {
  Ready = λ c. (c.parts ≡ []) × (c.next ≡ none);
  chosen = "h264_mp4toannexb";
  bsf = tt;
  fresh = record { parts = []; next = none };
  copied = record { parts = []; next = none };
  ready = record { parts = []; next = none };
  chooses = refl;
  finds = refl;
  allocates = refl;
  copies = refl;
  inits = refl;
  ready-Ready = (refl, refl);
  one = λ c r p. (
    record { parts = []; next = some p },
    record { parts = []; next = none },
    rw (r.1, r.0) refl,
    refl,
    (refl, refl),
  );
}

-- A packet of the video, one of another stream and one of the video.
abbrev packets : List (Bool × ℕ)
packets = (true, 5) ∷ (false, 6) ∷ (true, 7) ∷ []

one_for_one_example :
    (h' : Handler (video_bsf copying none h264)) × (rounds
        (video_bsf copying none h264)
        1
        (none ∷ [])
        packets
        (untouched copying)
      ≡ (returned, h'))
    × (h'.packets.out ≡ some 5 ∷ some 7 ∷ [])
one_for_one_example =
    one_for_one copying none h264 0 (λ p. p) packets (untouched copying) copying-GivesOne refl

-- Two packets split in two: one part of the first is handed on at a time, and then the second packet
-- waits while the filter refuses the third.
abbrev full : Buffers
full = record { parts = []; next = some 7 }

abbrev filled_up : Handler (video_bsf splitting none h264)
filled_up = record {
  video_filters = some (some full ∷ []);
  packets = record { pkt = none; recv = none; out = some 5 ∷ some 5 ∷ [] };
  lost = 0;
}

fills_up :
    rounds
      (video_bsf splitting none h264)
      1
      (none ∷ [])
      ((true, 5) ∷ (true, 7) ∷ [])
      (untouched splitting)
    ≡ (returned, filled_up)
unfolding rounds on_running do_filter send_loop recv_loop send_packet recv_packet bsf_name
fills_up = refl

full-IsFull : IsFull splitting none h264 full
full-IsFull = record { refuses = λ p. refl }

refused_forever_example :
    (h' : Handler (video_bsf splitting none h264)) × (rounds
        (video_bsf splitting none h264)
        1
        (none ∷ [])
        packets
        filled_up
      ≡ (returned, h'))
    × (h'.packets.out ≡ some 5 ∷ some 5 ∷ [])
    × (h'.video_filters ≡ some (some full ∷ []))
refused_forever_example =
    refused_forever splitting none h264 0 (none ∷ []) full [] packets filled_up full-IsFull refl
