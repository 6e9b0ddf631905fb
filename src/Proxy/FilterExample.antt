-- ===== src/Proxy/FilterExample.antt =====
-- A chain of two filters that double each packet, and the results about filters applied to it.
use rtsp_wasm_player.Base.{
  ℕ, ◌≡◌, refl, Bool, true, false, Option, none, some, List, [], ◌∷◌, map, arith,
}
use rtsp_wasm_player.Proxy.Filter.{
  StreamFilterStatus, Status, status, Received, packet, nothing, Filters, input, Packets, do_filter,
  returned, Handler, rounds,
}
use rtsp_wasm_player.Proxy.Pipeline.{Acts, takes, more, dry, Hands, pipeline, do_filter_lem}
use rtsp_wasm_player.Proxy.Leak.{expected, referenced, rounds_lem}

-- The state is the packets that wait in the filter.
abbrev send_twice : Option ℕ → List ℕ → Status × List ℕ
send_twice none f = (status StreamFilterStatus.break, f)
send_twice (some p) f = (status StreamFilterStatus.ok, p ∷ p ∷ [])

abbrev next_one : List ℕ → Received ℕ × List ℕ
next_one [] = (nothing, [])
next_one (p ∷ f) = (packet p, f)

abbrev doubling : Filters ℕ
doubling = record { State = List ℕ; send_packet = send_twice; recv_packet = next_one }

abbrev acts : Acts doubling 3
acts = record {
  emit = λ f p. (p ∷ p ∷ [], []);
  emits = λ f p. takes refl (more refl (more refl (dry refl)));
  few = λ f p. omega arith;
}

abbrev start : Packets doubling
start = record { pkt = some 5; recv = none; out = [] }

do_filter_lem_example :
    Hands doubling
      (do_filter doubling 3 2 input ([] ∷ [] ∷ []) start)
      (pipeline doubling acts.emit 2 ([] ∷ [] ∷ []) 5)
      start
      none
do_filter_lem_example = do_filter_lem doubling 3 acts [] ([] ∷ []) 5 start refl

abbrev handler : Handler doubling
handler = record {
  video_filters = none;
  packets = record { pkt = none; recv = none; out = [] };
  lost = 0;
}

-- A packet of the video, two of another stream and one of the video.
abbrev packets : List (Bool × ℕ)
packets = (true, 5) ∷ (false, 6) ∷ (false, 7) ∷ (true, 8) ∷ []

rounds_lem_example :
    (h' : Handler doubling) × (rounds doubling 3 ([] ∷ []) packets handler ≡ (returned, h'))
    × (h'.packets.out ≡ map some (expected doubling acts ([] ∷ []) packets))
    × (referenced doubling h' ≡ 2)
rounds_lem_example = rounds_lem doubling 3 acts ([] ∷ []) packets handler
