-- ===== src/Proxy/Leak.antt =====
-- What the rounds of `StreamHandler::OnRunning` of rtsp-ws-proxy/stream_handler.cc hand on, and which
-- packets they leave referenced.
use rtsp_wasm_player.Base.{
  ℕ, suc, ◌+◌, ◌≡◌, refl, sym, ap, ◌∙◌, Bool, true, false, Option, none, some, List, [], ◌∷◌, ◌++◌,
  map, append-nil, append_assoc, arith, if◌then◌else◌, is_some, length,
}
use rtsp_wasm_player.Proxy.Filter.{
  Filters, Outcome, returned, Done, Handler, get_packet, init_video_filters, filtered, on_video,
  on_running, and_then, rounds,
}
use rtsp_wasm_player.Proxy.Pipeline.{Acts, pipeline, map_join, do_filter_lem}

module _ {P : Type 0} (filters : Filters P) where
  open filters use {State}

  -- What the callback gets for a packet of the video, and the filters after it.
  abbrev pub video_out : {n : ℕ} → Acts filters n → List State → P → List P × List State
  video_out acts fs p = pipeline filters acts.emit (length fs) fs p

  -- The specification of the rounds: the packets of other streams are skipped.
  unfoldable pub expected : {n : ℕ} → Acts filters n → List State → List (Bool × P) → List P
  expected acts fs [] = []
  expected acts fs ((true, p) ∷ l) = let (qs, gs) = video_out acts fs p in qs ++ expected acts gs l
  expected acts fs ((false, p) ∷ l) = expected acts fs l

  abbrev pub count_others : List (Bool × P) → ℕ
  count_others [] = 0
  count_others ((true, p) ∷ l) = count_others l
  count_others ((false, p) ∷ l) = suc (count_others l)

  -- The packets that are still referenced with no use: those lost, and the one in the stream's packet.
  abbrev pub held : Option P → ℕ
  held none = 0
  held (some p) = 1

  abbrev pub referenced : Handler filters → ℕ
  referenced h = h.lost + held h.packets.pkt

  abbrev filters_of : List State → Handler filters → List State
  filters_of made h = init_video_filters filters made h.video_filters

  get_packet-lost : (p : P) (h : Handler filters) → (get_packet filters p h).lost ≡ referenced h
  get_packet-lost p h = by h.packets.pkt
    where
      by : (o : Option P) → (if is_some o then h.lost + 1 else h.lost) ≡ h.lost + held o
      by none = omega arith
      by (some q) = refl

  -- A packet of the video, in the stream's packet.
  on_video_lem :
      {n : ℕ} (acts : Acts filters n) (fs : List State) (p : P) (h : Handler filters)
      → h.packets.pkt ≡ some p
      → (h' : Handler filters) × (on_video filters n fs h ≡ (returned, h'))
        × (h'.packets.out ≡ h.packets.out ++ map some (video_out acts fs p).0)
        × (h'.video_filters ≡ some (video_out acts fs p).1)
        × (h'.packets.pkt ≡ none)
        × (h'.lost ≡ h.lost)
  unfolding pipeline
  on_video_lem {n} acts [] p h holds = (
    (on_video filters n [] h).1,
    refl,
    ap (λ (o : Option P). h.packets.out ++ (o ∷ [])) holds,
    refl,
    refl,
    refl,
  )
  on_video_lem {n} acts (f ∷ fs) p h holds =
      let (m, e, o, u) = do_filter_lem filters n acts f fs p h.packets holds in
      (
        (filtered filters (returned, (video_out acts (f ∷ fs) p).1, m) h).1,
        ap (λ (r : Done filters). filtered filters r h) e,
        o,
        refl,
        u,
        refl,
      )

  -- Where the filters do not throw, never ask for a packet again and give fewer than `n` packets for
  -- one, any rounds return; the callback gets exactly the packets that the filters make of the video's
  -- packets, in order; and every packet of another stream stays referenced for good.
  pub rounds_lem :
      (n : ℕ) (acts : Acts filters n) (made : List State) (l : List (Bool × P))
      (h : Handler filters)
      → (h' : Handler filters) × (rounds filters n made l h ≡ (returned, h'))
        × (h'.packets.out ≡ h.packets.out ++ map some (expected acts (filters_of made h) l))
        × (referenced h' ≡ referenced h + count_others l)
  unfolding rounds on_running expected
  rounds_lem n acts made [] h = (h, refl, sym (append-nil h.packets.out), omega arith)
  rounds_lem n acts made ((false, p) ∷ l) h =
      let (h', e, o, r) = rounds_lem n acts made l (get_packet filters p h) in
      let c = get_packet-lost p h in (h', e, o, omega arith)
  rounds_lem n acts made ((true, p) ∷ l) h =
      let (h₁, e₁, o₁, f, u, s) =
        on_video_lem acts (filters_of made h) p (get_packet filters p h) refl in
      let (h', e, o, r) = rounds_lem n acts made l h₁ in
      let c = get_packet-lost p h in
      let k : held h₁.packets.pkt ≡ 0 = ap held u in
      let gs = (video_out acts (filters_of made h) p).1 in
      let a = (video_out acts (filters_of made h) p).0 in
      (
        h',
        ap (λ (x : Outcome × Handler filters). and_then filters x (rounds filters n made l)) e₁ ∙ e,
        o
            ∙ ap
                (λ (x : Option (List State)).
                  h₁.packets.out ++ map some (expected acts (init_video_filters filters made x) l))
                f
            ∙ ap (λ (x : List (Option P)). x ++ map some (expected acts gs l)) o₁
            ∙ append_assoc h.packets.out (map some a) (map some (expected acts gs l))
            ∙ ap (λ (x : List (Option P)). h.packets.out ++ x)
                (sym (map_join filters a (expected acts gs l))),
        omega arith,
      )
