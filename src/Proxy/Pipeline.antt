-- ===== src/Proxy/Pipeline.antt =====
-- What `StreamHandler::DoFilter` of rtsp-ws-proxy/stream_handler.cc hands on: the packets that come of
-- one when it goes through the filters one after another.
use rtsp_wasm_player.Base.{
  ℕ, zero, suc, ◌<◌, ◌≡◌, refl, sym, ap, ◌∙◌, Option, none, some, List, [], ◌∷◌, ◌++◌, map,
  append-nil, append_assoc, arith, length,
}
use rtsp_wasm_player.Proxy.Filter.{
  StreamFilterStatus, Status, status, Received, packet, last_packet, nothing, Filters, returned,
  Slot, input, packet_recv_, Packets, load, unref, sent, send_loop, Done, passed, finish, taken,
  recv_loop, after_send, do_filter,
}

module _ {P : Type 0} (filters : Filters P) where
  open filters use {State}

  -- The receiving loop of one filter: the packets that it gives, to its end.
  pub data Drains : State → List P → State → Type 0 where
    dry : {f g : State} → filters.recv_packet f ≡ (nothing, g) → Drains f [] g
    last : {f g : State} {p : P} → filters.recv_packet f ≡ (last_packet p, g) → Drains f (p ∷ []) g
    more :
        {f g h : State} {p : P} {ps : List P}
        → filters.recv_packet f ≡ (packet p, g)
        → Drains g ps h
        → Drains f (p ∷ ps) h

  -- One filter on one packet: it drops it, or takes it and gives some.
  pub data Emits : State → P → List P → State → Type 0 where
    drops :
        {f g : State} {p : P}
        → filters.send_packet (some p) f ≡ (status StreamFilterStatus.break, g)
        → Emits f p [] g
    takes :
        {f g h : State} {p : P} {ps : List P}
        → filters.send_packet (some p) f ≡ (status StreamFilterStatus.ok, g)
        → Drains g ps h
        → Emits f p ps h

  -- What the filters do, as functions: filters that do not throw and do not ask for a packet again.
  pub record Acts (n : ℕ) : Type 0 where
    pub emit : State → P → List P × State
    pub emits : (f : State) (p : P) → Emits f p (emit f p).0 (emit f p).1
    pub few : (f : State) (p : P) → length (emit f p).0 < n

  unfoldable pub feed_all :
      (List State → P → List P × List State) → List State → List P → List P × List State
  feed_all next fs [] = ([], fs)
  feed_all next fs (p ∷ ps) =
      let (qs, gs) = next fs p in let (rs, hs) = feed_all next gs ps in (qs ++ rs, hs)

  -- The specification: every packet that a filter makes goes through the filters behind it, in order.
  unfoldable pub pipeline : (State → P → List P × State) → ℕ → List State → P → List P × List State
  pipeline emit depth [] p = (p ∷ [], [])
  pipeline emit zero (f ∷ fs) p = ([], f ∷ fs)
  pipeline emit (suc depth) (f ∷ fs) p =
      let (ps, g) = emit f p in let (qs, hs) = feed_all (pipeline emit depth) fs ps in (qs, g ∷ hs)

  -- A call that returned, left the filters as the specification does, handed on its packets, and left
  -- `o` as the stream's packet.
  abbrev pub Hands : Done filters → List P × List State → Packets filters → Option P → Type 0
  Hands r (qs, hs) m o =
      (m' : Packets filters) × (r ≡ (returned, hs, m'))
      × (m'.out ≡ m.out ++ map some qs)
      × (m'.pkt ≡ o)

  abbrev HandsOn :
      (List State → Packets filters → Done filters)
      → (List State → P → List P × List State)
      → ℕ
      → Type 0
  HandsOn next spec k =
      (fs : List State) (p : P) (m : Packets filters)
      → m.recv ≡ some p
      → length fs ≡ k
      → Hands (next fs m) (spec fs p) m m.pkt × (length (spec fs p).1 ≡ k)

  pub map_join : (xs ys : List P) → map some (xs ++ ys) ≡ map some xs ++ map some ys
  map_join [] ys = refl
  map_join (x ∷ xs) ys = ap (λ (l : List (Option P)). some x ∷ l) (map_join xs ys)

  recv_loop-Hands :
      (n k : ℕ) (next : List State → Packets filters → Done filters)
      (spec : List State → P → List P × List State) (f g : State) (ps : List P) (fs : List State)
      (m : Packets filters)
      → HandsOn next spec k
      → Drains f ps g
      → length ps < n
      → length fs ≡ k
      → Hands
          (recv_loop filters n next f fs m)
          ((feed_all spec fs ps).0, g ∷ (feed_all spec fs ps).1)
          m
          m.pkt
        × (length (feed_all spec fs ps).1 ≡ k)
  unfolding recv_loop feed_all
  recv_loop-Hands zero k next spec f g ps fs m on d less e = absurd (omega arith)
  recv_loop-Hands (suc n) k next spec f g [] fs m on (dry r) less e = (
    (
      unref filters packet_recv_ m,
      ap (λ (a : Received P × State). taken filters a next fs m (recv_loop filters n next)) r,
      sym (append-nil m.out),
      refl,
    ),
    e,
  )
  recv_loop-Hands (suc n) k next spec f g (p ∷ []) fs m on (last r) less e =
      let ((m₁, a, o, u), l) = on fs p (record m { recv = some p }) refl e in
      (
        (
          unref filters packet_recv_ m₁,
          ap (λ (a : Received P × State). taken filters a next fs m (recv_loop filters n next)) r
              ∙ ap (λ (x : Done filters). passed filters g x (finish filters g)) a,
          o ∙ ap (λ (l : List P). m.out ++ map some l) (sym (append-nil (spec fs p).0)),
          u,
        ),
        l,
      )
  recv_loop-Hands (suc n) k next spec f g (p ∷ ps) fs m on (more {g = f₁} r d) less e =
      let ((m₁, a, o, u), l) = on fs p (record m { recv = some p }) refl e in
      let ((m₂, b, q, v), l₂) =
        recv_loop-Hands n k next spec f₁ g ps (spec fs p).1 (unref filters packet_recv_ m₁) on d
          (omega arith) l in
      (
        (
          m₂,
          ap (λ (a : Received P × State). taken filters a next fs m (recv_loop filters n next)) r
              ∙ ap (λ (x : Done filters). passed filters f₁ x (recv_loop filters n next f₁)) a
              ∙ b,
          q
              ∙ ap (λ (l : List (Option P)). l ++ map some (feed_all spec (spec fs p).1 ps).0) o
              ∙ append_assoc m.out (map some (spec fs p).0)
                  (map some (feed_all spec (spec fs p).1 ps).0)
              ∙ ap (λ (l : List (Option P)). m.out ++ l)
                  (sym (map_join (spec fs p).0 (feed_all spec (spec fs p).1 ps).0)),
          v ∙ u,
        ),
        l₂,
      )

  unref-out : (slot : Slot) (m : Packets filters) → (unref filters slot m).out ≡ m.out
  unref-out input m = refl
  unref-out packet_recv_ m = refl

  -- One filter, with the rest of the chain behind it.
  stage-Hands :
      (n k : ℕ) (next : List State → Packets filters → Done filters)
      (spec : List State → P → List P × List State) (f g : State) (ps : List P) (fs : List State)
      (slot : Slot) (p : P) (m : Packets filters)
      → load filters slot m ≡ some p
      → Emits f p ps g
      → length ps < n
      → length fs ≡ k
      → HandsOn next spec k
      → Hands
          (after_send filters (send_loop filters n slot f m) fs (recv_loop filters n next))
          ((feed_all spec fs ps).0, g ∷ (feed_all spec fs ps).1)
          m
          (unref filters slot m).pkt
        × (length (feed_all spec fs ps).1 ≡ k)
  unfolding send_loop feed_all
  stage-Hands zero k next spec f g ps fs slot p m holds emits less e on = absurd (omega arith)
  stage-Hands (suc n) k next spec f g [] fs slot p m holds (drops r) less e on = (
    (
      unref filters slot m,
      ap
          (λ (a : Status × State).
            after_send filters (sent filters a slot m (send_loop filters n slot)) fs
              (recv_loop filters (suc n) next))
          (ap (λ (o : Option P). filters.send_packet o f) holds ∙ r),
      unref-out slot m ∙ sym (append-nil m.out),
      refl,
    ),
    e,
  )
  stage-Hands (suc n) k next spec f g ps fs slot p m holds (takes {g = f₁} r d) less e on =
      let ((m₁, a, o, u), l) =
        recv_loop-Hands (suc n) k next spec f₁ g ps fs (unref filters slot m) on d less e in
      (
        (
          m₁,
          ap
                (λ (a : Status × State).
                  after_send filters (sent filters a slot m (send_loop filters n slot)) fs
                    (recv_loop filters (suc n) next))
                (ap (λ (o : Option P). filters.send_packet o f) holds ∙ r)
              ∙ a,
          o
              ∙ ap (λ (l : List (Option P)). l ++ map some (feed_all spec fs ps).0)
                  (unref-out slot m),
          u,
        ),
        l,
      )

  -- What is left in the stream's packet: `DoFilter` without a filter does not unreference it.
  abbrev left : Slot → List State → Packets filters → Option P
  left slot [] m = m.pkt
  left slot (f ∷ fs) m = (unref filters slot m).pkt

  left_recv : (fs : List State) (m : Packets filters) → left packet_recv_ fs m ≡ m.pkt
  left_recv [] m = refl
  left_recv (f ∷ fs) m = refl

  do_filter-Hands :
      (n k : ℕ) (acts : Acts n) (slot : Slot) (fs : List State) (p : P) (m : Packets filters)
      → load filters slot m ≡ some p
      → length fs ≡ k
      → Hands (do_filter filters n k slot fs m) (pipeline acts.emit k fs p) m (left slot fs m)
        × (length (pipeline acts.emit k fs p).1 ≡ k)
  unfolding do_filter pipeline
  do_filter-Hands n k acts slot [] p m holds e = (
    (
      record m { out = m.out ++ (load filters slot m ∷ []) },
      refl,
      ap (λ (o : Option P). m.out ++ (o ∷ [])) holds,
      refl,
    ),
    e,
  )
  do_filter-Hands n zero acts slot (f ∷ fs) p m holds e = absurd (omega arith)
  do_filter-Hands n (suc k) acts slot (f ∷ fs) p m holds e =
      let (h, l) =
        stage-Hands n k (do_filter filters n k packet_recv_) (pipeline acts.emit k) f
          (acts.emit f p).1 (acts.emit f p).0 fs slot p m holds (acts.emits f p) (acts.few f p)
          (omega arith)
          (λ gs q v a b.
            let ((w, x, y, z), l) = do_filter-Hands n k acts packet_recv_ gs q v a b in
            ((w, x, y, z ∙ left_recv gs v), l)) in
      (h, ap suc l)

  -- For filters that do not throw, never ask for a packet again and give fewer than `n` packets for
  -- one, `DoFilter` on a chain of at least one filter returns within `n` rounds of each loop; though
  -- all filters behind the first share one packet, it hands on exactly the packets that the
  -- specification makes, in that order and none of them blank, leaves the filters as the
  -- specification does, and leaves the stream's packet unreferenced.
  pub do_filter_lem :
      (n : ℕ) (acts : Acts n) (f : State) (fs : List State) (p : P) (m : Packets filters)
      → m.pkt ≡ some p
      → Hands
          (do_filter filters n (length (f ∷ fs)) input (f ∷ fs) m)
          (pipeline acts.emit (length (f ∷ fs)) (f ∷ fs) p)
          m
          none
  do_filter_lem n acts f fs p m holds =
      (do_filter-Hands n (length (f ∷ fs)) acts input (f ∷ fs) p m holds refl).0
