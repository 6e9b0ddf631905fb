-- ===== src/Proxy/Writes.antt =====
-- The send queue of rtsp-ws-proxy/ws_session.h under every order of the handlers.
use Prim.Native.String.{String}
use mathlib.Core.List.{Sublist}
use mathlib.Core.List.Sublist as Sub
use rtsp_wasm_player.Base.{
  ℕ, suc, ◌+◌, ◌≤◌, ◌<◌, ◌≡◌, refl, sym, ap, ◌⊎◌, inl, inr, Bool, true, false, List, [], ◌∷◌, ◌++◌,
  append-nil, append_assoc, arith, ltb, if◌then◌else◌, Bool-cases, length, take, drop,
  length-append,
}
use rtsp_wasm_player.Proxy.Session.{
  ErrorCode, success, operation_aborted, closed, other, failed, construct, on_event_fail, on_accept,
  on_read, do_send, write_front,
}
use rtsp_wasm_player.Proxy.Connection.{Connection, performs, start, send}

module _ {ℓ} {A : Type ℓ} where
  -- Before a write failed the outstanding write is the queue's front, afterwards there is none and
  -- the queue is not empty; what was written, with what waits behind the front, was sent in that
  -- order.
  pub record Ordered (max_size : ℕ) (queue writing : List A) (broken : Bool) (writes sent : List A)
      : Type ℓ where
    pub limit : 0 < max_size
    pub one_write :
        (broken ≡ false) × (writing ≡ take 1 queue)
        ⊎ (broken ≡ true) × (writing ≡ []) × 0 < length queue
    pub in_order : Sublist (writes ++ drop 1 queue) sent

  -- The same of a connection, and at most one accept or read is outstanding.
  pub record IsInOrder (c : Connection A) : Type ℓ where
    pub order :
        Ordered c.session.send_queue_max_size c.session.send_queue c.writing c.broken c.writes
          c.sent
    pub one_read : c.reads + c.accepts ≤ 1

  pub start-IsInOrder : (max_size : ℕ) → IsInOrder (start {A = A} max_size)
  unfolding start construct
  start-IsInOrder max_size = record {
    order = record { limit = ground arith; one_write = inl (refl, refl); in_order = Sub.refl [] };
    one_read = omega arith;
  }

  Sublist-more :
      (ws p s : List A) (x : A)
      → Sublist (ws ++ p) s
      → Sublist (ws ++ (p ++ (x ∷ []))) (s ++ (x ∷ []))
  Sublist-more ws p s x h = rw (sym (append_assoc ws p (x ∷ []))) (Sub.append h (Sub.refl _))

  sent_first :
      (m : ℕ) (w : List A) (b : Bool) (ws s : List A) (x : A)
      → Ordered m [] w b ws s
      → Ordered m (x ∷ []) (w ++ (x ∷ [])) b (ws ++ (x ∷ [])) (s ++ (x ∷ []))
  sent_first m w b ws s x o = record {
    limit = o.limit;
    one_write = elim o.one_write [
      | inl (e, f) ↦ inl (e, ap (λ (l : List A). l ++ (x ∷ [])) f)
      | inr (e, f, g) ↦ absurd (omega (arith, g))
    ];
    in_order = rw (append-nil (ws ++ (x ∷ []))) (Sublist-more ws [] s x o.in_order);
  }

  sent_behind :
      (m : ℕ) (y : A) (q w : List A) (b : Bool) (ws s : List A) (x : A)
      → Ordered m (y ∷ q) w b ws s
      → Ordered m (y ∷ q ++ (x ∷ [])) w b ws (s ++ (x ∷ []))
  sent_behind m y q w b ws s x o = record {
    limit = o.limit;
    one_write = elim o.one_write [ inl p ↦ inl p | inr (e, f, g) ↦ inr (e, f, omega arith) ];
    in_order = Sublist-more ws q s x o.in_order;
  }

  pub send-IsInOrder : (x : A) (c : Connection A) → IsInOrder c → IsInOrder (send x c)
  unfolding send do_send
  send-IsInOrder x c i = by c.session.send_queue i.order
    where
      by :
          (q : List A)
          → Ordered c.session.send_queue_max_size q c.writing c.broken c.writes c.sent
          → IsInOrder (
              performs
                (if ltb 1 (length (q ++ (x ∷ []))) then [] else write_front (q ++ (x ∷ [])))
                (record c {
                  session = record c.session { send_queue = q ++ (x ∷ []) };
                  sent = c.sent ++ (x ∷ []);
                }))
      by [] o = record { order = sent_first _ _ _ _ _ x o; one_read = i.one_read }
      by (y ∷ q) o =
          rw (many q) (record { order = sent_behind _ y q _ _ _ _ x o; one_read = i.one_read })
        where
          many : (q : List A) → ltb 1 (suc (length (q ++ (x ∷ [])))) ≡ true
          many q = ground (arith, length-append q (x ∷ []))

  -- Handlers that only dispatch and read leave what concerns writing.
  pub fail-IsInOrder :
      (ec : ErrorCode) (what : String) (c : Connection A)
      → IsInOrder c
      → IsInOrder (performs (on_event_fail ec what) c)
  unfolding on_event_fail
  fail-IsInOrder success what c i = record { order = i.order; one_read = i.one_read }
  fail-IsInOrder operation_aborted what c i = record { order = i.order; one_read = i.one_read }
  fail-IsInOrder closed what c i = record { order = i.order; one_read = i.one_read }
  fail-IsInOrder (other n) what c i = record { order = i.order; one_read = i.one_read }

  pub accept-IsInOrder :
      (ec : ErrorCode) (n : ℕ) (c : Connection A)
      → IsInOrder c
      → c.accepts ≡ suc n
      → IsInOrder (performs (on_accept ec) (record c { accepts = n }))
  unfolding on_accept
  accept-IsInOrder ec n c i e = elim (Bool-cases (failed ec)) [
    | inl f ↦ rw f (
        fail-IsInOrder ec "accept" _
          (record { order = i.order; one_read = omega (arith, i.one_read) }))
    | inr f ↦ rw f (record { order = i.order; one_read = omega (arith, i.one_read) })
  ]

  pub read-IsInOrder :
      (ec : ErrorCode) (bytes n : ℕ) (c : Connection A)
      → IsInOrder c
      → c.reads ≡ suc n
      → IsInOrder (performs (on_read ec bytes) (record c { reads = n }))
  unfolding on_read
  read-IsInOrder ec bytes n c i e = elim (Bool-cases (failed ec)) [
    | inl f ↦ rw f (
        fail-IsInOrder ec "read" _
          (record { order = i.order; one_read = omega (arith, i.one_read) }))
    | inr f ↦ rw f (record { order = i.order; one_read = omega (arith, i.one_read) })
  ]
