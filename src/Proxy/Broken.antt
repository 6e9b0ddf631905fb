-- ===== src/Proxy/Broken.antt =====
-- After a failed write a session of rtsp-ws-proxy/ws_session.h writes nothing more.
use Prim.Native.String.{String}
use rtsp_wasm_player.Base.{
  ℕ, ◌<◌, ◌≡◌, refl, ◌∙◌, inl, inr, true, List, [], ◌∷◌, ◌++◌, arith, ltb, if◌then◌else◌,
  Bool-cases, length, length-append,
}
use rtsp_wasm_player.Proxy.Session.{
  ErrorCode, success, operation_aborted, closed, other, failed, on_event_fail, on_accept, on_read,
  do_send, write_front,
}
use rtsp_wasm_player.Proxy.Connection.{
  Connection, performs, send, Step, sends, accepted, received, wrote, Reach, here, further,
}
use rtsp_wasm_player.Proxy.Writes.{IsInOrder}
use rtsp_wasm_player.Proxy.Settle.{front_lem}
use rtsp_wasm_player.Proxy.Queue.{Step-IsInOrder}

module _ {ℓ} {A : Type ℓ} where
  -- Both are broken, and the same was written.
  abbrev pub StaysBroken : Connection A → Connection A → Type ℓ
  StaysBroken c d = (d.broken ≡ true) × (d.writes ≡ c.writes)

  fail_broken :
      (ec : ErrorCode) (what : String) (c : Connection A)
      → c.broken ≡ true
      → StaysBroken c (performs (on_event_fail ec what) c)
  unfolding on_event_fail
  fail_broken success what c b = (b, refl)
  fail_broken operation_aborted what c b = (b, refl)
  fail_broken closed what c b = (b, refl)
  fail_broken (other n) what c b = (b, refl)

  accept_broken :
      (ec : ErrorCode) (c : Connection A)
      → c.broken ≡ true
      → StaysBroken c (performs (on_accept ec) c)
  unfolding on_accept
  accept_broken ec c b = elim (Bool-cases (failed ec)) [
    | inl f ↦ rw f (fail_broken ec "accept" c b)
    | inr f ↦ rw f (b, refl)
  ]

  read_broken :
      (ec : ErrorCode) (bytes : ℕ) (c : Connection A)
      → c.broken ≡ true
      → StaysBroken c (performs (on_read ec bytes) c)
  unfolding on_read
  read_broken ec bytes c b = elim (Bool-cases (failed ec)) [
    | inl f ↦ rw f (fail_broken ec "read" c b)
    | inr f ↦ rw f (b, refl)
  ]

  send_broken :
      (x : A) (c : Connection A) → IsInOrder c → c.broken ≡ true → StaysBroken c (send x c)
  unfolding send do_send
  send_broken x c i b = by c.session.send_queue waits
    where
      waits : 0 < length c.session.send_queue
      waits = elim i.order.one_write [ inl (p, w) ↦ absurd (cc (b, p)) | inr (p, w, l) ↦ l ]

      by :
          (q : List A)
          → 0 < length q
          → StaysBroken c (
              performs
                (if ltb 1 (length (q ++ (x ∷ []))) then [] else write_front (q ++ (x ∷ [])))
                (record c {
                  session = record c.session { send_queue = q ++ (x ∷ []) };
                  sent = c.sent ++ (x ∷ []);
                }))
      by q l = rw (many q l) (b, refl)
        where
          many : (q : List A) → 0 < length q → ltb 1 (length (q ++ (x ∷ []))) ≡ true
          many q l = ground (arith, length-append q (x ∷ []))

  Step_broken : {c d : Connection A} → Step c d → IsInOrder c → c.broken ≡ true → StaysBroken c d
  Step_broken {c} (sends x) i b = send_broken x c i b
  Step_broken {c} (accepted ec n e) i b = accept_broken ec (record c { accepts = n }) b
  Step_broken {c} (received ec bytes n e) i b = read_broken ec bytes (record c { reads = n }) b
  Step_broken {c} (wrote ec x rest r e f) i b =
      absurd (cc (b, (front_lem _ _ _ _ _ rest _ x i.order e).0))

  Reach-IsInOrder_from : {c d : Connection A} → Reach c d → IsInOrder c → IsInOrder d
  Reach-IsInOrder_from here i = i
  Reach-IsInOrder_from (further r s) i = Step-IsInOrder s (Reach-IsInOrder_from r i)

  -- A session in order on which a write has failed never writes again, whatever is sent to it and
  -- whatever completes.
  pub Reach_broken :
      (c d : Connection A) → IsInOrder c → c.broken ≡ true → Reach c d → StaysBroken c d
  Reach_broken c d i b here = (b, refl)
  Reach_broken c d i b (further {d = m} r s) =
      let (p, w) = Reach_broken c m i b r in
      let (p', w') = Step_broken s (Reach-IsInOrder_from r i) p in (p', w' ∙ w)
