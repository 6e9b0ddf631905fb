-- ===== src/Proxy/Queue.antt =====
-- What every order of the handlers of rtsp-ws-proxy/ws_session.h makes of the send queue.
use rtsp_wasm_player.Base.{
  ℕ, ◌-◌, ◌≤◌, ◌<◌, ◌≡◌, refl, ◌⊎◌, inl, inr, true, false, some, List, [], ◌∷◌, arith, Bool-cases,
  length, length-drop,
}
use rtsp_wasm_player.Proxy.Session.{ErrorCode, failed, Call, Session, on_write, trim, written}
use rtsp_wasm_player.Proxy.Connection.{
  Connection, start, Step, sends, accepted, received, wrote, Reach, here, further,
}
use rtsp_wasm_player.Proxy.Writes.{
  IsInOrder, start-IsInOrder, send-IsInOrder, accept-IsInOrder, read-IsInOrder,
}
use rtsp_wasm_player.Proxy.Settle.{settle-IsInOrder, front_lem}

module _ {ℓ} {A : Type ℓ} where
  pub Step-IsInOrder : {c d : Connection A} → Step c d → IsInOrder c → IsInOrder d
  Step-IsInOrder {c} (sends x) i = send-IsInOrder x c i
  Step-IsInOrder {c} (accepted ec n e) i = accept-IsInOrder ec n c i e
  Step-IsInOrder {c} (received ec bytes n e) i = read-IsInOrder ec bytes n c i e
  Step-IsInOrder {c} (wrote ec x rest r e f) i = settle-IsInOrder ec x rest r c i e f

  -- Whatever is sent, completes and fails on a session, in any order: at most one read and one
  -- write are outstanding, a write is of the queue's front, after a failed write there is none,
  -- and what was written, with what waits behind the front, was sent in that order.
  pub Reach-IsInOrder : (max_size : ℕ) (c : Connection A) → Reach (start max_size) c → IsInOrder c
  Reach-IsInOrder max_size c here = start-IsInOrder max_size
  Reach-IsInOrder max_size c (further r s) = Step-IsInOrder s (Reach-IsInOrder max_size _ r)

  -- A completed write on a session in order, with an error or not, never erases the front of an
  -- empty queue; without an error the queue is within its limit afterwards.
  pub on_write_lem :
      (ec : ErrorCode) (c : Connection A) (x : A) (rest : List A)
      → IsInOrder c
      → c.writing ≡ x ∷ rest
      → (r : List (Call A) × Session A) × (on_write ec c.session ≡ some r)
        × ((failed ec ≡ true) ⊎ (length r.1.send_queue ≤ r.1.send_queue_max_size))
  unfolding on_write trim
  on_write_lem ec c x rest i e = elim (Bool-cases (failed ec)) [
    | inl f ↦ rw f (_, refl, inl refl)
    | inr f ↦ rw f (by c.session.send_queue (front_lem _ _ _ _ _ rest _ x i.order e))
  ]
    where
      trimmed :
          (q : List A)
          → length (trim c.session.send_queue_max_size q) ≤ c.session.send_queue_max_size
      trimmed q =
          ground (arith, i.order.limit, length-drop (length q - c.session.send_queue_max_size) q)

      by :
          (q : List A)
          → (c.broken ≡ false) × (rest ≡ []) × 0 < length q
          → (r : List (Call A) × Session A) × (written q c.session ≡ some r)
            × ((false ≡ true) ⊎ (length r.1.send_queue ≤ r.1.send_queue_max_size))
      by [] (b, n, l) = absurd (omega (arith, l))
      by (y ∷ q) (b, n, l) = (_, refl, inr (trimmed q))
