-- ===== src/Proxy/Keeps.antt =====
-- When the send queue of rtsp-ws-proxy/ws_session.h loses nothing.
use Prim.Native.String.{String}
use mathlib.Core.Path.{subst}
use mathlib.Core.Option.{some-injective, none-ne-some}
use rtsp_wasm_player.Base.{
  ℕ, suc, ◌≤◌, ◌≡◌, refl, sym, ap, ◌∙◌, inl, inr, true, false, ◌||◌, some, List, [], ◌∷◌, ◌++◌,
  append-nil, append_assoc, arith, ltb, if◌then◌else◌, Bool-cases, length, drop, length-append,
  length-drop,
}
use rtsp_wasm_player.Proxy.Session.{
  ErrorCode, success, operation_aborted, closed, other, failed, Call, Session, construct,
  on_event_fail, on_accept, on_read, do_send, on_write, trim, written, write_front,
}
use rtsp_wasm_player.Proxy.Connection.{
  Connection, performs, start, send, settle, Step, sends, accepted, received, wrote, Reach, here,
  further,
}
use rtsp_wasm_player.Proxy.Queue.{Reach-IsInOrder}
use rtsp_wasm_player.Proxy.Drain.{trim_within, Drained, drain}

module _ {ℓ} {A : Type ℓ} where
  -- While no more was sent than the limit, all of it was written or waits behind the front.
  abbrev KeepsAll : (max_size : ℕ) (queue writes sent : List A) → Type ℓ
  KeepsAll max_size queue writes sent = length sent ≤ max_size → writes ++ drop 1 queue ≡ sent

  abbrev Keeps : Connection A → Type ℓ
  Keeps c = KeepsAll c.session.send_queue_max_size c.session.send_queue c.writes c.sent

  send-Keeps : (x : A) (c : Connection A) → Keeps c → Keeps (send x c)
  unfolding send do_send
  send-Keeps x c k = by c.session.send_queue k
    where
      fewer :
          length (c.sent ++ (x ∷ [])) ≤ c.session.send_queue_max_size
          → length c.sent ≤ c.session.send_queue_max_size
      fewer le = omega (arith, le, length-append c.sent (x ∷ []))

      by :
          (q : List A)
          → KeepsAll c.session.send_queue_max_size q c.writes c.sent
          → Keeps (
              performs
                (if ltb 1 (length (q ++ (x ∷ []))) then [] else write_front (q ++ (x ∷ [])))
                (record c {
                  session = record c.session { send_queue = q ++ (x ∷ []) };
                  sent = c.sent ++ (x ∷ []);
                }))
      by [] k = λ le.
          append-nil (c.writes ++ (x ∷ []))
          ∙ ap (λ (l : List A). l ++ (x ∷ [])) (sym (append-nil c.writes) ∙ k (fewer le))
      by (y ∷ q) k = rw (many q) (λ le.
          sym (append_assoc c.writes q (x ∷ []))
          ∙ ap (λ (l : List A). l ++ (x ∷ [])) (k (fewer le)))
        where
          many : (q : List A) → ltb 1 (suc (length (q ++ (x ∷ [])))) ≡ true
          many q = ground (arith, length-append q (x ∷ []))

  fail-Keeps :
      (ec : ErrorCode) (what : String) (c : Connection A)
      → Keeps c
      → Keeps (performs (on_event_fail ec what) c)
  unfolding on_event_fail
  fail-Keeps success what c k = k
  fail-Keeps operation_aborted what c k = k
  fail-Keeps closed what c k = k
  fail-Keeps (other n) what c k = k

  -- The queue becomes `t`, whose front is written next.
  front-Keeps :
      (t rest : List A) (c : Connection A)
      → (length c.sent ≤ c.session.send_queue_max_size → c.writes ++ t ≡ c.sent)
      → Keeps (
          performs
            (write_front t)
            (record c { session = record c.session { send_queue = t }; writing = rest }))
  front-Keeps [] rest c k = k
  front-Keeps (z ∷ t) rest c k = λ le. append_assoc c.writes (z ∷ []) t ∙ k le

  next-Keeps :
      (y : A) (q rest : List A) (c : Connection A)
      → KeepsAll c.session.send_queue_max_size (y ∷ q) c.writes c.sent
      → Keeps (
          performs (write_front (trim c.session.send_queue_max_size q)) (record c {
            session = record c.session { send_queue = trim c.session.send_queue_max_size q };
            writing = rest;
          }))
  next-Keeps y q rest c k = front-Keeps (trim c.session.send_queue_max_size q) rest c (λ le.
      ap (λ (l : List A). c.writes ++ l)
        (trim_within c.session.send_queue_max_size q
          (omega (arith, le, sym (length-append c.writes q) ∙ ap (length {A = A}) (k le))))
      ∙ k le)

  settle-Keeps :
      (ec : ErrorCode) (rest : List A) (r : List (Call A) × Session A) (c : Connection A)
      → Keeps c
      → on_write ec c.session ≡ some r
      → Keeps (settle ec rest r c)
  unfolding on_write settle
  settle-Keeps ec rest r c k = elim (Bool-cases (failed ec)) [
    | inl f ↦ rw f (λ p. subst after (some-injective _ r p) (fail-Keeps ec "write" _ k))
    | inr f ↦ rw f (by c.session.send_queue k)
  ]
    where
      after : List (Call A) × Session A → Type ℓ
      after r =
          Keeps
            (performs r.0 (record c { session = r.1; writing = rest; broken = c.broken || true }))

      after_success : List (Call A) × Session A → Type ℓ
      after_success r =
          Keeps
            (performs r.0 (record c { session = r.1; writing = rest; broken = c.broken || false }))

      by :
          (q : List A)
          → KeepsAll c.session.send_queue_max_size q c.writes c.sent
          → written q c.session ≡ some r
          → after_success r
      by [] k p = absurd (none-ne-some r p)
      by (y ∷ q) k p =
          subst after_success (some-injective _ r p)
            (next-Keeps y q rest (record c { broken = c.broken || false }) k)

  Step-Keeps : {c d : Connection A} → Step c d → Keeps c → Keeps d
  unfolding on_accept on_read
  Step-Keeps {c} (sends x) k = send-Keeps x c k
  Step-Keeps {c} (accepted ec n e) k = elim (Bool-cases (failed ec)) [
    | inl f ↦ rw f (fail-Keeps ec "accept" _ k)
    | inr f ↦ rw f k
  ]
  Step-Keeps {c} (received ec bytes n e) k = elim (Bool-cases (failed ec)) [
    | inl f ↦ rw f (fail-Keeps ec "read" _ k)
    | inr f ↦ rw f k
  ]
  Step-Keeps {c} (wrote ec x rest r e f) k = settle-Keeps ec rest r c k f

  Reach-Keeps : (max_size : ℕ) (c : Connection A) → Reach (start max_size) c → Keeps c
  unfolding start construct
  Reach-Keeps max_size c here = λ le. refl
  Reach-Keeps max_size c (further r s) = Step-Keeps s (Reach-Keeps max_size _ r)

  -- Where a session was given no more than its limit and no write failed, completions of writes lead
  -- to a state in which everything that it was given is written, in order.
  pub drain_all :
      (max_size : ℕ) (c : Connection A)
      → Reach (start max_size) c
      → length c.sent ≤ c.session.send_queue_max_size
      → c.broken ≡ false
      → (after : Connection A) × Reach c after × (after.writes ≡ c.sent)
  drain_all max_size c r le b =
      let d : Drained c (drop 1 c.session.send_queue) = drain c (Reach-IsInOrder max_size c r) b (
        omega (
          arith,
          le,
          length-drop 1 c.session.send_queue,
          length-append c.writes (drop 1 c.session.send_queue),
          ap (length {A = A}) (Reach-Keeps max_size c r le),
        )) in
      (d.after, d.reached, d.all_written ∙ Reach-Keeps max_size c r le)
