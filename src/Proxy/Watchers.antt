-- ===== src/Proxy/Watchers.antt =====
-- Whether a session of rtsp-ws-proxy/ws_stream_session.cc is in its room, under every order of its
-- handlers.
use Prim.Native.String.{String}
use rtsp_wasm_player.Base.{
  ℕ, ◌≡◌, refl, sym, ap, ◌∙◌, ◌⊎◌, inl, inr, Bool, true, false, not, ◌&&◌, ◌||◌, Option, none, some,
  List, [], ◌∷◌, ◌++◌, arith, ltb, if◌then◌else◌, Bool-cases, length,
}
use mathlib.Core.Path.{subst}
use rtsp_wasm_player.Proxy.Session.{
  ErrorCode, success, operation_aborted, closed, other, failed, Event, net_event_fail,
  net_event_open, net_event_opened, net_event_closed, net_event_send, net_event_recv, Call,
  dispatch, async_accept, async_read, async_write, Session, construct, on_event_fail, on_accept,
  on_read, do_send, write_front, trim, written, on_write,
}
use rtsp_wasm_player.Proxy.Connection.{Connection, perform, performs, start, send, settle}
use rtsp_wasm_player.Proxy.Watch.{
  is_opened, has_opened, has_closed, watching, Step, sends, accepted, received, wrote, Reach, here,
  further, IsWatching, last-IsWatching,
}
use rtsp_wasm_player.Proxy.Room.{Equality, mem, sessions_at, Room}
use rtsp_wasm_player.Proxy.Members as Members
use rtsp_wasm_player.Proxy.Members.{same_self, joins, leaves, asks, watches, run-watches}

module _ {ℓ} {A : Type ℓ} where
  -- Calls after the accept: they open nothing.
  abbrev IsHarmless : List (Call A) → Type 0
  IsHarmless [] = Unit {0}
  IsHarmless (dispatch e ∷ cs) = (is_opened e ≡ false) × IsHarmless cs
  IsHarmless (async_accept ∷ cs) = ⊥
  IsHarmless (async_read ∷ cs) = IsHarmless cs
  IsHarmless (async_write x ∷ cs) = IsHarmless cs

  record IsRun (c : Connection A) : Type 0 where
    accepts : c.accepts ≡ 0
    watch : IsWatching c.events

  record IsWaiting (c : Connection A) : Type ℓ where
    accepts : c.accepts ≡ 1
    reads : c.reads ≡ 0
    writing : c.writing ≡ []
    opened : has_opened c.events ≡ false
    closed : has_closed c.events ≡ false
    watch : IsWatching c.events

  abbrev IsKnown : Connection A → Type ℓ
  IsKnown c = IsWaiting c ⊎ IsRun c

  performs-IsRun :
      (cs : List (Call A)) (c : Connection A) → IsHarmless cs → IsRun c → IsRun (performs cs c)
  performs-IsRun [] c h i = i
  performs-IsRun (dispatch e ∷ cs) c (n, h) i =
      performs-IsRun cs (perform (dispatch e) c) h (record {
        accepts = i.accepts;
        watch = last-IsWatching c.events e (λ o. absurd (cc (n, o))) i.watch;
      })
  performs-IsRun (async_accept ∷ cs) c h i = absurd h
  performs-IsRun (async_read ∷ cs) c h i =
      performs-IsRun cs (perform async_read c) h (record { accepts = i.accepts; watch = i.watch })
  performs-IsRun (async_write x ∷ cs) c h i =
      performs-IsRun cs (perform (async_write x) c) h
        (record { accepts = i.accepts; watch = i.watch })

module _ {ℓ} (A : Type ℓ) where
  fail-IsHarmless : (ec : ErrorCode) (what : String) → IsHarmless (on_event_fail {A = A} ec what)
  unfolding on_event_fail
  fail-IsHarmless success what = (refl, (refl, tt))
  fail-IsHarmless operation_aborted what = (refl, tt)
  fail-IsHarmless closed what = (refl, tt)
  fail-IsHarmless (other n) what = (refl, (refl, tt))

  if-IsHarmless :
      (b : Bool) (cs ds : List (Call A))
      → IsHarmless cs
      → IsHarmless ds
      → IsHarmless (if b then cs else ds)
  if-IsHarmless true cs ds h k = h
  if-IsHarmless false cs ds h k = k

  read-IsHarmless : (ec : ErrorCode) (n : ℕ) → IsHarmless (on_read {A = A} ec n)
  unfolding on_read
  read-IsHarmless ec n =
      if-IsHarmless (failed ec) (on_event_fail ec "read")
        (dispatch (net_event_recv n) ∷ async_read ∷ []) (fail-IsHarmless ec "read") (refl, tt)

module _ {ℓ} {A : Type ℓ} where
  front-IsHarmless : (q : List A) → IsHarmless (write_front q)
  front-IsHarmless [] = tt
  front-IsHarmless (x ∷ q) = (refl, tt)

  send-IsHarmless : (x : A) (s : Session A) → IsHarmless (do_send x s).0
  unfolding do_send
  send-IsHarmless x s =
      if-IsHarmless A (ltb 1 (length (s.send_queue ++ (x ∷ [])))) []
        (write_front (s.send_queue ++ (x ∷ []))) tt (front-IsHarmless (s.send_queue ++ (x ∷ [])))

  -- What a result of `OnWrite` calls.
  abbrev Calls : Option (List (Call A) × Session A) → Type 0
  Calls none = Unit {0}
  Calls (some r) = IsHarmless r.0

  written-Calls : (q : List A) (s : Session A) → Calls (written q s)
  written-Calls [] s = tt
  written-Calls (x ∷ q) s = front-IsHarmless (trim s.send_queue_max_size q)

  write-IsHarmless :
      (ec : ErrorCode) (s : Session A) (r : List (Call A) × Session A)
      → on_write ec s ≡ some r
      → IsHarmless r.0
  unfolding on_write
  write-IsHarmless ec s r e = subst Calls e (by (failed ec))
    where
      by :
          (b : Bool)
          → Calls (if b then some (on_event_fail ec "write", s) else written s.send_queue s)
      by true = fail-IsHarmless A ec "write"
      by false = written-Calls s.send_queue s

  accept-IsRun :
      (ec : ErrorCode) (c : Connection A)
      → IsWaiting c
      → IsRun (performs (on_accept ec) (record c { accepts = 0 }))
  unfolding on_accept
  accept-IsRun ec c w = by (failed ec)
    where
      run : IsRun (record c { accepts = 0 })
      run = record { accepts = refl; watch = w.watch }

      by :
          (b : Bool)
          → IsRun (
              performs
                (if b
                  then on_event_fail ec "accept"
                  else dispatch net_event_opened ∷ async_read ∷ [])
                (record c { accepts = 0 }))
      by true =
          performs-IsRun (on_event_fail ec "accept") (record c { accepts = 0 })
            (fail-IsHarmless A ec "accept") run
      by false = record {
        accepts = refl;
        watch = last-IsWatching c.events net_event_opened (λ o. w.closed) w.watch;
      }

  Step-IsKnown : {c d : Connection A} → Step c d → IsKnown c → IsKnown d
  unfolding send settle
  Step-IsKnown {c} (sends x o) (inl w) = absurd (cc (o, w.opened))
  Step-IsKnown {c} (sends x o) (inr i) = inr (
      performs-IsRun (do_send x c.session).0 _ (send-IsHarmless x c.session)
        (record { accepts = i.accepts; watch = i.watch }))
  Step-IsKnown {c} (accepted ec n e) (inl w) =
      let z : n ≡ 0 = omega arith in
      inr (
        subst (λ k. IsRun (performs (on_accept ec) (record c { accepts = k }))) (sym z)
          (accept-IsRun ec c w))
  Step-IsKnown {c} (accepted ec n e) (inr i) = absurd (omega (arith, e, i.accepts))
  Step-IsKnown {c} (received ec bytes n e) (inl w) = absurd (omega (arith, e, w.reads))
  Step-IsKnown {c} (received ec bytes n e) (inr i) = inr (
      performs-IsRun (on_read ec bytes) (record c { reads = n }) (read-IsHarmless A ec bytes)
        (record { accepts = i.accepts; watch = i.watch }))
  Step-IsKnown {c} (wrote ec x rest r e f) (inl w) = absurd (cc (e, w.writing))
  Step-IsKnown {c} (wrote ec x rest r e f) (inr i) = inr (
      performs-IsRun r.0 _ (write-IsHarmless ec c.session r f)
        (record { accepts = i.accepts; watch = i.watch }))

  start-IsKnown : (max_size : ℕ) → IsKnown (start {A = A} max_size)
  unfolding start construct watching has_opened has_closed
  start-IsKnown max_size = inl (record {
    accepts = omega arith;
    reads = refl;
    writing = refl;
    opened = refl;
    closed = refl;
    watch = refl;
  })

  Reach-IsKnown : (c d : Connection A) → Reach c d → IsKnown c → IsKnown d
  Reach-IsKnown c d here i = i
  Reach-IsKnown c d (further r s) i = Step-IsKnown s (Reach-IsKnown c _ r i)

  known-IsWatching : {c : Connection A} → IsKnown c → IsWatching c.events
  known-IsWatching (inl w) = w.watch
  known-IsWatching (inr i) = i.watch

module _ {K S : Type 0} (keys : Equality K) (values : Equality S) (id : K) (self : S) where
  -- What the session's events call of its room.
  unfoldable pub room_calls : List (Event (List ℕ)) → List (Members.Call keys values)
  room_calls [] = []
  room_calls (net_event_opened ∷ es) = joins id self ∷ room_calls es
  room_calls (net_event_closed ∷ es) = leaves id self ∷ room_calls es
  room_calls (net_event_fail ec what ∷ es) = room_calls es
  room_calls (net_event_open ∷ es) = room_calls es
  room_calls (net_event_send x ∷ es) = room_calls es
  room_calls (net_event_recv n ∷ es) = room_calls es

  -- The calls of a history that are this session's.
  abbrev own :
      Bool
      → Members.Call keys values
      → List (Members.Call keys values)
      → List (Members.Call keys values)
  own true c cs = c ∷ cs
  own false c cs = cs

  unfoldable pub mine : List (Members.Call keys values) → List (Members.Call keys values)
  mine [] = []
  mine (joins i t ∷ cs) = own (keys.same i id && values.same t self) (joins i t) (mine cs)
  mine (leaves i t ∷ cs) = own (keys.same i id && values.same t self) (leaves i t) (mine cs)
  mine (asks i ∷ cs) = mine cs
  mine (Members.sends i ∷ cs) = mine cs

  watches-mine :
      (cs : List (Members.Call keys values)) (b : Bool)
      → watches keys values id self (mine cs) b ≡ watches keys values id self cs b
  unfolding mine watches
  watches-mine [] b = refl
  watches-mine (joins i t ∷ cs) b = elim (Bool-cases (keys.same i id && values.same t self)) [
    | inl a ↦
        ap (λ x. watches keys values id self (own x (joins i t) (mine cs)) b) a
        ∙ ap (λ x. watches keys values id self (mine cs) (x || b)) a
        ∙ watches-mine cs true
        ∙ ap (λ x. watches keys values id self cs (x || b)) (sym a)
    | inr a ↦
        ap (λ x. watches keys values id self (own x (joins i t) (mine cs)) b) a
        ∙ watches-mine cs b
        ∙ ap (λ x. watches keys values id self cs (x || b)) (sym a)
  ]
  watches-mine (leaves i t ∷ cs) b = elim (Bool-cases (keys.same i id && values.same t self)) [
    | inl a ↦
        ap (λ x. watches keys values id self (own x (leaves i t) (mine cs)) b) a
        ∙ ap (λ x. watches keys values id self (mine cs) (not x && b)) a
        ∙ watches-mine cs false
        ∙ ap (λ x. watches keys values id self cs (not x && b)) (sym a)
    | inr a ↦
        ap (λ x. watches keys values id self (own x (leaves i t) (mine cs)) b) a
        ∙ watches-mine cs b
        ∙ ap (λ x. watches keys values id self cs (not x && b)) (sym a)
  ]
  watches-mine (asks i ∷ cs) b = watches-mine cs b
  watches-mine (Members.sends i ∷ cs) b = watches-mine cs b

  itself : (keys.same id id && values.same self self) ≡ true
  itself = rw (same_self keys id, same_self values self)

  watches-room_calls :
      (es : List (Event (List ℕ))) (b : Bool)
      → watches keys values id self (room_calls es) b ≡ watching es b
  unfolding room_calls watches watching
  watches-room_calls [] b = refl
  watches-room_calls (net_event_opened ∷ es) b =
      ap (λ x. watches keys values id self (room_calls es) (x || b)) itself
      ∙ watches-room_calls es true
  watches-room_calls (net_event_closed ∷ es) b =
      ap (λ x. watches keys values id self (room_calls es) (not x && b)) itself
      ∙ watches-room_calls es false
  watches-room_calls (net_event_fail ec what ∷ es) b = watches-room_calls es b
  watches-room_calls (net_event_open ∷ es) b = watches-room_calls es b
  watches-room_calls (net_event_send x ∷ es) b = watches-room_calls es b
  watches-room_calls (net_event_recv n ∷ es) b = watches-room_calls es b

  -- Whatever is sent to a session of a stream, completes and fails, in any order, and whatever the
  -- other sessions call of the room in between: a session that was not in its stream's set is in it
  -- exactly when it has opened and has not closed since it was made.
  pub watching_iff :
      (max_size : ℕ) (c : Connection (List ℕ)) (cs : List (Members.Call keys values))
      (r : Room keys values)
      → Reach (start max_size) c
      → mine cs ≡ room_calls c.events
      → mem keys values self (sessions_at keys values id r) ≡ false
      → mem keys values self (sessions_at keys values id (Members.run keys values cs r))
        ≡ (has_opened c.events && not (has_closed c.events))
  watching_iff max_size c cs r reach own_calls absent =
      run-watches keys values id self cs r
      ∙ ap (watches keys values id self cs) absent
      ∙ sym (watches-mine cs false)
      ∙ ap (λ l. watches keys values id self l false) own_calls
      ∙ watches-room_calls c.events false
      ∙ known-IsWatching (Reach-IsKnown (start max_size) c reach (start-IsKnown max_size))
