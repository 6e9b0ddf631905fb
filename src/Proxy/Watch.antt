-- ===== src/Proxy/Watch.antt =====
-- WsStreamSession of rtsp-ws-proxy/ws_stream_session.cc: a session that joins its stream's room when
-- it has opened and leaves it when it closes.
use mathlib.Core.Path.{ap₂}
use rtsp_wasm_player.Base.{
  ℕ, suc, ◌≡◌, refl, sym, ◌∙◌, Bool, true, false, not, ◌&&◌, ◌||◌, some, List, [], ◌∷◌, ◌++◌, arith,
}
use rtsp_wasm_player.Proxy.Session.{
  ErrorCode, Event, net_event_fail, net_event_open, net_event_opened, net_event_closed,
  net_event_send, net_event_recv, Call, Session, on_accept, on_read, on_write,
}
use rtsp_wasm_player.Proxy.Connection.{Connection, performs, send, settle}

module _ {ℓ} {A : Type ℓ} where
  -- `OnEventOpened` and `OnEventClosed` on whether the session is in the room.
  abbrev pub after_event : Event A → Bool → Bool
  after_event net_event_opened b = true
  after_event net_event_closed b = false
  after_event _ b = b

  unfoldable pub watching : List (Event A) → Bool → Bool
  watching [] b = b
  watching (e ∷ es) b = watching es (after_event e b)

  abbrev pub is_opened : Event A → Bool
  is_opened net_event_opened = true
  is_opened _ = false

  abbrev pub is_closed : Event A → Bool
  is_closed net_event_closed = true
  is_closed _ = false

  unfoldable pub has_opened : List (Event A) → Bool
  has_opened [] = false
  has_opened (e ∷ es) = is_opened e || has_opened es

  unfoldable pub has_closed : List (Event A) → Bool
  has_closed [] = false
  has_closed (e ∷ es) = is_closed e || has_closed es

  -- The steps of a session in a room: what is sent to it comes from the room, so it has opened.
  pub data Step (c : Connection A) : Connection A → Type ℓ where
    sends : (x : A) → has_opened c.events ≡ true → Step c (send x c)
    accepted :
        (ec : ErrorCode) (n : ℕ)
        → c.accepts ≡ suc n
        → Step c (performs (on_accept ec) (record c { accepts = n }))
    received :
        (ec : ErrorCode) (bytes n : ℕ)
        → c.reads ≡ suc n
        → Step c (performs (on_read ec bytes) (record c { reads = n }))
    wrote :
        (ec : ErrorCode) (x : A) (rest : List A) (r : List (Call A) × Session A)
        → c.writing ≡ x ∷ rest
        → on_write ec c.session ≡ some r
        → Step c (settle ec rest r c)

  pub data Reach (c : Connection A) : Connection A → Type ℓ where
    here : Reach c c
    further : {d e : Connection A} → Reach c d → Step d e → Reach c e

  -- The session is in the room when it has opened and has not closed.
  abbrev pub IsWatching : List (Event A) → Type 0
  IsWatching es = watching es false ≡ (has_opened es && not (has_closed es))

  watching_last :
      (es : List (Event A)) (e : Event A) (b : Bool)
      → watching (es ++ (e ∷ [])) b ≡ after_event e (watching es b)
  unfolding watching
  watching_last [] e b = refl
  watching_last (x ∷ es) e b = watching_last es e (after_event x b)

  opened_last :
      (es : List (Event A)) (e : Event A)
      → has_opened (es ++ (e ∷ [])) ≡ (has_opened es || is_opened e)
  unfolding has_opened
  opened_last [] e = ground arith
  opened_last (x ∷ es) e =
      rw (opened_last es e) (or_assoc (is_opened x) (has_opened es) (is_opened e))
    where
      or_assoc : (a b c : Bool) → (a || (b || c)) ≡ ((a || b) || c)
      or_assoc a b c = ground arith

  closed_last :
      (es : List (Event A)) (e : Event A)
      → has_closed (es ++ (e ∷ [])) ≡ (has_closed es || is_closed e)
  unfolding has_closed
  closed_last [] e = ground arith
  closed_last (x ∷ es) e =
      rw (closed_last es e) (or_assoc (is_closed x) (has_closed es) (is_closed e))
    where
      or_assoc : (a b c : Bool) → (a || (b || c)) ≡ ((a || b) || c)
      or_assoc a b c = ground arith

  -- Where the session has not closed, an event that opens it may come; any other may always come.
  pub last-IsWatching :
      (es : List (Event A)) (e : Event A)
      → (is_opened e ≡ true → has_closed es ≡ false)
      → IsWatching es
      → IsWatching (es ++ (e ∷ []))
  last-IsWatching es e fresh h =
      watching_last es e false
      ∙ by e fresh
      ∙ sym (ap₂ (λ a b. a && not b) (opened_last es e) (closed_last es e))
    where
      by :
          (e : Event A)
          → (is_opened e ≡ true → has_closed es ≡ false)
          → after_event e (watching es false)
            ≡ ((has_opened es || is_opened e) && not (has_closed es || is_closed e))
      by net_event_opened f = ground (arith, f refl)
      by net_event_closed f = ground arith
      by (net_event_fail c w) f = ground (arith, h)
      by net_event_open f = ground (arith, h)
      by (net_event_send x) f = ground (arith, h)
      by (net_event_recv n) f = ground (arith, h)
