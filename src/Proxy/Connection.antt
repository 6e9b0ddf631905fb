-- ===== src/Proxy/Connection.antt =====
-- A session of rtsp-ws-proxy/ws_session.h with the operations that Boost.Asio has outstanding for
-- it. Its handlers run one after the other; which operation completes next, and with which error,
-- is open.
use rtsp_wasm_player.Base.{ℕ, suc, ◌+◌, ◌≡◌, Bool, false, ◌||◌, some, List, [], ◌∷◌, ◌++◌}
use rtsp_wasm_player.Proxy.Session.{
  ErrorCode, failed, Event, Call, dispatch, async_accept, async_read, async_write, Session,
  construct, run, on_accept, on_read, do_send, on_write,
}

-- `accepts`, `reads` and `writing` are outstanding. `sent`, `writes` and `events` are what was
-- sent, written and dispatched so far, and `broken` says that a write failed.
pub record Connection {ℓ} (A : Type ℓ) : Type ℓ where
  pub session : Session A
  pub accepts : ℕ
  pub reads : ℕ
  pub writing : List A
  pub broken : Bool
  pub sent : List A
  pub writes : List A
  pub events : List (Event A)

module _ {ℓ} {A : Type ℓ} where
  abbrev pub perform : Call A → Connection A → Connection A
  perform (dispatch e) c = record c { events = c.events ++ (e ∷ []) }
  perform async_accept c = record c { accepts = c.accepts + 1 }
  perform async_read c = record c { reads = c.reads + 1 }
  perform (async_write x) c = record c {
    writing = c.writing ++ (x ∷ []);
    writes = c.writes ++ (x ∷ []);
  }

  abbrev pub performs : List (Call A) → Connection A → Connection A
  performs [] c = c
  performs (x ∷ xs) c = performs xs (perform x c)

  unfoldable pub start : ℕ → Connection A
  start max_size = performs run (record {
    session = construct max_size;
    accepts = 0;
    reads = 0;
    writing = [];
    broken = false;
    sent = [];
    writes = [];
    events = [];
  })

  -- The handler that `Send` posts runs.
  unfoldable pub send : A → Connection A → Connection A
  send x c =
      let (calls, s) = do_send x c.session in
      performs calls (record c { session = s; sent = c.sent ++ (x ∷ []) })

  -- A write has completed with `ec`, `rest` is still outstanding and the handler gave a result.
  unfoldable pub settle :
      ErrorCode → List A → List (Call A) × Session A → Connection A → Connection A
  settle ec rest (calls, s) c =
      performs calls (record c { session = s; writing = rest; broken = c.broken || failed ec })

  -- One completed operation or one run of a posted handler.
  pub data Step (c : Connection A) : Connection A → Type ℓ where
    sends : (x : A) → Step c (send x c)
    accepted :
        (ec : ErrorCode) (n : ℕ)
        → c.accepts ≡ suc n
        → Step c (performs (on_accept ec) (record c { accepts = n }))
    received :
        (ec : ErrorCode) (bytes n : ℕ)
        → c.reads ≡ suc n
        → Step c (performs (on_read ec bytes) (record c { reads = n }))
    wrote :
        (ec : ErrorCode) (x : A) (rest : List A) (r : List (Call A) × Session A)
        → c.writing ≡ x ∷ rest
        → on_write ec c.session ≡ some r
        → Step c (settle ec rest r c)

  pub data Reach (c : Connection A) : Connection A → Type ℓ where
    here : Reach c c
    further : {d e : Connection A} → Reach c d → Step d e → Reach c e
