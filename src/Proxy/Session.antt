-- ===== src/Proxy/Session.antt =====
-- class WsSession of rtsp-ws-proxy/ws_session.h. A handler gives the calls that it makes, in their
-- order, and the session after it. The timeout and the decorator of `Run`, the log lines and the
-- time stamps are left out.
use Prim.Native.String.{String}
use rtsp_wasm_player.Base.{
  ℕ, ◌-◌, Bool, true, false, ◌&&◌, Option, none, some, List, [], ◌∷◌, ◌++◌, ltb, ◌==◌,
  if◌then◌else◌, length, drop,
}

-- `beast::error_code`, with the two values that `OnEventFail` compares with.
pub data ErrorCode : Type 0 where
  success operation_aborted closed : ErrorCode
  other : ℕ → ErrorCode

-- `if (ec)`
abbrev pub failed : ErrorCode → Bool
failed success = false
failed _ = true

-- NetEventId of common/net/event.h, with what each event carries.
pub data Event {ℓ} (A : Type ℓ) : Type ℓ where
  net_event_fail : ErrorCode → String → Event A
  net_event_open net_event_opened net_event_closed : Event A
  net_event_send : A → Event A
  net_event_recv : ℕ → Event A

-- The asynchronous operations that a handler starts, and the events that it dispatches.
pub data Call {ℓ} (A : Type ℓ) : Type ℓ where
  dispatch : Event A → Call A
  async_accept async_read : Call A
  async_write : A → Call A

pub record Session {ℓ} (A : Type ℓ) : Type ℓ where
  pub send_queue : List A
  pub send_queue_max_size : ℕ

module _ {ℓ} {A : Type ℓ} where
  unfoldable pub construct : ℕ → Session A
  construct max_size = record {
    send_queue = [];
    send_queue_max_size = if max_size == 0 then 1 else max_size;
  }

  -- `Run`, with or without a request that was read before.
  abbrev pub run : List (Call A)
  run = dispatch net_event_open ∷ async_accept ∷ []

  unfoldable pub on_event_fail : ErrorCode → String → List (Call A)
  on_event_fail operation_aborted what = dispatch net_event_closed ∷ []
  on_event_fail closed what = dispatch net_event_closed ∷ []
  on_event_fail ec what = dispatch (net_event_fail ec what) ∷ dispatch net_event_closed ∷ []

  unfoldable pub on_accept : ErrorCode → List (Call A)
  on_accept ec =
      if failed ec then on_event_fail ec "accept" else dispatch net_event_opened ∷ async_read ∷ []

  unfoldable pub on_read : ErrorCode → ℕ → List (Call A)
  on_read ec bytes_transferred =
      if failed ec
      then on_event_fail ec "read"
      else dispatch (net_event_recv bytes_transferred) ∷ async_read ∷ []

  abbrev pub do_write : A → List (Call A)
  do_write x = dispatch (net_event_send x) ∷ async_write x ∷ []

  -- `DoWrite(send_queue_.front())` where there is a front.
  abbrev pub write_front : List A → List (Call A)
  write_front [] = []
  write_front (x ∷ q) = do_write x

  unfoldable pub do_send : A → Session A → List (Call A) × Session A
  do_send x s =
      let q = s.send_queue ++ (x ∷ []) in
      (if ltb 1 (length q) then [] else write_front q, record s { send_queue = q })

  -- The newest entries, as many as the limit allows.
  unfoldable pub trim : ℕ → List A → List A
  trim max_size q =
      if ltb 0 max_size && ltb max_size (length q) then drop (length q - max_size) q else q

  -- `OnWrite` without an error. Erasing the front of an empty queue is undefined.
  abbrev pub written : List A → Session A → Option (List (Call A) × Session A)
  written [] s = none
  written (x ∷ q) s =
      let q' = trim s.send_queue_max_size q in some (write_front q', record s { send_queue = q' })

  unfoldable pub on_write : ErrorCode → Session A → Option (List (Call A) × Session A)
  on_write ec s = if failed ec then some (on_event_fail ec "write", s) else written s.send_queue s
