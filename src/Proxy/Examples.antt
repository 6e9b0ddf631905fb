-- ===== src/Proxy/Examples.antt =====
-- The results about the proxy at concrete sessions, rooms and packets.
use mathlib.Core.Path.{ap₂, subst}
use rtsp_wasm_player.Base.{
  ℕ, ◌≤◌, ◌≡◌, refl, ◌↔◌, ◌⊎◌, Bool, true, false, ◌&&◌, some, List, [], ◌∷◌, ◌==◌, ==_iff, ==_self,
  length,
}
use rtsp_wasm_player.Packet.{Data}
use rtsp_wasm_player.Proxy.Session.{
  success, other, failed, Call, Session, construct, on_event_fail, do_send, on_write,
}
use rtsp_wasm_player.Proxy.Connection.{
  Connection, start, send, settle, sends, wrote, Reach, here, further,
}
use rtsp_wasm_player.Proxy.Writes.{IsInOrder}
use rtsp_wasm_player.Proxy.Queue.{Reach-IsInOrder, on_write_lem}
use rtsp_wasm_player.Proxy.Broken.{StaysBroken, Reach_broken}
use rtsp_wasm_player.Proxy.Room.{Equality}
use rtsp_wasm_player.Proxy.Grant.{and_both, IsAnswered, do_session, do_session-IsAnswered}
use rtsp_wasm_player.Proxy.Server.{Server}

-- A limit of 1, and two entries sent: the first is being written.
abbrev busy : Connection ℕ
busy = send 7 (send 6 (start 1))

abbrev busy_reached : Reach (start 1) busy
busy_reached = further (further here (sends 6)) (sends 7)

Reach-IsInOrder_example : IsInOrder busy
Reach-IsInOrder_example = Reach-IsInOrder 1 busy busy_reached

busy-IsInOrder : IsInOrder busy
busy-IsInOrder = Reach-IsInOrder 1 busy busy_reached

on_write_lem_example :
    (r : List (Call ℕ) × Session ℕ) × (on_write success busy.session ≡ some r)
    × ((failed success ≡ true) ⊎ (length r.1.send_queue ≤ r.1.send_queue_max_size))
unfolding start construct send do_send
on_write_lem_example = on_write_lem success busy 6 [] busy-IsInOrder refl

-- The write of 6 fails with an error that is neither of the two.
abbrev failing : Connection ℕ
failing = settle (other 32) [] (on_event_fail (other 32) "write", busy.session) busy

failing-IsInOrder : IsInOrder failing
unfolding start construct send do_send on_write
failing-IsInOrder =
    Reach-IsInOrder 1 failing (further busy_reached (wrote (other 32) 6 [] _ refl refl))

Reach_broken_example : StaysBroken failing (send 8 failing)
unfolding start construct send do_send settle on_event_fail
Reach_broken_example =
    Reach_broken failing (send 8 failing) failing-IsInOrder refl (further here (sends 8))

abbrev number : Equality ℕ
number = record { same = ◌==◌; same_iff = ==_iff }

abbrev key_frame : Data
key_frame = record {
  kind = 0;
  packet = record {
    pts = 1;
    dts = 1;
    bytes = 9 ∷ 8 ∷ [];
    stream_index = 0;
    flags = 1;
    side_data = [];
    duration = 40;
    pos = 0;
  };
}

abbrev server : Server ℕ number number
server = record { stream_map = (1, 100) ∷ []; room = (1, 4 ∷ 5 ∷ []) ∷ [] }

-- Equality of strings, byte by byte.
list_same : List ℕ → List ℕ → Bool
list_same [] [] = true
list_same [] (y ∷ ys) = false
list_same (x ∷ xs) [] = false
list_same (x ∷ xs) (y ∷ ys) = (x == y) && list_same xs ys

list_same_self : (xs : List ℕ) → list_same xs xs ≡ true
unfolding list_same
list_same_self [] = refl
list_same_self (x ∷ xs) = rw (==_self x, list_same_self xs)

list_same_eq : (xs ys : List ℕ) → list_same xs ys ≡ true → xs ≡ ys
unfolding list_same
list_same_eq [] [] e = refl
list_same_eq [] (y ∷ ys) e = absurd (cc e)
list_same_eq (x ∷ xs) [] e = absurd (cc e)
list_same_eq (x ∷ xs) (y ∷ ys) e =
    let (f, g) = and_both (x == y) (list_same xs ys) e in
    ap₂ ◌∷◌ ((==_iff x y).0 f) (list_same_eq xs ys g)

list_same_iff : (xs ys : List ℕ) → (list_same xs ys ≡ true) ↔ (xs ≡ ys)
list_same_iff xs ys =
    (list_same_eq xs ys, λ e. subst (λ zs. list_same xs zs ≡ true) e (list_same_self xs))

abbrev text : Equality (List ℕ)
text = record { same = list_same; same_iff = list_same_iff }

do_session-IsAnswered_example :
    IsAnswered ℕ text
      (b'/' ∷ [])
      (b'/' ∷ b'a' ∷ [])
      ((b'a' ∷ [], 1) ∷ [])
      (do_session ℕ text (b'/' ∷ []) (b'/' ∷ b'a' ∷ []) ((b'a' ∷ [], 1) ∷ []))
do_session-IsAnswered_example =
    do_session-IsAnswered ℕ text (b'/' ∷ []) (b'/' ∷ b'a' ∷ []) ((b'a' ∷ [], 1) ∷ [])
