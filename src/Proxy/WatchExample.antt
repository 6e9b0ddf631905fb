-- ===== src/Proxy/WatchExample.antt =====
-- A session that opens, is sent a packet and loses its connection, beside another session, and the
-- result about the room applied to it.
use rtsp_wasm_player.Base.{ℕ, ◌≡◌, refl, not, ◌&&◌, List, [], ◌∷◌, ◌==◌, ==_iff}
use rtsp_wasm_player.Proxy.Session.{
  success, other, do_send, construct, on_accept, on_read, on_event_fail,
}
use rtsp_wasm_player.Proxy.Connection.{Connection, performs, start, send}
use rtsp_wasm_player.Proxy.Watch.{
  Reach, here, further, sends, accepted, received, has_opened, has_closed,
}
use rtsp_wasm_player.Proxy.Watchers.{room_calls, mine, watching_iff}
use rtsp_wasm_player.Proxy.Room.{Equality, mem, sessions_at}
use rtsp_wasm_player.Proxy.Members.{Call, joins, leaves, run}

abbrev number : Equality ℕ
number = record { same = ◌==◌; same_iff = ==_iff }

abbrev opened : Connection (List ℕ)
opened = performs (on_accept success) (record (start 1) { accepts = 0 })

abbrev busy : Connection (List ℕ)
busy = send (1 ∷ 2 ∷ []) opened

abbrev lost : Connection (List ℕ)
lost = performs (on_read (other 104) 0) (record busy { reads = 0 })

lost_reached : Reach (start 1) lost
unfolding start construct on_accept send do_send has_opened
lost_reached =
    further (further (further here (accepted success 0 refl)) (sends (1 ∷ 2 ∷ []) refl))
      (received (other 104) 0 0 refl)

-- Session 4 watches stream 7, session 5 too, and then session 4 is gone.
abbrev calls : List (Call number number)
calls = joins 7 4 ∷ joins 7 5 ∷ leaves 7 4 ∷ []

watching_iff_example :
    mem number number 4 (sessions_at number number 7 (run number number calls []))
    ≡ (has_opened lost.events && not (has_closed lost.events))
unfolding mine room_calls start construct on_accept send do_send on_read on_event_fail sessions_at
    mem
watching_iff_example = watching_iff number number 7 4 1 lost calls [] lost_reached refl refl
