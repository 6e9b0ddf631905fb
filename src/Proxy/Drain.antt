-- ===== src/Proxy/Drain.antt =====
-- How the send queue of rtsp-ws-proxy/ws_session.h ends: it empties, or a write has failed.
use rtsp_wasm_player.Base.{
  ℕ, ◌+◌, ◌≤◌, ◌≡◌, refl, sym, ap, ◌∙◌, inl, inr, false, Option, some, List, [], ◌∷◌, ◌++◌,
  append-nil, append_assoc, arith, length, take, drop,
}
use rtsp_wasm_player.Proxy.Session.{success, Call, Session, on_write, trim, written, write_front}
use rtsp_wasm_player.Proxy.Connection.{Connection, settle, Step, wrote, Reach, here, further}
use rtsp_wasm_player.Proxy.Writes.{IsInOrder}
use rtsp_wasm_player.Proxy.Settle.{or_false}
use rtsp_wasm_player.Proxy.Queue.{Step-IsInOrder}

pub trim_within {ℓ} : {A : Type ℓ} (m : ℕ) (q : List A) → length q ≤ m → trim m q ≡ q
unfolding trim
trim_within m q le = ground arith

module _ {ℓ} {A : Type ℓ} where
  pub Reach-trans : {b c d : Connection A} → Reach b c → Reach c d → Reach b d
  Reach-trans r here = r
  Reach-trans r (further s t) = further (Reach-trans r s) t

  -- A connection that `c` comes to, with nothing left to write and all of `waiting` written.
  pub record Drained (c : Connection A) (waiting : List A) : Type ℓ where
    pub after : Connection A
    pub reached : Reach c after
    pub emptied : after.session.send_queue ≡ []
    pub intact : after.broken ≡ false
    pub all_written : after.writes ≡ c.writes ++ waiting

  written_step :
      (y : A) (q : List A) (c : Connection A)
      → IsInOrder c
      → c.broken ≡ false
      → c.session.send_queue ≡ y ∷ q
      → length q ≤ c.session.send_queue_max_size
      → Step c (settle success [] (write_front q, record c.session { send_queue = q }) c)
  unfolding on_write
  written_step y q c i b e le = wrote success y [] _ front done
    where
      front : c.writing ≡ y ∷ []
      front = elim i.order.one_write [
        | inl (p, w) ↦ w ∙ ap (take {A = A} 1) e
        | inr (p, w, l) ↦ absurd (cc (b, p))
      ]

      with_front : List (Call A) × Session A → Option (List (Call A) × Session A)
      with_front r = some r

      done :
          written c.session.send_queue c.session
          ≡ some (write_front q, record c.session { send_queue = q })
      done =
          ap (λ (l : List A). written l c.session) e
          ∙ ap (λ (l : List A). with_front (write_front l, record c.session { send_queue = l }))
              (trim_within c.session.send_queue_max_size q le)

  drain_queue :
      (q : List A) (c : Connection A)
      → IsInOrder c
      → c.broken ≡ false
      → c.session.send_queue ≡ q
      → length q ≤ c.session.send_queue_max_size + 1
      → Drained c (drop 1 q)
  unfolding settle
  drain_queue [] c i b e le = record {
    after = c;
    reached = here;
    emptied = e;
    intact = b;
    all_written = sym (append-nil c.writes);
  }
  drain_queue (y ∷ []) c i b e le = record {
    after = settle success [] ([], record c.session { send_queue = [] }) c;
    reached = further here (written_step y [] c i b e (omega arith));
    emptied = refl;
    intact = or_false c.broken ∙ b;
    all_written = sym (append-nil c.writes);
  }
  drain_queue (y ∷ (z ∷ q)) c i b e le =
      more (drain_queue (z ∷ q) c' (Step-IsInOrder s i) (or_false c.broken ∙ b) refl (omega arith))
    where
      c' : Connection A
      c' = settle success [] (write_front (z ∷ q), record c.session { send_queue = z ∷ q }) c

      s : Step c c'
      s = written_step y (z ∷ q) c i b e (omega arith)

      more : Drained c' q → Drained c (z ∷ q)
      more d = record {
        after = d.after;
        reached = Reach-trans (further here s) d.reached;
        emptied = d.emptied;
        intact = d.intact;
        all_written = d.all_written ∙ append_assoc c.writes (z ∷ []) q;
      }

  -- On a session in order, where no write failed and the queue behind the front is within its
  -- limit, completions of writes lead to an empty queue, no write failed then, and everything that
  -- waited is written, in order.
  pub drain :
      (c : Connection A)
      → IsInOrder c
      → c.broken ≡ false
      → length c.session.send_queue ≤ c.session.send_queue_max_size + 1
      → Drained c (drop 1 c.session.send_queue)
  drain c i b le = drain_queue c.session.send_queue c i b refl le
