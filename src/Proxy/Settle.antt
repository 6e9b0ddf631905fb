-- ===== src/Proxy/Settle.antt =====
-- A completed write of rtsp-ws-proxy/ws_session.h keeps the send queue in order.
use mathlib.Core.Path.{subst}
use mathlib.Core.Option.{some-injective, none-ne-some}
use mathlib.Core.List.{Sublist}
use mathlib.Core.List.Sublist as Sub
use rtsp_wasm_player.Base.{
  ℕ, zero, suc, ◌+◌, ◌≤◌, ◌<◌, ◌≡◌, sym, ap, ◌∙◌, inl, inr, Bool, true, false, ◌&&◌, ◌||◌, some,
  List, [], ◌∷◌, ◌++◌, append_assoc, arith, ltb, Bool-cases, length, drop,
}
use rtsp_wasm_player.Proxy.Session.{
  ErrorCode, failed, Call, Session, on_write, trim, written, write_front,
}
use rtsp_wasm_player.Proxy.Connection.{Connection, performs, settle}
use rtsp_wasm_player.Proxy.Writes.{Ordered, IsInOrder, fail-IsInOrder}

pub or_false : (b : Bool) → (b || false) ≡ b
or_false b = ground arith

or_true : (b : Bool) → (b || true) ≡ true
or_true b = ground arith

module _ {ℓ} {A : Type ℓ} where
  drop-Sublist : (n : ℕ) (l : List A) → Sublist (drop n l) l
  drop-Sublist zero l = Sub.refl l
  drop-Sublist (suc n) [] = Sub.refl []
  drop-Sublist (suc n) (x ∷ l) = Sub.cons x (drop-Sublist n l)

  pub trim-Sublist : (m : ℕ) (q : List A) → Sublist (trim m q) q
  unfolding trim
  trim-Sublist m q = elim (Bool-cases (ltb 0 m && ltb m (length q))) [
    | inl e ↦ rw e (drop-Sublist _ q)
    | inr e ↦ rw e (Sub.refl q)
  ]

  -- The queue behind the written front becomes `t`, a part of it, whose front is written next.
  next-IsInOrder :
      (y : A) (q t rest : List A) (c : Connection A)
      → Sublist t q
      → (c.broken ≡ false) × (rest ≡ []) × 0 < length (y ∷ q)
      → Ordered c.session.send_queue_max_size (y ∷ q) c.writing c.broken c.writes c.sent
      → c.reads + c.accepts ≤ 1
      → IsInOrder (
          performs
            (write_front t)
            (record c { session = record c.session { send_queue = t }; writing = rest }))
  next-IsInOrder y q [] rest c le (b, n, l) o one = record {
    order = record {
      limit = o.limit;
      one_write = inl (b, n);
      in_order = Sub.trans (Sub.append (Sub.refl c.writes) le) o.in_order;
    };
    one_read = one;
  }
  next-IsInOrder y q (z ∷ t) rest c le (b, n, l) o one = record {
    order = record {
      limit = o.limit;
      one_write = inl (b, ap (λ (w : List A). w ++ (z ∷ [])) n);
      in_order =
          rw (append_assoc c.writes (z ∷ []) t)
            (Sub.trans (Sub.append (Sub.refl c.writes) le) o.in_order);
    };
    one_read = one;
  }

  -- While a write is outstanding no write has failed, and it is the queue's front and the only one.
  pub front_lem :
      (m : ℕ) (q w ws s rest : List A) (b : Bool) (x : A)
      → Ordered m q w b ws s
      → w ≡ x ∷ rest
      → (b ≡ false) × (rest ≡ []) × 0 < length q
  front_lem m [] w ws s rest b x o e = elim o.one_write [
    | inl (p, n) ↦ absurd (cc (e, n))
    | inr (p, n, l) ↦ absurd (cc (e, n))
  ]
  front_lem m (y ∷ q) w ws s rest b x o e = elim o.one_write [
    | inl (p, n) ↦ (p, ap (drop {A = A} 1) (sym e ∙ n), omega arith)
    | inr (p, n, l) ↦ absurd (cc (e, n))
  ]

  -- The failed write was the queue's front, which stays there.
  stopped-Ordered :
      (c : Connection A) (rest : List A)
      → Ordered c.session.send_queue_max_size c.session.send_queue c.writing c.broken c.writes
          c.sent
      → (c.broken ≡ false) × (rest ≡ []) × 0 < length c.session.send_queue
      → Ordered c.session.send_queue_max_size c.session.send_queue rest
          (c.broken || true)
          c.writes
          c.sent
  stopped-Ordered c rest o (b, n, l) = record {
    limit = o.limit;
    one_write = inr (or_true c.broken, n, l);
    in_order = o.in_order;
  }

  pub settle-IsInOrder :
      (ec : ErrorCode) (x : A) (rest : List A) (r : List (Call A) × Session A) (c : Connection A)
      → IsInOrder c
      → c.writing ≡ x ∷ rest
      → on_write ec c.session ≡ some r
      → IsInOrder (settle ec rest r c)
  unfolding on_write settle
  settle-IsInOrder ec x rest r c i e = elim (Bool-cases (failed ec)) [
    | inl f ↦ rw f (λ p. subst after (some-injective _ r p) (
        fail-IsInOrder ec "write" _ (record {
          order = stopped-Ordered c rest i.order (front_lem _ _ _ _ _ rest _ x i.order e);
          one_read = i.one_read;
        })))
    | inr f ↦ rw (f, or_false c.broken) (by c.session.send_queue i.order)
  ]
    where
      after : List (Call A) × Session A → Type ℓ
      after r =
          IsInOrder
            (performs r.0 (record c { session = r.1; writing = rest; broken = c.broken || true }))

      after_success : List (Call A) × Session A → Type ℓ
      after_success r = IsInOrder (performs r.0 (record c { session = r.1; writing = rest }))

      by :
          (q : List A)
          → Ordered c.session.send_queue_max_size q c.writing c.broken c.writes c.sent
          → written q c.session ≡ some r
          → IsInOrder (performs r.0 (record c { session = r.1; writing = rest }))
      by [] o p = absurd (none-ne-some r p)
      by (y ∷ q) o p = subst after_success (some-injective _ r p) (
          next-IsInOrder y q _ rest c (trim-Sublist _ q) (front_lem _ _ _ _ _ rest _ x o e) o
            i.one_read)
