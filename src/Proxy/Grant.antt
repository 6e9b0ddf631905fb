-- ===== src/Proxy/Grant.antt =====
-- `WsStreamServer::DoSessionWebSocket` of rtsp-ws-proxy/ws_stream_server.cc up to the creation of
-- the session: which target of a WebSocket request is granted which stream.
use mathlib.Core.Path.{ap₂}
use rtsp_wasm_player.Base.{
  ℕ, ◌≡◌, refl, sym, ap, ◌∙◌, ◌≢◌, inl, inr, Bool, true, false, ◌&&◌, Option, none, some, List, [],
  ◌∷◌, ◌++◌, arith, ◌==◌, if◌then◌else◌, ==_iff, ==_self, Bool-cases, is_some, length, drop,
}
use rtsp_wasm_player.Proxy.Room.{Equality}
use rtsp_wasm_player.Proxy.Server.{find}

-- `starts_with` on the bytes of two strings.
unfoldable pub starts_with : List ℕ → List ℕ → Bool
starts_with [] target = true
starts_with (p ∷ ps) [] = false
starts_with (p ∷ ps) (t ∷ ts) = (p == t) && starts_with ps ts

pub data Answer : Type 0 where
  denied not_found : Answer
  granted : List ℕ → Answer

pub and_both : (a b : Bool) → (a && b) ≡ true → (a ≡ true) × (b ≡ true)
and_both a b e = ground arith

prefix_split : (p t : List ℕ) → starts_with p t ≡ true → t ≡ p ++ drop (length p) t
unfolding starts_with
prefix_split [] t e = refl
prefix_split (x ∷ p) [] e = absurd (cc e)
prefix_split (x ∷ p) (y ∷ t) e =
    let (f, g) = and_both (x == y) (starts_with p t) e in
    ap₂ ◌∷◌ (sym ((==_iff x y).0 f)) (prefix_split p t g)

starts-append : (p t : List ℕ) → starts_with p (p ++ t) ≡ true
unfolding starts_with
starts-append [] t = refl
starts-append (x ∷ p) t = rw (==_self x, starts-append p t)

module _ (P : Type 0) (keys : Equality (List ℕ)) where
  abbrev pub look_up : List ℕ → Option P → Answer
  look_up id none = not_found
  look_up id (some stream) = granted id

  unfoldable pub do_session : List ℕ → List ℕ → List (List ℕ × P) → Answer
  do_session ws_target_prefix target stream_map =
      if starts_with ws_target_prefix target
      then (let id = drop (length ws_target_prefix) target in
          look_up id (find {S = List ℕ} P keys keys id stream_map))
      else denied

  -- The three answers, each with its condition.
  abbrev pub IsAnswered : List ℕ → List ℕ → List (List ℕ × P) → Answer → Type 0
  IsAnswered prefix target stream_map denied = (id : List ℕ) → target ≢ prefix ++ id
  IsAnswered prefix target stream_map not_found =
      (id : List ℕ) × (target ≡ prefix ++ id) × (find {S = List ℕ} P keys keys id stream_map ≡ none)
  IsAnswered prefix target stream_map (granted id) =
      (target ≡ prefix ++ id) × (is_some (find {S = List ℕ} P keys keys id stream_map) ≡ true)

  -- A request is denied exactly when its target does not begin with the prefix, and otherwise the
  -- rest of the target is the stream: it is granted when that stream is known.
  pub do_session-IsAnswered :
      (prefix target : List ℕ) (stream_map : List (List ℕ × P))
      → IsAnswered prefix target stream_map (do_session prefix target stream_map)
  unfolding do_session
  do_session-IsAnswered prefix target m = elim (Bool-cases (starts_with prefix target)) [
    | inl e ↦ rw e (looked (find {S = List ℕ} P keys keys id m) refl (prefix_split prefix target e))
    | inr e ↦ rw e (λ id f.
        clash (starts_with prefix target) e (ap (starts_with prefix) f ∙ starts-append prefix id))
  ]
    where
      id : List ℕ
      id = drop (length prefix) target

      looked :
          (o : Option P)
          → find {S = List ℕ} P keys keys id m ≡ o
          → target ≡ prefix ++ id
          → IsAnswered prefix target m (look_up id o)
      looked none e f = (id, f, e)
      looked (some p) e f = (f, ap is_some e)

      clash : (b : Bool) → b ≡ false → b ≡ true → ⊥
      clash b e f = cc (e, f)
