-- ===== src/Proxy/Room.antt =====
-- class WsStreamRoom of rtsp-ws-proxy/ws_stream_room.cc: which sessions watch which stream. The map
-- is an association list and a set a list without repetitions. Each method holds the mutex while it
-- uses the map, so a history is a sequence of calls.
use rtsp_wasm_player.Base.{◌≡◌, ◌↔◌, Bool, true, false, ◌||◌, List, [], ◌∷◌, if◌then◌else◌}

-- The equality that a hashed container uses.
pub record Equality (K : Type 0) : Type 0 where
  pub same : K → K → Bool
  pub same_iff : (a b : K) → (same a b ≡ true) ↔ (a ≡ b)

module _ {K S : Type 0} (keys : Equality K) (values : Equality S) where
  open keys use {same, same_iff}

  abbrev pub Room : Type 0
  Room = List (K × List S)

  unfoldable pub mem : S → List S → Bool
  mem s [] = false
  mem s (t ∷ v) = values.same t s || mem s v

  -- `insert` and `erase` of the set.
  unfoldable pub insert : S → List S → List S
  insert s v = if mem s v then v else s ∷ v

  unfoldable pub erase : S → List S → List S
  erase s [] = []
  erase s (t ∷ v) = let rest = erase s v in if values.same t s then rest else t ∷ rest

  unfoldable pub sessions_at : K → Room → List S
  sessions_at id [] = []
  sessions_at id ((k, v) ∷ r) = let rest = sessions_at id r in if same k id then v else rest

  unfoldable pub store : K → List S → Room → Room
  store id v [] = (id, v) ∷ []
  store id v ((k, w) ∷ r) =
      let rest = store id v r in if same k id then (k, v) ∷ r else (k, w) ∷ rest

  -- `sessions_map_[id]`, which makes an empty set where there is none.
  unfoldable pub at : K → Room → List S × Room
  at id r = let v = sessions_at id r in (v, store id v r)

  abbrev pub is_empty : List S → Bool
  is_empty [] = true
  is_empty (s ∷ v) = false

  unfoldable pub empty : K → Room → Bool × Room
  empty id r = let (v, r') = at id r in (is_empty v, r')

  unfoldable pub join : K → S → Room → Room
  join id s r = let (v, r') = at id r in store id (insert s v) r'

  unfoldable pub leave : K → S → Room → Room
  leave id s r = let (v, r') = at id r in store id (erase s v) r'

  -- The sessions whose `Send` is called: those of the set that are still alive when the lock is
  -- gone.
  unfoldable pub living : (S → Bool) → List S → List S
  living alive [] = []
  living alive (s ∷ v) = let rest = living alive v in if alive s then s ∷ rest else rest

  unfoldable pub send : (S → Bool) → K → Room → List S × Room
  send alive id r = let (v, r') = at id r in (living alive v, r')
