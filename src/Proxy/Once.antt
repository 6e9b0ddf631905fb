-- ===== src/Proxy/Once.antt =====
-- The sets of rtsp-ws-proxy/ws_stream_room.cc hold no session twice.
use rtsp_wasm_player.Base.{
  ◌≡◌, refl, ◌∙◌, Bool, true, false, not, ◌&&◌, List, [], ◌∷◌, if◌then◌else◌,
}
use rtsp_wasm_player.Proxy.Room.{Equality, mem, insert, erase}
use rtsp_wasm_player.Proxy.Members.{mem-erase}

if_gone : (a b : Bool) → b ≡ false → (not a && b) ≡ false
if_gone true b e = refl
if_gone false b e = e

module _ {K S : Type 0} (keys : Equality K) (values : Equality S) where
  -- A set's list has no element twice.
  abbrev pub IsOnce : List S → Type 0
  IsOnce [] = Unit {0}
  IsOnce (s ∷ v) = (mem keys values s v ≡ false) × IsOnce v

  pub insert-IsOnce : (s : S) (v : List S) → IsOnce v → IsOnce (insert keys values s v)
  unfolding insert
  insert-IsOnce s v i = by (mem keys values s v) refl
    where
      by : (b : Bool) → mem keys values s v ≡ b → IsOnce (if b then v else s ∷ v)
      by true e = i
      by false e = (e, i)

  pub erase-IsOnce : (s : S) (v : List S) → IsOnce v → IsOnce (erase keys values s v)
  unfolding erase
  erase-IsOnce s [] i = tt
  erase-IsOnce s (t ∷ v) (n, i) =
      by (values.same t s) (mem-erase keys values t s v ∙ if_gone (values.same s t) _ n)
        (erase-IsOnce s v i)
    where
      by :
          (b : Bool)
          → mem keys values t (erase keys values s v) ≡ false
          → IsOnce (erase keys values s v)
          → IsOnce (if b then erase keys values s v else t ∷ erase keys values s v)
      by true n rest = rest
      by false n rest = (n, rest)
