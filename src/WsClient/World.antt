-- ===== src/WsClient/World.antt =====
-- The private fields of `WsClient`, the objects outside that it makes and must release, what it
-- does in order, and calls that may throw.
use Prim.Native.String.{String}
use rtsp_wasm_player.Base.{ℕ, ◌≡◌, Bool, Option, List, [], ◌∷◌, ◌++◌, ◌==◌, if◌then◌else◌, ==_self}
use rtsp_wasm_player.WsClient.Options.{Options, Player}

-- A JavaScript handle of a decoded frame; `bytes` is what `getBytes` shows.
pub record Frame : Type 0 where
  pub handle : ℕ
  pub width : ℕ
  pub height : ℕ
  pub pts : ℕ
  pub bytes : List ℕ

pub data Effect : Type 0 where
  log : String → Effect
  log_options : Options → Effect
  set_log_v : ℕ → Effect
  open_decoder : ℕ → String → ℕ → ℕ → ℕ → Effect
  open_socket : ℕ → String → Effect
  close_socket : ℕ → Effect
  leak_check : Effect
  write_heap : ℕ → List ℕ → Effect
  decode : ℕ → ℕ → ℕ → Effect
  decode_async : ℕ → ℕ → ℕ → Effect
  render : Player → Frame → Effect
  user_open user_close user_error : Effect
  user_frame : Frame → Effect
  user_bytes : List ℕ → Effect

-- `buffers` are the blocks of the wasm heap that `_malloc` gave and `_free` did not take back,
-- `handles` the frame handles and `decoders` the decoders on which `delete` was not called.
pub record World : Type 0 where
  pub options : Options
  pub ws : Option ℕ
  pub decoder : Option ℕ
  pub t_onmsg : ℕ
  pub buffers : List ℕ
  pub handles : List ℕ
  pub decoders : List ℕ
  pub next : ℕ
  pub trace : List Effect

pub data Outcome (A : Type 0) : Type 0 where
  returned : A → Outcome A
  thrown : Outcome A

abbrev pub Js : Type 0 → Type 0
Js A = World → Outcome A × World

abbrev pub continue : {A B : Type 0} → Outcome A × World → (A → Js B) → Outcome B × World
continue (returned a, w) k = k a w
continue (thrown, w) k = (thrown, w)

infixl 5 ◌>>=◌ ◌>>◌
abbrev pub ◌>>=◌ : {A B : Type 0} → Js A → (A → Js B) → Js B
◌>>=◌ m k w = continue (m w) k

abbrev pub ◌>>◌ : {B : Type 0} → Js (Unit {0}) → Js B → Js B
m >> k = m >>= λ _. k

abbrev pub done : Js (Unit {0})
done w = (returned tt, w)

abbrev pub throw : {A : Type 0} → Js A
throw w = (thrown, w)

abbrev pub get : Js World
get w = (returned w, w)

abbrev pub modify : (World → World) → Js (Unit {0})
modify f w = (returned tt, f w)

-- `try { m } finally { f }` where `f` itself does not throw.
abbrev pub finally : {A : Type 0} → Js A → (World → World) → Js A
finally m f w = let (r, w') = m w in (r, f w')

-- `c && m`
abbrev pub when : Bool → Js (Unit {0}) → Js (Unit {0})
when c m = if c then m else done

abbrev pub emit : Effect → World → World
emit e w = record w { trace = w.trace ++ (e ∷ []) }

abbrev pub perform : Effect → Js (Unit {0})
perform e = modify (emit e)

-- Releases one object.
pub remove : ℕ → List ℕ → List ℕ
remove x [] = []
remove x (y ∷ ys) = if y == x then ys else y ∷ remove x ys

pub remove_head : (x : ℕ) (xs : List ℕ) → remove x (x ∷ xs) ≡ xs
unfolding remove
remove_head x xs = rw ==_self
