-- ===== src/WebGl/Screen.antt =====
-- `fullscreen` and `exitFullscreen` of ws-wasm-player/lib/webgl.js. What a browser offers is given
-- by which of the functions exist; the result is the call that the code makes.
use Prim.Native.String.{String}
use rtsp_wasm_player.Base.{◌≡◌, inl, inr, Bool, true, false, if◌then◌else◌, Bool-cases}

-- The four vendors' functions, in the order in which the code tries them. For `fullscreen` they
-- are RequestFullScreen, webkitRequestFullScreen, mozRequestFullScreen and msRequestFullscreen of
-- the canvas; for `exitFullscreen` they are exitFullscreen, webkitExitFullscreen,
-- mozCancelFullScreen and msExitFullscreen of the document.
pub data Vendor : Type 0 where
  standard webkit moz ms : Vendor

pub data Action : Type 0 where
  call : Vendor → Action
  alert : String → Action

abbrev pub Offers : Type 0
Offers = Vendor → Bool

pub first_offered : String → Offers → Action
first_offered message offers =
    if offers standard
    then call standard
    else if offers webkit
    then call webkit
    else if offers moz
    then call moz
    else if offers ms
    then call ms
    else alert message

pub fullscreen : Offers → Action
unfolding first_offered
fullscreen = first_offered "This browser doesn't support fullscreen"

pub exit_fullscreen : Offers → Action
unfolding first_offered
exit_fullscreen = first_offered "Exit fullscreen doesn't work"

-- Only a function that is there is called, and the user is alerted exactly when there is none.
abbrev pub IsSound : Offers → Action → Type 0
IsSound offers (call v) = offers v ≡ true
IsSound offers (alert m) = (v : Vendor) → offers v ≡ false

first_offered-IsSound : (m : String) (offers : Offers) → IsSound offers (first_offered m offers)
unfolding first_offered
first_offered-IsSound m offers = elim (Bool-cases (offers standard)) [
  | inl a ↦ rw a a
  | inr a ↦ rw a (elim (Bool-cases (offers webkit)) [
    | inl b ↦ rw b b
    | inr b ↦ rw b (elim (Bool-cases (offers moz)) [
      | inl c ↦ rw c c
      | inr c ↦
          rw c (elim (Bool-cases (offers ms)) [ inl d ↦ rw d d | inr d ↦ rw d (none_of a b c d) ])
    ])
  ])
]
  where
    none_of :
        offers standard ≡ false
        → offers webkit ≡ false
        → offers moz ≡ false
        → offers ms ≡ false
        → (v : Vendor) → offers v ≡ false
    none_of a b c d = elim [ standard ↦ a | webkit ↦ b | moz ↦ c | ms ↦ d ]

-- Entering full screen calls a function that the canvas has, or else alerts when it has none, and
-- leaving it does so with the document's.
pub fullscreen-IsSound :
    (canvas document : Offers)
    → IsSound canvas (fullscreen canvas) × IsSound document (exit_fullscreen document)
unfolding fullscreen exit_fullscreen
fullscreen-IsSound canvas document =
    (first_offered-IsSound _ canvas, first_offered-IsSound _ document)
