-- ===== src/WebGl/Examples.antt =====
-- The results about the player applied to it.
use rtsp_wasm_player.Base.{true, false, [], ◌∷◌}
use rtsp_wasm_player.WebGl.Screen.{standard, webkit, moz, ms, Offers}
use rtsp_wasm_player.WebGl.Planes.{Planes}

-- A frame of 3 by 3.
abbrev odd_frame : Planes
odd_frame = record {
  width = 3;
  height = 3;
  luma = 1 ∷ 2 ∷ 3 ∷ 4 ∷ 5 ∷ 6 ∷ 7 ∷ 8 ∷ 9 ∷ [];
  cb = 10 ∷ 11 ∷ 12 ∷ 13 ∷ [];
  cr = 14 ∷ 15 ∷ 16 ∷ 17 ∷ [];
}

abbrev only_moz : Offers
only_moz = elim [ standard ↦ false | webkit ↦ false | moz ↦ true | ms ↦ false ]

abbrev no_offers : Offers
no_offers v = false
