-- ===== src/WsClient/Opening.antt =====
-- The branches of `open` of ws-wasm-player/lib/ws_client.js.
use Prim.Native.String.{String}
use rtsp_wasm_player.Base.{
  ℕ, ◌+◌, ◌≡◌, refl, ap, ◌⊎◌, inl, inr, true, false, ◌||◌, Option, none, some, ◌∷◌, arith,
  Bool-cases, is_some,
}
use rtsp_wasm_player.WsClient.Options.{Given, merge}
use rtsp_wasm_player.WsClient.World.{World, Outcome, returned, thrown}
use rtsp_wasm_player.WsClient.Client.{Env, is_open, connect, prepare, open_client, close}
use rtsp_wasm_player.WsClient.Life.{close_idle}

-- The fields that `open` may set, and the decoders alive.
pub record Same (w v : World) : Type 0 where
  pub ws : v.ws ≡ w.ws
  pub decoder : v.decoder ≡ w.decoder
  pub decoders : v.decoders ≡ w.decoders

module _ (env : Env) where
  -- What `open` comes to, with the condition of each end.
  pub data Opening (g : Given) (w : World) (r : Outcome (Unit {0}) × World) : Type 0 where
    -- It was open: nothing changes, the options included.
    already :
        (s : ℕ)
        → w.ws ≡ some s
        → r.0 ≡ returned tt
        → r.1.options ≡ w.options
        → Same w r.1
        → Opening g w r
    -- The address or the stream is missing: the options are merged and nothing is made.
    incomplete :
        w.ws ≡ none
        → ((merge w.options g).url ≡ none) ⊎ ((merge w.options g).stream ≡ none)
        → r.0 ≡ returned tt
        → r.1.options ≡ merge w.options g
        → Same w r.1
        → Opening g w r
    -- The decoder's `open` or the socket's creation throws: the new decoder stays.
    failed :
        (url stream : String)
        → w.ws ≡ none
        → (merge w.options g).url ≡ some url
        → (merge w.options g).stream ≡ some stream
        → (env.decoder_open_throws stream || env.socket_throws url) ≡ true
        → r.0 ≡ thrown
        → r.1.ws ≡ none
        → r.1.decoder ≡ some w.next
        → r.1.decoders ≡ w.next ∷ w.decoders
        → Opening g w r
    -- A new decoder and then a new socket.
    opened :
        (url stream : String)
        → w.ws ≡ none
        → (merge w.options g).url ≡ some url
        → (merge w.options g).stream ≡ some stream
        → (env.decoder_open_throws stream || env.socket_throws url) ≡ false
        → r.0 ≡ returned tt
        → r.1.ws ≡ some (w.next + 1)
        → r.1.decoder ≡ some w.next
        → r.1.decoders ≡ w.next ∷ w.decoders
        → Opening g w r

  -- `open` ends in exactly the way whose condition holds: already open, address or stream missing,
  -- a creation that throws, or opened.
  pub open_client_lem : (g : Given) (w : World) → Opening g w (open_client env g w)
  open_client_lem g w = by w.ws refl (merge w.options g).url refl (merge w.options g).stream refl
    where
      by :
          (o : Option ℕ)
          → w.ws ≡ o
          → (u : Option String) → (merge w.options g).url ≡ u
          → (t : Option String) → (merge w.options g).stream ≡ t
          → Opening g w (open_client env g w)
      by (some s) e u f t h =
          already s e (unfold open_client prepare connect in ground arith)
            (unfold open_client prepare connect in ground arith)
            (unfold open_client prepare connect in ground arith)
      by none e none f t h =
          incomplete e (inl f) (unfold open_client prepare connect in ground arith)
            (unfold open_client prepare connect in ground arith)
            (unfold open_client prepare connect in ground arith)
      by none e (some u) f none h =
          incomplete e (inr h) (unfold open_client prepare connect in ground arith)
            (unfold open_client prepare connect in ground arith)
            (unfold open_client prepare connect in ground arith)
      by none e (some u) f (some t) h =
          elim (Bool-cases (env.decoder_open_throws t || env.socket_throws u)) [
            | inl b ↦
                failed u t e f h b (unfold open_client prepare connect in ground arith)
                  (unfold open_client prepare connect in ground arith)
                  (unfold open_client prepare connect in ground arith)
                  (unfold open_client prepare connect in ground arith)
            | inr b ↦
                opened u t e f h b (unfold open_client prepare connect in ground arith)
                  (unfold open_client prepare connect in ground arith)
                  (unfold open_client prepare connect in ground arith)
                  (unfold open_client prepare connect in ground arith)
          ]

  -- Opening a client that is not open, with a URL and a stream, where the decoder opens and the
  -- socket's creation throws, leaves the client not open, with a new decoder alive, and `close`
  -- then does nothing: that decoder is never deleted by it.
  pub open_socket_throws :
      (g : Given) (url stream : String) (w : World)
      → w.ws ≡ none
      → (merge w.options g).url ≡ some url
      → (merge w.options g).stream ≡ some stream
      → env.decoder_open_throws stream ≡ false
      → env.socket_throws url ≡ true
      → let v = (open_client env g w).1 in
        (is_open env v ≡ false)
        × (v.decoders ≡ w.next ∷ w.decoders)
        × (close env v ≡ (returned tt, v))
  open_socket_throws g url stream w e u s a b = (
    rw (is_open_lem (open_client env g w).1) (ap is_some stays.0),
    stays.1,
    close_idle env _ stays.0,
  )
    where
      stays :
          ((open_client env g w).1.ws ≡ none)
          × ((open_client env g w).1.decoders ≡ w.next ∷ w.decoders)
      stays = unfold open_client prepare connect in ground arith

      is_open_lem : (v : World) → is_open env v ≡ is_some v.ws
      is_open_lem v = unfold is_open in refl
