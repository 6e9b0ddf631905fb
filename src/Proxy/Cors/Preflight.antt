-- ===== src/Proxy/Cors/Preflight.antt =====
-- The answers of `Cors::Handle` to a preflight request, of common/net/cors.h.
use rtsp_wasm_player.Base.{
  ℕ, ◌+◌, ◌<◌, ◌≡◌, refl, ◌≢◌, ◌⊎◌, inl, inr, Bool, true, false, Option, none, some, List, [], ◌∷◌,
  arith, ◌==◌, if◌then◌else◌, Bool-cases,
}
use rtsp_wasm_player.Proxy.Cors.{
  Field, Text, code, Response, Request, same, options_method, Library, CorsOptions,
  is_origin_allowed, is_method_allowed, are_headers_allowed, allow, guarded, handle_preflight,
  plain_fields, empty_answer, handle,
}
use rtsp_wasm_player.Proxy.Cors.Fields.{lookup}
use rtsp_wasm_player.Proxy.Cors.Allowed.{same_iff, AreGood, is_origin_allowed_lem}

module _ (lib : Library) (options : CorsOptions) where
  abbrev Returns : Option Response → Type 0
  Returns o = (r : Response) × (o ≡ some r)

  guarded-Returns :
      (o : Option Bool) (b : Bool) (k : Response → Option Response) (v : Response)
      → o ≡ some b
      → ((w : Response) → Returns (k w))
      → Returns (guarded lib options o k v)
  guarded-Returns none b k v e h = absurd (cc e)
  guarded-Returns (some true) b k v e h = h v
  guarded-Returns (some false) b k v e h = (v, refl)

  unless-Returns :
      (b : Bool) (v : Response) (o : Option Response)
      → Returns o
      → Returns (if b then some v else o)
  unless-Returns true v o h = (v, refl)
  unless-Returns false v o h = h

  preflight-Returns :
      (req : Request) (res : Response)
      → AreGood lib options req.origin options.allowed_origins
      → Returns (handle_preflight lib options req res)
  unfolding handle_preflight
  preflight-Returns req res good =
      let (b, e, f) = is_origin_allowed_lem lib options req.origin good in
      unless-Returns (same req.origin []) _ _ (
        guarded-Returns (is_origin_allowed lib options req.origin) b _ _ e (λ v.
          guarded-Returns (some (is_method_allowed lib options req.request_method)) _ _ v refl (λ w.
            guarded-Returns (some (are_headers_allowed lib options req.request_headers)) _ _ w refl
              (λ r. (allow lib options req r, refl)))))

  plain_lookup :
      (f : Field) (l : List (ℕ × Text)) → code f < 7 → lookup f (plain_fields lib options l) ≡ none
  unfolding lookup
  plain_lookup f [] less = refl
  plain_lookup f ((n, v) ∷ l) less =
      let e : (7 + n == code f) ≡ false = ground arith in rw (e, plain_lookup f l less) refl

  -- With patterns that std::regex takes, a preflight on an enabled object is answered with the empty
  -- response, which has none of the fields that the class sets, whatever the options permit.
  pub preflight_lost :
      (req : Request) (res : Response) (f : Field)
      → options.enabled ≡ true
      → req.method ≡ options_method
      → req.request_method ≢ []
      → AreGood lib options req.origin options.allowed_origins
      → code f < 7
      → (r : Response) × (handle lib options req res ≡ some (true, r)) × (lookup f r.fields ≡ none)
  unfolding handle
  preflight_lost req res f on method asked good less =
      let (v, e) = preflight-Returns req res good in
      let a : same req.method options_method ≡ true =
        (same_iff req.method options_method).1 method in
      let b : same req.request_method [] ≡ false =
        unequal (Bool-cases (same req.request_method [])) in
      (empty_answer lib options req, rw (e, a, b, on) refl, plain_lookup f (lib.prepared req) less)
    where
      unequal :
          (same req.request_method [] ≡ true) ⊎ (same req.request_method [] ≡ false)
          → same req.request_method [] ≡ false
      unequal (inl e) = absurd (asked ((same_iff req.request_method []).0 e))
      unequal (inr e) = e
