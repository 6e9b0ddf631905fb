-- ===== src/Proxy/Cors/Answers.antt =====
-- The answers of `Cors::HandleRequest` of common/net/cors.h.
use rtsp_wasm_player.Base.{
  ℕ, ◌≡◌, refl, sym, ap, ◌∙◌, ◌≢◌, ◌↔◌, ◌⊎◌, inl, inr, Bool, true, false, none, some, [], arith,
  ltb, if◌then◌else◌, Bool-cases, length,
}
use rtsp_wasm_player.Proxy.Cors.{
  Field, code, Response, Request, insert, plain, vary, access_control_allow_origin,
  access_control_allow_credentials, access_control_expose_headers, same, join, star, true_text,
  Library, CorsOptions, allowed_origins_all, is_origin_allowed, is_method_allowed, set_origin,
  set_when, grant, handle_request, handle, options_method,
}
use rtsp_wasm_player.Proxy.Cors.Fields.{
  lookup, lookup-set, lookup-set_other, lookup-set_when, lookup-set_when_other, set_when_not,
  set_when-status, lookup-insert_other,
}
use rtsp_wasm_player.Proxy.Cors.Allowed.{
  apart, same_iff, AreGood, PermitsOrigin, PermitsMethod, is_origin_allowed_lem,
  is_method_allowed_lem,
}

module _ (lib : Library) (options : CorsOptions) where
  -- A request that the options let another origin make.
  abbrev pub Permits : Request → Type 0
  Permits req =
      (req.origin ≢ [])
      × PermitsOrigin lib options req.origin
      × PermitsMethod lib options req.method

  -- What a request's response has become.
  pub record IsAnswered (req : Request) (res r : Response) : Type 0 where
    pub origin_iff : (lookup access_control_allow_origin r.fields ≢ none) ↔ Permits req
    pub origin_value :
        (lookup access_control_allow_origin r.fields ≡ none)
        ⊎ (lookup access_control_allow_origin r.fields
            ≡ some (if allowed_origins_all lib options then star else req.origin))
    pub credentials_iff :
        (lookup access_control_allow_credentials r.fields ≡ some true_text)
        ↔ (Permits req × (options.allowed_credentials ≡ true))
    pub others : (n : ℕ) → lookup (plain n) r.fields ≡ lookup (plain n) res.fields
    pub status : r.status ≡ res.status

  abbrev varied : Response → Response
  varied res = insert vary lib.origin_name res

  not-none : {A : Type 0} {x : A} → some x ≢ none
  not-none e = absurd (cc e)

  refused-IsAnswered :
      (req : Request) (res : Response)
      → lookup access_control_allow_origin res.fields ≡ none
      → lookup access_control_allow_credentials res.fields ≡ none
      → (Permits req → ⊥)
      → IsAnswered req res (varied res)
  refused-IsAnswered req res o c no_permit = record {
    origin_iff = (
      λ f. absurd (f (kept access_control_allow_origin (omega arith) ∙ o)),
      λ p. absurd (no_permit p),
    );
    origin_value = inl (kept access_control_allow_origin (omega arith) ∙ o);
    credentials_iff = (
      λ f. absurd (not-none (sym f ∙ kept access_control_allow_credentials (omega arith) ∙ c)),
      λ p. absurd (no_permit p.0),
    );
    others = λ n. kept (plain n) (omega arith);
    status = refl;
  }
    where
      kept : (f : Field) → code vary ≢ code f → lookup f (varied res).fields ≡ lookup f res.fields
      kept f differ = lookup-insert_other f vary lib.origin_name res differ

  granted-IsAnswered :
      (req : Request) (res : Response)
      → lookup access_control_allow_origin res.fields ≡ none
      → lookup access_control_allow_credentials res.fields ≡ none
      → Permits req
      → IsAnswered req res (grant lib options req (varied res))
  granted-IsAnswered req res o c p = record {
    origin_iff = (λ f. p, λ q e. not-none (sym origin_at ∙ e));
    origin_value = inr origin_at;
    credentials_iff = (
      λ f. (p, asked (Bool-cases options.allowed_credentials) f),
      λ q.
          lookup-set_when access_control_allow_credentials options.allowed_credentials true_text
            exposed q.1,
    );
    others = λ n. kept (plain n) (omega arith) (omega arith) (omega arith) (omega arith);
    status =
        set_when-status options.allowed_credentials access_control_allow_credentials true_text
          exposed
        ∙ set_when-status (ltb 0 (length options.exposed_headers)) access_control_expose_headers
            (join options.exposed_headers) named;
  }
    where
      named : Response
      named = set_origin lib options req.origin (varied res)

      exposed : Response
      exposed =
          set_when (ltb 0 (length options.exposed_headers)) access_control_expose_headers
            (join options.exposed_headers) named

      over_exposed :
          (f : Field)
          → code access_control_expose_headers ≢ code f
          → lookup f exposed.fields ≡ lookup f named.fields
      over_exposed f differ =
          lookup-set_when_other f (ltb 0 (length options.exposed_headers))
            access_control_expose_headers (join options.exposed_headers) named differ

      over_credentials :
          (f : Field)
          → code access_control_allow_credentials ≢ code f
          → lookup f (grant lib options req (varied res)).fields ≡ lookup f exposed.fields
      over_credentials f differ =
          lookup-set_when_other f options.allowed_credentials access_control_allow_credentials
            true_text exposed differ

      under :
          (f : Field)
          → code access_control_expose_headers ≢ code f
          → code access_control_allow_origin ≢ code f
          → code vary ≢ code f
          → lookup f exposed.fields ≡ lookup f res.fields
      under f b c d =
          over_exposed f b
          ∙ lookup-set_other f access_control_allow_origin
              (if allowed_origins_all lib options then star else req.origin) (varied res) c
          ∙ lookup-insert_other f vary lib.origin_name res d

      kept :
          (f : Field)
          → code access_control_allow_credentials ≢ code f
          → code access_control_expose_headers ≢ code f
          → code access_control_allow_origin ≢ code f
          → code vary ≢ code f
          → lookup f (grant lib options req (varied res)).fields ≡ lookup f res.fields
      kept f a b c d = over_credentials f a ∙ under f b c d

      origin_at :
          lookup access_control_allow_origin (grant lib options req (varied res)).fields
          ≡ some (if allowed_origins_all lib options then star else req.origin)
      origin_at =
          over_credentials access_control_allow_origin (omega arith)
          ∙ over_exposed access_control_allow_origin (omega arith)
          ∙ lookup-set access_control_allow_origin
              (if allowed_origins_all lib options then star else req.origin) (varied res)

      asked :
          (options.allowed_credentials ≡ true) ⊎ (options.allowed_credentials ≡ false)
          → lookup access_control_allow_credentials (grant lib options req (varied res)).fields
            ≡ some true_text
          → options.allowed_credentials ≡ true
      asked (inl e) f = e
      asked (inr e) f = absurd (
          not-none (
            sym f
            ∙ ap (λ (r : Response). lookup access_control_allow_credentials r.fields)
                (set_when_not options.allowed_credentials access_control_allow_credentials true_text
                  exposed e)
            ∙ under access_control_allow_credentials (omega arith) (omega arith) (omega arith)
            ∙ c))

  -- For an origin on which std::regex refuses no pattern, and a response without these fields,
  -- `HandleRequest` returns; the response then names an allowed origin exactly when the options
  -- permit the request's origin and method, and then any origin where the options allow all and the
  -- request's otherwise; it allows credentials exactly when the options do and the request is
  -- permitted; no field that the class does not set changes, nor does the status.
  pub handle_request_lem :
      (req : Request) (res : Response)
      → AreGood lib options req.origin options.allowed_origins
      → lookup access_control_allow_origin res.fields ≡ none
      → lookup access_control_allow_credentials res.fields ≡ none
      → (r : Response) × (handle_request lib options req res ≡ some r) × IsAnswered req res r
  unfolding handle_request
  handle_request_lem req res good o c =
      decided (Bool-cases (same req.origin [])) (is_origin_allowed_lem lib options req.origin good)
        (Bool-cases (is_method_allowed lib options req.method))
    where
      decided :
          (same req.origin [] ≡ true) ⊎ (same req.origin [] ≡ false)
          → (b : Bool) × (is_origin_allowed lib options req.origin ≡ some b)
            × ((b ≡ true) ↔ PermitsOrigin lib options req.origin)
          → (is_method_allowed lib options req.method ≡ true)
            ⊎ (is_method_allowed lib options req.method ≡ false)
          → (r : Response) × (handle_request lib options req res ≡ some r) × IsAnswered req res r
      decided (inl e) b m = (
        varied res,
        rw e,
        refused-IsAnswered req res o c (λ p. p.0 ((same_iff req.origin []).0 e)),
      )
      decided (inr e) (false, f, g) m = (
        varied res,
        rw (e, f),
        refused-IsAnswered req res o c (λ p. absurd (apart refl (g.1 p.1))),
      )
      decided (inr e) (true, f, g) (inr m) = (
        varied res,
        rw (e, f, m),
        refused-IsAnswered req res o c
            (λ p. absurd (apart m ((is_method_allowed_lem lib options req.method).1 p.2))),
      )
      decided (inr e) (true, f, g) (inl m) = (
        grant lib options req (varied res),
        rw (e, f, m),
        granted-IsAnswered req res o c (
          λ n. absurd (apart e ((same_iff req.origin []).1 n)),
          g.0 refl,
          (is_method_allowed_lem lib options req.method).0 m,
        ),
      )

  -- `Handle` on a request that is no preflight.
  pub handle-handle_request :
      (req : Request) (res r : Response)
      → options.enabled ≡ true
      → (req.method ≡ options_method → req.request_method ≡ [])
      → handle_request lib options req res ≡ some r
      → handle lib options req res ≡ some (false, r)
  unfolding handle
  handle-handle_request req res r on no_preflight e =
      asks (Bool-cases (same req.method options_method))
    where
      asks :
          (same req.method options_method ≡ true) ⊎ (same req.method options_method ≡ false)
          → handle lib options req res ≡ some (false, r)
      asks (inl a) =
          let b : same req.request_method [] ≡ true =
            (same_iff req.request_method []).1
              (no_preflight ((same_iff req.method options_method).0 a)) in
          rw (e, a, b, on) refl
      asks (inr a) = rw (e, a, on) refl
