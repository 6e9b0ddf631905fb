-- ===== src/Proxy/Http.antt =====
-- `WsStreamServer::OnHandleHttpRequest` of rtsp-ws-proxy/ws_stream_server.cc: the list of streams
-- over HTTP, behind the rules of common/net/cors.h. The text of the list, which a JSON library
-- prints, and the fields that `keep_alive` and `prepare_payload` set are parameters.
use rtsp_wasm_player.Base.{
  ℕ, ◌<◌, ◌≡◌, refl, sym, ap, ◌∙◌, ◌≢◌, ◌↔◌, Bool, true, false, Option, none, some, List, [], ◌∷◌,
  arith, if◌then◌else◌,
}
use rtsp_wasm_player.Proxy.Cors.{
  Field, Text, Status, code, Response, Request, set, plain, access_control_allow_origin, same,
  options_method, Library, CorsOptions, handle_request, handle,
}
use rtsp_wasm_player.Proxy.Cors.Fields.{lookup, lookup-set_other}
use rtsp_wasm_player.Proxy.Cors.Allowed.{AreGood, same_iff}
use rtsp_wasm_player.Proxy.Cors.Answers.{Permits, handle_request_lem, handle-handle_request}

-- `BOOST_BEAST_VERSION_STRING`, "application/json" and what the answer's body adds.
pub record Printer : Type 1 where
  pub Streams : Type 0
  pub version : Text
  pub json : Text
  pub to_string : Streams → Text
  pub prepared : Request → Text → List (ℕ × Text)

-- The fields Server and Content-Type are the first two of those that Cors does not set.
abbrev pub server : Field
server = plain 0

abbrev pub content_type : Field
content_type = plain 1

pub record Answer : Type 0 where
  pub response : Response
  pub body : Text

-- How the call ends: with an exception, with false, or with an answer sent and true.
pub data Outcome : Type 0 where
  thrown not_handled : Outcome
  sent : Answer → Outcome

module _ (lib : Library) (printer : Printer) where
  -- `cors_`, which is null where the rules are not enabled.
  abbrev pub cors_of : CorsOptions → Option CorsOptions
  cors_of options = if options.enabled then some options else none

  unfoldable pub set_all : List (ℕ × Text) → Response → Response
  set_all [] r = r
  set_all ((n, v) ∷ l) r = set_all l (set (plain n) v r)

  abbrev pub list_answer : Request → printer.Streams → Response → Answer
  list_answer req streams r =
      let body = printer.to_string streams in
      record {
        response =
            set_all (printer.prepared req body)
              (set content_type printer.json (set server printer.version r));
        body = body;
      }

  -- `Handle` came back with true, with false, or with an exception.
  abbrev pub after_cors : Request → printer.Streams → Option (Bool × Response) → Outcome
  after_cors req streams none = thrown
  after_cors req streams (some (true, r)) = sent (record { response = r; body = [] })
  after_cors req streams (some (false, r)) = sent (list_answer req streams r)

  abbrev pub by_cors : Option CorsOptions → Request → printer.Streams → Response → Outcome
  by_cors none req streams r = sent (list_answer req streams r)
  by_cors (some options) req streams r = after_cors req streams (handle lib options req r)

  unfoldable pub on_handle_http_request :
      Option CorsOptions → Text → Text → Request → printer.Streams → Outcome
  on_handle_http_request cors http_target target req streams =
      if same target http_target
      then by_cors cors req streams (record { status = Status.other; fields = [] })
      else not_handled

  lookup-set_all :
      (f : Field) (l : List (ℕ × Text)) (r : Response)
      → code f < 7
      → lookup f (set_all l r).fields ≡ lookup f r.fields
  unfolding set_all
  lookup-set_all f [] r less = refl
  lookup-set_all f ((n, v) ∷ l) r less =
      lookup-set_all f l (set (plain n) v r) less ∙ lookup-set_other f (plain n) v r (omega arith)

  -- With the rules enabled, no pattern refused by std::regex and no preflight, a request for the list
  -- of streams is answered with that list, and the answer names an allowed origin exactly when the
  -- options permit the request's origin and method.
  pub list_lem :
      (options : CorsOptions) (http_target : Text) (req : Request) (streams : printer.Streams)
      → options.enabled ≡ true
      → (req.method ≡ options_method → req.request_method ≡ [])
      → AreGood lib options req.origin options.allowed_origins
      → (r : Response) × (on_handle_http_request
            (cors_of options)
            http_target
            http_target
            req
            streams
          ≡ sent (record { response = r; body = printer.to_string streams }))
        × ((lookup access_control_allow_origin r.fields ≢ none) ↔ Permits lib options req)
  unfolding on_handle_http_request lookup
  list_lem options http_target req streams on no_preflight good =
      let (r, e, a) = handle_request_lem lib options req fresh good refl refl in
      let same_target = (same_iff http_target http_target).1 refl in
      (
        (list_answer req streams r).response,
        rw same_target (taken r e),
        (
          λ f. a.origin_iff.0 (λ n. f (through r ∙ n)),
          λ p n. a.origin_iff.1 p (sym (through r) ∙ n),
        ),
      )
    where
      fresh : Response
      fresh = record { status = Status.other; fields = [] }

      through :
          (r : Response)
          → lookup access_control_allow_origin (list_answer req streams r).response.fields
            ≡ lookup access_control_allow_origin r.fields
      through r =
          lookup-set_all access_control_allow_origin
            (printer.prepared req (printer.to_string streams)) _ (omega arith)
          ∙ lookup-set_other access_control_allow_origin content_type printer.json
              (set server printer.version r) (omega arith)
          ∙ lookup-set_other access_control_allow_origin server printer.version r (omega arith)

      taken :
          (r : Response)
          → handle_request lib options req fresh ≡ some r
          → by_cors (cors_of options) req streams fresh ≡ sent (list_answer req streams r)
      taken r e =
          ap (λ (c : Option CorsOptions). by_cors c req streams fresh) (chosen options.enabled on)
          ∙ ap (after_cors req streams)
              (handle-handle_request lib options req fresh r on no_preflight e)
        where
          chosen : (b : Bool) → b ≡ true → (if b then some options else none) ≡ some options
          chosen true e = refl
          chosen false e = absurd (cc e)
