-- ===== src/Proxy/Cors/Examples.antt =====
-- The rules for other origins at a concrete request, and the results about them applied to it.
use mathlib.Core.List.{Memᴰ}
use rtsp_wasm_player.Base.{ℕ, ◌+◌, ◌≡◌, refl, ◌≢◌, ◌↔◌, true, none, some, [], ◌∷◌, arith}
use rtsp_wasm_player.Proxy.Cors.{
  Text, Status, Response, Request, split, access_control_allow_origin, same, options_method,
  handle_request, are_headers_allowed, Library, CorsOptions, handle,
}
use rtsp_wasm_player.Proxy.Cors.Fields.{lookup}
use rtsp_wasm_player.Proxy.Cors.Allowed.{AreGood, are_headers_allowed_iff}
use rtsp_wasm_player.Proxy.Cors.Answers.{Permits, IsAnswered, handle_request_lem}
use rtsp_wasm_player.Proxy.Cors.Preflight.{preflight_lost}
use rtsp_wasm_player.Proxy.Http.{Printer, cors_of, on_handle_http_request, list_lem, sent}

-- Every pattern matches the text that it is.
abbrev lib : Library
lib = record {
  regex_match = λ s o. some (same s o);
  number = λ n. (48 + n) ∷ [];
  origin_name = 79 ∷ [];
  request_method_name = 77 ∷ [];
  request_headers_name = 72 ∷ [];
  prepared = λ req. (2, 48 ∷ []) ∷ [];
}

-- The origin "a", the method "G", the header "X".
abbrev options : CorsOptions
options = record {
  enabled = true;
  allowed_origins = (97 ∷ []) ∷ [];
  allowed_methods = (71 ∷ []) ∷ [];
  allowed_headers = (88 ∷ []) ∷ [];
  exposed_headers = [];
  allowed_credentials = true;
  max_age = 60;
}

abbrev get : Request
get = record { method = 71 ∷ []; origin = 97 ∷ []; request_method = []; request_headers = [] }

abbrev preflight : Request
preflight = record {
  method = options_method;
  origin = 97 ∷ [];
  request_method = 71 ∷ [];
  request_headers = 88 ∷ [];
}

abbrev fresh : Response
fresh = record { status = Status.other; fields = [] }

good : (origin : Text) → AreGood lib options origin options.allowed_origins
good origin s m = (same s origin, refl)

handle_request_lem_example :
    (r : Response) × (handle_request lib options get fresh ≡ some r)
    × IsAnswered lib options get fresh r
unfolding lookup
handle_request_lem_example = handle_request_lem lib options get fresh (good (97 ∷ [])) refl refl

preflight_lost_example :
    (r : Response) × (handle lib options preflight fresh ≡ some (true, r))
    × (lookup access_control_allow_origin r.fields ≡ none)
preflight_lost_example =
    preflight_lost lib options preflight fresh access_control_allow_origin refl refl
      (λ e. absurd (cc e)) (good (97 ∷ [])) (omega arith)

are_headers_allowed_iff_example :
    (are_headers_allowed lib options (88 ∷ []) ≡ true)
    ↔ ((s : Text) → Memᴰ s options.allowed_headers → Memᴰ s (split (88 ∷ [])))
are_headers_allowed_iff_example = are_headers_allowed_iff lib options (88 ∷ [])

abbrev printer : Printer
printer = record {
  Streams = ℕ;
  version = 66 ∷ [];
  json = 106 ∷ [];
  to_string = λ n. (48 + n) ∷ [];
  prepared = λ req body. (2, body) ∷ [];
}

list_lem_example :
    (r : Response) × (on_handle_http_request lib printer
        (cors_of lib printer options)
        (47 ∷ [])
        (47 ∷ [])
        get
        3
      ≡ sent (record { response = r; body = 51 ∷ [] }))
    × ((lookup access_control_allow_origin r.fields ≢ none) ↔ Permits lib options get)
list_lem_example =
    list_lem lib printer options (47 ∷ []) get 3 refl (λ e. absurd (cc e)) (good (97 ∷ []))
