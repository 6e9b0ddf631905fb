-- ===== src/Proxy/Cors.antt =====
-- class Cors of common/net/cors.h: which requests of another origin are answered, and with which
-- header fields. A text is the list of its bytes. std::regex and the fields that Boost.Beast sets
-- by itself are parameters; the log lines are left out.
use rtsp_wasm_player.Base.{
  ℕ, ◌+◌, Bool, true, false, ◌&&◌, ◌||◌, Option, none, some, List, [], ◌∷◌, ◌++◌, ltb, ◌==◌,
  if◌then◌else◌, length, ◌^◌, not,
}
pub mod Fields
pub mod Allowed
pub mod Answers
pub mod Preflight
mod Examples

-- The header fields that the class sets; `plain` are all others.
pub data Field : Type 0 where
  vary access_control_allow_origin access_control_allow_methods : Field
  access_control_allow_headers access_control_allow_credentials : Field
  access_control_max_age access_control_expose_headers : Field
  plain : ℕ → Field

abbrev pub Text : Type 0
Text = List ℕ

unfoldable pub same : Text → Text → Bool
same [] [] = true
same [] (y ∷ ys) = false
same (x ∷ xs) [] = false
same (x ∷ xs) (y ∷ ys) = (x == y) && same xs ys

pub data Status : Type 0 where
  no_content other : Status

pub record Response : Type 0 where
  pub status : Status
  pub fields : List (Field × Text)

-- What is read of the request; a field that it does not have is the empty text.
pub record Request : Type 0 where
  pub method : Text
  pub origin : Text
  pub request_method : Text
  pub request_headers : Text

pub record CorsOptions : Type 0 where
  pub enabled : Bool
  pub allowed_origins : List Text
  pub allowed_methods : List Text
  pub allowed_headers : List Text
  pub exposed_headers : List Text
  pub allowed_credentials : Bool
  pub max_age : ℕ

abbrev pub star : Text
star = 42 ∷ []

-- "OPTIONS" and "true".
abbrev pub options_method : Text
options_method = 79 ∷ 80 ∷ 84 ∷ 73 ∷ 79 ∷ 78 ∷ 83 ∷ []

abbrev pub true_text : Text
true_text = 116 ∷ 114 ∷ 117 ∷ 101 ∷ []

-- `std::find` in a vector, as a test.
unfoldable pub contains : Text → List Text → Bool
contains t [] = false
contains t (s ∷ l) = same s t || contains t l

-- One more character of the first token.
abbrev pub begin_with : ℕ → List Text → List Text
begin_with c [] = (c ∷ []) ∷ []
begin_with c (w ∷ ws) = (c ∷ w) ∷ ws

-- `boost::algorithm::split` at every comma and space.
unfoldable pub split : Text → List Text
split [] = [] ∷ []
split (c ∷ t) = if (c == 44) || (c == 32) then [] ∷ split t else begin_with c (split t)

-- `boost::algorithm::join` with ", ".
unfoldable pub join : List Text → Text
join [] = []
join (s ∷ []) = s
join (s ∷ t ∷ l) = s ++ (44 ∷ 32 ∷ join (t ∷ l))

abbrev pub is_vary : Field → Bool
is_vary vary = true
is_vary _ = false

abbrev pub code : Field → ℕ
code vary = 0
code access_control_allow_origin = 1
code access_control_allow_methods = 2
code access_control_allow_headers = 3
code access_control_allow_credentials = 4
code access_control_max_age = 5
code access_control_expose_headers = 6
code (plain n) = 7 + n

-- `insert` adds a field, `set` replaces the fields of its name.
abbrev pub insert : Field → Text → Response → Response
insert f v res = record res { fields = res.fields ++ ((f, v) ∷ []) }

unfoldable pub erase : Field → List (Field × Text) → List (Field × Text)
erase f [] = []
erase f ((g, v) ∷ l) = let rest = erase f l in if code g == code f then rest else (g, v) ∷ rest

abbrev pub set : Field → Text → Response → Response
set f v res = record res { fields = erase f res.fields ++ ((f, v) ∷ []) }

-- `if (b) res.set(f, v)`
unfoldable pub set_when : Bool → Field → Text → Response → Response
set_when b f v res = if b then set f v res else res

-- `regex_match` is `std::regex_match(origin, std::regex(s))`, none where the pattern is refused
-- with an exception; `number` is `std::to_string`; the names are
-- those of Boost.Beast's header fields; `prepared` is what `keep_alive` and
-- `prepare_payload` set on the empty answer.
pub record Library : Type 0 where
  pub regex_match : Text → Text → Option Bool
  pub number : ℕ → Text
  pub origin_name : Text
  pub request_method_name : Text
  pub request_headers_name : Text
  pub prepared : Request → List (ℕ × Text)

module _ (lib : Library) (options : CorsOptions) where
  abbrev pub allowed_origins_all : Bool
  allowed_origins_all = contains star options.allowed_origins

  -- One pattern, with what the later ones give.
  abbrev pub match_with : Option Bool → Option Bool → Option Bool
  match_with none rest = none
  match_with (some true) rest = some true
  match_with (some false) rest = rest

  unfoldable pub match_any : Text → List Text → Option Bool
  match_any origin [] = some false
  match_any origin (s ∷ l) = match_with (lib.regex_match s origin) (match_any origin l)

  unfoldable pub is_origin_allowed : Text → Option Bool
  is_origin_allowed origin =
      if allowed_origins_all
      then some true
      else if contains origin options.allowed_origins
      then some true
      else match_any origin options.allowed_origins

  unfoldable pub is_method_allowed : Text → Bool
  is_method_allowed method = same method options_method || contains method options.allowed_methods

  -- The loop over `allowed_headers`.
  unfoldable pub all_in : List Text → List Text → Bool
  all_in headers [] = true
  all_in headers (s ∷ l) = contains s headers && all_in headers l

  unfoldable pub are_headers_allowed : Text → Bool
  are_headers_allowed headers = all_in (split headers) options.allowed_headers

  abbrev pub set_origin : Text → Response → Response
  set_origin origin res =
      set access_control_allow_origin (if allowed_origins_all then star else origin) res

  abbrev pub set_credentials : Response → Response
  set_credentials res =
      set_when options.allowed_credentials access_control_allow_credentials true_text res

  -- What `HandleRequest` sets for a request that is let through.
  abbrev pub grant : Request → Response → Response
  grant req res = set_credentials (
      set_when (ltb 0 (length options.exposed_headers)) access_control_expose_headers
        (join options.exposed_headers) (set_origin req.origin res))

  -- Nothing more is done where the test fails, or throws.
  abbrev pub guarded : Option Bool → (Response → Option Response) → Response → Option Response
  guarded none k res = none
  guarded (some true) k res = k res
  guarded (some false) k res = some res

  unfoldable pub handle_request : Request → Response → Option Response
  handle_request req res₀ =
      let res = insert vary lib.origin_name res₀ in
      if same req.origin []
      then some res
      else guarded (is_origin_allowed req.origin)
          (guarded (some (is_method_allowed req.method)) (λ r. some (grant req r))) res

  abbrev pub is_positive : ℕ → Bool
  is_positive n = ltb 0 n && ltb n (2 ^ 31)

  -- What `HandlePreflight` sets for a preflight that is let through.
  abbrev pub allow : Request → Response → Response
  allow req res =
      set_when (is_positive options.max_age) access_control_max_age (lib.number options.max_age) (
        set_credentials (
          set access_control_allow_headers req.request_headers
            (set access_control_allow_methods req.request_method (set_origin req.origin res))))

  unfoldable pub handle_preflight : Request → Response → Option Response
  handle_preflight req res₀ =
      let res =
        insert vary lib.request_headers_name
          (insert vary lib.request_method_name (insert vary lib.origin_name res₀)) in
      if same req.origin []
      then some res
      else guarded (is_origin_allowed req.origin)
          (guarded (some (is_method_allowed req.request_method))
            (guarded (some (are_headers_allowed req.request_headers)) (λ r. some (allow req r))))
          res

  abbrev pub plain_fields : List (ℕ × Text) → List (Field × Text)
  plain_fields [] = []
  plain_fields ((n, v) ∷ l) = (plain n, v) ∷ plain_fields l

  -- The lambda `no_content` of `Handle`.
  abbrev pub empty_answer : Request → Response
  empty_answer req = record { status = no_content; fields = plain_fields (lib.prepared req) }

  abbrev pub with_flag : Bool → Option Response → Option (Bool × Response)
  with_flag b none = none
  with_flag b (some r) = some (b, r)

  -- What a preflight's answer becomes: `res = no_content()`.
  abbrev pub replaced : Response → Option Response → Option Response
  replaced answer none = none
  replaced answer (some r) = some answer

  -- `Handle`; none is an exception.
  unfoldable pub handle : Request → Response → Option (Bool × Response)
  handle req res =
      if not options.enabled
      then some (false, res)
      else if same req.method options_method && not (same req.request_method [])
      then with_flag true (replaced (empty_answer req) (handle_preflight req res))
      else with_flag false (handle_request req res)
