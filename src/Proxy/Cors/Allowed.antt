-- ===== src/Proxy/Cors/Allowed.antt =====
-- Which origins, methods and headers common/net/cors.h allows.
use mathlib.Core.List.{Memᴰ}
use mathlib.Core.List.Memᴰ as Mem
use rtsp_wasm_player.Base.{
  ℕ, ◌≡◌, refl, sym, ap, ◌∙◌, ◌≢◌, ◌↔◌, ◌⊎◌, inl, inr, Bool, true, false, ◌&&◌, ◌||◌, some, List,
  [], ◌∷◌, ◌++◌, arith, ◌==◌, if◌then◌else◌, ==_iff, ==_self, Bool-cases,
}
use mathlib.Core.Path.{ap₂}
use rtsp_wasm_player.Proxy.Grant.{and_both}
use rtsp_wasm_player.Proxy.Cors.{
  Text, begin_with, same, contains, split, star, options_method, Library, CorsOptions,
  allowed_origins_all, match_with, match_any, is_origin_allowed, is_method_allowed, all_in,
  are_headers_allowed,
}

same_self : (t : Text) → same t t ≡ true
unfolding same
same_self [] = refl
same_self (x ∷ t) = rw (==_self x, same_self t)

equal : (s t : Text) → same s t ≡ true → s ≡ t
unfolding same
equal [] [] e = refl
equal [] (y ∷ t) e = absurd (cc e)
equal (x ∷ s) [] e = absurd (cc e)
equal (x ∷ s) (y ∷ t) e =
    let (a, b) = and_both (x == y) (same s t) e in ap₂ ◌∷◌ ((==_iff x y).0 a) (equal s t b)

pub same_iff : (s t : Text) → (same s t ≡ true) ↔ (s ≡ t)
same_iff s t = (equal s t, λ e. ap (same s) (sym e) ∙ same_self s)

either : (a b : Bool) → (a || b) ≡ true → (a ≡ true) ⊎ (b ≡ true)
either true b e = inl refl
either false b e = inr e

pub apart : {a : Bool} → a ≡ false → a ≡ true → ⊥
apart e f = ground (arith, e, f)

or_left : (a b : Bool) → a ≡ true → (a || b) ≡ true
or_left a b e = ground arith

or_right : (a b : Bool) → b ≡ true → (a || b) ≡ true
or_right a b e = ground arith

and_join : (a b : Bool) → a ≡ true → b ≡ true → (a && b) ≡ true
and_join a b e f = ground arith

pub contains_iff : (t : Text) (l : List Text) → (contains t l ≡ true) ↔ Memᴰ t l
unfolding contains
contains_iff t l = (found l, holds l)
  where
    found : (l : List Text) → contains t l ≡ true → Memᴰ t l
    found [] e = absurd (cc e)
    found (s ∷ l) e = elim (either (same s t) (contains t l) e) [
      | inl a ↦ Mem.head (sym (equal s t a))
      | inr b ↦ Mem.tail (found l b)
    ]

    holds : (l : List Text) → Memᴰ t l → contains t l ≡ true
    holds [] m = absurd (Mem.not-nil m)
    holds (s ∷ l) (Mem.head e) = or_left (same s t) (contains t l) ((same_iff s t).1 (sym e))
    holds (s ∷ l) (Mem.tail m) = or_right (same s t) (contains t l) (holds l m)

module _ (lib : Library) (options : CorsOptions) where
  -- One of the patterns matches the origin.
  abbrev pub Matched : Text → List Text → Type 0
  Matched origin l = (s : Text) × Memᴰ s l × (lib.regex_match s origin ≡ some true)

  -- No pattern is refused by std::regex.
  abbrev pub AreGood : Text → List Text → Type 0
  AreGood origin l = (s : Text) → Memᴰ s l → (b : Bool) × (lib.regex_match s origin ≡ some b)

  match_any_lem :
      (origin : Text) (l : List Text)
      → AreGood origin l
      → (b : Bool) × (match_any lib options origin l ≡ some b) × ((b ≡ true) ↔ Matched origin l)
  unfolding match_any
  match_any_lem origin [] good = (false, refl, (λ e. absurd (cc e), λ m. absurd (Mem.not-nil m.1)))
  match_any_lem origin (s ∷ l) good =
      first (good s (Mem.head refl)) (match_any_lem origin l (λ t m. good t (Mem.tail m)))
    where
      first :
          (b : Bool) × (lib.regex_match s origin ≡ some b)
          → (b : Bool) × (match_any lib options origin l ≡ some b) × ((b ≡ true) ↔ Matched origin l)
          → (b : Bool) × (match_any lib options origin (s ∷ l) ≡ some b)
            × ((b ≡ true) ↔ Matched origin (s ∷ l))
      first (true, e) (c, f, g) =
          (true, ap₂ (match_with lib options) e f, (λ a. (s, Mem.head refl, e), λ m. refl))
      first (false, e) (c, f, g) = (
        c,
        ap₂ (match_with lib options) e f,
        (λ a. let (t, m, q) = g.0 a in (t, Mem.tail m, q), λ m. g.1 (later m)),
      )
        where
          later : Matched origin (s ∷ l) → Matched origin l
          later (t, Mem.head d, q) = absurd (cc (d, q, e))
          later (t, Mem.tail m, q) = (t, m, q)

  -- What the options say of an origin: any is allowed, or it is named, or a pattern matches it.
  abbrev pub PermitsOrigin : Text → Type 0
  PermitsOrigin origin =
      Memᴰ star options.allowed_origins
      ⊎ (Memᴰ origin options.allowed_origins ⊎ Matched origin options.allowed_origins)

  abbrev pub PermitsMethod : Text → Type 0
  PermitsMethod method = (method ≡ options_method) ⊎ Memᴰ method options.allowed_methods

  pub is_origin_allowed_lem :
      (origin : Text)
      → AreGood origin options.allowed_origins
      → (b : Bool) × (is_origin_allowed lib options origin ≡ some b)
        × ((b ≡ true) ↔ PermitsOrigin origin)
  unfolding is_origin_allowed
  is_origin_allowed_lem origin good =
      decided (Bool-cases (allowed_origins_all lib options))
        (Bool-cases (contains origin options.allowed_origins))
        (match_any_lem origin options.allowed_origins good)
    where
      decided :
          (allowed_origins_all lib options ≡ true) ⊎ (allowed_origins_all lib options ≡ false)
          → (contains origin options.allowed_origins ≡ true)
            ⊎ (contains origin options.allowed_origins ≡ false)
          → (b : Bool) × (match_any lib options origin options.allowed_origins ≡ some b)
            × ((b ≡ true) ↔ Matched origin options.allowed_origins)
          → (b : Bool) × (is_origin_allowed lib options origin ≡ some b)
            × ((b ≡ true) ↔ PermitsOrigin origin)
      decided (inl a) o m = (true, rw a, (λ e. inl ((contains_iff star _).0 a), λ p. refl))
      decided (inr a) (inl o) m =
          (true, rw (a, o), (λ e. inr (inl ((contains_iff origin _).0 o)), λ p. refl))
      decided (inr a) (inr o) (b, e, f) = (b, rw (a, o, e), (λ q. inr (inr (f.0 q)), back))
        where
          back : PermitsOrigin origin → b ≡ true
          back (inl m) = absurd (apart a ((contains_iff star _).1 m))
          back (inr (inl m)) = absurd (apart o ((contains_iff origin _).1 m))
          back (inr (inr m)) = f.1 m

  pub is_method_allowed_lem :
      (method : Text) → (is_method_allowed lib options method ≡ true) ↔ PermitsMethod method
  unfolding is_method_allowed
  is_method_allowed_lem method = (there, back)
    where
      there :
          (same method options_method || contains method options.allowed_methods) ≡ true
          → PermitsMethod method
      there e =
          elim (either (same method options_method) (contains method options.allowed_methods) e) [
            | inl a ↦ inl (equal method options_method a)
            | inr b ↦ inr ((contains_iff method options.allowed_methods).0 b)
          ]

      back :
          PermitsMethod method
          → (same method options_method || contains method options.allowed_methods) ≡ true
      back (inl a) = or_left _ _ ((same_iff method options_method).1 a)
      back (inr b) =
          or_right (same method options_method) _
            ((contains_iff method options.allowed_methods).1 b)

  -- The headers of a preflight are allowed when they have all that the options allow.
  all_in_iff :
      (hs l : List Text) → (all_in lib options hs l ≡ true) ↔ ((s : Text) → Memᴰ s l → Memᴰ s hs)
  unfolding all_in
  all_in_iff hs l = (there l, back l)
    where
      there : (l : List Text) → all_in lib options hs l ≡ true → (s : Text) → Memᴰ s l → Memᴰ s hs
      there [] e s m = absurd (Mem.not-nil m)
      there (t ∷ l) e s (Mem.head d) =
          Mem.cast d
            ((contains_iff t hs).0 (and_both (contains t hs) (all_in lib options hs l) e).0)
      there (t ∷ l) e s (Mem.tail m) =
          there l (and_both (contains t hs) (all_in lib options hs l) e).1 s m

      back : (l : List Text) → ((s : Text) → Memᴰ s l → Memᴰ s hs) → all_in lib options hs l ≡ true
      back [] h = refl
      back (t ∷ l) h =
          and_join (contains t hs) _ ((contains_iff t hs).1 (h t (Mem.head refl)))
            (back l (λ s m. h s (Mem.tail m)))

begin-append : (c : ℕ) (u v : List Text) → u ≢ [] → begin_with c (u ++ v) ≡ begin_with c u ++ v
begin-append c [] v some_there = absurd (some_there refl)
begin-append c (w ∷ ws) v some_there = refl

split_some : (h : Text) → split h ≢ []
unfolding split
split_some [] e = absurd (cc e)
split_some (c ∷ h) e = begins (Bool-cases ((c == 44) || (c == 32))) e
  where
    begun : (u : List Text) → begin_with c u ≢ []
    begun [] e = absurd (cc e)
    begun (w ∷ ws) e = absurd (cc e)

    begins :
        (((c == 44) || (c == 32)) ≡ true) ⊎ (((c == 44) || (c == 32)) ≡ false)
        → (if (c == 44) || (c == 32) then [] ∷ split h else begin_with c (split h)) ≢ []
    begins (inl a) = rw a (λ e. absurd (cc e))
    begins (inr a) = rw a (begun (split h))

split-append : (h x : Text) → split (h ++ (44 ∷ x)) ≡ split h ++ split x
unfolding split
split-append [] x = refl
split-append (c ∷ h) x = elim (Bool-cases ((c == 44) || (c == 32))) [
  | inl a ↦ rw (a, split-append h x) refl
  | inr a ↦ rw (a, split-append h x) (begin-append c (split h) (split x) (split_some h))
]

module _ (lib : Library) (options : CorsOptions) where
  -- The headers that a preflight asks for are allowed exactly when they have among them all those
  -- that the options allow.
  pub are_headers_allowed_iff :
      (h : Text)
      → (are_headers_allowed lib options h ≡ true)
        ↔ ((s : Text) → Memᴰ s options.allowed_headers → Memᴰ s (split h))
  unfolding are_headers_allowed
  are_headers_allowed_iff h = all_in_iff lib options (split h) options.allowed_headers

  -- So any further header is allowed too.
  are_headers_allowed_wider :
      (h x : Text)
      → are_headers_allowed lib options h ≡ true
      → are_headers_allowed lib options (h ++ (44 ∷ x)) ≡ true
  are_headers_allowed_wider h x e = (are_headers_allowed_iff (h ++ (44 ∷ x))).1 (λ s m.
      rw (split-append h x) (Mem.append_left (split x) ((are_headers_allowed_iff h).0 e s m)))
