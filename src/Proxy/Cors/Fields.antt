-- ===== src/Proxy/Cors/Fields.antt =====
-- What is found among the fields of a response of common/net/cors.h after one is set.
use rtsp_wasm_player.Base.{
  ◌≡◌, refl, ◌∙◌, ◌≢◌, inl, inr, Bool, true, false, Option, none, some, List, [], ◌∷◌, ◌++◌, arith,
  ◌==◌, if◌then◌else◌, Bool-cases,
}
use rtsp_wasm_player.Proxy.Cors.{Field, Text, code, erase, Response, insert, set, set_when}

-- The first field of a name.
unfoldable pub lookup : Field → List (Field × Text) → Option Text
lookup f [] = none
lookup f ((g, v) ∷ l) = let rest = lookup f l in if code g == code f then some v else rest

lookup_last :
    (f g : Field) (v : Text) (l : List (Field × Text))
    → lookup f l ≡ none
    → code g ≡ code f
    → lookup f (l ++ ((g, v) ∷ [])) ≡ some v
unfolding lookup
lookup_last f g v [] e same = ground arith
lookup_last f g v ((h, w) ∷ l) e same = elim (Bool-cases (code h == code f)) [
  | inl a ↦ absurd (ground (arith, e))
  | inr a ↦
      let e' : lookup f l ≡ none = ground (arith, e) in rw (a, lookup_last f g v l e' same) refl
]

lookup_before :
    (f g : Field) (v : Text) (l : List (Field × Text))
    → code g ≢ code f
    → lookup f (l ++ ((g, v) ∷ [])) ≡ lookup f l
unfolding lookup
lookup_before f g v [] differ = ground arith
lookup_before f g v ((h, w) ∷ l) differ = rw (lookup_before f g v l differ)

lookup-erase_same : (f : Field) (l : List (Field × Text)) → lookup f (erase f l) ≡ none
unfolding lookup erase
lookup-erase_same f [] = refl
lookup-erase_same f ((h, w) ∷ l) = elim (Bool-cases (code h == code f)) [
  | inl a ↦ rw a (lookup-erase_same f l)
  | inr a ↦ rw (a, a) (lookup-erase_same f l)
]

lookup-erase_other :
    (f g : Field) (l : List (Field × Text)) → code g ≢ code f → lookup f (erase g l) ≡ lookup f l
unfolding lookup erase
lookup-erase_other f g [] differ = refl
lookup-erase_other f g ((h, w) ∷ l) differ = elim (Bool-cases (code h == code g)) [
  | inl a ↦
      let b : (code h == code f) ≡ false = ground arith in
      rw (a, b, lookup-erase_other f g l differ) refl
  | inr a ↦ rw (a, lookup-erase_other f g l differ) refl
]

pub lookup-set : (f : Field) (v : Text) (r : Response) → lookup f (set f v r).fields ≡ some v
lookup-set f v r = lookup_last f f v (erase f r.fields) (lookup-erase_same f r.fields) refl

pub lookup-set_other :
    (f g : Field) (v : Text) (r : Response)
    → code g ≢ code f
    → lookup f (set g v r).fields ≡ lookup f r.fields
lookup-set_other f g v r differ =
    lookup_before f g v (erase g r.fields) differ ∙ lookup-erase_other f g r.fields differ

pub lookup-insert_other :
    (f g : Field) (v : Text) (r : Response)
    → code g ≢ code f
    → lookup f (insert g v r).fields ≡ lookup f r.fields
lookup-insert_other f g v r differ = lookup_before f g v r.fields differ

pub lookup-set_when :
    (f : Field) (b : Bool) (v : Text) (r : Response)
    → b ≡ true
    → lookup f (set_when b f v r).fields ≡ some v
unfolding set_when
lookup-set_when f true v r e = lookup-set f v r
lookup-set_when f false v r e = absurd (cc e)

pub lookup-set_when_other :
    (f : Field) (b : Bool) (g : Field) (v : Text) (r : Response)
    → code g ≢ code f
    → lookup f (set_when b g v r).fields ≡ lookup f r.fields
unfolding set_when
lookup-set_when_other f true g v r differ = lookup-set_other f g v r differ
lookup-set_when_other f false g v r differ = refl

pub set_when_not :
    (b : Bool) (f : Field) (v : Text) (r : Response) → b ≡ false → set_when b f v r ≡ r
unfolding set_when
set_when_not b f v r e = rw e

pub set_when-status :
    (b : Bool) (f : Field) (v : Text) (r : Response) → (set_when b f v r).status ≡ r.status
unfolding set_when
set_when-status true f v r = refl
set_when-status false f v r = refl
