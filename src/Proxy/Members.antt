-- ===== src/Proxy/Members.antt =====
-- The members of a room of rtsp-ws-proxy/ws_stream_room.cc after any history of calls.
use rtsp_wasm_player.Base.{
  ◌≡◌, refl, sym, ap, ◌∙◌, ◌⊎◌, inl, inr, Bool, true, false, not, ◌&&◌, ◌||◌, List, [], ◌∷◌, arith,
  if◌then◌else◌, Bool-cases,
}
use rtsp_wasm_player.Proxy.Room.{
  Equality, Room, mem, insert, erase, sessions_at, store, at, empty, join, leave, send,
}

module _ {K : Type 0} (eq : Equality K) where
  open eq use {same, same_iff}

  pub same_self : (i : K) → same i i ≡ true
  same_self i = (same_iff i i).1 refl

  same_both : (a b c : K) → same a b ≡ true → same a c ≡ same b c
  same_both a b c e = ap (λ x. same x c) ((same_iff a b).0 e)

  same_apart : (a b c : K) → same a b ≡ false → same a c ≡ true → same b c ≡ false
  same_apart a b c f e = elim (Bool-cases (same b c)) [
    | inr g ↦ g
    | inl g ↦ absurd (cc (f, (same_iff a b).1 ((same_iff a c).0 e ∙ sym ((same_iff b c).0 g))))
  ]

module _ {K S : Type 0} (keys : Equality K) (values : Equality S) where
  pub data Call : Type 0 where
    joins leaves : K → S → Call
    asks sends : K → Call

  unfoldable pub step : Call → Room keys values → Room keys values
  step (joins id s) r = join keys values id s r
  step (leaves id s) r = leave keys values id s r
  step (asks id) r = (empty keys values id r).1
  step (sends id) r = (send keys values (λ s. true) id r).1

  unfoldable pub run : List Call → Room keys values → Room keys values
  run [] r = r
  run (c ∷ cs) r = run cs (step c r)

  -- Whether `s` watches `id` after the calls, by the last join or leave of the two, if it did so
  -- before as `b` says.
  unfoldable pub watches : K → S → List Call → Bool → Bool
  watches id s [] b = b
  watches id s (joins i t ∷ cs) b = watches id s cs ((keys.same i id && values.same t s) || b)
  watches id s (leaves i t ∷ cs) b = watches id s cs (not (keys.same i id && values.same t s) && b)
  watches id s (asks i ∷ cs) b = watches id s cs b
  watches id s (sends i ∷ cs) b = watches id s cs b

  pub mem-insert :
      (s t : S) (v : List S)
      → mem keys values s (insert keys values t v) ≡ (values.same t s || mem keys values s v)
  unfolding insert mem
  mem-insert s t v = elim (Bool-cases (mem keys values t v)) [
    | inl e ↦ rw e (known e (Bool-cases (values.same t s)))
    | inr e ↦ rw e
  ]
    where
      known :
          mem keys values t v ≡ true
          → (values.same t s ≡ true) ⊎ (values.same t s ≡ false)
          → mem keys values s v ≡ (values.same t s || mem keys values s v)
      known e (inl f) = rw f (ap (λ x. mem keys values x v) (sym ((values.same_iff t s).0 f)) ∙ e)
      known e (inr f) = rw f

  pub mem-erase :
      (s t : S) (v : List S)
      → mem keys values s (erase keys values t v) ≡ (not (values.same t s) && mem keys values s v)
  unfolding erase mem
  mem-erase s t [] = ground arith
  mem-erase s t (u ∷ v) = elim (Bool-cases (values.same u t)) [
    | inl e ↦
        rw (e, same_both values u t s e, mem-erase s t v)
          (same_case (values.same t s) (mem keys values s v))
    | inr e ↦ rw e (
        rw (mem-erase s t v) (
          apart_case (values.same u s) (values.same t s) (mem keys values s v)
            (same_apart values u t s e)))
  ]
    where
      same_case : (a m : Bool) → (not a && m) ≡ (not a && (a || m))
      same_case a m = ground arith

      apart_case :
          (a b m : Bool) → (a ≡ true → b ≡ false) → (a || (not b && m)) ≡ (not b && (a || m))
      apart_case true b m h = rw (h refl)
      apart_case false b m h = refl

  sessions_at-store :
      (i j : K) (v : List S) (r : Room keys values)
      → sessions_at keys values j (store keys values i v r)
        ≡ (if keys.same i j then v else sessions_at keys values j r)
  unfolding sessions_at store
  sessions_at-store i j v [] = refl
  sessions_at-store i j v ((k, w) ∷ r) = elim (Bool-cases (keys.same k i)) [
    | inl e ↦ rw (e, same_both keys k i j e) (same_case (keys.same i j) _ _ _)
    | inr e ↦ rw e (
        rw (sessions_at-store i j v r)
          (apart_case (keys.same k j) _ _ _ _ (same_apart keys k i j e)))
  ]
    where
      same_case :
          (a : Bool) (v w z : List S)
          → (if a then v else z) ≡ (if a then v else (if a then w else z))
      same_case true v w z = refl
      same_case false v w z = refl

      apart_case :
          (a b : Bool) (v w z : List S)
          → (a ≡ true → b ≡ false)
          → (if a then w else (if b then v else z)) ≡ (if b then v else (if a then w else z))
      apart_case true b v w z h = rw (h refl)
      apart_case false b v w z h = refl

  -- Looking at an entry, as `Empty` and `Send` do, makes an empty set at most.
  pub at_same :
      (i j : K) (r : Room keys values)
      → sessions_at keys values j (at keys values i r).1 ≡ sessions_at keys values j r
  unfolding at
  at_same i j r =
      sessions_at-store i j (sessions_at keys values i r) r
      ∙ elim (Bool-cases (keys.same i j)) [ inl e ↦ rw (e, (keys.same_iff i j).0 e) | inr e ↦ rw e ]

  pub changed :
      (f : List S → List S) (i j : K) (r : Room keys values)
      → sessions_at keys values j
          (store keys values i (f (sessions_at keys values i r)) (at keys values i r).1)
        ≡ (if keys.same i j then f (sessions_at keys values j r) else sessions_at keys values j r)
  changed f i j r =
      sessions_at-store i j (f (sessions_at keys values i r)) (at keys values i r).1
      ∙ elim (Bool-cases (keys.same i j)) [
        | inl e ↦ rw (e, (keys.same_iff i j).0 e)
        | inr e ↦ rw e (at_same i j r)
      ]

  -- One call.
  pub step_lem :
      (id : K) (s : S) (c : Call) (r : Room keys values)
      → mem keys values s (sessions_at keys values id (step c r))
        ≡ watches id s (c ∷ []) (mem keys values s (sessions_at keys values id r))
  unfolding step watches empty send join leave at
  step_lem id s (joins i t) r =
      ap (mem keys values s) (changed (insert keys values t) i id r)
      ∙ elim (Bool-cases (keys.same i id)) [
        | inl e ↦ rw e (mem-insert s t (sessions_at keys values id r))
        | inr e ↦ rw e
      ]
  step_lem id s (leaves i t) r =
      ap (mem keys values s) (changed (erase keys values t) i id r)
      ∙ elim (Bool-cases (keys.same i id)) [
        | inl e ↦ rw e (mem-erase s t (sessions_at keys values id r))
        | inr e ↦ rw e
      ]
  step_lem id s (asks i) r = ap (mem keys values s) (at_same i id r)
  step_lem id s (sends i) r = ap (mem keys values s) (at_same i id r)

  watches-cons :
      (id : K) (s : S) (c : Call) (cs : List Call) (b : Bool)
      → watches id s (c ∷ cs) b ≡ watches id s cs (watches id s (c ∷ []) b)
  unfolding watches
  watches-cons id s (joins i t) cs b = refl
  watches-cons id s (leaves i t) cs b = refl
  watches-cons id s (asks i) cs b = refl
  watches-cons id s (sends i) cs b = refl

  -- After any calls the room's set for a stream has exactly the sessions whose last call for that
  -- stream was to join it, beside those it had and that did not leave.
  pub run-watches :
      (id : K) (s : S) (cs : List Call) (r : Room keys values)
      → mem keys values s (sessions_at keys values id (run cs r))
        ≡ watches id s cs (mem keys values s (sessions_at keys values id r))
  unfolding run watches
  run-watches id s [] r = refl
  run-watches id s (c ∷ cs) r =
      run-watches id s cs (step c r)
      ∙ ap (watches id s cs) (step_lem id s c r)
      ∙ sym (watches-cons id s c cs _)
