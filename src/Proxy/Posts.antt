-- ===== src/Proxy/Posts.antt =====
-- `Send` of rtsp-ws-proxy/ws_stream_server.cc on packet after packet while sessions join and leave: what
-- each session is given.
use rtsp_wasm_player.Base.{
  ℕ, ◌≡◌, refl, sym, ap, ◌∙◌, inl, inr, Bool, true, false, not, ◌&&◌, ◌||◌, Option, none, some,
  List, [], ◌∷◌, ◌++◌, map, if◌then◌else◌, Bool-cases,
}
use rtsp_wasm_player.Packet.{Data}
use rtsp_wasm_player.Packet.Encode.{write}
use mathlib.Core.Path.{subst}
use rtsp_wasm_player.Proxy.Room.{
  store, Equality, Room, mem, insert, erase, sessions_at, at, join, leave, living,
}
use rtsp_wasm_player.Proxy.Once.{IsOnce, insert-IsOnce, erase-IsOnce}
use rtsp_wasm_player.Proxy.Members.{mem-insert, mem-erase, changed}
use rtsp_wasm_player.Proxy.Server.{Server, Post, post_to, send_packet, IsSent, send_packet_lem}

or_both : (a b : Bool) → (a || b) ≡ false → (a ≡ false) × (b ≡ false)
or_both true b e = absurd (cc e)
or_both false b e = (refl, e)

module _ {K S : Type 0} (P : Type 0) (keys : Equality K) (values : Equality S) where
  -- A session joins or leaves a stream's set, or a packet of a stream comes, with the sessions that
  -- are alive then.
  pub data Act : Type 0 where
    joins leaves : K → S → Act
    sends : (S → Bool) → K → P → Data → Act

  abbrev pub and_then :
      Option (List (Post P keys values) × Server P keys values)
      → (Server P keys values → Option (List (Post P keys values) × Server P keys values))
      → Option (List (Post P keys values) × Server P keys values)
  and_then none k = none
  and_then (some (ps, server)) k = elim (k server) [
    | none ↦ none
    | some (qs, server') ↦ some (ps ++ qs, server')
  ]

  -- What was given to the sessions, and the server afterwards; `none` is an abort.
  unfoldable pub serve :
      List Act → Server P keys values → Option (List (Post P keys values) × Server P keys values)
  serve [] server = some ([], server)
  serve (joins id s ∷ acts) server =
      serve acts (record server { room = join keys values id s server.room })
  serve (leaves id s ∷ acts) server =
      serve acts (record server { room = leave keys values id s server.room })
  serve (sends alive id stream d ∷ acts) server =
      and_then (send_packet P keys values alive id stream d server) (serve acts)

  -- The messages of one session, in order.
  unfoldable pub told : S → List (Post P keys values) → List (List ℕ)
  told self [] = []
  told self ((s, bytes) ∷ ps) =
      let rest = told self ps in if values.same s self then bytes ∷ rest else rest

  -- The specification: the packets of the streams that a session watches while they come, if it is
  -- alive. `w` says what it watches before.
  unfoldable pub feed : S → (K → Bool) → List Act → List Data
  feed self w [] = []
  feed self w (joins id s ∷ acts) =
      feed self (λ j. if keys.same id j then values.same s self || w j else w j) acts
  feed self w (leaves id s ∷ acts) =
      feed self (λ j. if keys.same id j then not (values.same s self) && w j else w j) acts
  feed self w (sends alive id stream d ∷ acts) =
      let rest = feed self w acts in if w id && alive self then d ∷ rest else rest

  told-append :
      (self : S) (ps qs : List (Post P keys values))
      → told self (ps ++ qs) ≡ told self ps ++ told self qs
  unfolding told
  told-append self [] qs = refl
  told-append self ((s, bytes) ∷ ps) qs = elim (Bool-cases (values.same s self)) [
    | inl e ↦ rw (e, told-append self ps qs)
    | inr e ↦ rw (e, told-append self ps qs)
  ]

  told-absent :
      (self : S) (bytes : List ℕ) (alive : S → Bool) (v : List S)
      → mem keys values self v ≡ false
      → told self (post_to P keys values bytes (living keys values alive v)) ≡ []
  unfolding told post_to living mem
  told-absent self bytes alive [] n = refl
  told-absent self bytes alive (s ∷ v) n =
      let (f, m) = or_both (values.same s self) (mem keys values self v) n in
      elim (Bool-cases (alive s)) [
        | inl e ↦ rw (e, f) (told-absent self bytes alive v m)
        | inr e ↦ rw e (told-absent self bytes alive v m)
      ]

  -- Of the messages of one packet a session in the set has one.
  told-living :
      (self : S) (bytes : List ℕ) (alive : S → Bool) (v : List S)
      → IsOnce keys values v
      → told self (post_to P keys values bytes (living keys values alive v))
        ≡ (if mem keys values self v && alive self then bytes ∷ [] else [])
  unfolding told post_to living mem
  told-living self bytes alive [] i = refl
  told-living self bytes alive (s ∷ v) (n, i) = elim (Bool-cases (values.same s self)) [
    | inl f ↦ rw f (
        one f (alive s)
        ∙ ap (λ (t : S). if alive t then bytes ∷ [] else []) ((values.same_iff s self).0 f))
    | inr f ↦ rw f (other f (alive s) ∙ told-living self bytes alive v i)
  ]
    where
      L : List S
      L = living keys values alive v

      none_more : values.same s self ≡ true → told self (post_to P keys values bytes L) ≡ []
      none_more f =
          told-absent self bytes alive v
            (ap (λ (t : S). mem keys values t v) (sym ((values.same_iff s self).0 f)) ∙ n)

      one :
          values.same s self ≡ true
          → (b : Bool)
          → told self (post_to P keys values bytes (if b then s ∷ L else L))
            ≡ (if b then bytes ∷ [] else [])
      one f true = rw (f, none_more f)
      one f false = none_more f

      other :
          values.same s self ≡ false
          → (b : Bool)
          → told self (post_to P keys values bytes (if b then s ∷ L else L))
            ≡ told self (post_to P keys values bytes L)
      other f true = rw f
      other f false = refl

  -- A history aborts nowhere and gives the session the packets `xs`, encoded.
  abbrev pub IsGiven : S → List Act → Server P keys values → List Data → Type 0
  IsGiven self acts server xs =
      (after : Server P keys values) × (posts : List (Post P keys values)) × (serve acts server
        ≡ some (posts, after))
      × (told self posts ≡ map write xs)

  -- The server's sets: each without repetition, and with `self` in those that it watches.
  record Knows (self : S) (w : K → Bool) (r : Room keys values) : Type 0 where
    once : (j : K) → IsOnce keys values (sessions_at keys values j r)
    member : (j : K) → mem keys values self (sessions_at keys values j r) ≡ w j

  changes-Knows :
      (f : List S → List S) (g : Bool → Bool) (self : S) (w : K → Bool) (id : K)
      (r : Room keys values)
      → ((v : List S) → IsOnce keys values v → IsOnce keys values (f v))
      → ((v : List S) → mem keys values self (f v) ≡ g (mem keys values self v))
      → Knows self w r
      → Knows self
          (λ j. if keys.same id j then g (w j) else w j)
          (store keys values id (f (sessions_at keys values id r)) (at keys values id r).1)
  changes-Knows f g self w id r o m k = record {
    once = λ j.
        subst (IsOnce keys values) (sym (changed keys values f id j r))
          (if_once (keys.same id j) (sessions_at keys values j r) (k.once j));
    member = λ j.
        ap (mem keys values self) (changed keys values f id j r)
        ∙ if_member (keys.same id j) (sessions_at keys values j r) (w j) (k.member j);
  }
    where
      if_once :
          (b : Bool) (v : List S) → IsOnce keys values v → IsOnce keys values (if b then f v else v)
      if_once true v i = o v i
      if_once false v i = i

      if_member :
          (b : Bool) (v : List S) (x : Bool)
          → mem keys values self v ≡ x
          → mem keys values self (if b then f v else v) ≡ (if b then g x else x)
      if_member true v x e = m v ∙ ap g e
      if_member false v x e = e

  prefixed :
      (self : S) (ps : List (Post P keys values))
      (o : Option (List (Post P keys values) × Server P keys values))
      (server server' : Server P keys values) (acts : List Act) (d : Data) (b : Bool)
      (rest : List Data)
      → told self ps ≡ (if b then write d ∷ [] else [])
      → o ≡ some (ps, server')
      → IsGiven self acts server' rest
      → (after : Server P keys values) × (posts : List (Post P keys values)) × (and_then o
            (serve acts)
          ≡ some (posts, after))
        × (told self posts ≡ map write (if b then d ∷ rest else rest))
  prefixed self ps o server server' acts d b rest t e (after, posts, served, given) = (
    after,
    ps ++ posts,
    ap (λ (o : Option (List (Post P keys values) × Server P keys values)). and_then o (serve acts))
          e
        ∙ ap
            (λ (o : Option (List (Post P keys values) × Server P keys values)).
              let r : Option (List (Post P keys values) × Server P keys values) = elim o [
                | none ↦ none
                | some (qs, a) ↦ some (ps ++ qs, a)
              ] in
              r)
            served,
    told-append self ps posts ∙ joined b t,
  )
    where
      joined :
          (b : Bool)
          → told self ps ≡ (if b then write d ∷ [] else [])
          → told self ps ++ told self posts ≡ map write (if b then d ∷ rest else rest)
      joined true t = rw (t, given)
      joined false t = rw (t, given)

  run-IsGiven :
      (self : S) (acts : List Act) (w : K → Bool) (server : Server P keys values)
      → Knows self w server.room
      → IsGiven self acts server (feed self w acts)
  unfolding serve feed told join leave at
  run-IsGiven self [] w server k = (server, [], refl, refl)
  run-IsGiven self (joins id s ∷ acts) w server k = run-IsGiven self acts _ _ (
      changes-Knows (insert keys values s) (λ b. values.same s self || b) self w id server.room
        (insert-IsOnce keys values s) (mem-insert keys values self s) k)
  run-IsGiven self (leaves id s ∷ acts) w server k = run-IsGiven self acts _ _ (
      changes-Knows (erase keys values s) (λ b. not (values.same s self) && b) self w id server.room
        (erase-IsOnce keys values s) (mem-erase keys values self s) k)
  run-IsGiven self (sends alive id stream d ∷ acts) w server k =
      prefixed self _ _ server i.after acts d (w id && alive self) (feed self w acts)
        (told-living self (write d) alive (sessions_at keys values id server.room) (k.once id)
          ∙ ap (λ (b : Bool). if b && alive self then write d ∷ [] else []) (k.member id))
        i.posts
        (run-IsGiven self acts w i.after (record {
          once = λ j. subst (IsOnce keys values) (sym (i.sets j)) (k.once j);
          member = λ j. ap (mem keys values self) (i.sets j) ∙ k.member j;
        }))
    where
      i : IsSent P keys values alive id stream d server
      i = send_packet_lem P keys values alive id stream d server

  -- On a server without streams and sessions at first, however sessions join and leave and packets of
  -- any streams come, nothing aborts, and a session is given exactly the packets, encoded, of the
  -- streams whose set it was in when they came and while it was alive, each once and in order.
  pub serve-feed :
      (self : S) (acts : List Act)
      → IsGiven self acts (record { stream_map = []; room = [] }) (feed self (λ j. false) acts)
  unfolding sessions_at mem
  serve-feed self acts =
      run-IsGiven self acts (λ j. false) (record { stream_map = []; room = [] })
        (record { once = λ j. tt; member = λ j. refl })
