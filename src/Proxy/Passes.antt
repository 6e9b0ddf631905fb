-- ===== src/Proxy/Passes.antt =====
-- What `StreamHandler` of rtsp-ws-proxy/stream_handler.cc hands on with one bitstream filter of
-- rtsp-ws-proxy/stream_filter.cc.
use Prim.Native.String.{String}
use rtsp_wasm_player.Base.{
  ℕ, suc, ◌≡◌, refl, sym, ap, ◌∙◌, Bool, true, false, Option, none, some, List, [], ◌∷◌, ◌++◌, map,
  append-nil, append_assoc,
}
use rtsp_wasm_player.Proxy.Filter.{
  StreamFilterStatus, status, last_packet, Filters, returned, Handler, get_packet,
  init_video_filters, on_running, rounds, send_loop, recv_loop, do_filter,
}
use rtsp_wasm_player.Proxy.Bsf.{
  Bitstream, made, bsf_name, CodecId, again, accepted, filled, answered, replied, send_packet,
  recv_packet, video_bsf,
}

-- The packets of the video.
abbrev pub video_of : {P : Type 0} → List (Bool × P) → List P
video_of [] = []
video_of ((true, p) ∷ l) = p ∷ video_of l
video_of ((false, p) ∷ l) = video_of l

module _ {P : Type 0} (filters : Filters P) where
  open filters use {State}

  refused-rounds :
      (n : ℕ) (initial : List State) (f : State) (fs : List State) (l : List (Bool × P))
      (h : Handler filters)
      → ((p : P) → filters.send_packet (some p) f ≡ (status StreamFilterStatus.break, f))
      → h.video_filters ≡ some (f ∷ fs)
      → (h' : Handler filters) × (rounds filters (suc n) initial l h ≡ (returned, h'))
        × (h'.packets.out ≡ h.packets.out)
        × (h'.video_filters ≡ some (f ∷ fs))
  unfolding rounds on_running do_filter send_loop
  refused-rounds n initial f fs [] h refuses known = (h, refl, refl, known)
  refused-rounds n initial f fs ((false, p) ∷ l) h refuses known =
      refused-rounds n initial f fs l (get_packet filters p h) refuses known
  refused-rounds n initial f fs ((true, p) ∷ l) h refuses known =
      rw (known, refuses p) (refused-rounds n initial f fs l _ refuses refl)

  -- A filter that takes each packet and gives one for it.
  passes-rounds :
      (n : ℕ) (initial : List State) (Up : State → Type 0) (convert : P → P) (l : List (Bool × P))
      (h : Handler filters) (f : State)
      → ((f : State)
          → Up f
          → (p : P)
          → (g k : State) × (filters.send_packet (some p) f ≡ (status StreamFilterStatus.ok, g))
            × (filters.recv_packet g ≡ (last_packet (convert p), k))
            × Up k)
      → Up f
      → init_video_filters filters initial h.video_filters ≡ f ∷ []
      → (h' : Handler filters) × (rounds filters (suc n) initial l h ≡ (returned, h'))
        × (h'.packets.out ≡ h.packets.out ++ map some (map convert (video_of l)))
  unfolding rounds on_running do_filter send_loop recv_loop
  passes-rounds n initial Up convert [] h f one up known = (h, refl, sym (append-nil h.packets.out))
  passes-rounds n initial Up convert ((false, p) ∷ l) h f one up known =
      passes-rounds n initial Up convert l (get_packet filters p h) f one up known
  passes-rounds n initial Up convert ((true, p) ∷ l) h f one up known =
      let (g, k, s, r, up') = one f up p in
      rw (known, s, r)
        (let (h', e, o) = passes-rounds n initial Up convert l _ k one up' refl in
          (
            h',
            e,
            o
                ∙ append_assoc h.packets.out (some (convert p) ∷ [])
                    (map some (map convert (video_of l))),
          ))

module _ {P : Type 0} (av : Bitstream P) (name : Option String) (codec_id : CodecId) where
  open av use {Bsf, Ctx}

  -- What libavcodec documents of a context that refuses a packet: it is as it was.
  pub record IsFull (c : Ctx) : Type 0 where
    pub refuses : (p : P) → av.send_packet (some p) c ≡ (again, c)

  -- A bitstream filter that is found and opened, and that gives one packet for one.
  pub record GivesOne (convert : P → P) : Type 1 where
    pub Ready : Ctx → Type 0
    pub chosen : String
    pub bsf : Bsf
    pub fresh : Ctx
    pub copied : Ctx
    pub ready : Ctx
    pub chooses : bsf_name av name codec_id name codec_id ≡ some chosen
    pub finds : av.get_by_name chosen ≡ some bsf
    pub allocates : av.alloc bsf ≡ made fresh
    pub copies : av.parameters_copy fresh ≡ (none, copied)
    pub inits : av.init copied ≡ (none, ready)
    pub ready-Ready : Ready ready
    pub one :
        (c : Ctx)
        → Ready c
        → (p : P)
        → (d e : Ctx) × (av.send_packet (some p) c ≡ (accepted, d))
          × (av.receive_packet d ≡ (filled (convert p), e))
          × Ready e

  -- Once the bitstream filter that is first refuses a packet because it has some to give, it refuses
  -- all: every further packet of the video is dropped without an error and nothing is handed on, since
  -- no packet is received from a filter that refused one.
  pub refused_forever :
      (n : ℕ) (initial : List (Option Ctx)) (c : Ctx) (fs : List (Option Ctx)) (l : List (Bool × P))
      (h : Handler (video_bsf av name codec_id))
      → IsFull c
      → h.video_filters ≡ some (some c ∷ fs)
      → (h' : Handler (video_bsf av name codec_id)) × (rounds
            (video_bsf av name codec_id)
            (suc n)
            initial
            l
            h
          ≡ (returned, h'))
        × (h'.packets.out ≡ h.packets.out)
        × (h'.video_filters ≡ some (some c ∷ fs))
  unfolding send_packet
  refused_forever n initial c fs l h full known =
      refused-rounds (video_bsf av name codec_id) n initial (some c) fs l h
        (λ p. ap (answered av name codec_id) (full.refuses p)) known

  Up : {convert : P → P} → GivesOne convert → Option Ctx → Type 0
  Up g none = Unit {0}
  Up g (some c) = g.Ready c

  Up-one :
      (convert : P → P) (g : GivesOne convert) (s : Option Ctx)
      → Up g s
      → (p : P)
      → (t u : Option Ctx) × (send_packet av name codec_id (some p) s
          ≡ (status StreamFilterStatus.ok, t))
        × (recv_packet av name codec_id t ≡ (last_packet (convert p), u))
        × Up g u
  unfolding send_packet recv_packet Up
  Up-one convert g none up p =
      let (d, e, s, r, y) = g.one g.ready g.ready-Ready p in
      (
        some d,
        some e,
        rw (g.chooses, g.finds, g.allocates, g.copies, g.inits, s),
        ap (replied av name codec_id) r,
        y,
      )
  Up-one convert g (some c) up p =
      let (d, e, s, r, y) = g.one c up p in
      (some d, some e, ap (answered av name codec_id) s, ap (replied av name codec_id) r, y)

  -- With one bitstream filter, not yet opened, that is found and opens and that gives one packet for
  -- one, any rounds return within one round of each loop, and exactly the packets of the video are
  -- handed on, each as the filter converts it, in order.
  pub one_for_one :
      (n : ℕ) (convert : P → P) (l : List (Bool × P)) (h : Handler (video_bsf av name codec_id))
      → GivesOne convert
      → h.video_filters ≡ none
      → (h' : Handler (video_bsf av name codec_id)) × (rounds
            (video_bsf av name codec_id)
            (suc n)
            (none ∷ [])
            l
            h
          ≡ (returned, h'))
        × (h'.packets.out ≡ h.packets.out ++ map some (map convert (video_of l)))
  unfolding Up
  one_for_one n convert l h g fresh =
      passes-rounds (video_bsf av name codec_id) n (none ∷ []) (Up g) convert l h none
        (Up-one convert g) tt
        (ap (init_video_filters (video_bsf av name codec_id) (none ∷ [])) fresh)
