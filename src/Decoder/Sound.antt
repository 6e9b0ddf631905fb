-- ===== src/Decoder/Sound.antt =====
-- The invariant of the decoding thread and its callers, of ws-wasm-player/src/decoder.h, and that
-- the thread's own moves keep it.
use mathlib.Core.Path.{ap₂, subst}
use rtsp_wasm_player.Base.{
  ℕ, ◌≡◌, refl, sym, ap, ◌∙◌, inl, inr, Bool, true, false, Option, none, some, List, [], ◌∷◌, ◌++◌,
  append-nil, append_assoc, arith, ltb, if◌then◌else◌, Bool-cases, is_some, length,
}
use rtsp_wasm_player.Packet.{Data}
use rtsp_wasm_player.Decoder.Defs.{
  Answer, picture, need_more, error, VideoOp, Frame, Decoder, is_key,
}
use rtsp_wasm_player.Decoder.Sync.{op_for}
use rtsp_wasm_player.Decoder.Queue.{keys, waiting, InBound, after_push, keys-append, erase_other}
use rtsp_wasm_player.Decoder.Thread.{
  System, take_batch, work_one, worked, with_op, work_on, take_on, step,
}

abbrev pub AllVideo : List Data → Type 0
AllVideo [] = Unit {0}
AllVideo (x ∷ q) = (x.kind ≡ 0) × AllVideo q

AllVideo-append : (p q : List Data) → AllVideo p → AllVideo q → AllVideo (p ++ q)
AllVideo-append [] q a b = b
AllVideo-append (x ∷ p) q a b = (a.0, AllVideo-append p q a.1 b)

AllVideo-erase_other : (q : List Data) → AllVideo q → AllVideo (erase_other q)
unfolding erase_other
AllVideo-erase_other [] a = a
AllVideo-erase_other (x ∷ q) a = elim (Bool-cases (is_key x.packet)) [
  | inl e ↦ rw e (a.0, AllVideo-erase_other q a.1)
  | inr e ↦ rw e a.1
]

pub AllVideo-after_push :
    (maxsize : ℕ) (x : Data) (q : List Data)
    → x.kind ≡ 0
    → AllVideo q
    → AllVideo (after_push maxsize x q)
unfolding after_push
AllVideo-after_push maxsize x q video a = elim (Bool-cases (ltb maxsize (length (q ++ (x ∷ []))))) [
  | inl e ↦ rw e (AllVideo-erase_other _ snoc)
  | inr e ↦ rw e snoc
]
  where
    snoc : AllVideo (q ++ (x ∷ []))
    snoc = AllVideo-append q (x ∷ []) a (video, tt)

waiting-append : (p q : List Data) → waiting (p ++ q) ≡ waiting p ++ waiting q
waiting-append [] q = refl
waiting-append (x ∷ p) q = ap (λ (l : List (Option Data)). some x ∷ l) (waiting-append p q)

module _ (op : VideoOp) where
  open op use {State, Picture, get_frame}

  -- The queue, the batch and the packets taken so far are packets, and:
  pub record IsSound (maxsize : ℕ) (s : System op) : Type 0 where
    pub queue : List Data
    pub batch : List Data
    pub taken : List Data
    pub queue_eq : s.decoder.datas ≡ waiting queue
    pub batch_eq : s.batch ≡ waiting batch
    pub taken_eq : s.taken ≡ waiting taken
    pub queue_video : AllVideo queue
    pub batch_video : AllVideo batch
    pub size : s.decoder.datas_maxsize ≡ maxsize
    pub callback : s.decoder.has_callback ≡ true
    pub decodes : is_some s.decoder.video_op ≡ true
    -- The queue is within its limit or holds key frames only.
    pub bound : InBound maxsize queue
    -- The key frames that were accepted are those that the thread took and those that wait.
    pub keys_kept : keys taken ++ keys queue ≡ keys s.accepted
    -- The frames made are those delivered and those that wait, in this order.
    pub in_order : s.delivered ++ s.decoder.results ≡ s.made

  -- A move that succeeds and keeps the invariant.
  abbrev pub Keeps : ℕ → Option (System op) → Type 0
  Keeps maxsize none = ⊥
  Keeps maxsize (some s) = IsSound maxsize s

  if-Keeps :
      (n : ℕ) (b : Bool) (s : System op) (o : Option (System op))
      → IsSound n s
      → Keeps n o
      → Keeps n (if b then some s else o)
  if-Keeps n true s o v k = v
  if-Keeps n false s o v k = k

  take_on-IsSound :
      (n : ℕ) (b : List (Option Data)) (s : System op) → IsSound n s → IsSound n (take_on op b s)
  unfolding keys
  take_on-IsSound n [] s v = record {
    queue = [];
    batch = v.queue;
    taken = v.taken ++ v.queue;
    queue_eq = refl;
    batch_eq = v.queue_eq;
    taken_eq = ap₂ ◌++◌ v.taken_eq v.queue_eq ∙ sym (waiting-append v.taken v.queue);
    queue_video = tt;
    batch_video = v.queue_video;
    size = v.size;
    callback = v.callback;
    decodes = v.decodes;
    bound = inl (omega arith);
    keys_kept = rw (keys-append, append-nil) v.keys_kept;
    in_order = v.in_order;
  }
  take_on-IsSound n (x ∷ b) s v = v

  if_system :
      (n : ℕ) (b : Bool) (s t : System op)
      → IsSound n s
      → IsSound n t
      → IsSound n (if b then s else t)
  if_system n true s t v w = v
  if_system n false s t v w = w

  pub take-IsSound : (n : ℕ) (s : System op) → IsSound n s → Keeps n (step op take_batch s)
  unfolding step
  take-IsSound n s v =
      if_system n s.decoder.stopped s (take_on op s.batch s) v (take_on-IsSound n s.batch s v)

  -- The thread goes on with the batch `q` after an answer that gave no picture.
  idle-IsSound :
      (n : ℕ) (o : State) (q : List Data) (s : System op)
      → AllVideo q
      → IsSound n s
      → let d : Decoder op = s.decoder in
        IsSound n (record s { decoder = record d { video_op = some o }; batch = waiting q })
  idle-IsSound n o q s video v = record {
    queue = v.queue;
    batch = q;
    taken = v.taken;
    queue_eq = v.queue_eq;
    batch_eq = refl;
    taken_eq = v.taken_eq;
    queue_video = v.queue_video;
    batch_video = video;
    size = v.size;
    callback = v.callback;
    decodes = refl;
    bound = v.bound;
    keys_kept = v.keys_kept;
    in_order = v.in_order;
  }

  worked-IsSound :
      (n kind : ℕ) (a : Answer Picture × State) (q : List Data) (s : System op)
      → AllVideo q
      → IsSound n s
      → IsSound n (worked op kind a (waiting q) s)
  worked-IsSound n kind (picture p, o) q s video v = record {
    queue = v.queue;
    batch = q;
    taken = v.taken;
    queue_eq = v.queue_eq;
    batch_eq = refl;
    taken_eq = v.taken_eq;
    queue_video = v.queue_video;
    batch_video = video;
    size = v.size;
    callback = v.callback;
    decodes = refl;
    bound = v.bound;
    keys_kept = v.keys_kept;
    in_order =
        sym (append_assoc s.delivered s.decoder.results (record { kind = kind; image = p } ∷ []))
        ∙ ap (λ (l : List (Frame op)). l ++ (record { kind = kind; image = p } ∷ [])) v.in_order;
  }
  worked-IsSound n kind (need_more, o) q s video v = idle-IsSound n o [] s tt v
  worked-IsSound n kind (error, o) q s video v = idle-IsSound n o [] s tt v

  with_op-IsSound :
      (n : ℕ) (o : Option State) (x : Data) (q : List Data) (s : System op)
      → is_some o ≡ true
      → AllVideo q
      → IsSound n s
      → Keeps n (with_op op o x (waiting q) s)
  with_op-IsSound n none x q s e video v = absurd (cc e)
  with_op-IsSound n (some o) x q s e video v =
      worked-IsSound n x.kind (get_frame x.packet o) q s video v

  work_on-IsSound :
      (n : ℕ) (q : List Data) (s : System op)
      → AllVideo q
      → IsSound n s
      → Keeps n (work_on op (waiting q) s)
  work_on-IsSound n [] s video v = v
  work_on-IsSound n (x ∷ q) s video v =
      with_op-IsSound n (op_for op x.kind s.decoder) x q s has video.1 v
    where
      has : is_some (op_for op x.kind s.decoder) ≡ true
      has = rw (video.0) v.decodes

  pub work-IsSound : (n : ℕ) (s : System op) → IsSound n s → Keeps n (step op work_one s)
  unfolding step
  work-IsSound n s v = if-Keeps n s.decoder.stopped s (work_on op s.batch s) v (
      subst (λ b. Keeps n (work_on op b s)) (sym v.batch_eq)
        (work_on-IsSound n v.batch s v.batch_video v))
