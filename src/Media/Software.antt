-- ===== src/Media/Software.antt =====
-- A small codec, which the examples run StreamVideoOp on: a packet is a number, and so is a picture.
use rtsp_wasm_player.Base.{
  ℕ, ◌*◌, ◌≡◌, refl, sym, ap, Bool, false, Option, none, some, arith, if◌then◌else◌,
}
use rtsp_wasm_player.Media.VideoOp.{Sent, accepted, Received, image, Codecs}

pub record Context : Type 0 where
  pub is_open : Bool
  pub pending : Option ℕ

abbrev pub take_packet : ℕ → Context → Sent × Context
take_packet n x = if x.is_open then (accepted, record x { pending = some n }) else (Sent.refused, x)

abbrev pub give : Option ℕ → Context → Received ℕ × Context
give none x = (Received.again, x)
give (some n) x = (image (record { pts = n; pixels = n }), record x { pending = none })

abbrev pub closed : Context
closed = record { is_open = false; pending = none }

pub takes_none :
    (n : ℕ) (x : Context)
    → x.is_open ≡ false
    → ((take_packet n x).0 ≡ Sent.refused) × ((take_packet n x).1.is_open ≡ false)
takes_none n x e = ground arith

pub closed_at_first : (x : Context) → some closed ≡ some x → x.is_open ≡ false
closed_at_first x e =
    ap (λ (o : Option Context). elim o [ none ↦ false | some y ↦ y.is_open ]) (sym e)

-- `opens` tells whether a context can be opened; scaling doubles a picture.
abbrev pub software : (P : Type 0) → (P → ℕ) → Bool → Codecs P
software P number opens = record {
  Codec = Unit {0};
  Context = Context;
  Scaler = ℕ;
  Pixels = ℕ;
  find_decoder_by_name = λ name. none;
  find_decoder = some tt;
  alloc_context = λ c. some closed;
  parameters_to_context = λ x. some x;
  set_thread_count = λ n x. x;
  set_thread_type = λ n x. x;
  open2 = λ c x. (opens, record x { is_open = opens });
  send_packet = λ p x. take_packet (number p) x;
  receive_frame = λ x. give x.pending x;
  flush_buffers = λ x. record x { pending = none };
  size = λ x. record { pix_fmt = 0; width = 4; height = 2 };
  get_buffer_size = λ s. s.width * s.height;
  get_scaler = λ a b n. some 2;
  scale = λ k h n. k * n;
  is_open = λ x. x.is_open;
  closed_at_first = λ c x e. closed_at_first x e;
  closed_on_failure = λ c x e. e;
  takes_none = λ p x e. takes_none (number p) x e;
  flushed_open = λ x. refl;
}
