-- ===== src/Packet/Ffmpeg.antt =====
-- The round trip of a packet under what FFmpeg documents of its packet functions.
use mathlib.Core.Path.{subst}
use rtsp_wasm_player.Base.{
  ℕ, ◌+◌, ◌^◌, ◌<◌, ◌≡◌, sym, ap, ◌∙◌, ◌≢◌, ◌↔◌, List, [], ◌∷◌, ◌++◌, append-nil, append_assoc,
  length,
}
use rtsp_wasm_player.Bytes.{wire}
use rtsp_wasm_player.Bytes.Words.{wire_64_small}
use rtsp_wasm_player.Packet.{SideData, Packet, Data}
use rtsp_wasm_player.Packet.Encode.{write}
use rtsp_wasm_player.Packet.Decode.{Av, Status, success, from_bytes}
use rtsp_wasm_player.Packet.Reads.{HasMemory, add_all}
use rtsp_wasm_player.Packet.Parts.{after_middle, after_tail, received}
use rtsp_wasm_player.Packet.Roundtrip.{CanTravel, from_bytes-write}

-- No block of the list has this kind.
abbrev pub IsNew : ℕ → List SideData → Type 0
IsNew kind [] = Unit {0}
IsNew kind (s ∷ l) = (s.kind ≢ kind) × IsNew kind l

-- The blocks' kinds differ from one another and from those of `old`.
abbrev pub AreNew : List SideData → List SideData → Type 0
AreNew [] old = Unit {0}
AreNew (s ∷ l) old = IsNew s.kind old × AreNew l (old ++ (s ∷ []))

-- `av_malloc` gives blocks up to INT_MAX; `av_packet_from_data` sets the payload, up to INT_MAX
-- less the padding, and leaves the other fields; `av_packet_add_side_data` appends a block of a
-- new kind.
pub record IsFfmpeg (av : Av) : Type 0 where
  pub memory : HasMemory av
  pub adopts :
      (b : List ℕ) (p : Packet)
      → length b + 64 < 2 ^ 31
      → av.packet_from_data b p ≡ record p { bytes = b }
  pub appends :
      (s : SideData) (p : Packet)
      → IsNew s.kind p.side_data
      → av.packet_add_side_data s p ≡ record p { side_data = p.side_data ++ (s ∷ []) }

add_all-eq :
    (av : Av) (f : IsFfmpeg av) (l : List SideData) (p : Packet)
    → AreNew l p.side_data
    → add_all av l p ≡ record p { side_data = p.side_data ++ l }
unfolding add_all
add_all-eq av f [] p new =
    ap (λ (l : List SideData). record p { side_data = l }) (sym (append-nil p.side_data))
add_all-eq av f (s ∷ l) p new =
    ap (add_all av l) (f.appends s p new.0)
    ∙ add_all-eq av f l (record p { side_data = p.side_data ++ (s ∷ []) }) new.1
    ∙ ap (λ (t : List SideData). record p { side_data = t }) (append_assoc p.side_data (s ∷ []) l)

-- The payload fits a packet and no kind of side data occurs twice.
pub record IsPlain (p : Packet) : Type 0 where
  pub payload : length p.bytes + 64 < 2 ^ 31
  pub kinds : AreNew p.side_data []

-- What arrives of a packet.
abbrev pub arrived : Packet → Packet
arrived p = record p {
  pts = wire 8 p.pts;
  dts = wire 8 p.dts;
  duration = wire 8 p.duration;
  pos = wire 8 p.duration;
}

received-eq :
    (av : Av) (f : IsFfmpeg av) (p old : Packet)
    → IsPlain p
    → old.side_data ≡ []
    → received av f.memory p old ≡ arrived p
received-eq av f p old plain empty =
    ap (λ (x : Packet). after_tail av f.memory p (after_middle av f.memory p x))
      (f.adopts p.bytes (record old { pts = wire 8 p.pts; dts = wire 8 p.dts }) plain.payload)
    ∙ ap (after_tail av f.memory p)
        (add_all-eq av f p.side_data headed (subst (AreNew p.side_data) (sym empty) plain.kinds))
    ∙ ap (λ (l : List SideData). record (arrived p) { side_data = l ++ p.side_data }) empty
  where
    headed : Packet
    headed = record old {
      pts = wire 8 p.pts;
      dts = wire 8 p.dts;
      bytes = p.bytes;
      stream_index = p.stream_index;
      flags = p.flags;
    }

-- Where FFmpeg does as the code relies on, a packet that the format can carry and that has no kind
-- of side data twice, written by `ToBytes` and read by `FromBytes` into an object without side
-- data, also with more bytes behind it, arrives with its kind, payload, stream index, flags and
-- side data; the timestamps and the duration are as the wire gives them, and the position is the
-- duration's.
pub from_bytes_arrives :
    (av : Av) (d old : Data) (extra : List ℕ)
    → IsFfmpeg av
    → CanTravel d
    → IsPlain d.packet
    → old.packet.side_data ≡ []
    → from_bytes av (write d ++ extra) old
      ≡ (success, record { kind = d.kind; packet = arrived d.packet })
from_bytes_arrives av d old extra f ok plain empty =
    from_bytes-write av f.memory d old extra ok
    ∙ ap
        (λ (p : Packet).
          let r : Status × Data = (success, record { kind = d.kind; packet = p }) in r)
        (received-eq av f d.packet old.packet plain empty)

-- Where FFmpeg does as the code relies on, a packet that the format can carry, with no kind of side
-- data twice and with timestamps and a duration below 2 ^ 31, that `FromBytes` reads into an object
-- without side data arrives whole but for the position, which is replaced by the duration.
pub from_bytes_small :
    (av : Av) (d old : Data) (extra : List ℕ)
    → IsFfmpeg av
    → CanTravel d
    → IsPlain d.packet
    → old.packet.side_data ≡ []
    → d.packet.pts < 2 ^ 31
    → d.packet.dts < 2 ^ 31
    → d.packet.duration < 2 ^ 31
    → from_bytes av (write d ++ extra) old
      ≡ (success, record d { packet = record d.packet { pos = d.packet.duration } })
from_bytes_small av d old extra f ok plain empty pts dts duration =
    from_bytes_arrives av d old extra f ok plain empty
    ∙ rw (
      wire_64_small d.packet.pts pts,
      wire_64_small d.packet.dts dts,
      wire_64_small d.packet.duration duration,
    )

-- Where FFmpeg does as the code relies on, a packet that the format can carry, with no kind of side
-- data twice and with timestamps and a duration below 2 ^ 31, that `FromBytes` reads into an object
-- without side data comes back whole exactly when its position is equal to its duration.
pub from_bytes_whole_iff :
    (av : Av) (d old : Data) (extra : List ℕ)
    → IsFfmpeg av
    → CanTravel d
    → IsPlain d.packet
    → old.packet.side_data ≡ []
    → d.packet.pts < 2 ^ 31
    → d.packet.dts < 2 ^ 31
    → d.packet.duration < 2 ^ 31
    → (from_bytes av (write d ++ extra) old ≡ (success, d)) ↔ (d.packet.pos ≡ d.packet.duration)
from_bytes_whole_iff av d old extra f ok plain empty pts dts duration = (forth, back)
  where
    small :
        from_bytes av (write d ++ extra) old
        ≡ (success, record d { packet = record d.packet { pos = d.packet.duration } })
    small = from_bytes_small av d old extra f ok plain empty pts dts duration

    forth : from_bytes av (write d ++ extra) old ≡ (success, d) → d.packet.pos ≡ d.packet.duration
    forth e = ap (λ (r : Status × Data). r.1.packet.pos) (sym e ∙ small)

    back : d.packet.pos ≡ d.packet.duration → from_bytes av (write d ++ extra) old ≡ (success, d)
    back e =
        small
        ∙ ap
            (λ (n : ℕ).
              let r : Status × Data =
                (success, record d { packet = record d.packet { pos = n } }) in
              r)
            (sym e)
