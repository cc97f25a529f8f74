-- ===== src/Connection/Exchange.antt =====
-- Two connections of src/conn.rs, one of which reads what the other writes.
use mathlib.Core.List.{append_assoc, append-nil}
use gearman_rs.Base.{◌≡◌, refl, sym, ap, ◌∙◌, Bytes, none, some, List, [], ◌∷◌, ◌++◌, All, arith}
use gearman_rs.Error.{ok}
use gearman_rs.Protocol.Packet.{Packet}
use gearman_rs.Protocol.Codec.{GearmanCodec, new, encode, decode}
use gearman_rs.Protocol.Codec.Encode.{frame, encode-frame}
use gearman_rs.Protocol.Codec.RoundTrip.{decode-frame}
use gearman_rs.Protocol.Codec.Frames.{IsSound, frames}
use gearman_rs.Connection.{
  Framed, transpose, Connection, from_stream, send, recv, unless_failed, send_all,
}

-- What tokio_util documents of `Framed` on a stream that delivers its bytes and then closes: a
-- frame that `decode` finds in the bytes to read is the next item, there is none after all bytes
-- are read, and what `encode` makes of a packet is written.
pub record IsFramed {Stream : Type 0} (lib : Framed Stream) (incoming : Stream → Bytes)
    : Type 0 where
  pub codec : lib.Frames → GearmanCodec
  pub unread : lib.Frames → Bytes
  pub written : lib.Frames → Bytes
  pub codec-start : (s : Stream) (c : GearmanCodec) → codec (lib.start s c) ≡ c
  pub unread-start : (s : Stream) (c : GearmanCodec) → unread (lib.start s c) ≡ incoming s
  pub written-start : (s : Stream) (c : GearmanCodec) → written (lib.start s c) ≡ []
  pub next_item :
      (f : lib.Frames) (p : Packet) (rest : Bytes)
      → decode (codec f) (unread f) ≡ (ok (some p), rest)
      → ((lib.stream_next f).0 ≡ some (ok p))
        × (unread (lib.stream_next f).1 ≡ rest)
        × (codec (lib.stream_next f).1 ≡ codec f)
  pub next_closed : (f : lib.Frames) → unread f ≡ [] → (lib.stream_next f).0 ≡ none
  pub send_item :
      (f : lib.Frames) (p : Packet) (bytes : Bytes)
      → encode (codec f) p [] ≡ (ok tt, bytes)
      → ((lib.sink_send f p).0 ≡ ok tt)
        × (written (lib.sink_send f p).1 ≡ written f ++ bytes)
        × (codec (lib.sink_send f p).1 ≡ codec f)

module _ {Stream : Type 0} (lib : Framed Stream) where
  -- The packets that `recv` gives, up to the close that it reports.
  pub data Receives : Connection lib → List Packet → Type 0 where
    closed : {c : Connection lib} → (recv lib c).0 ≡ ok none → Receives c []
    received :
        {c : Connection lib} {p : Packet} {ps : List Packet}
        → (recv lib c).0 ≡ ok (some p)
        → Receives (recv lib c).1 ps
        → Receives c (p ∷ ps)

  send_all_next :
      (ps : List Packet) (p : Packet) (c : Connection lib)
      → (send lib c p).0 ≡ ok tt
      → send_all lib (p ∷ ps) c ≡ send_all lib ps (send lib c p).1
  unfolding send_all
  send_all_next ps p c e =
      ap (λ r. unless_failed lib r (send lib c p).1 (send_all lib ps (send lib c p).1)) e

  module _ {incoming : Stream → Bytes} (is_framed : IsFramed lib incoming) where
    frames-Receives :
        (ps : List Packet) (c : Connection lib)
        → All (IsSound new) ps
        → is_framed.codec c.framed ≡ new
        → is_framed.unread c.framed ≡ frames ps
        → Receives c ps
    frames-Receives [] c h e u = closed (ap transpose (is_framed.next_closed c.framed u))
    frames-Receives (p ∷ ps) c (sound, h) e u =
        let found : decode (is_framed.codec c.framed) (is_framed.unread c.framed)
            ≡ (ok (some p), frames ps) =
          rw (e, u) (decode-frame new p (frames ps) (omega arith) sound.fits sound.separable) in
        let (item, rest, same) = is_framed.next_item c.framed p (frames ps) found in
        received (ap transpose item) (frames-Receives ps (recv lib c).1 h (same ∙ e) rest)

    send_all-written :
        (ps : List Packet) (c : Connection lib)
        → All (IsSound new) ps
        → is_framed.codec c.framed ≡ new
        → ((send_all lib ps c).0 ≡ ok tt)
          × (is_framed.written (send_all lib ps c).1.framed
              ≡ is_framed.written c.framed ++ frames ps)
    unfolding send_all
    send_all-written [] c h e = (refl, sym (append-nil _))
    send_all-written (p ∷ ps) c (sound, h) e =
        let made : encode (is_framed.codec c.framed) p [] ≡ (ok tt, frame p) =
          rw e (encode-frame new p [] (omega arith) sound.fits) in
        let (done, wrote, same) = is_framed.send_item c.framed p (frame p) made in
        let (all_done, all_wrote) = send_all-written ps (send lib c p).1 h (same ∙ e) in
        let step = send_all_next ps p c done in
        (
          ap (λ r. r.0) step ∙ all_done,
          ap (λ r. is_framed.written r.1.framed) step
              ∙ all_wrote
              ∙ ap (λ s. s ++ frames ps) wrote
              ∙ append_assoc (is_framed.written c.framed) (frame p) (frames ps),
        )

    -- Where `Framed` does as documented: packets that fit the codec and are separable are all
    -- sent on a connection, and a connection whose stream brings the bytes so written and then
    -- closes receives just these packets in order, and then the close.
    pub send_all-Receives :
        (near far : Stream) (ps : List Packet)
        → All (IsSound new) ps
        → incoming far ≡ is_framed.written (send_all lib ps (from_stream lib near)).1.framed
        → ((send_all lib ps (from_stream lib near)).0 ≡ ok tt) × Receives (from_stream lib far) ps
    send_all-Receives near far ps h e =
        let (done, wrote) =
          send_all-written ps (from_stream lib near) h (is_framed.codec-start near new) in
        (
          done,
          frames-Receives ps (from_stream lib far) h (is_framed.codec-start far new) (
              is_framed.unread-start far new
              ∙ e
              ∙ wrote
              ∙ ap (λ s. s ++ frames ps) (is_framed.written-start near new)),
        )
