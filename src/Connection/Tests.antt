-- ===== src/Connection/Tests.antt =====
-- The theorem on connections at two packets, with streams that are the bytes to read, and frames
-- that hold a codec, the bytes left to read and the bytes written.
use gearman_rs.Base.{◌≡◌, refl, Bytes, Option, none, some, codes, List, [], ◌∷◌, ◌++◌, All, arith}
use gearman_rs.Error.{Result, ok, err}
use gearman_rs.Protocol.PacketType.{grab_job, echo_req}
use gearman_rs.Protocol.Command.{arg_count}
use gearman_rs.Protocol.Packet.{Packet, request}
use gearman_rs.Protocol.Codec.{GearmanCodec, new, encode, decode}
use gearman_rs.Protocol.Codec.Frames.{IsSound}
use gearman_rs.Connection.{Framed, from_stream, send_all}
use gearman_rs.Connection.Exchange.{IsFramed, Receives, send_all-Receives}

record Held : Type 0 where
  codec : GearmanCodec
  unread : Bytes
  written : Bytes

-- An item is read where `decode` finds a packet, and an error where it fails.
abbrev item_of : Held → Result (Option Packet) × Bytes → Option (Result Packet) × Held
item_of f (ok (some p), rest) = (some (ok p), record f { unread = rest })
item_of f (ok none, rest) = (none, f)
item_of f (err e, rest) = (some (err e), f)

abbrev sent_of : Held → Result (Unit {0}) × Bytes → Result (Unit {0}) × Held
sent_of f (ok u, bytes) = (ok u, record f { written = f.written ++ bytes })
sent_of f (err e, bytes) = (err e, f)

abbrev held : Framed Bytes
held = record {
  Frames = Held;
  start = λ s c. record { codec = c; unread = s; written = [] };
  sink_send = λ f p. sent_of f (encode f.codec p []);
  stream_next = λ f. item_of f (decode f.codec f.unread);
}

held-IsFramed : IsFramed held (λ s. s)
unfolding decode
held-IsFramed = record {
  codec = λ f. f.codec;
  unread = λ f. f.unread;
  written = λ f. f.written;
  codec-start = λ s c. refl;
  unread-start = λ s c. refl;
  written-start = λ s c. refl;
  next_item = λ f p rest e. rw e (refl, refl, refl);
  next_closed = λ f e. rw e refl;
  send_item = λ f p bytes e. rw e (refl, refl, refl);
}

abbrev two : List Packet
two = request echo_req (codes "hello" ∷ []) ∷ request grab_job [] ∷ []

two-IsSound : All (IsSound new) two
unfolding arg_count
two-IsSound = (
  record { fits = record { counted = refl; small = omega arith }; separable = ground arith },
  (record { fits = record { counted = refl; small = omega arith }; separable = ground arith }, tt),
)

-- The bytes that the near connection writes.
abbrev sent_bytes : Bytes
sent_bytes = (send_all held two (from_stream held [])).1.framed.written

send_all-Receives_example :
    ((send_all held two (from_stream held [])).0 ≡ ok tt)
    × Receives held (from_stream held sent_bytes) two
unfolding held-IsFramed send_all
send_all-Receives_example = send_all-Receives held held-IsFramed [] sent_bytes two two-IsSound refl
