-- ===== src/Connection.antt =====
-- src/conn.rs: `Connection`, a byte stream with the codec. `Framed` is that of tokio_util and a
-- parameter: `start` is its `new`, `sink_send`
-- the `send` of its sink, and `stream_next` the `next` of its stream.
pub mod Exchange
pub mod Tests
use gearman_rs.Base.{Bytes, Option, none, some, List, [], ◌∷◌}
use gearman_rs.Error.{Result, ok, err}
use gearman_rs.Protocol.Packet.{Packet}
use gearman_rs.Protocol.Codec.{GearmanCodec, new}

pub record Framed (Stream : Type 0) : Type 1 where
  pub Frames : Type 0
  pub start : Stream → GearmanCodec → Frames
  pub sink_send : Frames → Packet → Result (Unit {0}) × Frames
  pub stream_next : Frames → Option (Result Packet) × Frames

-- `transpose`.
abbrev pub transpose {ℓ} : {A : Type ℓ} → Option (Result A) → Result (Option A)
transpose none = ok none
transpose (some (ok x)) = ok (some x)
transpose (some (err e)) = err e

module _ {Stream : Type 0} (lib : Framed Stream) where
  pub record Connection : Type 0 where
    pub framed : lib.Frames

  abbrev pub from_stream : Stream → Connection
  from_stream stream = record { framed = lib.start stream new }

  -- The first argument is `TcpStream::connect`.
  abbrev pub connect : (Bytes → Result Stream) → Bytes → Result Connection
  connect tcp addr = elim (tcp addr) [ ok stream ↦ ok (from_stream stream) | err e ↦ err e ]

  abbrev pub send : Connection → Packet → Result (Unit {0}) × Connection
  send conn packet =
      let (sent, framed) = lib.sink_send conn.framed packet in (sent, record { framed = framed })

  abbrev pub recv : Connection → Result (Option Packet) × Connection
  recv conn =
      let (read, framed) = lib.stream_next conn.framed in
      (transpose read, record { framed = framed })

  abbrev pub unless_failed :
      Result (Unit {0})
      → Connection
      → Result (Unit {0}) × Connection
      → Result (Unit {0}) × Connection
  unless_failed (ok u) conn rest = rest
  unless_failed (err e) conn rest = (err e, conn)

  -- Packets sent one after another, up to the first that fails.
  unfoldable pub send_all : List Packet → Connection → Result (Unit {0}) × Connection
  send_all [] conn = (ok tt, conn)
  send_all (p ∷ ps) conn =
      unless_failed (send conn p).0 (send conn p).1 (send_all ps (send conn p).1)
