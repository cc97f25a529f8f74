-- ===== src/Worker/Grab/Late.antt =====
-- Tasks that a handler of src/worker/job.rs spawned and that keep a clone of its reporter: what they
-- send goes between what the grab loop sends, in any order that the lock of the connection gives.
use gearman_rs.Base.{Bool, true, false, if◌then◌else◌, List, [], ◌∷◌, Bytes}
use gearman_rs.Protocol.PacketType.{PacketType, work_status, work_data, work_warning}
use gearman_rs.Protocol.Packet.{Packet}
use gearman_rs.Worker.Job.{Report, report_packet}

-- A report of a task that kept a reporter, with the handle of the reporter's job.
abbrev pub LateReport : Type 0
LateReport = Bytes × Report

abbrev pub late_packet : LateReport → Packet
late_packet (handle, report) = report_packet handle report

-- The ways to send two sequences over one connection, a packet at a time.
pub data Merge : List Packet → List Packet → List Packet → Type 0 where
  done : Merge [] [] []
  from_loop :
      (p : Packet) {own late wire : List Packet}
      → Merge own late wire
      → Merge (p ∷ own) late (p ∷ wire)
  from_task :
      (p : Packet) {own late wire : List Packet}
      → Merge own late wire
      → Merge own (p ∷ late) (p ∷ wire)

-- The packet types of `Reporter`.
unfoldable pub is_report : PacketType → Bool
is_report work_status = true
is_report work_data = true
is_report work_warning = true
is_report _ = false

unfoldable pub without_reports : List Packet → List Packet
without_reports [] = []
without_reports (p ∷ ps) =
    let rest = without_reports ps in if is_report p.ptype then rest else p ∷ rest
