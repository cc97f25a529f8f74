-- ===== src/Worker/Job/Wire.antt =====
-- The bytes of a worker's answer to a job: what `encode` writes for the packets of `dispatch_job`, as
-- the server reads them, and for their relays, as the client reads them.
use mathlib.Core.List.{append-nil}
use gearman_rs.Base.{
  ◌≡◌, true, suc, ℕ, ◌<◌, ◌^◌, refl, subst, Option, none, some, List, [], ◌∷◌, map, All, Bytes,
  Lacks, arith, inl,
}
use gearman_rs.Base.Decimal.{to_string}
use gearman_rs.Base.Numerals.{to_string-IsNumeral, IsNumeral-Lacks}
use gearman_rs.Protocol.PacketType.{pre_sleep}
use gearman_rs.Protocol.Command.{arg_count}
use gearman_rs.Protocol.Packet.{Packet, request}
use gearman_rs.Protocol.Packet.Split.{InitLacksNul}
use gearman_rs.Protocol.Codec.{GearmanCodec, new}
use gearman_rs.Protocol.Codec.Encode.{Fits}
use gearman_rs.Protocol.Codec.Frames.{IsSound, Decodes, Decodes-frames, frames}
use gearman_rs.Worker.Job.{
  WorkError, WorkResult, done, failed, Report, report_status, send_data, warn, report_packet,
  result_packet, WorkerJob, JobHandler, Registry, handler_for, assigned, run_handler, run_job,
  dispatch_job, Sends, Dispatched, send_packet, and_sent, Handling, returns, panics, reports,
}
use gearman_rs.Worker.Job.Sent.{send_packet-Fits}
use gearman_rs.Error.{Result, ok, err}
use gearman_rs.Worker.Job.Served.{relayed}

module _ (handle : Bytes) (no_nul : Lacks 0 handle) where
  numeral_no_nul : (n : ℕ) → Lacks 0 (to_string n)
  numeral_no_nul n = IsNumeral-Lacks 0 (to_string n) (inl (omega arith)) (to_string-IsNumeral n)

  report_separable : (r : Report) → InitLacksNul (report_packet handle r).args
  report_separable (report_status n d) = (no_nul, (numeral_no_nul n, tt))
  report_separable (send_data payload) = (no_nul, tt)
  report_separable (warn payload) = (no_nul, tt)

  result_separable : (r : WorkResult) → InitLacksNul (result_packet handle r).args
  result_separable (done payload) = (no_nul, tt)
  result_separable (failed WorkError.fail) = tt
  result_separable (failed (WorkError.exception payload)) = (no_nul, tt)

  and_sent-IsSound :
      (outcome : Result (Unit {0})) (p : Packet) (later : Dispatched)
      → InitLacksNul p.args
      → (outcome ≡ ok tt → Fits new p)
      → All (IsSound new) later.0
      → All (IsSound new) (and_sent outcome p later).0
  and_sent-IsSound (ok u) p (later, back) separable fits h =
      (record { fits = fits refl; separable = separable }, h)
  and_sent-IsSound (err e) p (later, back) separable fits h = h

  run_handler-IsSound :
      (sends : Sends) (n : ℕ) (h : Handling) → All (IsSound new) (run_handler sends handle n h).0
  unfolding run_handler
  run_handler-IsSound sends n (returns result) =
      let p = result_packet handle result in
      and_sent-IsSound (send_packet (sends n) p) p ([], true) (result_separable result)
        (send_packet-Fits (sends n) p) tt
  run_handler-IsSound sends n panics = tt
  run_handler-IsSound sends n (reports report next) =
      let p = report_packet handle report in
      let outcome = send_packet (sends n) p in
      and_sent-IsSound outcome p (run_handler sends handle (suc n) (next outcome))
        (report_separable report) (send_packet-Fits (sends n) p)
        (run_handler-IsSound sends (suc n) (next outcome))

run_job-IsSound :
    (sends : Sends) (job : WorkerJob) (h : Option JobHandler)
    → Lacks 0 job.handle
    → All (IsSound new) (run_job sends job h).0
run_job-IsSound sends job none no_nul =
    let p = result_packet job.handle (failed WorkError.fail) in
    and_sent-IsSound job.handle no_nul (send_packet (sends 0) p) p ([], true) tt
      (send_packet-Fits (sends 0) p) tt
run_job-IsSound sends job (some handler) no_nul =
    run_handler-IsSound job.handle no_nul sends 0 (handler job)

-- A relay keeps the type and the arguments.
relayed-IsSound :
    (codec : GearmanCodec) (ps : List Packet)
    → All (IsSound codec) ps
    → All (IsSound codec) (map relayed ps)
relayed-IsSound codec [] h = tt
relayed-IsSound codec (p ∷ ps) (h, hs) = (
  record {
    fits = record { counted = h.fits.counted; small = h.fits.small };
    separable = h.separable;
  },
  relayed-IsSound codec ps hs,
)

sleep-Fits : (codec : GearmanCodec) → Fits codec (request pre_sleep [])
unfolding arg_count
sleep-Fits codec = record { counted = refl; small = omega arith }

-- Frames with nothing behind them.
frames-Decodes :
    (codec : GearmanCodec) (ps : List Packet)
    → codec.max_payload_size < 2 ^ 32
    → All (IsSound codec) ps
    → Decodes codec (frames ps) ps []
frames-Decodes codec ps cap h =
    subst (λ s. Decodes codec s ps []) (append-nil (frames ps))
      (Decodes-frames codec ps (request pre_sleep []) 0 cap h (sleep-Fits codec) (omega arith))

-- For an assigned handle without a NUL, any handler and whichever sends fail, the frames of
-- what `dispatch_job` sends decode to just these packets with nothing left, and so do the
-- frames of their relays as responses.
pub dispatch_job-Decodes :
    (sends : Sends) (registry : Registry) (pkt : Packet)
    → Lacks 0 (assigned pkt.ptype pkt).handle
    → let ps = (dispatch_job sends registry pkt).0 in
      Decodes new (frames ps) ps [] × Decodes new (frames (map relayed ps)) (map relayed ps) []
unfolding dispatch_job
dispatch_job-Decodes sends registry pkt no_nul =
    let job = assigned pkt.ptype pkt in
    let ps : List Packet = (run_job sends job (handler_for job.function registry)).0 in
    let sound = run_job-IsSound sends job (handler_for job.function registry) no_nul in
    (
      frames-Decodes new ps (omega arith) sound,
      frames-Decodes new (map relayed ps) (omega arith) (relayed-IsSound new ps sound),
    )
