-- ===== src/Worker/Job/Sent.antt =====
-- Which packets of a worker's answer are sent: those within the codec's cap that the connection takes.
use gearman_rs.Base.{
  ℕ, suc, ◌≤◌, ◌≡◌, refl, ap, ◌∙◌, Bool, true, false, Option, none, some, List, [], ◌∷◌, ◌++◌, map,
  All, Bytes, length, arith,
}
use gearman_rs.Error.{Result, ok, err, GearmanError}
use gearman_rs.Protocol.Packet.{Packet}
use gearman_rs.Protocol.Packet.Split.{join_nul}
use gearman_rs.Protocol.Codec.{GearmanCodec, new, encode}
use gearman_rs.Protocol.Codec.Encode.{Fits, encode-frame, encode-Fits}
use gearman_rs.Worker.Job.{
  WorkResult, Report, report_packet, result_packet, Handling, returns, panics, reports, Sends,
  send_packet, unless_down, and_sent, run_handler,
}
use gearman_rs.Worker.Job.Answer.{report-IsAbout, result-IsAbout}

-- The body of a packet is within the cap.
abbrev pub IsSmall : GearmanCodec → Packet → Type 0
IsSmall codec p = length (join_nul p.args) ≤ codec.max_payload_size

-- The connection takes every send.
abbrev pub IsUp : Sends → Type 0
IsUp sends = (n : ℕ) → sends n ≡ none

pub send_packet-ok :
    (down : Option GearmanError) (p : Packet)
    → down ≡ none
    → Fits new p
    → send_packet down p ≡ ok tt
unfolding send_packet
send_packet-ok down p up fits =
    ap (λ r. unless_down r.0 down) (encode-frame new p [] (omega arith) fits)
    ∙ ap (unless_down (ok tt)) up

unless_down-ok :
    (r : Result (Unit {0})) (down : Option GearmanError) {u : Unit {0}}
    → unless_down r down ≡ ok u
    → r ≡ ok tt
unless_down-ok (ok v) down e = refl
unless_down-ok (err problem) down e = cc

-- A packet that is sent fits the codec.
pub send_packet-Fits :
    (down : Option GearmanError) (p : Packet) {u : Unit {0}}
    → send_packet down p ≡ ok u
    → Fits new p
unfolding send_packet
send_packet-Fits down p e = encode-Fits new p [] (unless_down-ok (encode new p []).0 down e)

-- What a handler reports and returns when all that it reports is sent; no result is a panic.
abbrev and_report : Report → List Report × Option WorkResult → List Report × Option WorkResult
and_report report (more, result) = (report ∷ more, result)

unfoldable pub transcript : Handling → List Report × Option WorkResult
transcript (returns result) = ([], some result)
transcript panics = ([], none)
transcript (reports report next) = and_report report (transcript (next (ok tt)))

abbrev pub last_packet : Bytes → Option WorkResult → List Packet
last_packet handle none = []
last_packet handle (some result) = result_packet handle result ∷ []

abbrev pub is_done : Option WorkResult → Bool
is_done none = false
is_done (some result) = true

-- The packets of a transcript.
abbrev pub packets_of : Bytes → List Report × Option WorkResult → List Packet
packets_of handle (told, result) = map (report_packet handle) told ++ last_packet handle result

pub run_handler-transcript :
    (sends : Sends) (handle : Bytes) (n : ℕ) (h : Handling)
    → IsUp sends
    → All (IsSmall new) (packets_of handle (transcript h))
    → run_handler sends handle n h ≡ (packets_of handle (transcript h), is_done (transcript h).1)
unfolding run_handler transcript
run_handler-transcript sends handle n (returns result) up (small, rest) =
    ap (λ o. and_sent o (result_packet handle result) ([], true))
      (send_packet-ok (sends n) (result_packet handle result) (up n)
        (record { counted = (result-IsAbout handle result).1; small = small }))
run_handler-transcript sends handle n panics up small = refl
run_handler-transcript sends handle n (reports report next) up (small, rest) =
    ap (λ o. and_sent o (report_packet handle report) (run_handler sends handle (suc n) (next o)))
      (send_packet-ok (sends n) (report_packet handle report) (up n)
        (record { counted = (report-IsAbout handle report).1; small = small }))
    ∙ ap (and_sent (ok tt) (report_packet handle report))
        (run_handler-transcript sends handle (suc n) (next (ok tt)) up rest)
