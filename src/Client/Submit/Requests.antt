-- ===== src/Client/Submit/Requests.antt =====
-- The packets of a client's requests, and how a server reads them.
use gearman_rs.Base.{
  ℕ, ◌≤◌, ◌<◌, ◌^◌, ◌≡◌, refl, sym, Bool, true, false, Option, some, [], length, Bytes, Lacks,
}
use mathlib.Core.List.{append-nil}
use gearman_rs.Error.{ok}
use gearman_rs.Protocol.Command.{arg_count}
use gearman_rs.Protocol.Packet.{Packet}
use gearman_rs.Protocol.Packet.Split.{join_nul}
use gearman_rs.Protocol.Codec.{GearmanCodec, decode, encode}
use gearman_rs.Protocol.Codec.Encode.{frame, Fits, encode-frame}
use gearman_rs.Protocol.Codec.RoundTrip.{decode-frame}
use gearman_rs.Client.Job.{Priority, high, normal, low, SubmitOptions}
use gearman_rs.Client.Incoming.{text_or_empty}
use gearman_rs.Client.Submit.{
  submit_packet_type, job_request, epoch_request, reduce_request, reduce_type, status_request,
  status_unique_request, exceptions_request,
}

-- As many arguments as the packet's type has.
abbrev pub IsCounted : Packet → Type 0
IsCounted p = length p.args ≡ arg_count p.ptype

submit_packet_type-count :
    (p : Priority) (in_background : Bool) → arg_count (submit_packet_type p in_background) ≡ 3
unfolding submit_packet_type arg_count
submit_packet_type-count normal false = refl
submit_packet_type-count normal true = refl
submit_packet_type-count high false = refl
submit_packet_type-count high true = refl
submit_packet_type-count low false = refl
submit_packet_type-count low true = refl

reduce_type-count : (in_background : Bool) → arg_count (reduce_type in_background) ≡ 5
unfolding arg_count
reduce_type-count true = refl
reduce_type-count false = refl

-- Every request packet that a client builds has as many arguments as its packet type wants.
pub requests-IsCounted :
    (function : Bytes) (unique : Option Bytes) (payload reducer handle : Bytes) (epoch : ℕ)
    (opts : SubmitOptions) (in_background : Bool)
    → IsCounted (job_request function unique payload opts)
      × IsCounted (epoch_request function unique epoch payload)
      × IsCounted (reduce_request function unique reducer payload in_background)
      × IsCounted (status_request handle)
      × IsCounted (status_unique_request handle)
      × IsCounted exceptions_request
unfolding arg_count
requests-IsCounted function unique payload reducer handle epoch opts in_background = (
  sym (submit_packet_type-count opts.priority opts.background),
  refl,
  sym (reduce_type-count in_background),
  refl,
  refl,
  refl,
)

-- For a payload cap below 2^32, when the function's name and the unique id have no NUL and the
-- body is within the cap, what `encode` writes for a job's submission decodes to exactly that
-- packet, with nothing left.
pub job_request-decoded :
    (codec : GearmanCodec) (function : Bytes) (unique : Option Bytes) (payload : Bytes)
    (opts : SubmitOptions)
    → codec.max_payload_size < 2 ^ 32
    → Lacks 0 function
    → Lacks 0 (text_or_empty unique)
    → length (join_nul (job_request function unique payload opts).args) ≤ codec.max_payload_size
    → let p = job_request function unique payload opts in
      decode codec (encode codec p []).1 ≡ (ok (some p), [])
job_request-decoded codec function unique payload opts cap no_nul no_nul_unique small =
    let p = job_request function unique payload opts in
    let fits : Fits codec p = record {
      counted = sym (submit_packet_type-count opts.priority opts.background);
      small = small;
    } in
    rw (encode-frame codec p [] cap fits, ← append-nil (frame p))
      (decode-frame codec p [] cap fits (no_nul, (no_nul_unique, tt)))
