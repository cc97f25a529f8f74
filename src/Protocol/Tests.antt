-- ===== src/Protocol/Tests.antt =====
-- The theorems on the protocol at concrete packets.
use gearman_rs.Base.{◌≡◌, ◌<◌, ◌^◌, refl, IsBytes, codes, [], ◌∷◌, ◌++◌, some, arith, take}
use gearman_rs.Error.{ok}
use gearman_rs.Protocol.PacketType.{submit_job, to_u32}
use gearman_rs.Protocol.Command.{arg_count}
use gearman_rs.Protocol.Packet.{Packet, request, split_args}
use gearman_rs.Protocol.Packet.Split.{join_nul, IsFields, InitLacksNul, split_args-join_nul}
use gearman_rs.Protocol.Codec.{new, decode}
use gearman_rs.Protocol.Codec.Encode.{frame, Fits}
use gearman_rs.Protocol.Codec.RoundTrip.{decode-frame}
use gearman_rs.Protocol.Codec.Canonical.{frame-decode}
use gearman_rs.Protocol.Codec.Stream.{IsFinal}
use gearman_rs.Protocol.Codec.Frames.{Decodes, IsSound, frames, Decodes-frames, Decodes-append}

abbrev job : Packet
job = request submit_job (codes "resize" ∷ codes "id" ∷ codes "image" ∷ [])

abbrev two_args : Packet
two_args = request submit_job (codes "resize" ∷ codes "id" ∷ [])

job_lacks : InitLacksNul job.args
job_lacks = ground arith

job-Fits : Fits new job
unfolding arg_count
job-Fits = record { counted = refl; small = omega arith }

cap : 67108864 < 2 ^ 32
cap = omega arith

decode-frame_example : decode new (frame job ++ (7 ∷ [])) ≡ (ok (some job), 7 ∷ [])
decode-frame_example = decode-frame new job (7 ∷ []) cap job-Fits job_lacks

job-IsBytes : IsBytes (frame job ++ [])
unfolding to_u32
job-IsBytes = ground arith

frame-decode_example : (frame job ++ [] ≡ frame job ++ []) × Fits new job × InitLacksNul job.args
frame-decode_example =
    frame-decode new (frame job ++ []) job-IsBytes (decode-frame new job [] cap job-Fits job_lacks)

two_args_misfit : ¬ Fits new two_args
unfolding arg_count
two_args_misfit f = absurd (omega (arith, f.counted))

job-IsSound : IsSound new job
job-IsSound = record { fits = job-Fits; separable = job_lacks }

Decodes-frames_example :
    Decodes new
      (frames (job ∷ job ∷ []) ++ take 13 (frame job))
      (job ∷ job ∷ [])
      (take 13 (frame job))
Decodes-frames_example =
    Decodes-frames new (job ∷ job ∷ []) job 13 cap (job-IsSound, (job-IsSound, tt)) job-Fits
      (omega arith)

rest-Decodes : Decodes new (take 13 (frame job) ++ []) [] (take 13 (frame job))
rest-Decodes = Decodes-frames new [] job 13 cap tt job-Fits (omega arith)

Decodes-append_example :
    Decodes new
      ((frames (job ∷ []) ++ take 13 (frame job)) ++ [])
      ((job ∷ []) ++ [])
      (take 13 (frame job))
Decodes-append_example =
    Decodes-append []
      (Decodes-frames new (job ∷ []) job 13 cap (job-IsSound, tt) job-Fits (omega arith))
      rest-Decodes

followed_IsFinal : IsFinal (decode new (frame job ++ (7 ∷ []))).0
followed_IsFinal = rw (decode-frame new job (7 ∷ []) cap job-Fits job_lacks) (λ x. cc)

job-IsFields : IsFields submit_job job.args
unfolding arg_count
job-IsFields = record { counted = refl; separable = job_lacks }

split_args-join_nul_example : split_args submit_job (join_nul job.args) ≡ ok job.args
split_args-join_nul_example = split_args-join_nul submit_job job.args job-IsFields
