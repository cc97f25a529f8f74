-- ===== src/Client/Submit/Calls.antt =====
-- The calls of `Client` in src/client/mod.rs that submit one packet: `submit`, `submit_bg`,
-- `submit_fg`, `submit_epoch` and `submit_reduce_job`.
use gearman_rs.Base.{ℕ, Bool, true, Option, none, some, List, Bytes}
use gearman_rs.Error.{Result, ok, ◌>>=◌}
use gearman_rs.Client.Job.{SubmitOptions, background, JobHandle, JobEvent, SubmittedJob}
use gearman_rs.Client.Pool.{ServerPool}
use gearman_rs.Client.Submit.{
  Channels, job_request, epoch_request, reduce_request, submit_packet, submit_fg_unique,
}

abbrev pub handle_of : SubmittedJob → Result JobHandle
handle_of job = ok job.handle

-- `Ok(submitted.handle)`
abbrev pub handle_only :
    Option (Result SubmittedJob × ServerPool) → Option (Result JobHandle × ServerPool)
handle_only none = none
handle_only (some (submitted, pool)) = some (submitted >>= handle_of, pool)

module _ (digest : Bytes → Bytes) where
  unfoldable pub submit :
      Bytes
      → Option Bytes
      → Bytes
      → SubmitOptions
      → Channels
      → Option (Result Bytes)
      → ServerPool
      → Option (Result SubmittedJob × ServerPool)
  submit function unique payload opts chans answer pool =
      submit_packet digest (job_request function unique payload opts) unique opts.background chans
        answer pool

  unfoldable pub submit_epoch :
      Bytes
      → Option Bytes
      → ℕ
      → Bytes
      → Channels
      → Option (Result Bytes)
      → ServerPool
      → Option (Result JobHandle × ServerPool)
  submit_epoch function unique epoch payload chans answer pool = handle_only (
      submit_packet digest (epoch_request function unique epoch payload) unique true chans answer
        pool)

  unfoldable pub submit_reduce_job :
      Bytes
      → Option Bytes
      → Bytes
      → Bytes
      → Bool
      → Channels
      → Option (Result Bytes)
      → ServerPool
      → Option (Result SubmittedJob × ServerPool)
  submit_reduce_job function unique reducer payload in_background chans answer pool =
      submit_packet digest (reduce_request function unique reducer payload in_background) unique
        in_background chans answer pool

  unfoldable pub submit_fg :
      Bytes
      → Bytes
      → Channels
      → Option (Result Bytes)
      → List JobEvent
      → ServerPool
      → Option (Result Bytes × ServerPool)
  submit_fg function payload chans answer events pool =
      submit_fg_unique digest function none payload chans answer events pool

  unfoldable pub submit_bg :
      Bytes
      → Bytes
      → Channels
      → Option (Result Bytes)
      → ServerPool
      → Option (Result JobHandle × ServerPool)
  submit_bg function payload chans answer pool =
      handle_only (submit function none payload background chans answer pool)
