-- ===== src/Client/Job.antt =====
-- src/client/job.rs: priorities, options, handles, events and statuses. The stream of a job's
-- events is the receiving end of a channel, so `JobEventStream` is the number of its channel.
use gearman_rs.Base.{ℕ, Bool, true, false, Bytes, Option, none}

pub data Priority : Type 0 where
  high normal low : Priority

pub record SubmitOptions : Type 0 where
  pub priority : Priority
  pub background : Bool

abbrev pub default_options : SubmitOptions
default_options = record { priority = normal; background = false }

abbrev pub foreground : SubmitOptions
foreground = default_options

abbrev pub background : SubmitOptions
background = record default_options { background = true }

abbrev pub with_priority : SubmitOptions → Priority → SubmitOptions
with_priority opts p = record opts { priority = p }

pub record JobHandle : Type 0 where
  pub server_index : ℕ
  pub handle : Bytes
  pub unique : Option Bytes

abbrev pub as_str : JobHandle → Bytes
as_str h = h.handle

-- `Display`.
abbrev pub fmt : JobHandle → Bytes
fmt h = h.handle

pub data JobEvent : Type 0 where
  -- the numerator, the denominator
  status : ℕ → ℕ → JobEvent
  progress : Bytes → JobEvent
  warning : Bytes → JobEvent
  complete : Bytes → JobEvent
  fail : JobEvent
  exception : Bytes → JobEvent

-- The channel whose receiver is the `JobEventStream`.
abbrev pub JobEventStream : Type 0
JobEventStream = ℕ

pub record SubmittedJob : Type 0 where
  pub handle : JobHandle
  pub events : Option JobEventStream

pub record JobStatus : Type 0 where
  pub known : Bool
  pub running : Bool
  pub numerator : ℕ
  pub denominator : ℕ
  pub client_count : Option ℕ

abbrev pub default_status : JobStatus
default_status = record {
  known = false;
  running = false;
  numerator = 0;
  denominator = 0;
  client_count = none;
}
