-- ===== src/Client/Submit/Outcome.antt =====
-- What a foreground submission comes to.
use gearman_rs.Base.{◌≡◌, refl, Bool, true, false, List, [], ◌∷◌, ◌++◌, All, Bytes}
use gearman_rs.Error.{ok, err, GearmanError}
use gearman_rs.Client.Job.{JobEvent}
use gearman_rs.Client.Submit.{wait_for_result}

-- An event that the job goes on after.
abbrev pub is_news : JobEvent → Bool
is_news (JobEvent.status n d) = true
is_news (JobEvent.progress payload) = true
is_news (JobEvent.warning payload) = true
is_news (JobEvent.complete result) = false
is_news JobEvent.fail = false
is_news (JobEvent.exception payload) = false

wait_for_result-skip :
    (handle : Bytes) (before later : List JobEvent)
    → All (λ e. is_news e ≡ true) before
    → wait_for_result handle (before ++ later) ≡ wait_for_result handle later
unfolding wait_for_result
wait_for_result-skip handle [] later h = refl
wait_for_result-skip handle (JobEvent.status n d ∷ es) later (_, h) =
    wait_for_result-skip handle es later h
wait_for_result-skip handle (JobEvent.progress p ∷ es) later (_, h) =
    wait_for_result-skip handle es later h
wait_for_result-skip handle (JobEvent.warning p ∷ es) later (_, h) =
    wait_for_result-skip handle es later h
wait_for_result-skip handle (JobEvent.complete r ∷ es) later (n, h) = cc
wait_for_result-skip handle (JobEvent.fail ∷ es) later (n, h) = cc
wait_for_result-skip handle (JobEvent.exception p ∷ es) later (n, h) = cc

-- After any events that do not end the job, completion gives its result, a failure or an
-- exception its error with the handle, whatever follows; if the stream ends there, the
-- connection is reported closed.
pub wait_for_result-first :
    (handle result payload : Bytes) (before later : List JobEvent)
    → All (λ e. is_news e ≡ true) before
    → (wait_for_result handle (before ++ JobEvent.complete result ∷ later) ≡ ok result)
      × (wait_for_result handle (before ++ JobEvent.fail ∷ later)
          ≡ err (GearmanError.job_failed handle))
      × (wait_for_result handle (before ++ JobEvent.exception payload ∷ later)
          ≡ err (GearmanError.job_exception handle payload))
      × (wait_for_result handle (before ++ []) ≡ err GearmanError.connection_closed)
unfolding wait_for_result
wait_for_result-first handle result payload before later h = (
  wait_for_result-skip handle before _ h,
  wait_for_result-skip handle before _ h,
  wait_for_result-skip handle before _ h,
  wait_for_result-skip handle before _ h,
)
