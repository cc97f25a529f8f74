-- ===== src/Protocol/Command.antt =====
-- src/protocol/command.rs: `PacketType::try_from` and `PacketType::arg_count`.
pub mod Laws
use gearman_rs.Base.{ℕ, ◌==◌, if◌then◌else◌}
use gearman_rs.Error.{Result, ok, err, GearmanError}
use gearman_rs.Protocol.PacketType.{
  PacketType, can_do, cant_do, reset_abilities, pre_sleep, noop, submit_job, job_created, grab_job,
  no_job, job_assign, work_status, work_complete, work_fail, get_status, echo_req, echo_res,
  submit_job_bg, error, status_res, submit_job_high, set_client_id, can_do_timeout, all_yours,
  work_exception, option_req, option_res, work_data, work_warning, grab_job_uniq, job_assign_uniq,
  submit_job_high_bg, submit_job_low, submit_job_low_bg, submit_job_sched, submit_job_epoch,
  submit_reduce_job, submit_reduce_job_background, grab_job_all, job_assign_all, get_status_unique,
  status_res_unique,
}

-- The first code past the wire codes.
abbrev pub command_max : ℕ
command_max = 43

unfoldable pub try_from : ℕ → Result PacketType
try_from value =
    if value == 1
    then ok can_do
    else if value == 2
    then ok cant_do
    else if value == 3
    then ok reset_abilities
    else if value == 4
    then ok pre_sleep
    else if value == 6
    then ok noop
    else if value == 7
    then ok submit_job
    else if value == 8
    then ok job_created
    else if value == 9
    then ok grab_job
    else if value == 10
    then ok no_job
    else if value == 11
    then ok job_assign
    else if value == 12
    then ok work_status
    else if value == 13
    then ok work_complete
    else if value == 14
    then ok work_fail
    else if value == 15
    then ok get_status
    else if value == 16
    then ok echo_req
    else if value == 17
    then ok echo_res
    else if value == 18
    then ok submit_job_bg
    else if value == 19
    then ok error
    else if value == 20
    then ok status_res
    else if value == 21
    then ok submit_job_high
    else if value == 22
    then ok set_client_id
    else if value == 23
    then ok can_do_timeout
    else if value == 24
    then ok all_yours
    else if value == 25
    then ok work_exception
    else if value == 26
    then ok option_req
    else if value == 27
    then ok option_res
    else if value == 28
    then ok work_data
    else if value == 29
    then ok work_warning
    else if value == 30
    then ok grab_job_uniq
    else if value == 31
    then ok job_assign_uniq
    else if value == 32
    then ok submit_job_high_bg
    else if value == 33
    then ok submit_job_low
    else if value == 34
    then ok submit_job_low_bg
    else if value == 35
    then ok submit_job_sched
    else if value == 36
    then ok submit_job_epoch
    else if value == 37
    then ok submit_reduce_job
    else if value == 38
    then ok submit_reduce_job_background
    else if value == 39
    then ok grab_job_all
    else if value == 40
    then ok job_assign_all
    else if value == 41
    then ok get_status_unique
    else if value == 42
    then ok status_res_unique
    else err (GearmanError.unknown_packet_type value)

-- The number of arguments that a payload of the type carries.
unfoldable pub arg_count : PacketType → ℕ
arg_count reset_abilities = 0
arg_count pre_sleep = 0
arg_count noop = 0
arg_count grab_job = 0
arg_count no_job = 0
arg_count all_yours = 0
arg_count grab_job_uniq = 0
arg_count grab_job_all = 0
arg_count can_do = 1
arg_count cant_do = 1
arg_count job_created = 1
arg_count work_fail = 1
arg_count get_status = 1
arg_count echo_req = 1
arg_count echo_res = 1
arg_count set_client_id = 1
arg_count option_req = 1
arg_count option_res = 1
arg_count get_status_unique = 1
arg_count error = 2
arg_count can_do_timeout = 2
arg_count work_complete = 2
arg_count work_exception = 2
arg_count work_data = 2
arg_count work_warning = 2
arg_count submit_job = 3
arg_count submit_job_bg = 3
arg_count submit_job_high = 3
arg_count submit_job_high_bg = 3
arg_count submit_job_low = 3
arg_count submit_job_low_bg = 3
arg_count work_status = 3
arg_count job_assign = 3
arg_count submit_job_epoch = 4
arg_count job_assign_uniq = 4
arg_count submit_reduce_job = 5
arg_count submit_reduce_job_background = 5
arg_count job_assign_all = 5
arg_count status_res = 5
arg_count status_res_unique = 6
arg_count submit_job_sched = 8
