-- ===== src/Protocol/PacketType.antt =====
-- `PacketType` of src/protocol/command.rs: the wire packet types, with their codes.
use Prim.Native.Nat.{ℕ}

pub data PacketType : Type 0 where
  can_do cant_do reset_abilities pre_sleep noop : PacketType
  submit_job job_created grab_job no_job job_assign : PacketType
  work_status work_complete work_fail get_status echo_req : PacketType
  echo_res submit_job_bg error status_res submit_job_high : PacketType
  set_client_id can_do_timeout all_yours work_exception option_req : PacketType
  option_res work_data work_warning grab_job_uniq job_assign_uniq : PacketType
  submit_job_high_bg submit_job_low submit_job_low_bg submit_job_sched submit_job_epoch : PacketType
  submit_reduce_job submit_reduce_job_background grab_job_all job_assign_all get_status_unique :
      PacketType
  status_res_unique : PacketType

pub PacketType-discrete : Discrete PacketType
PacketType-discrete = hlevel

-- `u32::from(PacketType)`: the discriminant.
unfoldable pub to_u32 : PacketType → ℕ
to_u32 can_do = 1
to_u32 cant_do = 2
to_u32 reset_abilities = 3
to_u32 pre_sleep = 4
to_u32 noop = 6
to_u32 submit_job = 7
to_u32 job_created = 8
to_u32 grab_job = 9
to_u32 no_job = 10
to_u32 job_assign = 11
to_u32 work_status = 12
to_u32 work_complete = 13
to_u32 work_fail = 14
to_u32 get_status = 15
to_u32 echo_req = 16
to_u32 echo_res = 17
to_u32 submit_job_bg = 18
to_u32 error = 19
to_u32 status_res = 20
to_u32 submit_job_high = 21
to_u32 set_client_id = 22
to_u32 can_do_timeout = 23
to_u32 all_yours = 24
to_u32 work_exception = 25
to_u32 option_req = 26
to_u32 option_res = 27
to_u32 work_data = 28
to_u32 work_warning = 29
to_u32 grab_job_uniq = 30
to_u32 job_assign_uniq = 31
to_u32 submit_job_high_bg = 32
to_u32 submit_job_low = 33
to_u32 submit_job_low_bg = 34
to_u32 submit_job_sched = 35
to_u32 submit_job_epoch = 36
to_u32 submit_reduce_job = 37
to_u32 submit_reduce_job_background = 38
to_u32 grab_job_all = 39
to_u32 job_assign_all = 40
to_u32 get_status_unique = 41
to_u32 status_res_unique = 42
