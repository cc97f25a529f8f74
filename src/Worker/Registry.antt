-- ===== src/Worker/Registry.antt =====
-- src/worker/mod.rs: the registry's changes, by `WorkerBuilder` and by `Worker::unregister`, which
-- also notifies the connections; the notification is the function's name.
use gearman_rs.Base.{
  ℕ, ◌≡◌, ◌≢◌, refl, ap, sym, true, ◌∙◌, ◌++◌, if◌then◌else◌, bytes_eq, bytes_eq_iff, none, some,
  List, [], ◌∷◌, arith, Bytes,
}
use gearman_rs.Protocol.PacketType.{work_fail}
use gearman_rs.Protocol.Packet.{Packet, request}
use gearman_rs.Worker.Job.{
  JobHandler, RegisteredHandler, Registry, handler_for, assigned, Sends, send_packet, and_sent,
  run_job, dispatch_job,
}

-- `insert`: a function that is registered again has its new handler.
unfoldable pub insert : Bytes → RegisteredHandler → Registry → Registry
insert name reg [] = (name, reg) ∷ []
insert name reg ((n, r) ∷ registry) =
    let rest = insert name reg registry in
    if bytes_eq n name then (n, reg) ∷ registry else (n, r) ∷ rest

abbrev pub register : Bytes → JobHandler → Registry → Registry
register function handler = insert function (record { handler = handler; timeout = none })

abbrev pub register_with_timeout : Bytes → JobHandler → ℕ → Registry → Registry
register_with_timeout function handler seconds =
    insert function (record { handler = handler; timeout = some seconds })

-- `remove`.
unfoldable pub remove : Bytes → Registry → Registry
remove name [] = []
remove name ((n, r) ∷ registry) =
    let rest = remove name registry in if bytes_eq n name then rest else (n, r) ∷ rest

-- The registry, and the notifications in the channel of a connection.
abbrev pub unregister : Bytes → Registry × List Bytes → Registry × List Bytes
unregister function (registry, notices) = (remove function registry, notices ++ (function ∷ []))

handler_for-remove : (f : Bytes) (registry : Registry) → handler_for f (remove f registry) ≡ none
unfolding handler_for remove
handler_for-remove f [] = refl
handler_for-remove f ((n, r) ∷ registry) = ground (arith, handler_for-remove f registry)

handler_for-remove_other :
    (f g : Bytes) (registry : Registry)
    → g ≢ f
    → handler_for g (remove f registry) ≡ handler_for g registry
unfolding handler_for remove
handler_for-remove_other f g [] ne = refl
handler_for-remove_other f g ((n, r) ∷ registry) ne =
    ground (arith, bytes_eq_iff n f, bytes_eq_iff n g, handler_for-remove_other f g registry ne)

-- After a function is unregistered, a job assigned for it is failed back with one WORK_FAIL
-- that the connection may fail to take, and a job for another function is answered as before.
pub dispatch_job-unregister :
    (sends : Sends) (function other : Bytes) (registry : Registry) (notices : List Bytes)
    (pkt pkt' : Packet)
    → (assigned pkt.ptype pkt).function ≡ function
    → (assigned pkt'.ptype pkt').function ≡ other
    → other ≢ function
    → let after = (unregister function (registry, notices)).0 in
      let p = request work_fail ((assigned pkt.ptype pkt).handle ∷ []) in
      (dispatch_job sends after pkt ≡ and_sent (send_packet (sends 0) p) p ([], true))
      × (dispatch_job sends after pkt' ≡ dispatch_job sends registry pkt')
unfolding dispatch_job
dispatch_job-unregister sends function other registry notices pkt pkt' e e' ne = (
  ap (run_job sends (assigned pkt.ptype pkt))
      (ap (λ f. handler_for f (remove function registry)) e ∙ handler_for-remove function registry),
  ap (run_job sends (assigned pkt'.ptype pkt')) (
      ap (λ f. handler_for f (remove function registry)) e'
      ∙ handler_for-remove_other function other registry ne
      ∙ ap (λ f. handler_for f registry) (sym e')),
)
