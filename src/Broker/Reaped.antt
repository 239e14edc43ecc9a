-- ===== src/Broker/Reaped.antt =====
-- What `reap_expired` of worker_broker.py leaves behind.
use streams_rollout_market.Prelude.{
  ◌≡◌, String, ◌&&◌, Option, some, [], lookup, Time, get_or, if◌then◌else◌,
}
use streams_rollout_market.Contracts.{is_expired}
use streams_rollout_market.Broker.State.{Broker, LeaseRecord, is_issued}
use streams_rollout_market.Broker.Reaping.{
  Swept, sweep_broker, is_overdue, expired_record, expired_event, reap_expired,
}
use streams_rollout_market.Broker.Sweeps.{lookup-sweep, hits, sweep-closed}

module _ (now : Option Time) (clock : Time) (b : Broker) where
  -- `reap_expired` closes exactly the issued leases whose time is over, leaves every other lease as
  -- it was, and returns the ids of the closed ones in the order of the leases.
  pub reap_expired_lem :
      ((k : String) (r : LeaseRecord)
        → lookup k b.leases ≡ some r
        → lookup k (reap_expired now clock b).1.leases
          ≡ some (
              if is_issued r.state && is_expired r.lease (get_or now clock)
              then expired_record (get_or now clock) r
              else r))
      × ((reap_expired now clock b).0 ≡ hits (is_overdue (get_or now clock)) b.leases)
  unfolding reap_expired sweep_broker
  reap_expired_lem =
      let at = get_or now clock in
      let w : Swept = record { leased_job_ids = b.leased_job_ids; audit = b.audit; closed = [] } in
      (
        λ k r h.
            lookup-sweep (is_overdue at) (expired_record at) (expired_event at) k r b.leases w h,
        sweep-closed (is_overdue at) (expired_record at) (expired_event at) b.leases w,
      )
