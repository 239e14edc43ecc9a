-- ===== src/Broker/Sweeps.antt =====
-- What the sweeps of worker_broker.py do: to each lease record, to the queue and to the audit log.
use mathlib.Core.List.{append_assoc, append-nil}
use streams_rollout_market.Prelude.{
  ◌≡◌, sym, String, Bool, some, List, [], ◌∷◌, ◌++◌, Dict, lookup, if◌then◌else◌, arith,
}
use streams_rollout_market.Broker.State.{LeaseRecord, AuditEntry}
use streams_rollout_market.Broker.Reaping.{Swept, sweep, sweep_step}

-- The ids of the records that a sweep hits, in order, and their events.
abbrev pub hits : (LeaseRecord → Bool) → Dict LeaseRecord → List String
hits hit [] = []
hits hit (e ∷ leases) = if hit e.1 then e.0 ∷ hits hit leases else hits hit leases

abbrev pub events :
    (LeaseRecord → Bool) → (String → LeaseRecord → AuditEntry) → Dict LeaseRecord → List AuditEntry
events hit event [] = []
events hit event (e ∷ leases) =
    if hit e.1 then event e.0 e.1 ∷ events hit event leases else events hit event leases

module _ (hit : LeaseRecord → Bool) (close : LeaseRecord → LeaseRecord)
    (event : String → LeaseRecord → AuditEntry) where
  -- A sweep closes the records that it hits and leaves the others as they are.
  pub lookup-sweep :
      (k : String) (r : LeaseRecord) (leases : Dict LeaseRecord) (w : Swept)
      → lookup k leases ≡ some r
      → lookup k (sweep hit close event leases w).0 ≡ some (if hit r then close r else r)
  unfolding sweep lookup
  lookup-sweep k r [] w h = cc
  lookup-sweep k r (e ∷ leases) w h =
      ground (arith, lookup-sweep k r leases (if hit e.1 then sweep_step event e.0 e.1 w else w))

  pub sweep-closed :
      (leases : Dict LeaseRecord) (w : Swept)
      → (sweep hit close event leases w).1.closed ≡ w.closed ++ hits hit leases
  unfolding sweep
  sweep-closed [] w = sym (append-nil w.closed)
  sweep-closed (e ∷ leases) w = ground (
    arith,
    sweep-closed leases (if hit e.1 then sweep_step event e.0 e.1 w else w),
    append_assoc w.closed (e.0 ∷ []) (hits hit leases),
  )

  pub sweep-audit :
      (leases : Dict LeaseRecord) (w : Swept)
      → (sweep hit close event leases w).1.audit ≡ w.audit ++ events hit event leases
  unfolding sweep
  sweep-audit [] w = sym (append-nil w.audit)
  sweep-audit (e ∷ leases) w = ground (
    arith,
    sweep-audit leases (if hit e.1 then sweep_step event e.0 e.1 w else w),
    append_assoc w.audit (event e.0 e.1 ∷ []) (events hit event leases),
  )
