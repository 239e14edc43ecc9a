-- ===== src/Broker/Deaths.antt =====
-- Which workers `abandon_stale_workers` of worker_broker.py marks as dead.
use streams_rollout_market.Prelude.{
  ◌≡◌, refl, ltb, ◌-◌, String, Bool, false, ◌&&◌, ◌||◌, Option, none, some, List, [], ◌∷◌, Dict,
  lookup, contains, member, member-add, Time, Texts, get_or, ◌==◌, arith,
}
use streams_rollout_market.Contracts.{WorkerHeartbeat, WorkerManifest}
use streams_rollout_market.Broker.State.{Broker}
use streams_rollout_market.Broker.Workers.{is_dead, is_stale}
use streams_rollout_market.Broker.Reaping.{
  sweep_broker, abandon_worker, abandon_check, abandon_loop, abandon_stale_workers,
}

-- The last heartbeat, if there was any, is older than the limit.
abbrev pub is_overdue_beat : Time → Time → Option WorkerHeartbeat → Bool
is_overdue_beat ttl now none = false
is_overdue_beat ttl now (some beat) = ltb ttl (now - beat.last_seen_at)

abandon_check_lem :
    (py : Texts) (now : Time) (worker_id w : String) (beat : Option WorkerHeartbeat)
    (done : Dict (List String)) (b : Broker)
    → (let b' = (abandon_check py now worker_id beat done b).1 in
        (b'.heartbeats ≡ b.heartbeats)
        × (b'.heartbeat_ttl ≡ b.heartbeat_ttl)
        × (member w b'.dead_workers ≡ (
            member w b.dead_workers
            || (worker_id == w && is_overdue_beat b.heartbeat_ttl now beat))))
unfolding abandon_check abandon_worker sweep_broker is_stale
abandon_check_lem py now worker_id w none done b = (refl, refl, ground arith)
abandon_check_lem py now worker_id w (some beat) done b =
    (ground arith, ground arith, ground (arith, member-add worker_id w b.dead_workers))

abandon_loop_lem :
    (py : Texts) (now : Time) (w : String) (workers : Dict WorkerManifest)
    (done : Dict (List String)) (b : Broker)
    → member w (abandon_loop py now workers done b).1.dead_workers ≡ (
        member w b.dead_workers
        || (contains w workers && is_overdue_beat b.heartbeat_ttl now (lookup w b.heartbeats)))
unfolding abandon_loop lookup
abandon_loop_lem py now w [] done b = ground arith
abandon_loop_lem py now w (e ∷ workers) done b =
    let beat = lookup e.0 b.heartbeats in
    let answer = abandon_check py now e.0 beat done b in
    let step = abandon_check_lem py now e.0 w beat done b in
    ground (arith, step.0, step.1, step.2, abandon_loop_lem py now w workers answer.0 answer.1)

-- After `abandon_stale_workers` exactly those workers are dead that were before, or are registered and
-- whose last heartbeat is older than the limit: a worker that never sent one is not marked,
-- however long ago it registered.
pub abandon_stale_workers-is_dead :
    (py : Texts) (now : Option Time) (clock : Time) (b : Broker) (w : String)
    → is_dead w (abandon_stale_workers py now clock b).1 ≡ (
        is_dead w b
        || (contains w b.workers
            && is_overdue_beat b.heartbeat_ttl (get_or now clock) (lookup w b.heartbeats)))
unfolding is_dead abandon_stale_workers
abandon_stale_workers-is_dead py now clock b w =
    abandon_loop_lem py (get_or now clock) w b.workers [] b
