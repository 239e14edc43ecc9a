-- ===== src/Examples/Reloads.antt =====
-- The reload tracker, with three acks of two workers.
use streams_rollout_market.Prelude.{
  ◌≡◌, ◌≢◌, refl, pos, String, true, false, Option, none, some, List, [], ◌∷◌, arith, ok, lookup,
  insert, dec_text, ◌==◌,
}
use streams_rollout_market.PoolReload.{
  ReloadAck, Tracker, empty, record_ack, pool_active_version, has_quorum, candidates_or,
}
use streams_rollout_market.PoolReload.Agreement.{record_all, acks_agree}
use streams_rollout_market.PoolReload.Quorum.{
  IsThreshold, Outcome, pool_active_version_lem, pool_active_version_stale,
}

tested_apart : (s t : String) → (s == t) ≡ false → s ≢ t
tested_apart s t h e = ground arith

abbrev ack : String → String → ReloadAck
ack worker version = record {
  worker_id = worker;
  policy_version = version;
  checkpoint_digest = "c";
  acked_at = 0;
}

abbrev acks : List ReloadAck
acks = ack "v" "p1" ∷ ack "w" "p1" ∷ ack "v" "p2" ∷ []

abbrev tracker : Tracker
tracker = record_all acks empty

abbrev digest : String
digest = "c"

abbrev moved : List ReloadAck
moved = ack "v" "p1" ∷ ack "w" "p2" ∷ ack "v" "p2" ∷ []

v_found : lookup "v" (record_all moved empty).acks ≡ some (ack "v" "p2")
unfolding record_all record_ack lookup insert dec_text
v_found = refl

w_found : lookup "w" (record_all moved empty).acks ≡ some (ack "w" "p2")
unfolding record_all record_ack lookup insert dec_text
w_found = refl

acks_agree_example : digest ≡ digest
acks_agree_example = acks_agree moved "v" "w" (ack "v" "p2") (ack "w" "p2") v_found w_found refl

abbrev old_version : String
old_version = "p1"

abbrev new_version : String
new_version = "p2"

old_is_not_new : old_version ≢ new_version
old_is_not_new = tested_apart old_version new_version (unfold dec_text in refl)

threshold : IsThreshold (pos 1) (some (pos 2))
threshold = record { positive = refl; possible = refl }

pool_active_version_lem_example :
    (r : Option String) × (pool_active_version (pos 1) (some (pos 2)) none tracker ≡ ok r)
    × Outcome (pos 1) tracker (candidates_or none tracker) r
pool_active_version_lem_example =
    pool_active_version_lem (pos 1) (some (pos 2)) none tracker threshold

abbrev first_worker : String
first_worker = "v"

abbrev second_worker : String
second_worker = "w"

workers_differ : first_worker ≢ second_worker
workers_differ = tested_apart first_worker second_worker (unfold dec_text in refl)

pool_active_version_stale_example :
    (has_quorum "p2" (pos 1) none tracker ≡ ok true)
    × (pool_active_version (pos 1) none none tracker ≡ ok (some "p1"))
pool_active_version_stale_example =
    pool_active_version_stale "v" "w" "p1" "p2" "c" "c" 0 0 0 workers_differ old_is_not_new
