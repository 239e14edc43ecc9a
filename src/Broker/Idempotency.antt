-- ===== src/Broker/Idempotency.antt =====
-- The idempotency keys of worker_broker.py: each is bound to one group, for good.
use streams_rollout_market.Prelude.{
  ◌≡◌, String, true, false, Option, some, lookup, lookup-insert, contains, ◌==◌, ◌||◌, Time, Texts,
  ok, arith,
}
use streams_rollout_market.LiveStore
use streams_rollout_market.LiveStore.{StoredGroup, LiveStore, new_record}
use streams_rollout_market.Contracts.{SampleGroup, GroupDecision}
use streams_rollout_market.Broker.State.{Broker, init}
use streams_rollout_market.Broker.Closing.{bound_elsewhere}
use streams_rollout_market.Broker.Reaping.{sweep_broker}
use streams_rollout_market.Broker.Steps.{Kept, Reach, Reach_keeps}

-- The bindings of `b` hold in `c`.
pub record KeepsKeys (b c : Broker) : Type 0 where
  pub at :
      (key group_id : String)
      → lookup key b.idempotency_keys ≡ some group_id
      → lookup key c.idempotency_keys ≡ some group_id

not_elsewhere :
    (bound : Option String) (group_id seen : String)
    → bound_elsewhere bound group_id ≡ false
    → bound ≡ some seen
    → seen ≡ group_id
unfolding bound_elsewhere
not_elsewhere bound group_id seen free e = ground arith

module _ (a : Broker) where
  KeepsKeys-Kept : Kept (KeepsKeys a)
  unfolding sweep_broker
  KeepsKeys-Kept = record {
    members = λ b workers beats dead jobs h. record { at = h.at };
    logs = λ e b h. record { at = h.at };
    issues = λ lease job now b new free h. record { at = h.at };
    submits = λ worker_id lease_id g d clock r s b _ found live free stored h. record {
      at = λ key bound e. ground (
        arith,
        h.at key bound e,
        lookup-insert r.lease.idempotency_key key g.group_id b.idempotency_keys,
        not_elsewhere (lookup key b.idempotency_keys) g.group_id bound,
      );
    };
    fails = λ worker_id lease_id reason detail clock r b found live h. record { at = h.at };
    sweeps = λ hit close event b live dead h. record { at = h.at };
  }

-- Whatever calls are made, an idempotency key that is bound to a group stays bound to that group.
pub Reach-KeepsKeys : (py : Texts) {b c : Broker} → Reach py b c → KeepsKeys b c
Reach-KeepsKeys py {b} r = Reach_keeps (KeepsKeys-Kept b) py r (record { at = λ key g e. e })

-- Every binding is to a group in the store.
pub record IsBound (b : Broker) : Type 0 where
  pub at :
      (key group_id : String)
      → lookup key b.idempotency_keys ≡ some group_id
      → contains group_id b.store.records ≡ true

contains-submit :
    (g : SampleGroup) (d : GroupDecision) (clock : Time) (s : LiveStore) (st : StoredGroup)
    (k : String)
    → (LiveStore.submit g d clock s).0 ≡ ok st
    → contains k (LiveStore.submit g d clock s).1.records
      ≡ (g.group_id == k || contains k s.records)
unfolding LiveStore.submit
contains-submit g d clock s st k h =
    ground (arith, lookup-insert g.group_id k (new_record g d clock) s.records)

IsBound-Kept : Kept IsBound
unfolding sweep_broker
IsBound-Kept = record {
  members = λ b workers beats dead jobs h. record { at = h.at };
  logs = λ e b h. record { at = h.at };
  issues = λ lease job now b new free h. record { at = h.at };
  submits = λ worker_id lease_id g d clock r s b _ found live free stored h. record {
    at = λ key bound e. ground (
      arith,
      h.at key bound,
      lookup-insert r.lease.idempotency_key key g.group_id b.idempotency_keys,
      contains-submit g d clock b.store s bound stored,
    );
  };
  fails = λ worker_id lease_id reason detail clock r b found live h. record { at = h.at };
  sweeps = λ hit close event b live dead h. record { at = h.at };
}

-- In every broker reached from a new one, each idempotency key is bound to a group that is in the
-- store.
pub Reach-IsBound :
    (py : Texts) (store : LiveStore) (t h : Time) {b : Broker}
    → Reach py (init store t h) b
    → IsBound b
unfolding init
Reach-IsBound py store t h r =
    Reach_keeps IsBound-Kept py r (record { at = λ key g e. absurd (unfold lookup in cc e) })
