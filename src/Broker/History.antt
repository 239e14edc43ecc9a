-- ===== src/Broker/History.antt =====
-- What no history of calls of worker_broker.py undoes: closed leases, the audit log, the store.
use mathlib.Core.List.{append_assoc, append-nil}
use streams_rollout_market.Prelude.{
  ◌≡◌, refl, sym, ◌∙◌, ap, String, Bool, true, false, some, List, [], ◌∷◌, ◌++◌, Dict, lookup,
  insert, lookup-insert, Texts, inl, inr, dec_text, Bool-cases, if◌then◌else◌, arith,
}
use streams_rollout_market.LiveStore.Records.{Keeps, Keeps-refl, Keeps-trans, submit-Keeps}
use streams_rollout_market.LiveStore.WellFormed.{IsValid, submit-IsValid}
use streams_rollout_market.Broker.State.{Broker, LeaseRecord, AuditEntry, is_issued}
use streams_rollout_market.Broker.Leasing.{issue, issued_record}
use streams_rollout_market.Broker.Closing.{submitted_record, failed_record}
use streams_rollout_market.Broker.Reaping.{sweep_broker}
use streams_rollout_market.Broker.Sweeps.{lookup-sweep, events, sweep-audit}
use streams_rollout_market.Broker.Steps.{Closes, Kept, Reach, Reach_keeps}

-- How a lease record may develop: it stays for the same lease and job, and does not change once it
-- is no longer issued.
pub record Develops (r r' : LeaseRecord) : Type 0 where
  pub lease : r'.lease ≡ r.lease
  pub job : r'.job ≡ r.job
  pub final : is_issued r.state ≡ false → r' ≡ r

Develops-refl : (r : LeaseRecord) → Develops r r
Develops-refl r = record { lease = refl; job = refl; final = λ _. refl }

-- Every lease of `b` is still known in `c`, and develops from what it was.
pub record KeepsLeases (b c : Broker) : Type 0 where
  pub at :
      (k : String) (r : LeaseRecord)
      → lookup k b.leases ≡ some r
      → (r' : LeaseRecord) × (lookup k c.leases ≡ some r') × Develops r r'

KeepsLeases-refl : (b : Broker) → KeepsLeases b b
KeepsLeases-refl b = record { at = λ k r h. (r, h, Develops-refl r) }

-- One more record, or a change of one that is still issued.
insert-Develops :
    (k j : String) (r v : LeaseRecord) (leases : Dict LeaseRecord)
    → lookup k leases ≡ some r
    → ((q : LeaseRecord) → lookup j leases ≡ some q → Develops q v)
    → (r' : LeaseRecord) × (lookup k (insert j v leases) ≡ some r') × Develops r r'
insert-Develops k j r v leases h f = elim (dec_text j k) [
  | yes e ↦ (v, rw lookup-insert (ground arith), f r (rw e h))
  | no n ↦ (r, rw lookup-insert (ground arith), Develops-refl r)
]

Develops-trans : (p q r : LeaseRecord) → Develops p q → Develops q r → Develops p r
Develops-trans p q r f g = record {
  lease = cc;
  job = cc;
  final = λ e. g.final (rw (f.final e) e) ∙ f.final e;
}

-- A record that is still issued may change as it likes, for the same lease and job.
update-Develops :
    (k : String) (p r v : LeaseRecord) (leases : Dict LeaseRecord)
    → lookup k leases ≡ some r
    → lookup k leases ≡ some p
    → is_issued r.state ≡ true
    → v.lease ≡ r.lease
    → v.job ≡ r.job
    → Develops p v
update-Develops k p r v leases found known live lease job = record {
  lease = ground arith;
  job = ground arith;
  final = λ e. absurd (ground arith);
}

swept-Develops :
    (hit : LeaseRecord → Bool) (close : LeaseRecord → LeaseRecord) (r : LeaseRecord)
    → (hit r ≡ true → is_issued r.state ≡ true)
    → Closes r (close r)
    → Develops r (if hit r then close r else r)
swept-Develops hit close r live c = elim (Bool-cases (hit r)) [
  | inl p ↦ rw p (record { lease = c.lease; job = c.job; final = λ e. absurd (cc (e, live p)) })
  | inr n ↦ rw n (Develops-refl r)
]

module _ (a : Broker) where
  -- the step from `b` to `c`, after `a` came to `b`
  go_on :
      (b c : Broker)
      → ((k : String) (r : LeaseRecord)
          → lookup k b.leases ≡ some r
          → (r' : LeaseRecord) × (lookup k c.leases ≡ some r') × Develops r r')
      → KeepsLeases a b
      → KeepsLeases a c
  go_on b c f h = record {
    at = λ k r e.
        let (r', e', d) = h.at k r e in
        let (r'', e'', d') = f k r' e' in (r'', e'', Develops-trans r r' r'' d d');
  }

  sweep-KeepsLeases :
      (hit : LeaseRecord → Bool) (close : LeaseRecord → LeaseRecord)
      (event : String → LeaseRecord → AuditEntry) (b : Broker)
      → ((r : LeaseRecord) → hit r ≡ true → is_issued r.state ≡ true)
      → ((r : LeaseRecord) → Closes r (close r))
      → KeepsLeases a b
      → KeepsLeases a (sweep_broker hit close event b).0
  unfolding sweep_broker
  sweep-KeepsLeases hit close event b live dead h =
      go_on b _
        (λ k r e. (
          (if hit r then close r else r),
          lookup-sweep hit close event k r b.leases _ e,
          swept-Develops hit close r (live r) (dead r),
        ))
        h

  KeepsLeases-Kept : Kept (KeepsLeases a)
  KeepsLeases-Kept = record {
    members = λ b workers beats dead jobs h. record { at = h.at };
    logs = λ e b h. record { at = h.at };
    issues = λ lease job now b new free h.
        go_on b (issue lease job now b)
          (λ k r e.
            insert-Develops k lease.lease_id r (issued_record lease job now) b.leases e
              (λ q known. absurd (cc (new, known))))
          h;
    submits = λ worker_id lease_id g d clock r s b _ found live _ _ h.
        go_on b _
          (λ k q e.
            insert-Develops k lease_id q (submitted_record g.group_id clock r) b.leases e
              (λ p known. update-Develops lease_id p r _ b.leases found known live refl refl))
          h;
    fails = λ worker_id lease_id reason detail clock r b found live h.
        go_on b _
          (λ k q e.
            insert-Develops k lease_id q (failed_record reason detail clock r) b.leases e
              (λ p known. update-Develops lease_id p r _ b.leases found known live refl refl))
          h;
    sweeps = sweep-KeepsLeases;
  }

-- Whatever calls are made, a lease stays known under its id, for the same lease terms and job, and
-- a lease that is submitted, failed, expired or abandoned never changes again.
pub Reach-KeepsLeases : (py : Texts) {b c : Broker} → Reach py b c → KeepsLeases b c
Reach-KeepsLeases py {b} r = Reach_keeps (KeepsLeases-Kept b) py r (KeepsLeases-refl b)

-- The log of `c` begins with the log of `b`.
pub record Extends (b c : Broker) : Type 0 where
  pub more : List AuditEntry
  pub appended : c.audit ≡ b.audit ++ more

module _ (a : Broker) where
  extend :
      (b c : Broker) (new : List AuditEntry) → c.audit ≡ b.audit ++ new → Extends a b → Extends a c
  extend b c new e h = record {
    more = h.more ++ new;
    appended = e ∙ ap (λ l. l ++ new) h.appended ∙ append_assoc a.audit h.more new;
  }

  sweep-Extends :
      (hit : LeaseRecord → Bool) (close : LeaseRecord → LeaseRecord)
      (event : String → LeaseRecord → AuditEntry) (b : Broker)
      → Extends a b
      → Extends a (sweep_broker hit close event b).0
  unfolding sweep_broker
  sweep-Extends hit close event b h =
      extend b _ (events hit event b.leases) (sweep-audit hit close event b.leases _) h

  Extends-Kept : Kept (Extends a)
  Extends-Kept = record {
    members = λ b workers beats dead jobs h. record { more = h.more; appended = h.appended };
    logs = λ e b h. extend b _ (e ∷ []) refl h;
    issues = λ lease job now b new free h. extend b _ (_ ∷ []) refl h;
    submits = λ worker_id lease_id g d clock r s b _ found live _ _ h. extend b _ (_ ∷ []) refl h;
    fails = λ worker_id lease_id reason detail clock r b found live h. extend b _ (_ ∷ []) refl h;
    sweeps = λ hit close event b live dead h. sweep-Extends hit close event b h;
  }

-- The audit log is append-only: no history of calls drops, changes or reorders an entry.
pub Reach-Extends : (py : Texts) {b c : Broker} → Reach py b c → Extends b c
Reach-Extends py {b} r =
    Reach_keeps (Extends-Kept b) py r (record { more = []; appended = sym (append-nil b.audit) })

-- Through the broker, groups in the store are kept as `Keeps` says, and the store stays valid.
module _ (a : Broker) where
  abbrev KeepsStore : Broker → Type 0
  KeepsStore b = (IsValid a.store → IsValid b.store) × Keeps a.store b.store

  sweep-KeepsStore :
      (hit : LeaseRecord → Bool) (close : LeaseRecord → LeaseRecord)
      (event : String → LeaseRecord → AuditEntry) (b : Broker)
      → KeepsStore b
      → KeepsStore (sweep_broker hit close event b).0
  unfolding sweep_broker
  sweep-KeepsStore hit close event b h = h

  KeepsStore-Kept : Kept KeepsStore
  KeepsStore-Kept = record {
    members = λ b workers beats dead jobs h. h;
    logs = λ e b h. h;
    issues = λ lease job now b new free h. h;
    submits = λ worker_id lease_id g d clock r s b built found live _ _ h. (
      λ v. submit-IsValid g d clock b.store built (h.0 v),
      Keeps-trans a.store b.store _ h.1 (submit-Keeps g d clock b.store),
    );
    fails = λ worker_id lease_id reason detail clock r b found live h. h;
    sweeps = λ hit close event b live dead h. sweep-KeepsStore hit close event b h;
  }

-- Whatever calls reach the broker, every group of its store stays stored with its payload, a
-- rejected group stays rejected, and a valid store stays valid.
pub Reach-KeepsStore :
    (py : Texts) {b c : Broker}
    → Reach py b c
    → (IsValid b.store → IsValid c.store) × Keeps b.store c.store
Reach-KeepsStore py {b} r = Reach_keeps (KeepsStore-Kept b) py r ((λ v. v), Keeps-refl b.store)
