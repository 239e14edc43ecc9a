-- ===== src/LiveStore/Records.antt =====
-- What each method of livestore.py keeps of the records: their payloads, the finality of a
-- rejection, and the agreement of status, rejection reason and key.
use streams_rollout_market.Prelude.{
  ℕ, ◌≤◌, ◌≡◌, refl, inl, inr, String, Bool, Option, none, some, is_some, lookup, insert,
  lookup-insert, dec_text, Option-cases, Time, arith,
}
use streams_rollout_market.Contracts.{
  GroupStatus, rejected, status_eq, RejectionReason, SampleGroup, GroupDecision,
}
use streams_rollout_market.LiveStore.Serving.{mark, lookup-mark}
use streams_rollout_market.LiveStore.{
  StoredGroup, LiveStore, submit, transition, new_record, moved_record, served,
}

-- How a record may develop: the group and its arrival stay, servings only grow, and a rejection is
-- final.
pub record Follows (r r' : StoredGroup) : Type 0 where
  pub group : r'.group ≡ r.group
  pub stored_at : r'.stored_at ≡ r.stored_at
  pub counted : r.served_count ≤ r'.served_count
  pub final : r.state ≡ rejected → r'.state ≡ rejected

pub Follows-refl : (r : StoredGroup) → Follows r r
Follows-refl r = record { group = refl; stored_at = refl; counted = omega arith; final = λ e. e }

pub Follows-trans : (p q r : StoredGroup) → Follows p q → Follows q r → Follows p r
Follows-trans p q r f g = record {
  group = cc;
  stored_at = cc;
  counted = omega arith;
  final = λ e. g.final (f.final e);
}

Follows-served : (r : StoredGroup) → Follows r (served r)
Follows-served r = record { group = refl; stored_at = refl; counted = omega arith; final = λ e. e }

-- Every record of `s` is still there in `s'`, and follows from what it was.
pub record Keeps (s s' : LiveStore) : Type 0 where
  pub at :
      (k : String) (r : StoredGroup)
      → lookup k s.records ≡ some r
      → (r' : StoredGroup) × (lookup k s'.records ≡ some r') × Follows r r'

pub Keeps-refl : (s : LiveStore) → Keeps s s
Keeps-refl s = record { at = λ k r h. (r, h, Follows-refl r) }

pub Keeps-trans : (s t u : LiveStore) → Keeps s t → Keeps t u → Keeps s u
Keeps-trans s t u f g = record {
  at = λ k r h.
      let (r', h', f') = f.at k r h in
      let (r'', h'', g') = g.at k r' h' in (r'', h'', Follows-trans r r' r'' f' g');
}

insert-Keeps :
    (s : LiveStore) (k : String) (v : StoredGroup)
    → ((r : StoredGroup) → lookup k s.records ≡ some r → Follows r v)
    → Keeps s (record { records = insert k v s.records })
insert-Keeps s k v f = record {
  at = λ j r h. elim (dec_text k j) [
    | yes e ↦ (v, rw lookup-insert (ground arith), f r (rw e h))
    | no n ↦ (r, rw lookup-insert (ground arith), Follows-refl r)
  ];
}

-- What holds of the store before `submit`, and with the new record in it, holds after it.
pub submit_cases {ℓ} :
    (P : LiveStore → Type ℓ) (g : SampleGroup) (d : GroupDecision) (clock : Time) (s : LiveStore)
    → P s
    → (d.group_id ≡ g.group_id
        → lookup g.group_id s.records ≡ none
        → P (record { records = insert g.group_id (new_record g d clock) s.records }))
    → P (submit g d clock s).1
unfolding submit
submit_cases P g d clock s before after = ground arith

pub transition_cases {ℓ} :
    (P : LiveStore → Type ℓ) (k : String) (state : GroupStatus) (reason : String)
    (why : Option RejectionReason) (clock : Time) (s : LiveStore)
    → P s
    → ((r : StoredGroup)
        → lookup k s.records ≡ some r
        → (r.state ≡ rejected → state ≡ rejected)
        → status_eq state rejected ≡ is_some why
        → P (record { records = insert k (moved_record state reason why clock r) s.records }))
    → P (transition k state reason why clock s).1
unfolding transition
transition_cases P k state reason why clock s before after =
    elim (Option-cases (lookup k s.records)) [
      | inl e ↦ rw (e, transition) before
      | inr (r, e) ↦ rw (e, transition) (ground (arith, after r e))
    ]

pub submit-Keeps :
    (g : SampleGroup) (d : GroupDecision) (clock : Time) (s : LiveStore)
    → Keeps s (submit g d clock s).1
submit-Keeps g d clock s =
    submit_cases (Keeps s) g d clock s (Keeps-refl s)
      λ _ new. insert-Keeps s g.group_id (new_record g d clock) (λ r h. absurd (cc (new, h)))

pub transition-Keeps :
    (k : String) (state : GroupStatus) (reason : String) (why : Option RejectionReason)
    (clock : Time) (s : LiveStore)
    → Keeps s (transition k state reason why clock s).1
transition-Keeps k state reason why clock s =
    transition_cases (Keeps s) k state reason why clock s (Keeps-refl s) λ r found last _.
      insert-Keeps s k (moved_record state reason why clock r) λ r' h. ground (arith, last)

pub mark-Keeps :
    (admits : StoredGroup → Bool) (n : ℕ) (s : LiveStore)
    → Keeps s (record { records = mark admits n s.records })
mark-Keeps admits n s = record {
  at = λ k r h. elim (lookup-mark admits n k r s.records h) [
    | inl e ↦ (r, e, Follows-refl r)
    | inr (e, _) ↦ (served r, e, Follows-served r)
  ];
}
