-- ===== src/AgentLab/Divergence.antt =====
-- Where agent_trajectory_lab.py says that two agent runs diverge, and how often.
use streams_rollout_market.Prelude.{
  true, ◌||◌, ◌≤◌, refl, inl, inr, ◌⊎◌, Bool-cases, Option-cases, subst, sym, ◌≢◌, nat_eq,
  if◌then◌else◌, length, ℕ, zero, suc, ◌+◌, ◌<◌, ◌≡◌, Option, none, some, List, [], ◌∷◌, get_elem?,
  arith,
}
use streams_rollout_market.AgentLab.{is_nonempty, termination, AgentStep, DivergenceKind}
use streams_rollout_market.AgentLab.Texts.{Answers}
use streams_rollout_market.AgentLab.Walk.{
  is_tool_choice, or_first, walk_all, first_divergence, min_length, Walk, step_divergence,
  walk_step, walk,
}

-- The steps at index `j` of both runs are told apart in this way (none: not at all).
abbrev pub KindAt : Answers → List AgentStep → List AgentStep → ℕ → Option DivergenceKind → Type 0
KindAt an rs ts j kind =
    (r : AgentStep) × (t : AgentStep) × (get_elem? rs j ≡ some r)
    × (get_elem? ts j ≡ some t)
    × (step_divergence an r t ≡ kind)

-- The kind that the two runs show at index `j`: none where they agree or where one of them has ended.
abbrev pub kind_at : Answers → List AgentStep → List AgentStep → ℕ → Option DivergenceKind
kind_at an (r ∷ rs) (t ∷ ts) zero = step_divergence an r t
kind_at an (r ∷ rs) (t ∷ ts) (suc j) = kind_at an rs ts j
kind_at an _ _ j = none

walk-keeps :
    (an : Answers) (i : ℕ) (rs ts : List AgentStep) (w : Walk) (f : ℕ × DivergenceKind)
    → w.first ≡ some f
    → (walk an i rs ts w).first ≡ some f
unfolding walk
walk-keeps an i [] ts w f h = h
walk-keeps an i (r ∷ rs) [] w f h = h
walk-keeps an i (r ∷ rs) (t ∷ ts) w f h =
    walk-keeps an (i + 1) rs ts (walk_step an i r t w) f (ground (arith, h))

-- What `walk` finds from index `i` on, when it has found nothing before.
abbrev pub Found :
    Answers → ℕ → List AgentStep → List AgentStep → Option (ℕ × DivergenceKind) → Type 0
Found an i rs ts none = (j : ℕ) → kind_at an rs ts j ≡ none
Found an i rs ts (some f) =
    (n : ℕ) × (f.0 ≡ i + n)
    × (kind_at an rs ts n ≡ some f.1)
    × ((j : ℕ) → j < n → kind_at an rs ts j ≡ none)

Found-cons :
    (an : Answers) (i : ℕ) (r t : AgentStep) (rs ts : List AgentStep)
    (o : Option (ℕ × DivergenceKind))
    → step_divergence an r t ≡ none
    → Found an (i + 1) rs ts o
    → Found an i (r ∷ rs) (t ∷ ts) o
Found-cons an i r t rs ts none e h = λ j. agree j
  where
    agree : (j : ℕ) → kind_at an (r ∷ rs) (t ∷ ts) j ≡ none
    agree zero = e
    agree (suc j) = h j
Found-cons an i r t rs ts (some f) e (n, at_n, kind, before) =
    (suc n, omega (arith, at_n), kind, agree)
  where
    agree : (j : ℕ) → j < suc n → kind_at an (r ∷ rs) (t ∷ ts) j ≡ none
    agree zero lt = e
    agree (suc j) lt = before j (omega arith)

walk-Found :
    (an : Answers) (i : ℕ) (rs ts : List AgentStep) (w : Walk)
    → w.first ≡ none
    → Found an i rs ts (walk an i rs ts w).first
unfolding walk
walk-Found an i [] ts w h = subst (Found an i [] ts) (sym h) (λ j. refl)
walk-Found an i (r ∷ rs) [] w h = subst (Found an i (r ∷ rs) []) (sym h) (λ j. refl)
walk-Found an i (r ∷ rs) (t ∷ ts) w h = elim (Option-cases (step_divergence an r t)) [
  | inl e ↦
      Found-cons an i r t rs ts _ e
        (walk-Found an (i + 1) rs ts (walk_step an i r t w) (ground (arith, h, e)))
  | inr (kind, e) ↦
      let found : (walk an (i + 1) rs ts (walk_step an i r t w)).first ≡ some (i, kind) =
        walk-keeps an (i + 1) rs ts (walk_step an i r t w) (i, kind) (ground (arith, h, e)) in
      subst (Found an i (r ∷ rs) (t ∷ ts)) (sym found)
        (zero, omega arith, e, λ j lt. absurd (omega arith))
]

kind_at-none :
    (an : Answers) (rs ts : List AgentStep) (j : ℕ) (kind : DivergenceKind)
    → kind_at an rs ts j ≡ some kind
    → (j < length rs) × (j < length ts)
kind_at-none an [] ts j kind h = absurd (cc)
kind_at-none an (r ∷ rs) [] j kind h = absurd (cc)
kind_at-none an (r ∷ rs) (t ∷ ts) zero kind h = (omega arith, omega arith)
kind_at-none an (r ∷ rs) (t ∷ ts) (suc j) kind h =
    let (a, b) = kind_at-none an rs ts j kind h in (omega (arith, a), omega (arith, b))

-- What `first_divergence` reports, against the kinds of the pairs: the first pair that is told apart;
-- where all pairs agree, a termination at the end of the shorter run when the lengths differ, and
-- nothing when they do not.
abbrev pub Reported :
    Answers → List AgentStep → List AgentStep → Option (ℕ × DivergenceKind) → Type 0
Reported an rs ts none = ((j : ℕ) → kind_at an rs ts j ≡ none) × (length rs ≡ length ts)
Reported an rs ts (some f) =
    ((j : ℕ) → j < f.0 → kind_at an rs ts j ≡ none)
    × ((kind_at an rs ts f.0 ≡ some f.1)
        ⊎ ((f.1 ≡ termination) × (f.0 ≡ min_length rs ts) × (length rs ≢ length ts)))

or_first-Reported :
    (an : Answers) (rs ts : List AgentStep) (o : Option (ℕ × DivergenceKind))
    (last : Option DivergenceKind)
    → Found an 0 rs ts o
    → ((last ≡ none) × (length rs ≡ length ts))
      ⊎ ((last ≡ some termination) × (length rs ≢ length ts))
    → Reported an rs ts (or_first o (min_length rs ts) last)
or_first-Reported an rs ts none last found (inl (e, h)) =
    subst (λ d. Reported an rs ts (or_first none (min_length rs ts) d)) (sym e) (found, h)
or_first-Reported an rs ts none last found (inr (e, h)) =
    subst (λ d. Reported an rs ts (or_first none (min_length rs ts) d)) (sym e)
      (λ j lt. found j, inr (refl, refl, h))
or_first-Reported an rs ts (some f) last (n, at_n, kind, before) h =
    let same : n ≡ f.0 = omega (arith, at_n) in
    (
      λ j lt. before j (omega (arith, same)),
      inl (subst (λ m. kind_at an rs ts m ≡ some f.1) same kind),
    )

last_kind :
    (m n : ℕ)
    → (((if nat_eq m n then none else some termination) ≡ none) × (m ≡ n))
      ⊎ (((if nat_eq m n then none else some termination) ≡ some termination) × (m ≢ n))
last_kind m n = elim (Bool-cases (nat_eq m n)) [
  | inl e ↦ inl (ground (arith, e))
  | inr e ↦ inr (ground (arith, e))
]

-- The first divergence of two runs is that of the first pair of assistant steps that are told apart,
-- every earlier pair agreeing; where every pair agrees it is a termination, at the end of the shorter
-- run, when the lengths differ; and there is none just when every pair agrees and the lengths are
-- equal.
pub first_divergence-Reported :
    (an : Answers) (rs ts : List AgentStep) → Reported an rs ts (first_divergence an rs ts)
first_divergence-Reported an rs ts =
    or_first-Reported an rs ts (walk_all an rs ts).first _
      (walk-Found an 0 rs ts (record { first = none; disagreement_steps = 0; eligible_steps = 0 })
        refl)
      (last_kind (length rs) (length ts))

is_tool_choice-eligible :
    (an : Answers) (r t : AgentStep)
    → is_tool_choice (step_divergence an r t) ≡ true
    → (is_nonempty r.tool_calls || is_nonempty t.tool_calls) ≡ true
unfolding step_divergence
is_tool_choice-eligible an r t h = ground arith

walk-bounds :
    (an : Answers) (i : ℕ) (rs ts : List AgentStep) (w : Walk) (pairs : ℕ)
    → w.disagreement_steps ≤ w.eligible_steps
    → w.eligible_steps ≤ pairs
    → ((walk an i rs ts w).disagreement_steps ≤ (walk an i rs ts w).eligible_steps)
      × ((walk an i rs ts w).eligible_steps ≤ pairs + min_length rs ts)
unfolding walk
walk-bounds an i [] ts w pairs h g = ground arith
walk-bounds an i (r ∷ rs) [] w pairs h g = ground arith
walk-bounds an i (r ∷ rs) (t ∷ ts) w pairs h g =
    let w' = walk_step an i r t w in
    let (a, b) =
      walk-bounds an (i + 1) rs ts w' (pairs + 1) (ground (arith, is_tool_choice-eligible an r t))
        (ground arith) in
    (a, ground (arith, b))

-- The pairs of steps that choose their tools differently are among those that call tools, and these
-- are no more than the pairs, so that the disagreement rate is a fraction of at most 1.
pub walk_all-bounds :
    (an : Answers) (rs ts : List AgentStep)
    → ((walk_all an rs ts).disagreement_steps ≤ (walk_all an rs ts).eligible_steps)
      × ((walk_all an rs ts).eligible_steps ≤ min_length rs ts)
walk_all-bounds an rs ts =
    let empty : Walk = record { first = none; disagreement_steps = 0; eligible_steps = 0 } in
    let (a, b) = walk-bounds an 0 rs ts empty 0 (omega arith) (omega arith) in (a, omega (arith, b))
