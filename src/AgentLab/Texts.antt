-- ===== src/AgentLab/Texts.antt =====
-- src/rollout_market/observatory/agent_trajectory_lab.py: when two final answers say the same.
use streams_rollout_market.Prelude.{
  member, add, ℤ, String, Bool, true, ◌&&◌, ◌||◌, Option, none, some, List, [], ◌∷◌, Float, Result,
  ok, ◌>>=◌, ◌==◌, ◌!=◌, ◌<>◌, if◌then◌else◌,
}
use streams_rollout_market.AgentLab.{is_nonempty}

-- What the comparison of answers takes from Python's texts, `re` and numbers.
pub record Answers : Type 0 where
  -- `text.strip().split()`, `text.lower()` and `a in b`
  pub words : String → List String
  pub lower : String → String
  pub occurs_in : String → String → Bool
  -- `_NUM_RE.findall(text)`, `m.replace(",", "").strip("-.")`, `float(s)` (none: ValueError)
  pub find_numbers : String → List String
  pub bare : String → String
  pub parse_float : String → Option Float
  -- `int(f)`, `f == n`, `str(n)` and `f"{f:g}"`
  pub to_int : Float → Result ℤ
  pub equals_int : Float → ℤ → Bool
  pub str_int : ℤ → String
  pub format_g : Float → String

-- `" ".join(ss)`
unfoldable pub join_words : List String → String
join_words [] = ""
join_words (s ∷ []) = s
join_words (s ∷ s' ∷ ss) = s <> " " <> join_words (s' ∷ ss)

-- `s <= t` and `s == t` for two sets of texts
unfoldable pub subset : List String → List String → Bool
subset [] t = true
subset (x ∷ s) t = member x t && subset s t

abbrev pub same_texts : List String → List String → Bool
same_texts s t = subset s t && subset t s

module _ (an : Answers) where
  unfoldable pub normalize : String → String
  unfolding join_words
  normalize text = an.lower (join_words (an.words text))

  unfoldable pub content_matches : String → String → Bool
  content_matches a b = if a == "" && b == "" then true else normalize a == normalize b

  -- The canonical form of one number.
  unfoldable pub number_key : Float → Result String
  number_key f = do n ← an.to_int f; ok (if an.equals_int f n then an.str_int n else an.format_g f)

  -- The loop over the matches, from the set `out`.
  unfoldable pub numbers_loop : List String → List String → Result (List String)
  unfolding number_key
  numbers_loop [] out = ok out
  numbers_loop (m ∷ ms) out =
      let skip = numbers_loop ms out in
      if an.bare m == "" then skip else elim (an.parse_float (an.bare m)) [
        | none ↦ skip
        | some f ↦ number_key f >>= λ key. numbers_loop ms (add key out)
      ]

  unfoldable pub extract_numbers : String → Result (List String)
  unfolding numbers_loop
  extract_numbers text = numbers_loop (an.find_numbers text) []

  unfoldable pub soft_content_match : String → String → Result Bool
  unfolding content_matches subset
  soft_content_match a b =
      if a == "" && b == "" then ok true else if content_matches a b then ok true else (do
        na ← extract_numbers a
        nb ← extract_numbers b
        ok (
            is_nonempty na && same_texts na nb
            || normalize a != ""
              && normalize b != ""
              && (an.occurs_in (normalize a) (normalize b)
                  || an.occurs_in (normalize b) (normalize a))))
