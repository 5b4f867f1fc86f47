-- ===== src/Malcontent/Risk.antt =====
-- src/yara/report/report.py: the overall risk and the overrides of the behaviors.
use packamal.Json.{failing}
use packamal.Tasks.Outcome.{Outcome, ret, raise}
use packamal.Prelude.{
  codes, List, Text, ℕ, if◌then◌else◌, ltb, select, ◌∷◌, map, Bool, text_eq, ◌/◌, leb, not, [],
  ◌==◌, ◌&&◌, true, false,
}
use packamal.Malcontent.{
  Level, ignored, harmless, low, medium, high, critical, behavior_risk, Strings,
}

pub record Behavior : Type 0 where
  pub rule_name : Text
  -- `RiskScore`, with its name `RiskLevel`
  pub risk : Level
  -- the names of the rules that it overrides
  pub overridden : List Text

pub record MatchRule : Type 0 where
  pub namespace : Text
  pub identifier : Text
  pub tags : List Text

-- The value of the level, plus one.
abbrev pub rank_of : Level → ℕ
rank_of ignored = 0
rank_of harmless = 1
rank_of low = 2
rank_of medium = 3
rank_of high = 4
rank_of critical = 5

abbrev pub max_level : Level → Level → Level
max_level a b = if ltb (rank_of a) (rank_of b) then b else a

-- The loop starts at 0, which is harmless.
unfoldable pub highest_match_risk : Strings → List MatchRule → Level → Level
unfolding behavior_risk
highest_match_risk str [] highest = highest
highest_match_risk str (m ∷ ms) highest =
    highest_match_risk str ms
      (max_level highest (behavior_risk str m.namespace m.identifier m.tags))

unfoldable pub highest_behavior_risk : List Behavior → Level → Level
highest_behavior_risk [] highest = highest
highest_behavior_risk (b ∷ bs) highest = highest_behavior_risk bs (max_level highest b.risk)

-- What `upgrade_risk` finds; `high_count` is `risk_counts.get(3, 0)`.
unfoldable pub is_dense : (high_count size : ℕ) → Bool
is_dense high_count size =
    let size_mb = size / 1024 / 1024 in
    if ltb size 1024 && ltb 1 high_count
    then true
    else if ltb size_mb 2 && ltb 2 high_count
    then true
    else if ltb size_mb 4 && ltb 3 high_count
    then true
    else if ltb size_mb 10 && ltb 4 high_count
    then true
    else if ltb size_mb 20 && ltb 5 high_count
    then true
    else ltb 6 high_count

-- `if logger:` reads a name that the module does not define.
abbrev pub logged : Bool → Outcome Bool
logged upgrade = raise (failing (codes "name 'logger' is not defined"))

unfoldable pub upgrade_risk : Level → (high_count size : ℕ) → Outcome Bool
unfolding is_dense
upgrade_risk risk_score high_count size =
    if rank_of risk_score == 4 then logged (is_dense high_count size) else ret false

-- `behavior_map[b.RuleName] = b`
abbrev pub put_behavior : Behavior → List Behavior → List Behavior
put_behavior b [] = b ∷ []
put_behavior b (x ∷ xs) =
    let rest = put_behavior b xs in if text_eq x.rule_name b.rule_name then b ∷ xs else x ∷ rest

abbrev pub behavior_map : List Behavior → List Behavior → List Behavior
behavior_map [] done = done
behavior_map (b ∷ bs) done = behavior_map bs (put_behavior b done)

abbrev pub set_risk : Level → Text → List Behavior → List Behavior
set_risk risk name bs =
    map (λ (b : Behavior). if text_eq b.rule_name name then record b { risk = risk } else b) bs

-- `for ob in o.Override`
abbrev pub set_risks : Level → List Text → List Behavior → List Behavior
set_risks risk [] bs = bs
set_risks risk (name ∷ names) bs = set_risks risk names (set_risk risk name bs)

-- One override, which is then deleted from the map.
unfoldable pub apply_override : Behavior → List Behavior → List Behavior
apply_override o bs =
    select (λ (b : Behavior). not (text_eq b.rule_name o.rule_name))
      (set_risks o.risk o.overridden bs)

unfoldable pub apply_overrides : List Behavior → List Behavior → List Behavior
unfolding apply_override
apply_overrides [] bs = bs
apply_overrides (o ∷ os) bs = apply_overrides os (apply_override o bs)

-- `min_score` plus one is `min_rank`.
unfoldable pub handle_overrides : List Behavior → List Behavior → (min_rank : ℕ) → List Behavior
unfolding apply_overrides
handle_overrides original override min_rank =
    select (λ (b : Behavior). leb min_rank (rank_of b.risk))
      (apply_overrides override (behavior_map original []))
