-- ===== src/Rules/Model.antt =====
-- pipelines/scoring/rules/models.py: families, modes, severities and rule definitions.
use fraudstream.Prelude.{ℕ, String, Bool, true, false, Option, none, some, ltb, if◌then◌else◌}
use fraudstream.Prelude.Equality.{◌==◌, string_eq}
use fraudstream.Value.{Record}

pub data RuleFamily : Type 0 where
  velocity impossible_travel new_device : RuleFamily

abbrev pub family_value : RuleFamily → String
family_value velocity = "velocity"
family_value impossible_travel = "impossible_travel"
family_value new_device = "new_device"

pub data RuleMode : Type 0 where
  active shadow : RuleMode

abbrev pub is_shadow : RuleMode → Bool
is_shadow active = false
is_shadow shadow = true

pub data Severity : Type 0 where
  low medium high critical : Severity

-- int(severity)
abbrev pub rank : Severity → ℕ
rank low = 0
rank medium = 1
rank high = 2
rank critical = 3

-- severity.name
abbrev pub severity_name : Severity → String
severity_name low = "low"
severity_name medium = "medium"
severity_name high = "high"
severity_name critical = "critical"

-- Severity.__gt__
abbrev pub severity_gt : Severity → Severity → Bool
severity_gt a b = ltb (rank b) (rank a)

-- Severity[v]
unfoldable pub severity_of_name : String → Option Severity
severity_of_name v =
    if v == "low"
    then some low
    else if v == "medium"
    then some medium
    else if v == "high"
    then some high
    else if v == "critical"
    then some critical
    else none

pub record RuleDefinition : Type 0 where
  pub rule_id : String
  pub name : String
  pub family : RuleFamily
  pub conditions : Record
  pub severity : Severity
  pub enabled : Bool
  pub mode : RuleMode
