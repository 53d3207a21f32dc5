-- ===== src/Rules/Bridge.antt =====
-- pipelines/processing/kafka_metrics_bridge.py: the counters that the main process derives from the
-- messages of two topics. The rules file, its YAML and the decoding of Avro are parameters, by what they
-- give.
pub mod Flags
use fraudstream.Prelude.{
  ℕ, ◌+◌, String, Bool, true, false, ◌&&◌, List, [], ◌∷◌, ◌++◌, map, Option, none, some, ◌==◌,
  if◌then◌else◌,
}
use fraudstream.Prelude.Equality.{string_eq}
use fraudstream.Prelude.Dict.{Dict, get, put}
use fraudstream.Value.{codes}
use fraudstream.Rules.Model.{RuleDefinition, family_value}
use fraudstream.Rules.Metrics.{Increment, evaluation, flag}
use fraudstream.Decision.{FraudAlert}

abbrev same_codes : List ℕ → List ℕ → Bool
same_codes [] [] = true
same_codes (c ∷ s) (d ∷ t) = (c == d) && same_codes s t
same_codes _ _ = false

-- s.endswith(t), by code points
unfoldable pub ends_with : List ℕ → List ℕ → Bool
ends_with [] t = same_codes [] t
ends_with (c ∷ s) t = let rest = ends_with s t in if same_codes (c ∷ s) t then true else rest

-- rule_id.endswith(":shadow")
unfoldable pub is_shadow_name : String → Bool
unfolding ends_with
is_shadow_name s = ends_with (codes s) (codes ":shadow")

-- An entry of the list in the rules file: no mapping, or one with its rule_id and its family, where
-- they are given as texts, and whether its `enabled`, where it is given, is truthy.
pub data RawRule : Type 0 where
  no_mapping : RawRule
  mapping : Option String → Option String → Option Bool → RawRule

-- r.get("enabled", True)
abbrev pub enabled_or_true : Option Bool → Bool
enabled_or_true none = true
enabled_or_true (some b) = b

-- One step of the comprehension, none where a key is missing.
abbrev pub put_family :
    Option String → Option String → Dict String String → Option (Dict String String)
put_family (some id) (some family) families = some (put id family families)
put_family (some id) none families = none
put_family none _ families = none

unfoldable pub add_rules : List RawRule → Dict String String → Option (Dict String String)
unfolding put
add_rules [] families = some families
add_rules (no_mapping ∷ rules) families = add_rules rules families
add_rules (mapping id family enabled ∷ rules) families = elim (enabled_or_true enabled) [
  | false ↦ add_rules rules families
  | true ↦ elim (put_family id family families) [ none ↦ none | some more ↦ add_rules rules more ]
]

-- _build_rule_family_map: the file's list, none where reading the file or its YAML raises or where the
-- document is no list; an empty document is an empty list. Any exception gives an empty map.
unfoldable pub build_rule_family_map : Option (List RawRule) → Dict String String
unfolding add_rules
build_rule_family_map none = []
build_rule_family_map (some rules) = elim (add_rules rules []) [
  | none ↦ []
  | some families ↦ families
]

-- rule_family_map.get(rule_id, "unknown")
abbrev pub family_of : Dict String String → String → String
family_of families id = elim (get id families) [ none ↦ "unknown" | some f ↦ f ]

-- The loop of _alerts_consumer_thread on the names of an alert.
unfoldable pub flag_rules : Dict String String → String → List String → List Increment
unfolding get is_shadow_name
flag_rules families severity [] = []
flag_rules families severity (id ∷ ids) =
    let rest = flag_rules families severity ids in
    if is_shadow_name id then rest else flag id (family_of families id) severity ∷ rest

-- The body of _alerts_consumer_thread on a message; `lower` is str.lower, and a message that cannot be
-- decoded is none.
unfoldable pub flags_of :
    (String → String) → Dict String String → Option FraudAlert → List Increment
unfolding flag_rules
flags_of lower families none = []
flags_of lower families (some a) = flag_rules families (lower a.severity) a.matched_rule_names

-- The body of _enriched_consumer_thread on a message: every enabled rule counts as evaluated.
unfoldable pub evaluations_of : Dict String String → List Increment
evaluations_of [] = []
evaluations_of ((id, family) ∷ families) = evaluation id family ∷ evaluations_of families
