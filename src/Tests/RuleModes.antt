-- ===== src/Tests/RuleModes.antt =====
-- The endpoints that change the mode of a rule.
use fraudstream.Prelude.{◌≡◌, refl, String, true, false, [], ◌∷◌, none, some, if◌then◌else◌}
use fraudstream.Prelude.Results.{ok, err}
use fraudstream.Prelude.Equality.{◌==◌, string_eq}
use fraudstream.Prelude.Dict.{get}
use fraudstream.Rules.Model.{active, shadow}
use fraudstream.RuleModes.{
  RuleStore, ModeChange, written, cut_off, conflict, server_error, values, load_rules, has_mode,
  with_mode, change_rule, demote_rule,
}
use fraudstream.RuleModes.Endpoints.{change_rule_ok, change_rule_error}
use fraudstream.Tests.Rules.{burst, burst_5m}

abbrev store : RuleStore
store = record { rules = ("VEL-001", burst) ∷ ("SHADOW-001", burst_5m) ∷ []; file = none }

loaded_run : load_rules (burst ∷ burst_5m ∷ burst ∷ []) [] ≡ store.rules
unfolding load_rules
loaded_run = refl

conflict_run : (demote_rule written "SHADOW-001" store).0 ≡ err conflict
unfolding demote_rule
conflict_run = refl

abbrev demotion : ModeChange
demotion = record { rule_id = "VEL-001"; previous_mode = active; new_mode = shadow }

demoted : (change_rule shadow written "VEL-001" store).0 ≡ ok demotion
unfolding change_rule
demoted = refl

is_cut_off : (change_rule shadow cut_off "VEL-001" store).0 ≡ err server_error
unfolding change_rule
is_cut_off = refl

known : get "VEL-001" store.rules ≡ some burst
unfolding get
known = refl

change_rule_ok_example :
    let s1 = (change_rule shadow written "VEL-001" store).1 in
    ((j : String)
      → get j s1.rules ≡ (
          if "VEL-001" == j
          then elim (get j store.rules) [ none ↦ none | some r ↦ some (with_mode shadow r) ]
          else get j store.rules))
    × (s1.file ≡ some (values s1.rules))
    × (demotion.new_mode ≡ shadow)
    × ((elim (get "VEL-001" store.rules) [ none ↦ true | some r ↦ has_mode shadow r ]) ≡ false)
change_rule_ok_example = change_rule_ok shadow written "VEL-001" store demotion demoted

change_rule_error_example : (change_rule shadow cut_off "VEL-001" store).1.rules ≡ store.rules
change_rule_error_example = change_rule_error shadow cut_off "VEL-001" store server_error is_cut_off
