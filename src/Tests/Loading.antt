-- ===== src/Tests/Loading.antt =====
-- Rule ids and the rule loader, with a reader of texts as the file system.
use fraudstream.Prelude.{ℕ, zero, suc, true, ◌≡◌, ◌↔◌, ◌⊎◌, refl, List, [], ◌∷◌, none, some, arith}
use fraudstream.Prelude.Results.{ok, err}
use fraudstream.Value.{str, codes}
use fraudstream.Rules.RuleId.{matches_id, chomp, validate_rule_id, bad_rule_id}
use fraudstream.Rules.RuleId.Pattern.{IsRuleId, matches_id_iff}
use fraudstream.Rules.Loader.{Sources, sequence, invalid_at, load, loaded, load-eq-loaded}
use fraudstream.Tests.Rules.{burst}

abbrev vel_1 : List ℕ
vel_1 = codes "VEL-1"

vel_1-IsRuleId : IsRuleId vel_1
vel_1-IsRuleId = record {
  first = 86;
  middle = 69 ∷ 76 ∷ 45 ∷ [];
  last = 49;
  spelled = refl;
  first_alnum = refl;
  middle_chars = (refl, (refl, (refl, tt)));
  last_alnum = refl;
  short = omega arith;
}

rule_id_run :
    (validate_rule_id (str "VEL-001") ≡ ok "VEL-001")
    × (validate_rule_id (str "VEL-") ≡ err bad_rule_id)
    × (validate_rule_id (str "V") ≡ err bad_rule_id)
unfolding validate_rule_id matches_id
rule_id_run = (refl, refl, refl)

-- An item is a number: 0 and 1 are rules, others do not validate.
abbrev sources : Sources ℕ
sources = record {
  read = λ path. some path;
  safe_load = λ content. some (sequence (0 ∷ 2 ∷ 1 ∷ []));
  model_validate = λ i. elim i [ zero ↦ some burst | suc j ↦ none ];
}

load_run : load sources "rules.yaml" ≡ err (invalid_at 1)
unfolding load
load_run = refl

load-eq-loaded_example : load sources "rules.yaml" ≡ loaded sources (0 ∷ 2 ∷ 1 ∷ [])
load-eq-loaded_example = load-eq-loaded sources "rules.yaml" "rules.yaml" (0 ∷ 2 ∷ 1 ∷ []) refl refl

matches_id_iff_example : (matches_id vel_1 ≡ true) ↔ (IsRuleId vel_1 ⊎ IsRuleId (chomp vel_1))
matches_id_iff_example = matches_id_iff vel_1
