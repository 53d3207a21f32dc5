-- ===== src/RuleModes.antt =====
-- pipelines/scoring/management_api.py: the rules in memory and the endpoints that demote and promote
-- one. The rules file is state too; how a write of it ends is an argument. Authentication, rate
-- limits and the pattern of the path are checked before an endpoint runs.
pub mod Endpoints
use fraudstream.Prelude.{
  String, Bool, true, false, List, [], ◌∷◌, Option, none, some, if◌then◌else◌,
}
use fraudstream.Prelude.Results.{Result, ok, err}
use fraudstream.Prelude.Equality.{string_eq}
use fraudstream.Prelude.Dict.{Dict, get, put}
use fraudstream.Rules.Model.{RuleDefinition, RuleMode, active, shadow}

-- How a write of the file ends: done, refused before the file was opened, cut off after that, or
-- done with an error of chmod.
pub data Write : Type 0 where
  written refused cut_off not_protected : Write

pub record RuleStore : Type 0 where
  -- _rules_dict
  pub rules : Dict String RuleDefinition
  -- the rules in the file, none where it is cut off
  pub file : Option (List RuleDefinition)

-- The status codes of HTTPException.
pub data HttpError : Type 0 where
  not_found conflict server_error : HttpError

-- DemotePromoteResponse
pub record ModeChange : Type 0 where
  pub rule_id : String
  pub previous_mode : RuleMode
  pub new_mode : RuleMode

abbrev pub values : Dict String RuleDefinition → List RuleDefinition
values [] = []
values ((_, r) ∷ rules) = r ∷ values rules

-- The loop of _load_rules_from_yaml over validated items.
unfoldable pub load_rules :
    List RuleDefinition → Dict String RuleDefinition → Dict String RuleDefinition
unfolding put
load_rules [] rules = rules
load_rules (r ∷ items) rules = load_rules items (put r.rule_id r rules)

-- _write_rules_to_yaml, false where it raises OSError
unfoldable pub write_rules : Write → RuleStore → Bool × RuleStore
write_rules written s = (true, record s { file = some (values s.rules) })
write_rules refused s = (false, s)
write_rules cut_off s = (false, record s { file = none })
write_rules not_protected s = (false, record s { file = some (values s.rules) })

-- rule.mode == mode
abbrev pub has_mode : RuleMode → RuleDefinition → Bool
has_mode active r = elim r.mode [ active ↦ true | shadow ↦ false ]
has_mode shadow r = elim r.mode [ active ↦ false | shadow ↦ true ]

abbrev pub with_mode : RuleMode → RuleDefinition → RuleDefinition
with_mode mode r = record r { mode = mode }

-- rule.mode = mode, of the rule that the dict holds
unfoldable pub set_mode : RuleMode → String → RuleDefinition → RuleStore → RuleStore
unfolding put
set_mode mode i r s = record s { rules = put i (with_mode mode r) s.rules }

-- From the assignment of the new mode on.
unfoldable pub change_mode :
    RuleMode → Write → String → RuleDefinition → RuleStore → Result HttpError ModeChange × RuleStore
unfolding set_mode write_rules
change_mode mode w i r s =
    let (done, s1) = write_rules w (set_mode mode i r s) in
    if done
    then (ok (record { rule_id = i; previous_mode = r.mode; new_mode = mode }), s1)
    else (err server_error, set_mode r.mode i (with_mode mode r) s1)

-- demote_rule and promote_rule differ in the mode.
unfoldable pub change_rule :
    RuleMode → Write → String → RuleStore → Result HttpError ModeChange × RuleStore
unfolding get change_mode
change_rule mode w i s = elim (get i s.rules) [
  | none ↦ (err not_found, s)
  | some r ↦ if has_mode mode r then (err conflict, s) else change_mode mode w i r s
]

-- demote_rule
unfoldable pub demote_rule : Write → String → RuleStore → Result HttpError ModeChange × RuleStore
unfolding change_rule
demote_rule w i s = change_rule shadow w i s

-- promote_rule
unfoldable pub promote_rule : Write → String → RuleStore → Result HttpError ModeChange × RuleStore
unfolding change_rule
promote_rule w i s = change_rule active w i s
