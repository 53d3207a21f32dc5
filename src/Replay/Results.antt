-- ===== src/Replay/Results.antt =====
-- pipelines/replay/replay_job.py: _process_event, and pipelines/replay/models.py: ReplayResult. The
-- scoring function is a parameter. Times and the metadata of the source are left out.
pub mod ApiDlq
use fraudstream.Prelude.{String, Bool, true, false, not, ◌&&◌, Option, none, some, if◌then◌else◌}
use fraudstream.Prelude.Int.{ℤ, pos, ◌-ℤ◌}
use fraudstream.Value.{as_number}
use fraudstream.Json.{
  Json, Items, Fields, scalar, arr, obj, nil, none_json, find_field, get_or, is_none_json,
  same_json,
}
use fraudstream.Replay.Sources.{Event, EventId}

pub record ReplayResult : Type 0 where
  pub original_event_id : EventId
  pub original_decision : Json
  pub replay_decision : Json
  pub original_score : Option ℤ
  pub replay_score : Json
  pub triggered_rules_original : Items
  pub triggered_rules_replay : Json
  pub score_delta : ℤ
  pub decision_changed : Bool

-- isinstance(v, (int, float)); a bool is an int
abbrev pub number_of : Json → Option ℤ
number_of (scalar v) = as_number v
number_of (arr _) = none
number_of (obj _) = none

abbrev pub list_or_empty : Json → Items
list_or_empty (scalar _) = nil
list_or_empty (arr items) = items
list_or_empty (obj _) = nil

-- replay_score - original_score where both are there, 0.0 where one is None, none where it raises
unfoldable pub score_delta_of : Option ℤ → Json → Option ℤ
unfolding as_number ◌-ℤ◌
score_delta_of none replay = some (pos 0)
score_delta_of (some original) replay =
    if is_none_json replay
    then some (pos 0)
    else elim (number_of replay) [ none ↦ none | some z ↦ some (z -ℤ original) ]

unfoldable pub decision_changed_of : Json → Json → Bool
unfolding same_json
decision_changed_of original replay =
    not (is_none_json original) && not (is_none_json replay) && not (same_json original replay)

-- A scored event as a ReplayResult, with __post_init__; none where it raises
unfoldable pub result_of : EventId → Fields → Fields → Option ReplayResult
unfolding find_field as_number score_delta_of decision_changed_of
result_of id payload scored =
    let original = get_or "fraud_decision" none_json payload in
    let decision = get_or "decision" none_json scored in
    let score = number_of (get_or "fraud_score" none_json payload) in
    let replay = get_or "score" none_json scored in
    elim (score_delta_of score replay) [
      | none ↦ none
      | some delta ↦ some (record {
        original_event_id = id;
        original_decision = original;
        replay_decision = decision;
        original_score = score;
        replay_score = replay;
        triggered_rules_original = list_or_empty (get_or "triggered_rules" (arr nil) payload);
        triggered_rules_replay = get_or "triggered_rules" (arr nil) scored;
        score_delta = delta;
        decision_changed = decision_changed_of original decision;
      })
    ]

module _ (scoring_fn : Fields → Option Fields) where
  -- _process_event, none where it raises: `.get` of a payload that is no dict raises
  unfoldable pub process_event : Event → Option ReplayResult
  unfolding result_of
  process_event e = elim e.payload [
    | scalar _ ↦ none
    | arr _ ↦ none
    | obj payload ↦ elim (scoring_fn payload) [
      | none ↦ none
      | some scored ↦ result_of e.event_id payload scored
    ]
  ]
