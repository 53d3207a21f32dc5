-- ===== src/Rules/Bridge/Flags.antt =====
-- What the bridge counts for the alert of an evaluation (pipelines/processing/kafka_metrics_bridge.py).
use Prim.Native.Char.{code}
use Prim.Native.String.{◌++◌ as append}
use text.Mathlib.TextLemmas.{nil-append, cons-append}
use fraudstream.Prelude.{
  ℕ, ◌≡◌, refl, ap, String, Bool, true, not, ◌&&◌, List, [], ◌∷◌, ◌++◌, map, Option, arith,
}
use fraudstream.Prelude.Int.{ℤ}
use fraudstream.Prelude.Equality.{string_eq}
use fraudstream.Prelude.Dict.{Dict}
use fraudstream.Prelude.Results.{ok}
use fraudstream.Value.{Record, codes}
use fraudstream.Rules.Model.{RuleDefinition}
use fraudstream.Rules.Metrics.{Increment, flag}
use fraudstream.Rules.Evaluator.{EvaluationResult, shadow_label, dispatch}
use fraudstream.Rules.Outcome.{fires_active, fires_shadow, select, rule_ids, specified, outcome}
use fraudstream.Rules.Outcome.Refines.{dispatch-eq-specified}
use fraudstream.Decision.{severity_or_low, build_alert}
use fraudstream.Rules.Bridge.{
  same_codes, ends_with, is_shadow_name, family_of, flag_rules, flags_of,
}

codes-append : (s t : String) → codes (append s t) ≡ codes s ++ codes t
codes-append String.[] t = ap codes (nil-append t)
codes-append (String.◌∷◌ c s) t = rw (cons-append c s t) (ap (λ l. code c ∷ l) (codes-append s t))

same_codes_self : (s : List ℕ) → same_codes s s ≡ true
same_codes_self [] = refl
same_codes_self (c ∷ s) = ground (arith, same_codes_self s)

ends_with-append : (s t : List ℕ) → ends_with (s ++ t) t ≡ true
unfolding ends_with
ends_with-append [] [] = refl
ends_with-append [] (d ∷ t) = ground (arith, same_codes_self t)
ends_with-append (c ∷ s) t = ground (arith, ends_with-append s t)

label-is_shadow_name : (id : String) → is_shadow_name (shadow_label id) ≡ true
unfolding is_shadow_name
label-is_shadow_name id =
    rw (codes-append id ":shadow") (ends_with-append (codes id) (codes ":shadow"))

-- No rule's own id has the ending that marks a shadow rule.
abbrev pub are_plain : List RuleDefinition → Bool
are_plain [] = true
are_plain (r ∷ rules) = not (is_shadow_name r.rule_id) && are_plain rules

module _ (families : Dict String String) (severity : String) where
  abbrev pub flag_of : String → Increment
  flag_of id = flag id (family_of families id) severity

  flag_rules-labels : (ids : List String) → flag_rules families severity (map shadow_label ids) ≡ []
  unfolding flag_rules
  flag_rules-labels [] = refl
  flag_rules-labels (id ∷ ids) = ground (arith, label-is_shadow_name id, flag_rules-labels ids)

  flag_rules-select :
      (p : RuleDefinition → Bool) (rules : List RuleDefinition) (labels : List String)
      → are_plain rules ≡ true
      → flag_rules families severity labels ≡ []
      → flag_rules families severity (rule_ids (select p rules) ++ labels)
        ≡ map flag_of (rule_ids (select p rules))
  unfolding flag_rules
  flag_rules-select p [] labels plain rest = rest
  flag_rules-select p (r ∷ rules) labels plain rest =
      ground (arith, flag_rules-select p rules labels (ground arith) rest)

  flag_rules-outcome :
      (decimal_text : String → Option ℤ) (rules : List RuleDefinition) (now : ℕ) (txn : Record)
      → are_plain rules ≡ true
      → flag_rules families severity (outcome decimal_text rules now txn).matched_rules
        ≡ map flag_of (rule_ids (select (fires_active decimal_text txn) rules))
  flag_rules-outcome decimal_text rules now txn plain =
      let quiet = rule_ids (select (fires_shadow decimal_text txn) rules) in
      flag_rules-select (fires_active decimal_text txn) rules (map shadow_label quiet) plain
        (flag_rules-labels quiet)

-- The active rules that fired, each under the family of the map and the severity of the alert.
abbrev pub flags_expected :
    (String → String) → Dict String String → String → List String → List Increment
flags_expected lower families severity ids = map (flag_of families (lower severity)) ids

module _ (decimal_text : String → Option ℤ) (lower : String → String)
    (families : Dict String String) where
  flags_of-outcome :
      (rules : List RuleDefinition) (now : ℕ) (txn : Record)
      → are_plain rules ≡ true
      → flags_of lower families (build_alert txn (outcome decimal_text rules now txn))
        ≡ flags_expected lower families
            (severity_or_low (outcome decimal_text rules now txn).highest_severity)
            (rule_ids (select (fires_active decimal_text txn) rules))
  unfolding flags_of build_alert
  flags_of-outcome rules now txn plain =
      let counted =
        flag_rules-outcome families
          (lower (severity_or_low (outcome decimal_text rules now txn).highest_severity))
          decimal_text rules now txn plain in
      ground (arith, counted)

  specified-ok :
      (rules : List RuleDefinition) (now : ℕ) (txn : Record) (r : EvaluationResult)
      → specified decimal_text rules now txn ≡ ok r
      → outcome decimal_text rules now txn ≡ r
  specified-ok rules now txn r found = ground arith

  -- For rules whose own ids do not end as shadow rules do, the alert of an evaluation makes the
  -- bridge count one flag for each active rule that fired, and none for a shadow rule.
  pub flags_of-build_alert :
      (rules : List RuleDefinition) (now : ℕ) (txn : Record) (r : EvaluationResult)
      → are_plain rules ≡ true
      → (dispatch decimal_text rules now txn).0 ≡ ok r
      → flags_of lower families (build_alert txn r)
        ≡ flags_expected lower families
            (severity_or_low r.highest_severity)
            (rule_ids (select (fires_active decimal_text txn) rules))
  flags_of-build_alert rules now txn r plain found = ground (
    arith,
    dispatch-eq-specified decimal_text rules now txn,
    specified-ok rules now txn r (ground (arith, dispatch-eq-specified decimal_text rules now txn)),
    flags_of-outcome rules now txn plain,
  )
