-- ===== src/RuleModes/Endpoints.antt =====
-- What the endpoints leave in memory and in the rules file
-- (pipelines/scoring/management_api.py).
use fraudstream.Prelude.{
  ◌≡◌, refl, String, true, false, List, [], ◌∷◌, Option, none, some, arith, Option-cases, inl, inr,
  if◌then◌else◌,
}
use fraudstream.Prelude.Results.{ok, err}
use fraudstream.Prelude.Equality.{◌==◌, string_eq}
use text.Mathlib.TextEquality.{eq_iff}
use fraudstream.Prelude.Dict.{Dict, get, put, get-put}
use fraudstream.Rules.Model.{RuleDefinition, RuleMode, active, shadow}
use fraudstream.RuleModes.{
  Write, written, not_protected, RuleStore, HttpError, server_error, ModeChange, values, load_rules,
  write_rules, has_mode, with_mode, set_mode, change_mode, change_rule, demote_rule, promote_rule,
}

put_same :
    (k : String) (v : RuleDefinition) (d : Dict String RuleDefinition)
    → get k d ≡ some v
    → put k v d ≡ d
unfolding get put
put_same k v [] h = ground arith
put_same k v ((j, w) ∷ d) h = ground (arith, put_same k v d)

put_again :
    (k : String) (v w : RuleDefinition) (d : Dict String RuleDefinition)
    → put k v (put k w d) ≡ put k v d
unfolding put
put_again k v w [] = ground (arith, eq_iff k k)
put_again k v w ((j, u) ∷ d) = ground (arith, put_again k v w d)

-- A request that is answered with an error leaves the rules in memory as they are.
pub change_rule_error :
    (mode : RuleMode) (w : Write) (i : String) (s : RuleStore) (e : HttpError)
    → (change_rule mode w i s).0 ≡ err e
    → (change_rule mode w i s).1.rules ≡ s.rules
unfolding change_rule change_mode set_mode write_rules
change_rule_error mode w i s e h = elim (Option-cases (get i s.rules)) [
  | inl n ↦ ground (arith, n)
  | inr (r, n) ↦ ground (arith, n, put_again i r (with_mode mode r) s.rules, put_same i r s.rules n)
]

-- A request that succeeds gives the named rule, which had the other mode, the new one, leaves every
-- other rule as it is, and leaves in the file the rules in memory.
pub change_rule_ok :
    (mode : RuleMode) (w : Write) (i : String) (s : RuleStore) (c : ModeChange)
    → (change_rule mode w i s).0 ≡ ok c
    → let s1 = (change_rule mode w i s).1 in
      ((j : String)
        → get j s1.rules ≡ (
            if i == j
            then elim (get j s.rules) [ none ↦ none | some r ↦ some (with_mode mode r) ]
            else get j s.rules))
      × (s1.file ≡ some (values s1.rules))
      × (c.new_mode ≡ mode)
      × ((elim (get i s.rules) [ none ↦ true | some r ↦ has_mode mode r ]) ≡ false)
unfolding change_rule change_mode set_mode write_rules
change_rule_ok mode w i s c h = elim (Option-cases (get i s.rules)) [
  | inl n ↦ absurd (ground (arith, n))
  | inr (r, n) ↦ (
    λ j. ground (arith, n, eq_iff i j, get-put i j (with_mode mode r) s.rules),
    ground (arith, n),
    ground (arith, n),
    ground (arith, n),
  )
]

-- An active rule that is demoted and then promoted, with both writes done, is as it was, with every
-- other rule and their order.
pub promote-demote :
    (i : String) (r : RuleDefinition) (s : RuleStore)
    → get i s.rules ≡ some r
    → r.mode ≡ active
    → (promote_rule written i (demote_rule written i s).1).1
      ≡ record { rules = s.rules; file = some (values s.rules) }
unfolding promote_rule demote_rule change_rule change_mode set_mode write_rules
promote-demote i r s h m = ground (
  arith,
  eq_iff i i,
  get-put i i (with_mode shadow r) s.rules,
  put_again i r (with_mode shadow r) s.rules,
  put_same i r s.rules h,
)

-- If the file is written and chmod raises, the demotion of an active rule is answered with an error
-- and undone in memory, but the file keeps the rule in shadow mode.
pub demote_rule_diverges :
    (i : String) (r : RuleDefinition) (s : RuleStore)
    → get i s.rules ≡ some r
    → r.mode ≡ active
    → let response = demote_rule not_protected i s in
      (response.0 ≡ err server_error)
      × (response.1.rules ≡ s.rules)
      × (response.1.file ≡ some (values (put i (with_mode shadow r) s.rules)))
unfolding demote_rule change_rule change_mode set_mode write_rules
demote_rule_diverges i r s h m =
    ground (arith, put_again i r (with_mode shadow r) s.rules, put_same i r s.rules h)

-- The last of the items with an id, or else what was there before.
abbrev pub last_or : Option RuleDefinition → String → List RuleDefinition → Option RuleDefinition
last_or found i [] = found
last_or found i (r ∷ items) = last_or (if r.rule_id == i then some r else found) i items

-- After loading, an id has the last rule of the file with it: earlier ones are dropped.
pub get-load_rules :
    (i : String) (items : List RuleDefinition) (rules : Dict String RuleDefinition)
    → get i (load_rules items rules) ≡ last_or (get i rules) i items
unfolding load_rules
get-load_rules i [] rules = refl
get-load_rules i (r ∷ items) rules =
    rw (get-load_rules i items (put r.rule_id r rules), get-put r.rule_id i r rules) refl
