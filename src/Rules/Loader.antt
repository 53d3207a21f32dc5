-- ===== src/Rules/Loader.antt =====
-- pipelines/scoring/rules/loader.py: RuleLoader.load. The file system, the YAML parser and the
-- model's validation (pydantic, which runs the validators of Rules/RuleId) are parameters.
use fraudstream.Prelude.{ℕ, suc, ◌+◌, ◌≡◌, refl, String, List, [], ◌∷◌, Option, none, some, arith}
use fraudstream.Prelude.Results.{Result, ok, err, ◌>>=◌}
use fraudstream.Rules.Model.{RuleDefinition}
use fraudstream.Rules.Evaluator.{enabled_rules}
use fraudstream.Rules.Outcome.{select}

-- What RuleConfigError says.
pub data ConfigError : Type 0 where
  not_found malformed not_a_list : ConfigError
  invalid_at : ℕ → ConfigError

-- What a YAML document holds at its top level.
pub data Document (Item : Type 0) : Type 0 where
  sequence : List Item → Document Item
  other : Document Item

pub record Sources (Item : Type 0) : Type 0 where
  -- open(path).read(), none if there is no such file
  pub read : String → Option String
  -- yaml.safe_load, none where it raises YAMLError
  pub safe_load : String → Option (Document Item)
  -- RuleDefinition.model_validate, none where it raises ValidationError
  pub model_validate : Item → Option RuleDefinition

module _ {Item : Type 0} (src : Sources Item) where
  -- for i, item in enumerate(data)
  unfoldable pub validate_all : ℕ → List Item → Result ConfigError (List RuleDefinition)
  validate_all i [] = ok []
  validate_all i (item ∷ items) = elim (src.model_validate item) [
    | none ↦ err (invalid_at i)
    | some rule ↦ do rest ← validate_all (i + 1) items; ok (rule ∷ rest)
  ]

  validate_document : Document Item → Result ConfigError (List RuleDefinition)
  unfolding validate_all enabled_rules
  validate_document other = err not_a_list
  validate_document (sequence items) = do rules ← validate_all 0 items; ok (enabled_rules rules)

  -- RuleLoader.load
  unfoldable pub load : String → Result ConfigError (List RuleDefinition)
  unfolding validate_document
  load path = elim (src.read path) [
    | none ↦ err not_found
    | some content ↦ elim (src.safe_load content) [
      | none ↦ err malformed
      | some document ↦ validate_document document
    ]
  ]

  -- The place of the first entry that does not validate.
  abbrev pub first_invalid : List Item → Option ℕ
  first_invalid [] = none
  first_invalid (item ∷ items) = elim (src.model_validate item) [
    | none ↦ some 0
    | some rule ↦ elim (first_invalid items) [ none ↦ none | some i ↦ some (suc i) ]
  ]

  -- The rules that the entries stand for.
  abbrev pub valid_rules : List Item → List RuleDefinition
  valid_rules [] = []
  valid_rules (item ∷ items) = elim (src.model_validate item) [
    | none ↦ valid_rules items
    | some rule ↦ rule ∷ valid_rules items
  ]

  -- The rules of a file whose entries are `items`, or the error of its first bad entry.
  abbrev pub loaded : List Item → Result ConfigError (List RuleDefinition)
  loaded items = elim (first_invalid items) [
    | some i ↦ err (invalid_at i)
    | none ↦ ok (select (λ r. r.enabled) (valid_rules items))
  ]

  validate_all-eq :
      (i : ℕ) (items : List Item)
      → validate_all i items ≡ elim (first_invalid items) [
        | some k ↦ err (invalid_at (i + k))
        | none ↦ ok (valid_rules items)
      ]
  unfolding validate_all
  validate_all-eq i [] = refl
  validate_all-eq i (item ∷ items) = ground (arith, validate_all-eq (i + 1) items)

  enabled_rules-eq :
      (rules : List RuleDefinition) → enabled_rules rules ≡ select (λ r. r.enabled) rules
  unfolding enabled_rules
  enabled_rules-eq [] = refl
  enabled_rules-eq (r ∷ rules) = ground (arith, enabled_rules-eq rules)

  validate_document-eq : (items : List Item) → validate_document (sequence items) ≡ loaded items
  unfolding validate_document
  validate_document-eq items =
      ground (arith, validate_all-eq 0 items, enabled_rules-eq (valid_rules items))

  -- A file that is there and holds a YAML list gives the enabled rules among its entries, in order,
  -- or the error that names the place of the first entry that does not validate.
  pub load-eq-loaded :
      (path content : String) (items : List Item)
      → src.read path ≡ some content
      → src.safe_load content ≡ some (sequence items)
      → load path ≡ loaded items
  unfolding load
  load-eq-loaded path content items h k = ground (arith, validate_document-eq items)
