-- ===== src/Rules/RuleId.antt =====
-- pipelines/scoring/rules/models.py: RuleDefinition.validate_rule_id and coerce_severity, the
-- validators that run before pydantic's own. A text is the list of its code points.
pub mod Pattern
use fraudstream.Prelude.{
  ℕ, String, Bool, true, false, ◌&&◌, ◌||◌, List, [], ◌∷◌, Option, none, some, leb, ◌==◌, length,
  if◌then◌else◌,
}
use fraudstream.Prelude.Int.{ℤ, pos}
use fraudstream.Prelude.Results.{Result, ok, err}
use fraudstream.Value.{Value, null, bool, num, str, int, codes}
use fraudstream.Rules.Model.{Severity, rank, severity_of_name}

-- [a-zA-Z0-9]
abbrev pub is_alnum : ℕ → Bool
is_alnum c = (leb b'a' c && leb c b'z') || (leb b'A' c && leb c b'Z') || (leb b'0' c && leb c b'9')

-- [a-zA-Z0-9\-_]
abbrev pub is_id_char : ℕ → Bool
is_id_char c = is_alnum c || c == b'-' || c == b'_'

-- [a-zA-Z0-9\-_]*[a-zA-Z0-9] on the whole text
unfoldable pub tail_match : List ℕ → Bool
tail_match [] = false
tail_match (c ∷ []) = is_alnum c
tail_match (c ∷ d ∷ s) = is_id_char c && tail_match (d ∷ s)

-- [a-zA-Z0-9][a-zA-Z0-9\-_]{0,62}[a-zA-Z0-9] on the whole text, which has 64 characters at most
unfoldable pub full_match : List ℕ → Bool
unfolding tail_match
full_match [] = false
full_match (c ∷ s) = is_alnum c && tail_match s && leb (length (c ∷ s)) 64

-- The text without a newline that ends it.
unfoldable pub chomp : List ℕ → List ℕ
chomp [] = []
chomp (c ∷ []) = if c == 10 then [] else c ∷ []
chomp (c ∷ d ∷ s) = c ∷ chomp (d ∷ s)

-- re.match(r"^[a-zA-Z0-9][a-zA-Z0-9\-_]{0,62}[a-zA-Z0-9]$", v): `$` holds at the end of the text
-- and before a newline that ends it
unfoldable pub matches_id : List ℕ → Bool
unfolding full_match chomp
matches_id s = full_match s || full_match (chomp s)

pub data ValidationError : Type 0 where
  not_a_string bad_rule_id bad_severity : ValidationError

-- validate_rule_id
unfoldable pub validate_rule_id : Value → Result ValidationError String
unfolding matches_id
validate_rule_id (str v) = if matches_id (codes v) then ok v else err bad_rule_id
validate_rule_id _ = err not_a_string

coerced : Option Severity → Result ValidationError Value
coerced none = err bad_severity
coerced (some s) = ok (int (pos (rank s)))

-- coerce_severity
unfoldable pub coerce_severity : Value → Result ValidationError Value
unfolding severity_of_name coerced
coerce_severity (str v) = coerced (severity_of_name v)
coerce_severity v = ok v
