-- ===== src/Value.antt =====
-- The values that rules read: fields of an Avro-decoded transaction dict and of a rule's YAML
-- conditions (pipelines/scoring/rules/families/*.py), with Python's operators on them.
-- `num z` is the number z / 10000, an int, float or Decimal of at most four decimals; a comparison
-- of such numbers is exact in Python. Lists and dicts are not compared by any rule.
use fraudstream.Prelude.{
  ℕ, suc, ◌*◌, ◌-◌, String, Bool, true, false, not, List, [], ◌∷◌, Option, none, some, ltb,
  ◌==◌ as nat_beq, if◌then◌else◌,
}
use fraudstream.Prelude.Int.{ℤ, pos, negsuc, ltb_ℤ, leb_ℤ, ◌-ℤ◌}
use fraudstream.Prelude.Results.{Result, ok, err}
use fraudstream.Prelude.Equality.{◌==◌, int_eq, string_eq}
use fraudstream.Prelude.Dict.{Dict, get}
use Prim.Native.Char.{code}

pub data Value : Type 0 where
  null : Value
  bool : Bool → Value
  num : ℤ → Value
  str : String → Value

-- The exceptions that evaluating a rule can raise.
pub data PyError : Type 0 where
  type_error : PyError
  key_error : String → PyError
  invalid_operation : PyError

abbrev pub Record : Type 0
Record = Dict String Value

-- A Python int as a value.
abbrev pub int : ℤ → Value
int (pos n) = num (pos (n * 10000))
int (negsuc n) = num (negsuc (suc n * 10000 - 1))

-- The code points of a text.
abbrev pub codes : String → List ℕ
codes String.[] = []
codes (String.◌∷◌ c s) = code c ∷ codes s

-- Python orders texts by their code points.
unfoldable pub lex_lt : List ℕ → List ℕ → Bool
lex_lt _ [] = false
lex_lt [] (_ ∷ _) = true
lex_lt (a ∷ s) (b ∷ t) = let rest = lex_lt s t in if nat_beq a b then rest else ltb a b

-- The number that an operand of an arithmetic operator stands for: True is 1.
unfoldable pub as_number : Value → Option ℤ
as_number null = none
as_number (bool true) = some (pos 10000)
as_number (bool false) = some (pos 0)
as_number (num z) = some z
as_number (str _) = none

compare_numbers : (ℤ → ℤ → Bool) → Option ℤ → Option ℤ → Result PyError Bool
compare_numbers test (some x) (some y) = ok (test x y)
compare_numbers test _ _ = err type_error

-- a > b
unfoldable pub gt : Value → Value → Result PyError Bool
unfolding as_number compare_numbers lex_lt
gt (str s) (str t) = ok (lex_lt (codes t) (codes s))
gt a b = compare_numbers (λ x y. ltb_ℤ y x) (as_number a) (as_number b)

-- a >= b
unfoldable pub ge : Value → Value → Result PyError Bool
unfolding as_number compare_numbers lex_lt
ge (str s) (str t) = ok (not (lex_lt (codes s) (codes t)))
ge a b = compare_numbers (λ x y. leb_ℤ y x) (as_number a) (as_number b)

-- a <= b
unfoldable pub le : Value → Value → Result PyError Bool
unfolding ge
le a b = ge b a

numbers_equal : Option ℤ → Option ℤ → Bool
numbers_equal (some x) (some y) = x == y
numbers_equal _ _ = false

-- a == b
unfoldable pub equal : Value → Value → Bool
unfolding as_number numbers_equal
equal null null = true
equal (str s) (str t) = s == t
equal a b = numbers_equal (as_number a) (as_number b)

abbrev abs : ℤ → ℤ
abs (pos n) = pos n
abs (negsuc n) = pos (suc n)

abs_diff : Option ℤ → Option ℤ → Result PyError Value
abs_diff (some x) (some y) = ok (num (abs (x -ℤ y)))
abs_diff _ _ = err type_error

-- abs(a - b)
unfoldable pub distance : Value → Value → Result PyError Value
unfolding as_number abs_diff ◌-ℤ◌
distance a b = abs_diff (as_number a) (as_number b)

-- bool(a)
abbrev pub truthy : Value → Bool
truthy null = false
truthy (bool b) = b
truthy (num z) = not (z == pos 0)
truthy (str s) = not (s == "")

-- a is None
abbrev pub is_none : Value → Bool
is_none null = true
is_none _ = false

abbrev or_null : Option Value → Value
or_null none = null
or_null (some v) = v

-- d.get(k)
unfoldable pub get_value : String → Record → Value
unfolding get
get_value k d = or_null (get k d)

abbrev is_some : Option Value → Bool
is_some none = false
is_some (some _) = true

-- k in d
unfoldable pub has : String → Record → Bool
unfolding get
has k d = is_some (get k d)

abbrev or_key_error : String → Option Value → Result PyError Value
or_key_error k none = err (key_error k)
or_key_error k (some v) = ok v

-- d[k]
unfoldable pub item : String → Record → Result PyError Value
unfolding get
item k d = or_key_error k (get k d)
