-- ===== src/Json.antt =====
-- JSON documents as Python's json module gives them: values, lists and dicts. A dict is the list of
-- its fields in order, and json.loads keeps the last of two fields of one name (in the first place),
-- so no name occurs twice.
use fraudstream.Prelude.{String, Bool, true, false, ◌&&◌, Option, none, some, if◌then◌else◌}
use fraudstream.Prelude.Equality.{◌==◌, string_eq}
use fraudstream.Value.{Value, null, equal, truthy, is_none}

mutual
  pub data Json : Type 0 where
    scalar : Value → Json
    arr : Items → Json
    obj : Fields → Json

  pub data Items : Type 0 where
    nil : Items
    cons : Json → Items → Items

  pub data Fields : Type 0 where
    end : Fields
    field : String → Json → Fields → Fields

-- None
abbrev pub none_json : Json
none_json = scalar null

-- d.get(k), none where the key is missing
unfoldable pub find_field : String → Fields → Option Json
find_field k end = none
find_field k (field j v fields) = let rest = find_field k fields in if j == k then some v else rest

-- d.get(k, default)
abbrev pub get_or : String → Json → Fields → Json
get_or k default fields = elim (find_field k fields) [ none ↦ default | some v ↦ v ]

-- v is None
abbrev pub is_none_json : Json → Bool
is_none_json (scalar v) = is_none v
is_none_json (arr _) = false
is_none_json (obj _) = false

-- bool(v)
abbrev pub truthy_json : Json → Bool
truthy_json (scalar v) = truthy v
truthy_json (arr nil) = false
truthy_json (arr (cons _ _)) = true
truthy_json (obj end) = false
truthy_json (obj (field _ _ _)) = true

-- v == w, of values that hold no dict: dicts are compared field by field in their order
unfoldable mutual
  unfolding equal

  pub same_json : Json → Json → Bool
  same_json (scalar v) (scalar w) = equal v w
  same_json (arr xs) (arr ys) = same_items xs ys
  same_json (obj a) (obj b) = same_fields a b
  same_json _ _ = false

  pub same_items : Items → Items → Bool
  same_items nil nil = true
  same_items (cons x xs) (cons y ys) = same_json x y && same_items xs ys
  same_items _ _ = false

  pub same_fields : Fields → Fields → Bool
  same_fields end end = true
  same_fields (field j v a) (field k w b) = j == k && same_json v w && same_fields a b
  same_fields _ _ = false
