-- ===== src/Tests/Features.antt =====
-- The feature client, with a store that answers with two features or leaves one out.
use fraudstream.Prelude.{◌≡◌, refl, true, [], ◌∷◌, Option, some}
use fraudstream.Prelude.Int.{pos}
use fraudstream.Value.{Value, null, str, int, get_value}
use fraudstream.Features.{Kind, Fetch, returned, miss, zero_for, get_features}

abbrev as_given : Kind → Value → Option Value
as_given kind v = some v

abbrev answer : Value → Fetch
answer country = returned (
    ("account_id", str "a-1" ∷ [])
    ∷ ("vel_count_1m", int (pos 6) ∷ [])
    ∷ ("geo_country", country ∷ [])
    ∷ [])

served_run :
    let r = get_features as_given true (answer (str "DE")) "a-1" in
    (get_value "vel_count_1m" r.0 ≡ int (pos 6))
    × (get_value "geo_country" r.0 ≡ str "DE")
    × (get_value "vel_count_5m" r.0 ≡ int (pos 0))
    × (r.1 ≡ [])
unfolding get_features get_value
served_run = (refl, refl, refl, refl)

missing_run : get_features as_given true (answer null) "a-1" ≡ (zero_for "a-1", miss ∷ [])
unfolding get_features
missing_run = refl
