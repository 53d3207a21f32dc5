-- ===== src/Tests/Publishing.antt =====
-- A request whose merchant is a card number, and one that is published.
use fraudstream.Prelude.{◌≡◌, refl, String, true, false, [], ◌∷◌, some}
use fraudstream.Prelude.Int.{pos, negsuc}
use fraudstream.Prelude.Results.{ok}
use fraudstream.Prelude.Equality.{string_eq}
use fraudstream.Value.{str, num, int, null, Record, codes}
use fraudstream.Ingestion.Producer.{
  Library, Event, plain, text, bytes, Topics, build, any_leak, publish,
}
use fraudstream.Ingestion.Amount.{amount_to_bytes, from_bytes, from_bytes-amount_to_bytes}
use fraudstream.Tests.Ingestion.{ascii, config, is_ascii_digit}

abbrev pub library : Library
library = record {
  unicode = ascii;
  ip_address = λ ip. some (record { is_multicast = false; is_ipv4 = true });
  network_address = λ ip prefix. some "203.0.113.0";
  scaled_amount = λ v. some (pos 256);
  to_int = λ v. some (pos 7);
  is_decimal = is_ascii_digit;
  uuid = "u";
  now_ms = pos 8;
}

abbrev pub request : String → Record
request merchant =
    ("transaction_id", str "t-1")
    ∷ ("account_id", str "a-1")
    ∷ ("merchant_id", str merchant)
    ∷ ("amount", num (pos 256))
    ∷ ("currency", str "EUR")
    ∷ ("event_time", int (pos 7))
    ∷ ("card_number", str "4111111111111111")
    ∷ ("caller_ip", str "203.0.113.9")
    ∷ ("api_key_id", str "k")
    ∷ ("oauth_scope", str "s")
    ∷ []

abbrev leaking : Record
leaking = request "4111111111111111"

abbrev event_of : String → Event
event_of merchant =
    ("transaction_id", plain (str "t-1"))
    ∷ ("account_id", plain (str "a-1"))
    ∷ ("merchant_id", plain (str merchant))
    ∷ ("amount", bytes (1 ∷ 0 ∷ []))
    ∷ ("currency", plain (str "EUR"))
    ∷ ("event_time", plain (int (pos 7)))
    ∷ ("processing_time", plain (int (pos 8)))
    ∷ ("channel", plain (str "API"))
    ∷ ("card_bin", text (codes "411111"))
    ∷ ("card_last4", text (codes "1111"))
    ∷ ("caller_ip_subnet", plain (str "203.0.113.0"))
    ∷ ("api_key_id", plain (str "k"))
    ∷ ("oauth_scope", plain (str "s"))
    ∷ ("geo_lat", plain null)
    ∷ ("geo_lon", plain null)
    ∷ ("masking_lib_version", plain (str "1.0.0"))
    ∷ ("schema_version", plain (str "1"))
    ∷ []

abbrev topics : Topics
topics = record { produced = []; dlq = [] }

published_run :
    publish library config "API" true true (request "m-1") topics
    ≡ (ok (event_of "m-1"), record topics { produced = event_of "m-1" ∷ [] })
unfolding publish
published_run = refl

leaking_event : build library config "API" leaking ≡ ok (event_of "4111111111111111")
unfolding build
leaking_event = refl

leaking_found : any_leak library config "API" (event_of "4111111111111111") ≡ true
leaking_found = refl

amount_run :
    (amount_to_bytes (pos 127) ≡ 127 ∷ [])
    × (amount_to_bytes (pos 128) ≡ 0 ∷ 128 ∷ [])
    × (amount_to_bytes (negsuc 0) ≡ 255 ∷ [])
unfolding amount_to_bytes
amount_run = (refl, refl, refl)

from_bytes-amount_to_bytes_example : from_bytes (amount_to_bytes (pos 256)) ≡ pos 256
from_bytes-amount_to_bytes_example = from_bytes-amount_to_bytes (pos 256)
