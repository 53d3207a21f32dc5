-- ===== src/Tests/Http.antt =====
-- Requests to the ingestion API: one that is accepted, and one whose event time is no number.
use fraudstream.Prelude.{◌≡◌, refl, ◌⊎◌, true, false, [], none, some, arith}
use fraudstream.Prelude.Int.{pos, ◌-ℤ◌}
use fraudstream.Prelude.Dict.{get}
use fraudstream.Value.{Value, get_value, Record}
use fraudstream.Ingestion.Producer.{Library, Topics}
use fraudstream.Ingestion.Http.{Amount, positive, object, do_post, required}
use fraudstream.Ingestion.Http.Validity.{AreGiven}
use fraudstream.Ingestion.Http.Answers.{IsRequest, IsAccepted, is_accepted, do_post_outcome}
use fraudstream.Tests.Ingestion.{config}
use fraudstream.Tests.Publishing.{library, request}

abbrev above : Value → Amount
above v = positive

abbrev nothing_sent : Topics
nothing_sent = record { produced = []; dlq = [] }

-- `int` refuses every event time.
abbrev no_int : Library
no_int = record library { to_int = λ v. none }

request-AreGiven : AreGiven required (request "m-1")
unfolding get_value get
request-AreGiven = ground arith

request-IsRequest :
    IsRequest library above config "API" true true "/v1/transactions"
      (some (object (request "m-1")))
      (request "m-1")
unfolding get_value get ◌-ℤ◌
request-IsRequest =
    (refl, refl, refl, (request-AreGiven, (refl, ("EUR", refl, refl), (pos 7, refl, omega arith))))

do_post_outcome_example :
    let r =
      do_post library above config "API" true true "/v1/transactions"
        (some (object (request "m-1")))
        nothing_sent in
    ((is_accepted library above config "API" true true r.0 ≡ false) × (r.1.produced ≡ []))
    ⊎ ((payload : Record) × IsRequest library above config "API" true true "/v1/transactions"
          (some (object (request "m-1")))
          payload
        × IsAccepted library above config "API" true true payload nothing_sent r)
do_post_outcome_example =
    do_post_outcome library above config "API" true true "/v1/transactions"
      (some (object (request "m-1"))) nothing_sent
