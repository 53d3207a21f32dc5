-- ===== src/Tests/Breaker.antt =====
-- A breaker that opens after a failure, is probed, and opens again.
use fraudstream.Prelude.{◌≡◌, refl, ℕ, true, false, List, [], ◌∷◌, some}
use fraudstream.Breaker.{
  StateEquality, Callback, changed, failed, calling, score_with_fallback, client_error, Circuit,
}

data Phase : Type 0 where
  is_closed is_open is_half_open : Phase

-- Each object equals itself only, and no text.
abbrev objects : StateEquality Phase
objects = record { same_state = λ s t. false; is_text = λ s t. false }

abbrev reopened : List (Callback Phase)
reopened =
    failed 100
    ∷ changed is_closed is_open 100
    ∷ calling "open"
    ∷ changed is_open is_half_open 30100
    ∷ failed 30200
    ∷ changed is_half_open is_open 30200
    ∷ []

abbrev circuit : Circuit
circuit = record { current_state = "open"; fail_counter = 4; reset_timeout = some 30000 }

fallback_run : score_with_fallback {P = ℕ} 3 client_error ≡ some (3, true)
unfolding score_with_fallback
fallback_run = refl
