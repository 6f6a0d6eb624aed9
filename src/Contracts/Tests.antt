-- ===== src/Contracts/Tests.antt =====
-- The validation of the contracts at a concrete input.
use event_driven_trading_led.Base.{String, List, refl, ◌≡◌, ◌↔◌, ◌≢◌, true, [], ◌∷◌, All}
use event_driven_trading_led.Contracts.{Files, validate_main}
use event_driven_trading_led.Contracts.Exits.{Holds, validate_main_passes}

abbrev files : Files
files = record {
  samples_dir = true;
  samples = "risk_computed.v1.sample.json" ∷ "tick_received.v1.sample.json" ∷ [];
  is_schema = λ name. true;
  errors = λ schema sample. 0;
}

abbrev names : List String
names = "risk_computed.v1" ∷ "tick_received.v1" ∷ []

validate_main_passes_example :
    (validate_main files ≡ 0)
    ↔ ((files.samples_dir ≡ true) × (names ≢ []) × All (Holds files) names)
validate_main_passes_example = validate_main_passes files names refl
