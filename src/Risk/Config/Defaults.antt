-- ===== src/Risk/Config/Defaults.antt =====
-- `from_env` of config.py falls back on the defaults.
use event_driven_trading_led.Base.{
  String, ◌≡◌, refl, ◌⊎◌, inl, inr, Option, none, some, true, List, [], ◌∷◌, All, ◌==◌, arith,
  if◌then◌else◌,
}
use event_driven_trading_led.Base.Int.{ℤ, pos}
use event_driven_trading_led.Base.Float.{Float}
use event_driven_trading_led.Risk.Config.{default_config, get_text, get_number, from_env}

module _ {N : Type 0} (parse : String → Option N) (strip : String → String) where
  -- a variable that names no number: it is not set, it is blank, or it cannot be parsed
  abbrev pub Unusable : Option String → Type 0
  Unusable none = Unit
  Unusable (some raw) = ((strip raw == "") ≡ true) ⊎ (parse raw ≡ none)

  get_number-default :
      (getenv : String → Option String) (name : String) (default : N)
      → Unusable (getenv name)
      → get_number parse strip getenv name default ≡ default
  unfolding get_number
  get_number-default getenv name default h = go (getenv name) h
    where
      go :
          (value : Option String)
          → Unusable value
          → elim value [
            | none ↦ default
            | some raw ↦
                if strip raw == ""
                then default
                else elim (parse raw) [ none ↦ default | some x ↦ x ]
          ]
            ≡ default
      go none u = refl
      go (some raw) (inl blank) = ground arith
      go (some raw) (inr malformed) = ground arith

-- the variables of text, and those of an int
abbrev pub text_names : List String
text_names =
    "REDIS_URL" ∷ "LEDGER_STREAM" ∷ "TICKS_STREAM" ∷ "RISK_STREAM" ∷ "RISK_CONSUMER_GROUP"
    ∷ "RISK_CONSUMER_NAME" ∷ "RISK_DB_PATH" ∷ []

abbrev pub int_names : List String
int_names =
    "RISK_BATCH_SIZE" ∷ "RISK_MIN_IDLE_MS" ∷ "RISK_POLL_BLOCK_MS" ∷ "RISK_WINDOW_SIZE"
    ∷ "RISK_RECOMPUTE_INTERVAL_MS" ∷ []

-- In an environment that sets no text variable, and whose numeric variables are unset, blank or
-- malformed, every setting has its default, where the int 1000 becomes the float 1000.
pub from_env-default :
    {F : Type 0} ⦃fl : Float F⦄ (strip : String → String) (int_of_text : String → Option ℤ)
    (float_of_int : ℤ → F) (getenv : String → Option String)
    → float_of_int (pos 1000) ≡ fl.decimal 1000 0
    → All (λ name. getenv name ≡ none) text_names
    → Unusable fl.of_text strip (getenv "RISK_SEED_CASH")
    → All (λ name. Unusable int_of_text strip (getenv name)) int_names
    → from_env strip int_of_text float_of_int getenv ≡ default_config fl
unfolding from_env get_text
from_env-default ⦃fl = fl⦄ strip int_of_text float_of_int getenv exact texts cash ints =
    let default = default_config fl in
    cc (
      exact,
      texts.0,
      texts.1.0,
      texts.1.1.0,
      texts.1.1.1.0,
      texts.1.1.1.1.0,
      texts.1.1.1.1.1.0,
      texts.1.1.1.1.1.1.0,
      get_number-default fl.of_text strip getenv "RISK_SEED_CASH" default.seed_cash cash,
      get_number-default int_of_text strip getenv "RISK_BATCH_SIZE" default.batch_size ints.0,
      get_number-default int_of_text strip getenv "RISK_MIN_IDLE_MS" default.min_idle_ms ints.1.0,
      get_number-default int_of_text strip getenv "RISK_POLL_BLOCK_MS" default.poll_block_ms
          ints.1.1.0,
      get_number-default int_of_text strip getenv "RISK_WINDOW_SIZE" default.window_size
          ints.1.1.1.0,
      get_number-default int_of_text strip getenv "RISK_RECOMPUTE_INTERVAL_MS" (pos 1000)
          ints.1.1.1.1.0,
    )
