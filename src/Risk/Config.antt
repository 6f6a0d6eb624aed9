-- ===== src/Risk/Config.antt =====
-- services/risk-engine/app/config.py: the settings, their defaults, and how the environment overrides
-- them. `os.getenv`, `str.strip`, `int(s)` and the float of an int are parameters.
pub mod Defaults
use event_driven_trading_led.Base.{String, Option, none, some, ◌==◌, if◌then◌else◌}
use event_driven_trading_led.Base.Int.{ℤ, pos}
use event_driven_trading_led.Base.Float.{Float}

-- the interval is compared with a float, so it is kept as one
pub record Config (F : Type 0) : Type 0 where
  pub redis_url : String
  pub ledger_stream : String
  pub ticks_stream : String
  pub risk_stream : String
  pub group : String
  pub consumer_name : String
  pub db_path : String
  pub seed_cash : F
  pub batch_size : ℤ
  pub min_idle_ms : ℤ
  pub poll_block_ms : ℤ
  pub window_size : ℤ
  pub recompute_interval_ms : F

-- `Config()`
abbrev pub default_config : {F : Type 0} → Float F → Config F
default_config fl = record {
  redis_url = "redis://localhost:6379/0";
  ledger_stream = "ledger.updates";
  ticks_stream = "market.ticks";
  risk_stream = "risk.updates";
  group = "cg:risk-engine";
  consumer_name = "risk-engine-1";
  db_path = "risk_state.db";
  seed_cash = fl.decimal 100000 1;
  batch_size = pos 100;
  min_idle_ms = pos 30000;
  poll_block_ms = pos 1000;
  window_size = pos 30;
  recompute_interval_ms = fl.decimal 1000 0;
}

-- `os.getenv(name, default)`
pub get_text : (String → Option String) → String → String → String
get_text getenv name default = elim (getenv name) [ none ↦ default | some raw ↦ raw ]

-- `_get_float` and `_get_int`, which differ in the conversion; none is a ValueError
pub get_number :
    {N : Type 0}
    → (String → Option N)
    → (String → String)
    → (String → Option String)
    → String
    → N
    → N
get_number parse strip getenv name default = elim (getenv name) [
  | none ↦ default
  | some raw ↦ if strip raw == "" then default else elim (parse raw) [ none ↦ default | some x ↦ x ]
]

module _ {F : Type 0} ⦃fl : Float F⦄ (strip : String → String) (int_of_text : String → Option ℤ)
    (float_of_int : ℤ → F) where
  pub from_env : (String → Option String) → Config F
  from_env getenv =
      let get_float = get_number fl.of_text strip getenv in
      let get_int = get_number int_of_text strip getenv in
      let default = default_config fl in
      record {
        redis_url = get_text getenv "REDIS_URL" default.redis_url;
        ledger_stream = get_text getenv "LEDGER_STREAM" default.ledger_stream;
        ticks_stream = get_text getenv "TICKS_STREAM" default.ticks_stream;
        risk_stream = get_text getenv "RISK_STREAM" default.risk_stream;
        group = get_text getenv "RISK_CONSUMER_GROUP" default.group;
        consumer_name = get_text getenv "RISK_CONSUMER_NAME" default.consumer_name;
        db_path = get_text getenv "RISK_DB_PATH" default.db_path;
        seed_cash = get_float "RISK_SEED_CASH" default.seed_cash;
        batch_size = get_int "RISK_BATCH_SIZE" default.batch_size;
        min_idle_ms = get_int "RISK_MIN_IDLE_MS" default.min_idle_ms;
        poll_block_ms = get_int "RISK_POLL_BLOCK_MS" default.poll_block_ms;
        window_size = get_int "RISK_WINDOW_SIZE" default.window_size;
        recompute_interval_ms = float_of_int (get_int "RISK_RECOMPUTE_INTERVAL_MS" (pos 1000));
      }
