-- ===== src/Risk/Store.antt =====
-- services/risk-engine/app/store.py: the SQLite store. A table is the list of its rows in the order
-- of their rowid or id. A method that commits is one step; one that raises changes nothing. SQLite
-- stores a NaN as NULL, which a NOT NULL column refuses: an INSERT raises, an INSERT OR IGNORE skips.
pub mod Dedupe
pub mod Windows
pub mod Appends
pub mod Saves
use event_driven_trading_led.Base.{
  ℕ, suc, ◌+◌, String, Bool, true, false, not, Option, none, some, List, [], ◌∷◌, ◌++◌, ◌&&◌, ◌||◌,
  ◌==◌, nat_eq, map, reverse, take, select, any, length, if◌then◌else◌,
}
use event_driven_trading_led.Base.Int.{ℤ, pos_part}
use event_driven_trading_led.Base.Exec.{
  Exec, Result, ok, err, integrity_error, pure, gets, modify, raise, ◌>>=◌, ◌>>◌,
}
use event_driven_trading_led.Base.Dict.{Dict, lookup, insert}
use event_driven_trading_led.Base.Float.{Float, zero_of}
use event_driven_trading_led.Risk.Metrics.{Holding}

-- a row of `applied_events`
pub record AppliedEvent (F : Type 0) : Type 0 where
  pub event_id : String
  pub account_id : String
  pub symbol : String
  pub side : Option String
  pub quantity : Option F
  pub price : Option F
  pub cash_delta : F
  pub position_after : F
  pub correlation_id : Option String
  pub posted_at : Option String

-- a row of `price_history` or `pv_history`: the symbol or the account, and the price or the value
pub record HistoryRow (F : Type 0) : Type 0 where
  pub id : ℕ
  pub key : String
  pub value : F
  pub time : Option String

-- such a table, with the next value of its AUTOINCREMENT id
pub record History (F : Type 0) : Type 0 where
  pub rows : List (HistoryRow F)
  pub next_id : ℕ

pub record RiskSnapshot (F : Type 0) : Type 0 where
  pub account_id : String
  pub portfolio_value : F
  pub pnl : F
  pub volatility : F
  pub var : F
  pub var_method : String
  pub sharpe : F
  pub computed_at : String

pub record RiskStore (F : Type 0) : Type 0 where
  pub applied_events : List (AppliedEvent F)
  pub price_cache : Dict F
  pub price_history : History F
  pub pv_history : History F
  pub risk_snapshots : Dict (RiskSnapshot F)

-- `max(int(window_size), 0) + 1`
abbrev pub keep_of : ℤ → ℕ
keep_of window_size = pos_part window_size + 1

-- the accounts in the order of their first event
unfoldable pub distinct : List String → List String → List String
distinct seen [] = []
distinct seen (k ∷ ks) =
    let rest = distinct (seen ++ k ∷ []) ks in
    let again = distinct seen ks in if any (λ j. j == k) seen then again else k ∷ rest

module _ {F : Type 0} where
  -- the schema, on a new file
  abbrev pub empty_store : RiskStore F
  empty_store = record {
    applied_events = [];
    price_cache = [];
    price_history = record { rows = []; next_id = 1 };
    pv_history = record { rows = []; next_id = 1 };
    risk_snapshots = [];
  }

  unfoldable pub get_price : String → RiskStore F → Option F
  get_price symbol s = lookup symbol s.price_cache

  -- the rows WHERE key = ?, oldest first
  unfoldable pub rows_of : String → History F → List (HistoryRow F)
  rows_of key h = select (λ r. r.key == key) h.rows

  -- SELECT id ... WHERE key = ? ORDER BY id DESC LIMIT keep
  unfoldable pub newest_ids : String → ℕ → History F → List ℕ
  newest_ids key keep h = take keep (reverse (map (λ r. r.id) (rows_of key h)))

  unfoldable pub insert_row : String → F → Option String → History F → History F
  insert_row key value time h = record {
    rows = h.rows ++ record { id = h.next_id; key = key; value = value; time = time } ∷ [];
    next_id = suc h.next_id;
  }

  -- DELETE ... WHERE key = ? AND id NOT IN (...)
  unfoldable pub evict : String → ℕ → History F → History F
  evict key keep h =
      let kept = newest_ids key keep h in
      record h { rows = select (λ r. not (r.key == key && not (any (nat_eq r.id) kept))) h.rows }

  -- the prices or values of a key, oldest first
  unfoldable pub window : String → History F → List F
  window key h = map (λ r. r.value) (rows_of key h)

  pub price_window : String → RiskStore F → List F
  price_window symbol s = window symbol s.price_history

  pub history_len : String → RiskStore F → ℕ
  history_len symbol s = length (rows_of symbol s.price_history)

  unfoldable pub pv_window : String → RiskStore F → List F
  pv_window account_id s = window account_id s.pv_history

  pub pv_history_len : String → RiskStore F → ℕ
  pv_history_len account_id s = length (rows_of account_id s.pv_history)

  unfoldable pub already_applied : String → List (AppliedEvent F) → Bool
  already_applied event_id [] = false
  already_applied event_id (e ∷ es) = e.event_id == event_id || already_applied event_id es

  pub applied_count : RiskStore F → ℕ
  applied_count s = length s.applied_events

  -- the cash deltas of an account
  unfoldable pub cash_deltas : String → RiskStore F → List F
  cash_deltas account_id s =
      map (λ e. e.cash_delta) (select (λ e. e.account_id == account_id) s.applied_events)

  unfoldable pub accounts : RiskStore F → List String
  accounts s = distinct [] (map (λ e. e.account_id) s.applied_events)

  unfoldable pub get_risk_snapshot : String → RiskStore F → Option (RiskSnapshot F)
  get_risk_snapshot account_id s = lookup account_id s.risk_snapshots

module _ {F : Type 0} ⦃fl : Float F⦄ where
  unfoldable pub upsert_price : String → F → Exec (RiskStore F) Unit
  upsert_price symbol price s =
      if fl.is_nan price
      then (err integrity_error, s)
      else (ok tt, record s { price_cache = insert symbol price s.price_cache })

  unfoldable pub append_price : String → F → ℤ → Option String → Exec (RiskStore F) Unit
  append_price symbol price window_size tick_time s =
      if fl.is_nan price then (err integrity_error, s) else (
        ok tt,
        record s {
          price_history =
              evict symbol (keep_of window_size)
                (insert_row symbol price tick_time s.price_history);
        },
      )

  unfoldable pub append_pv : String → F → ℤ → Option String → Exec (RiskStore F) Unit
  append_pv account_id pv window_size computed_at s =
      if fl.is_nan pv then (err integrity_error, s) else (
        ok tt,
        record s {
          pv_history =
              evict account_id (keep_of window_size)
                (insert_row account_id pv computed_at s.pv_history);
        },
      )

  -- the loop of `returns` and of `pv_returns`, from the element before
  unfoldable pub returns_from : F → List F → List F
  returns_from prev [] = []
  returns_from prev (cur ∷ rest) =
      let out = returns_from cur rest in
      if fl.eq prev (zero_of fl) then out else fl.div (fl.sub cur prev) prev ∷ out

  unfoldable pub returns_of : List F → List F
  returns_of [] = []
  returns_of (p ∷ ps) = returns_from p ps

  pub returns : String → RiskStore F → List F
  returns symbol s = returns_of (price_window symbol s)

  unfoldable pub pv_returns : String → RiskStore F → List F
  pv_returns account_id s = returns_of (pv_window account_id s)

  -- a NaN in a column that may be NULL
  abbrev pub null_nan : Option F → Option F
  null_nan none = none
  null_nan (some x) = if fl.is_nan x then none else some x

  -- INSERT OR IGNORE; the answer is `rowcount == 1`
  unfoldable pub apply_ledger_event : AppliedEvent F → Exec (RiskStore F) Bool
  apply_ledger_event e s =
      if already_applied e.event_id s.applied_events
      then (ok false, s)
      else if fl.is_nan e.cash_delta || fl.is_nan e.position_after
      then (ok false, s)
      else (
        ok true,
        record s {
          applied_events =
              s.applied_events
              ++ record e { quantity = null_nan e.quantity; price = null_nan e.price } ∷ [];
        },
      )

  unfoldable pub account_cash : String → F → RiskStore F → F
  account_cash account_id seed_cash s = fl.add seed_cash (fl.sql_sum (cash_deltas account_id s))

  abbrev pub price_or_zero : Option F → F
  price_or_zero none = zero_of fl
  price_or_zero (some x) = x

  -- `INSERT ... ON CONFLICT(account_id) DO UPDATE`, every column NOT NULL
  unfoldable pub save_risk_snapshot : RiskSnapshot F → Exec (RiskStore F) Unit
  save_risk_snapshot r s =
      if fl.is_nan r.portfolio_value
        || fl.is_nan r.pnl
        || fl.is_nan r.volatility
        || fl.is_nan r.var
        || fl.is_nan r.sharpe
      then (err integrity_error, s)
      else (ok tt, record s { risk_snapshots = insert r.account_id r s.risk_snapshots })
