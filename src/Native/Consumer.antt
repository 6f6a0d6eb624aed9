-- ===== src/Native/Consumer.antt =====
-- poc/native-kill-restart/consumer_proc.py: what the consumer process does to an entry before it
-- acknowledges it. An entry is its field `event`; `json.loads` is a parameter, and none is a
-- ValueError.
pub mod Replay
pub mod Delivery
use event_driven_trading_led.Base.{
  String, Bool, true, false, not, Option, none, some, List, [], ◌∷◌, ◌==◌, if◌then◌else◌,
}
use event_driven_trading_led.Base.Exec.{
  Exec, Result, ok, err, attribute_error, integrity_error, bind_result, pure, lift, ◌>>=◌, ◌>>◌,
}
use event_driven_trading_led.Base.Float.{Float, zero_of}
use event_driven_trading_led.Risk.Json.{
  Value, Fields, null, bool, num, str, arr, obj, end, field, get, truthy, or_empty, to_float,
  bind_text,
}
use event_driven_trading_led.Native.Store.{KillStore, already_processed, apply}

-- what `_extract` returns, with the event id as SQLite reads it
pub record Extract (F : Type 0) : Type 0 where
  pub event_id : String
  pub account_id : Value F
  pub symbol : Value F
  pub qty_after : F
  pub cash_delta : F

module _ {F : Type 0} where
  abbrev get_field_or : String → Value F → Fields F → Value F
  get_field_or k d end = d
  get_field_or k d (field j v fs) = if j == k then v else get_field_or k d fs

  -- `v.get(k, d)`
  abbrev pub get_or : String → Value F → Value F → Result (Value F)
  get_or k d (obj fs) = ok (get_field_or k d fs)
  get_or k d null = err attribute_error
  get_or k d (bool b) = err attribute_error
  get_or k d (num x) = err attribute_error
  get_or k d (str s) = err attribute_error
  get_or k d (arr xs) = err attribute_error

module _ {F : Type 0} ⦃fl : Float F⦄ where
  -- `_extract` of a document, and the binding of its event id
  unfoldable pub extract_root : Value F → Result (Option (Extract F))
  extract_root root = bind_result (get "event_id" root) λ event_id.
      bind_result (bind_result (get "data" root) (λ v. ok (or_empty v))) λ content.
        if not (truthy event_id)
        then ok none
        else bind_result (get "account_id" content) λ account_id.
          bind_result (get "symbol" content) λ symbol.
            bind_result (bind_result (get_or "position_after" (num (zero_of fl)) content) to_float)
              λ qty_after.
                bind_result (bind_result (get_or "cash_delta" (num (zero_of fl)) content) to_float)
                  λ cash_delta. bind_result (bind_text event_id) λ event. elim event [
                    | none ↦ err integrity_error
                    | some e ↦ ok (
                        some (record {
                          event_id = e;
                          account_id = account_id;
                          symbol = symbol;
                          qty_after = qty_after;
                          cash_delta = cash_delta;
                        }))
                  ]

  -- the call of `apply`, whose statements bind the account and the symbol
  unfoldable pub record_event : Extract F → Exec (KillStore F) Bool
  record_event x = do
    account_id ← lift (bind_text x.account_id)
    symbol ← lift (bind_text x.symbol)
    apply x.event_id account_id symbol x.qty_after x.cash_delta

module _ {F : Type 0} ⦃fl : Float F⦄ (loads : String → Option (Value F)) where
  unfoldable pub extract : Option String → Result (Option (Extract F))
  extract none = ok none
  extract (some event_json) =
      if event_json == ""
      then ok none
      else elim (loads event_json) [ none ↦ ok none | some root ↦ extract_root root ]

  -- `_handle`
  unfoldable pub handle : Option String → Exec (KillStore F) Bool
  handle event = do
    parsed ← lift (extract event)
    elim parsed [
      | none ↦ pure false
      | some x ↦ λ s. if already_processed x.event_id s then (ok false, s) else record_event x s
    ]

  -- the entries of a process run, up to one that raises
  unfoldable pub handle_each : List (Option String) → Exec (KillStore F) Unit
  handle_each [] = pure tt
  handle_each (e ∷ es) = do handle e; handle_each es
