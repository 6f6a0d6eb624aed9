-- ===== src/Native/Store.antt =====
-- poc/native-kill-restart/store.py: the SQLite file that the processes share. A table is the list of
-- its rows; a function that raises before its commit changes nothing.
use event_driven_trading_led.Base.{
  ℕ, String, Bool, true, false, not, Option, none, some, List, [], ◌∷◌, ◌++◌, ◌&&◌, ◌||◌, ◌==◌, map,
  select, any, length, if◌then◌else◌,
}
use event_driven_trading_led.Base.Exec.{Exec, ok, err, integrity_error}
use event_driven_trading_led.Base.Dict.{Dict, lookup, insert, update}
use event_driven_trading_led.Base.Float.{Float, zero_of}

-- a row of `outbox_events`, in the order of `seq`
pub record OutboxEvent : Type 0 where
  pub event_id : String
  pub event_type : String
  pub payload : String
  pub sent : Bool

pub record ProjectedPosition (F : Type 0) : Type 0 where
  pub account_id : String
  pub symbol : String
  pub qty : F

pub record KillStore (F : Type 0) : Type 0 where
  pub outbox_events : List OutboxEvent
  pub processed_events : List String
  pub proj_cash : Dict F
  pub proj_positions : List (ProjectedPosition F)

-- the loop of `seed_outbox`; none is a repeated event id
unfoldable pub seed_rows :
    List (String × (String × String)) → List OutboxEvent → Option (List OutboxEvent)
seed_rows [] rows = some rows
seed_rows ((event_id, (event_type, payload)) ∷ es) rows =
    let row : OutboxEvent = record {
      event_id = event_id;
      event_type = event_type;
      payload = payload;
      sent = false;
    } in
    let rest = seed_rows es (rows ++ row ∷ []) in
    if any (λ r. r.event_id == event_id) rows then none else rest

module _ {F : Type 0} where
  -- `init`, on a new file
  abbrev pub new_store : KillStore F
  new_store = record {
    outbox_events = [];
    processed_events = [];
    proj_cash = [];
    proj_positions = [];
  }

  unfoldable pub seed_outbox : List (String × (String × String)) → Exec (KillStore F) Unit
  seed_outbox events s = elim (seed_rows events s.outbox_events) [
    | none ↦ (err integrity_error, s)
    | some rows ↦ (ok tt, record s { outbox_events = rows })
  ]

  unfoldable pub unsent_rows : KillStore F → List OutboxEvent
  unsent_rows s = select (λ r. not r.sent) s.outbox_events

  unfoldable pub unsent_count : KillStore F → ℕ
  unsent_count s = length (unsent_rows s)

  unfoldable pub mark_sent : String → KillStore F → KillStore F
  mark_sent event_id s = record s {
    outbox_events =
        map (λ r. if r.event_id == event_id then record r { sent = true } else r) s.outbox_events;
  }

  unfoldable pub already_processed : String → KillStore F → Bool
  already_processed event_id s = any (λ k. k == event_id) s.processed_events

  abbrev pub processed_ids : KillStore F → List String
  processed_ids s = s.processed_events

  -- INSERT ... ON CONFLICT(account_id, symbol) DO UPDATE SET qty=excluded.qty
  unfoldable pub put_position :
      String → String → F → List (ProjectedPosition F) → List (ProjectedPosition F)
  put_position a y q [] = record { account_id = a; symbol = y; qty = q } ∷ []
  put_position a y q (p ∷ ps) =
      let rest = put_position a y q ps in
      if p.account_id == a && p.symbol == y then record p { qty = q } ∷ ps else p ∷ rest

module _ {F : Type 0} ⦃fl : Float F⦄ where
  unfoldable pub init_projection : String → F → Exec (KillStore F) Unit
  init_projection account_id cash s =
      if fl.is_nan cash
      then (err integrity_error, s)
      else (ok tt, record s { proj_cash = insert account_id cash s.proj_cash })

  -- the UPDATE would set the cash of an account to NULL
  unfoldable pub cash_refused : String → F → Dict F → Bool
  cash_refused a delta accounts = elim (lookup a accounts) [
    | none ↦ false
    | some cash ↦ fl.is_nan delta || fl.is_nan (fl.add cash delta)
  ]

  -- one transaction; an account or a symbol that is None is NULL, which the last table refuses
  unfoldable pub apply : String → Option String → Option String → F → F → Exec (KillStore F) Bool
  apply event_id account_id symbol qty_after cash_delta s =
      if already_processed event_id s then (ok false, s) else elim account_id [
        | none ↦ (err integrity_error, s)
        | some a ↦ elim symbol [
          | none ↦ (err integrity_error, s)
          | some y ↦
              if cash_refused a cash_delta s.proj_cash || fl.is_nan qty_after
              then (err integrity_error, s)
              else (
                ok true,
                record s {
                  processed_events = s.processed_events ++ event_id ∷ [];
                  proj_cash = update a (λ x. fl.add x cash_delta) s.proj_cash;
                  proj_positions = put_position a y qty_after s.proj_positions;
                },
              )
        ]
      ]

  -- the cash and the positions of an account
  unfoldable pub projection : String → KillStore F → F × List (String × F)
  projection account_id s = (
    elim (lookup account_id s.proj_cash) [ none ↦ zero_of fl | some cash ↦ cash ],
    map (λ p. (p.symbol, p.qty)) (select (λ p. p.account_id == account_id) s.proj_positions),
  )
