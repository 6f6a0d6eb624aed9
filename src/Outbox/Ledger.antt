-- ===== src/Outbox/Ledger.antt =====
-- poc/outbox-idempotency/ledger.py: the double-entry ledger with a transactional outbox. A table is
-- the list of its rows in insertion order. What `uuid.uuid4()` and `now()` return is an argument,
-- and the payload of an outbox row is the envelope that its JSON text encodes. A request carries
-- every field but the correlation id. The driver opens a transaction before a statement that writes;
-- a statement that violates a constraint raises and leaves it open, with what was written before.
mod Schema
pub mod Posting
pub mod HalfPosted
pub mod Sent
pub mod DoubleEntry
pub mod Invariant
pub mod Projection
pub use Schema.*
use event_driven_trading_led.Base.{
  String, Bool, true, false, Option, none, some, List, [], ◌∷◌, ◌++◌, ◌&&◌, ◌==◌, map, select, not,
  any, length, ◌||◌, ℕ, if◌then◌else◌,
}
use event_driven_trading_led.Base.Exec.{
  Exec, ok, err, type_error, assertion_error, crash_injected, integrity_error, demand, modify, pure,
  ◌>>=◌, ◌>>◌,
}
use event_driven_trading_led.Base.Dict.{Dict, lookup, update}
use event_driven_trading_led.Base.Float.{Float, zero_of}

-- `SELECT je_id FROM journal_entries WHERE source_event_id = ?`
unfoldable pub find_entry : String → List JournalEntry → Option String
find_entry rid [] = none
find_entry rid (e ∷ es) = if e.source_event_id == rid then some e.je_id else find_entry rid es

-- the constraints that a statement can violate: the primary keys, and NOT NULL, as NaN is stored as
-- NULL; the request id was looked up before
unfoldable pub has_entry : String → List JournalEntry → Bool
has_entry je = any (λ e. e.je_id == je)

unfoldable pub has_audit : String → List Audit → Bool
has_audit audit_id = any (λ a. a.audit_id == audit_id)

abbrev pub correlation_of : Option String → String → String
correlation_of none fresh = fresh
correlation_of (some c) fresh = c

module _ {F : Type 0} where
  -- `SELECT qty FROM positions WHERE account_id = ? AND symbol = ?`
  unfoldable pub find_qty : String → String → List (Position F) → Option F
  find_qty a s [] = none
  find_qty a s (p ∷ ps) = if p.account_id == a && p.symbol == s then some p.qty else find_qty a s ps

  -- the `INSERT ... ON CONFLICT(account_id, symbol) DO UPDATE SET qty = qty + ?`
  unfoldable pub add_qty : Float F → String → String → F → List (Position F) → List (Position F)
  add_qty fl a s q [] = record { account_id = a; symbol = s; qty = q } ∷ []
  add_qty fl a s q (p ∷ ps) =
      if p.account_id == a && p.symbol == s
      then record p { qty = fl.add p.qty q } ∷ ps
      else p ∷ add_qty fl a s q ps

module _ {F : Type 0} where
  abbrev pub tables_of : Ledger F → Tables F
  tables_of l = record {
    accounts = l.accounts;
    journal_entries = l.journal_entries;
    journal_lines = l.journal_lines;
    positions = l.positions;
    audit_log = l.audit_log;
    outbox_events = l.outbox_events;
  }

  -- the BEGIN of the driver
  abbrev pub begin : Ledger F → Ledger F
  begin l = elim l.undo [ none ↦ record l { undo = some (tables_of l) } | some t ↦ l ]

  abbrev pub commit : Ledger F → Ledger F
  commit l = record l { undo = none }

  abbrev pub rollback : Ledger F → Ledger F
  rollback l = elim l.undo [
    | none ↦ l
    | some t ↦ record {
      accounts = t.accounts;
      journal_entries = t.journal_entries;
      journal_lines = t.journal_lines;
      positions = t.positions;
      audit_log = t.audit_log;
      outbox_events = t.outbox_events;
      undo = none;
    }
  ]

  -- a statement that writes, unless it violates a constraint
  abbrev pub statement : (Ledger F → Bool) → (Ledger F → Ledger F) → Exec (Ledger F) Unit
  statement violates write l =
      let l' = begin l in if violates l then (err integrity_error, l') else (ok tt, write l')

  -- the end of a transaction
  abbrev pub finish : CrashPoint → Outcome → Exec (Ledger F) Outcome
  finish no_crash outcome l = (ok outcome, commit l)
  finish before_commit outcome l = (err crash_injected, rollback l)
  finish after_commit_before_publish outcome l = (err crash_injected, commit l)

module _ {F : Type 0} ⦃fl : Float F⦄ where
  -- `Ledger()`: the schema and the seeded account
  abbrev pub new_ledger : Ledger F
  new_ledger = record {
    accounts = ("acct_123", fl.decimal 100000 1) ∷ [];
    journal_entries = [];
    journal_lines = [];
    positions = [];
    audit_log = [];
    outbox_events = [];
    undo = none;
  }

  unfoldable pub cash_delta_of : TradeRequest F → F
  cash_delta_of req =
      if req.side == "BUY"
      then fl.mul (fl.neg req.quantity) req.price
      else fl.mul req.quantity req.price

  -- the mirrored lines of a trade
  unfoldable pub lines_of : String → TradeRequest F → F → List (JournalLine F)
  lines_of je req cash_delta =
      let amount = fl.abs cash_delta in
      let zero = zero_of fl in
      if req.side == "BUY"
      then record { je_id = je; account_id = "securities"; debit = amount; credit = zero }
        ∷ record { je_id = je; account_id = req.account_id; debit = zero; credit = amount }
        ∷ []
      else record { je_id = je; account_id = req.account_id; debit = amount; credit = zero }
        ∷ record { je_id = je; account_id = "securities"; debit = zero; credit = amount }
        ∷ []

  unfoldable pub qty_delta_of : TradeRequest F → F
  qty_delta_of req = if req.side == "BUY" then req.quantity else fl.neg req.quantity

  unfoldable pub audit_of : Draw → TradeRequest F → String → Option String → Audit
  audit_of d req outcome reason = record {
    audit_id = d.audit_id;
    source_event_id = req.request_id;
    outcome = outcome;
    reason = reason;
    recorded_at = d.recorded_at;
  }

  unfoldable pub event_of : Draw → TradeRequest F → F → F → LedgerUpdated F
  event_of d req cash_delta pos = record {
    event_id = d.event_id;
    event_type = "LedgerUpdated";
    schema_version = "1";
    correlation_id = correlation_of req.correlation_id d.correlation_id;
    produced_at = d.produced_at;
    producer = "ledger-core";
    content = record {
      journal_entry_id = d.je;
      source_event_id = req.request_id;
      account_id = req.account_id;
      symbol = req.symbol;
      side = req.side;
      quantity = req.quantity;
      price = req.price;
      cash_delta = cash_delta;
      position_after = pos;
      posted_at = d.posted_at;
    };
  }

  -- what each statement of the transaction writes
  abbrev pub write_entry : Draw → TradeRequest F → Ledger F → Ledger F
  write_entry d req l = record l {
    journal_entries =
        l.journal_entries
        ++ record { je_id = d.je; source_event_id = req.request_id; posted_at = d.entered_at } ∷ [];
  }

  -- both lines carry the amount, so the first is the one to violate NOT NULL
  abbrev pub write_lines : Draw → TradeRequest F → F → Ledger F → Ledger F
  write_lines d req cash_delta l = record l {
    journal_lines = l.journal_lines ++ lines_of d.je req cash_delta;
  }

  abbrev pub write_cash : TradeRequest F → F → Ledger F → Ledger F
  write_cash req cash_delta l = record l {
    accounts = update req.account_id (λ c. fl.add c cash_delta) l.accounts;
  }

  abbrev pub write_position : TradeRequest F → Ledger F → Ledger F
  write_position req l = record l {
    positions = add_qty fl req.account_id req.symbol (qty_delta_of req) l.positions;
  }

  abbrev pub write_audit : Draw → TradeRequest F → String → Option String → Ledger F → Ledger F
  write_audit d req outcome reason l = record l {
    audit_log = l.audit_log ++ audit_of d req outcome reason ∷ [];
  }

  -- the outbox row, in the same transaction
  unfoldable pub write_outbox : Draw → TradeRequest F → F → F → Ledger F → Ledger F
  unfolding event_of
  write_outbox d req cash_delta pos l = record l {
    outbox_events =
        l.outbox_events
        ++ record {
          event_id = d.event_id;
          event_type = "LedgerUpdated";
          payload = event_of d req cash_delta pos;
          sent = false;
          created_at = d.created_at;
        }
          ∷ [];
  }

  unfoldable pub has_event : String → List (OutboxRow F) → Bool
  has_event event_id = any (λ r. r.event_id == event_id)

  unfoldable pub cash_is_null : TradeRequest F → F → Dict F → Bool
  cash_is_null req cash_delta accounts = elim (lookup req.account_id accounts) [
    | none ↦ false
    | some c ↦ fl.is_nan (fl.add c cash_delta)
  ]

  unfoldable pub qty_is_null : TradeRequest F → List (Position F) → Bool
  qty_is_null req positions =
      let qd = qty_delta_of req in
      fl.is_nan qd || elim (find_qty req.account_id req.symbol positions) [
        | none ↦ false
        | some q ↦ fl.is_nan (fl.add q qd)
      ]

  -- the transaction: it commits; or it is rolled back at the injected crash; or a statement raises, and
  -- it stays open
  unfoldable pub transact : Draw → TradeRequest F → F → CrashPoint → Exec (Ledger F) Outcome
  transact d req cash_delta crash = do
    statement (λ l. has_entry d.je l.journal_entries) (write_entry d req)
    statement (λ l. fl.is_nan (fl.abs cash_delta)) (write_lines d req cash_delta)
    statement (λ l. cash_is_null req cash_delta l.accounts) (write_cash req cash_delta)
    statement (λ l. qty_is_null req l.positions) (write_position req)
    statement (λ l. has_audit d.audit_id l.audit_log) (write_audit d req "accepted" none)
    pos ← demand (λ l. find_qty req.account_id req.symbol l.positions) type_error
    statement (λ l. has_event d.event_id l.outbox_events) (write_outbox d req cash_delta pos)
    finish crash (posted d.je d.event_id)

  unfoldable pub reject : Draw → TradeRequest F → Exec (Ledger F) Outcome
  reject d req = do
    statement (λ l. has_audit d.audit_id l.audit_log)
        (write_audit d req "rejected" (some "NEGATIVE_CASH"))
    modify commit
    pure (rejected "NEGATIVE_CASH")

  unfoldable pub post_trade : Draw → TradeRequest F → CrashPoint → Exec (Ledger F) Outcome
  post_trade d req crash l = elim (find_entry req.request_id l.journal_entries) [
    | some je ↦ (ok (replayed je), l)
    | none ↦ elim (lookup req.account_id l.accounts) [
      | none ↦ (err type_error, l)
      | some cash ↦
          let cash_delta = cash_delta_of req in
          if fl.lt (fl.add cash cash_delta) (zero_of fl)
          then reject d req l
          else transact d req cash_delta crash l
    ]
  ]

module _ {F : Type 0} where
  unfoldable pub unsent_outbox : Ledger F → List (String × LedgerUpdated F)
  unfolding select
  unsent_outbox l = map (λ r. (r.event_id, r.payload)) (select (λ r. not r.sent) l.outbox_events)

  unfoldable pub mark_row : String → OutboxRow F → OutboxRow F
  mark_row event_id r = if r.event_id == event_id then record r { sent = true } else r

  unfoldable pub mark_sent : String → Ledger F → Ledger F
  unfolding mark_row
  mark_sent event_id l = record l {
    outbox_events = map (mark_row event_id) l.outbox_events;
    undo = none;
  }

  unfoldable pub cash : String → Exec (Ledger F) F
  cash account_id = demand (λ l. lookup account_id l.accounts) type_error

  unfoldable pub je_count : Ledger F → ℕ
  je_count l = length l.journal_entries

module _ {F : Type 0} ⦃fl : Float F⦄ where
  -- the sums of `assert_double_entry`
  pub total_debit : Ledger F → F
  total_debit l = fl.sql_sum (map (λ x. x.debit) l.journal_lines)

  pub total_credit : Ledger F → F
  total_credit l = fl.sql_sum (map (λ x. x.credit) l.journal_lines)

  pub assert_double_entry : Exec (Ledger F) (F × F)
  unfolding total_debit total_credit
  assert_double_entry l =
      let d = total_debit l in
      let c = total_credit l in
      if fl.lt (fl.abs (fl.sub d c)) (fl.decimal 1 9)
      then (ok (d, c), l)
      else (err assertion_error, l)

  unfoldable pub position : String → String → Ledger F → F
  unfolding find_qty
  position account_id symbol l = elim (find_qty account_id symbol l.positions) [
    | none ↦ zero_of fl
    | some q ↦ q
  ]
