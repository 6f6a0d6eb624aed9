-- ===== src/Outbox/Ledger/Schema.antt =====
-- poc/outbox-idempotency/ledger.py: the request, what one posting draws, and the rows of the tables.
use event_driven_trading_led.Base.{String, Bool, Option, List}
use event_driven_trading_led.Base.Dict.{Dict}

pub record TradeRequest (F : Type 0) : Type 0 where
  pub request_id : String
  pub account_id : String
  pub symbol : String
  pub side : String
  pub quantity : F
  pub price : F
  pub correlation_id : Option String

-- what one call of `post_trade` draws from `uuid.uuid4()` and `now()`
pub record Draw : Type 0 where
  pub je : String
  pub audit_id : String
  pub event_id : String
  pub correlation_id : String
  pub entered_at : String
  pub recorded_at : String
  pub produced_at : String
  pub posted_at : String
  pub created_at : String

pub data CrashPoint : Type 0 where
  no_crash before_commit after_commit_before_publish : CrashPoint

pub record JournalEntry : Type 0 where
  pub je_id : String
  pub source_event_id : String
  pub posted_at : String

pub record JournalLine (F : Type 0) : Type 0 where
  pub je_id : String
  pub account_id : String
  pub debit : F
  pub credit : F

pub record Position (F : Type 0) : Type 0 where
  pub account_id : String
  pub symbol : String
  pub qty : F

pub record Audit : Type 0 where
  pub audit_id : String
  pub source_event_id : String
  pub outcome : String
  pub reason : Option String
  pub recorded_at : String

-- the dict under "data"
pub record LedgerData (F : Type 0) : Type 0 where
  pub journal_entry_id : String
  pub source_event_id : String
  pub account_id : String
  pub symbol : String
  pub side : String
  pub quantity : F
  pub price : F
  pub cash_delta : F
  pub position_after : F
  pub posted_at : String

pub record LedgerUpdated (F : Type 0) : Type 0 where
  pub event_id : String
  pub event_type : String
  pub schema_version : String
  pub correlation_id : String
  pub produced_at : String
  pub producer : String
  pub content : LedgerData F

pub record OutboxRow (F : Type 0) : Type 0 where
  pub event_id : String
  pub event_type : String
  pub payload : LedgerUpdated F
  pub sent : Bool
  pub created_at : String

-- the tables, as of a COMMIT
pub record Tables (F : Type 0) : Type 0 where
  pub accounts : Dict F
  pub journal_entries : List JournalEntry
  pub journal_lines : List (JournalLine F)
  pub positions : List (Position F)
  pub audit_log : List Audit
  pub outbox_events : List (OutboxRow F)

-- the tables as the connection reads them, and while a transaction is open, those it would roll back to
pub record Ledger (F : Type 0) : Type 0 where
  pub accounts : Dict F
  pub journal_entries : List JournalEntry
  pub journal_lines : List (JournalLine F)
  pub positions : List (Position F)
  pub audit_log : List Audit
  pub outbox_events : List (OutboxRow F)
  pub undo : Option (Tables F)

pub data Outcome : Type 0 where
  -- je_id and event_id
  posted : String → String → Outcome
  -- the je_id of the first posting, with `idempotent_replay`
  replayed : String → Outcome
  rejected : String → Outcome
