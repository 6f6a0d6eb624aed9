-- ===== src/Outbox/Scenarios/Passes.antt =====
-- The scenarios pass.
use event_driven_trading_led.Base.{◌≡◌, false, [], ◌∷◌, ◌==◌}
use event_driven_trading_led.Base.Float.{Float}
use event_driven_trading_led.Outbox.Bus.{StreamBus, entries}
use event_driven_trading_led.Outbox.Ledger.{
  LedgerUpdated, TradeRequest, Ledger, new_ledger, Draw, cash_delta_of,
}
use event_driven_trading_led.Outbox.Ledger.Posting.{committed}
use event_driven_trading_led.Outbox.Scenarios.{req}

-- the ids of two postings differ
pub record AreApart (d d' : Draw) : Type 0 where
  pub entries : (d.je == d'.je) ≡ false
  pub audits : (d.audit_id == d'.audit_id) ≡ false
  pub events : (d.event_id == d'.event_id) ≡ false

module _ (F : Type 0) ⦃fl : Float F⦄ where
  -- the first trade of a new ledger has the cash it needs, and what it stores is no NaN
  pub record Affords (q : F) : Type 0 where
    pub paid :
        fl.lt (fl.add (fl.decimal 100000 1) (fl.mul (fl.neg q) (fl.decimal 100 0))) (fl.decimal 0 0)
        ≡ false
    pub amount : fl.is_nan (fl.abs (fl.mul (fl.neg q) (fl.decimal 100 0))) ≡ false
    pub left :
        fl.is_nan (fl.add (fl.decimal 100000 1) (fl.mul (fl.neg q) (fl.decimal 100 0))) ≡ false
    pub held : fl.is_nan q ≡ false

  -- the stream with two entries
  abbrev two_bus : LedgerUpdated F → LedgerUpdated F → StreamBus (LedgerUpdated F)
  two_bus e e' = record { streams = ("ledger.updates", (1, e) ∷ (2, e') ∷ []) ∷ []; groups = [] }

  -- the two trades of the last scenario
  abbrev first_req : TradeRequest F
  first_req = req "r6a" (fl.decimal 5 0) (fl.decimal 100 0)

  abbrev second_req : TradeRequest F
  second_req = req "r6b" (fl.decimal 6 0) (fl.decimal 100 0)

  abbrev after_first : F
  after_first = fl.add (fl.decimal 100000 1) (cash_delta_of first_req)

  abbrev two_posted : Draw → Draw → Ledger F
  two_posted d d' = committed d' second_req (committed d first_req new_ledger)

  -- the second trade of the last scenario too, and the two positions
  pub record AffordsBoth : Type 0 where
    pub first : Affords (fl.decimal 5 0)
    pub paid : fl.lt (fl.add after_first (cash_delta_of second_req)) (fl.decimal 0 0) ≡ false
    pub amount : fl.is_nan (fl.abs (cash_delta_of second_req)) ≡ false
    pub left : fl.is_nan (fl.add after_first (cash_delta_of second_req)) ≡ false
    pub held : fl.is_nan (fl.decimal 6 0) ≡ false
    pub both : fl.is_nan (fl.add (fl.decimal 5 0) (fl.decimal 6 0)) ≡ false

  -- what the numbers of the script must satisfy: the trades are paid for, and what is stored is no
  -- NaN
  pub record Fits : Type 0 where
    pub ten : Affords (fl.decimal 10 0)
    pub two : AffordsBoth
