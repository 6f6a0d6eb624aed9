-- ===== src/Outbox/Ledger/Sent.antt =====
-- `unsent_outbox` of ledger.py under `mark_sent`.
use event_driven_trading_led.Base.{
  String, ◌≡◌, refl, true, not, List, [], ◌∷◌, arith, ◌==◌, eq_iff, map, select, any, All,
}
use event_driven_trading_led.Outbox.Ledger.{
  Ledger, LedgerUpdated, OutboxRow, unsent_outbox, mark_sent, mark_row,
}

module _ {F : Type 0} where
  -- Marking a row sent takes its id out of what is unsent.
  unsent-mark_sent :
      (event_id : String) (rows : List (OutboxRow F))
      → select (λ r. not r.sent) (map (mark_row event_id) rows)
        ≡ select (λ r. not (r.event_id == event_id)) (select (λ r. not r.sent) rows)
  unfolding select mark_row
  unsent-mark_sent event_id [] = refl
  unsent-mark_sent event_id (r ∷ rows) = ground (arith, unsent-mark_sent event_id rows)

  -- every unsent row is among those that the loop has left
  abbrev IsCovered : List (String × LedgerUpdated F) → List (OutboxRow F) → Type 0
  IsCovered todo rows = All (λ r. any (λ x. x.0 == r.event_id) todo ≡ true) rows

  IsCovered-step :
      (event_id : String) (payload : LedgerUpdated F) (todo : List (String × LedgerUpdated F))
      (rows : List (OutboxRow F))
      → IsCovered ((event_id, payload) ∷ todo) rows
      → IsCovered todo (select (λ r. not (r.event_id == event_id)) rows)
  unfolding select
  IsCovered-step event_id payload todo [] h = tt
  IsCovered-step event_id payload todo (r ∷ rows) h = ground (
    arith,
    IsCovered-step event_id payload todo rows h.1,
    eq_iff event_id r.event_id,
    eq_iff r.event_id event_id,
  )

  -- every unsent row of the ledger is among those of the list
  pub record IsTodo (todo : List (String × LedgerUpdated F)) (l : Ledger F) : Type 0 where
    covered : IsCovered todo (select (λ r. not r.sent) l.outbox_events)

  pub IsTodo-mark_sent :
      (event_id : String) (payload : LedgerUpdated F) (todo : List (String × LedgerUpdated F))
      (l : Ledger F)
      → IsTodo ((event_id, payload) ∷ todo) l
      → IsTodo todo (mark_sent event_id l)
  unfolding mark_sent
  IsTodo-mark_sent event_id payload todo l h = record {
    covered =
        rw (unsent-mark_sent event_id l.outbox_events) (
          IsCovered-step event_id payload todo (select (λ r. not r.sent) l.outbox_events)
            h.covered);
  }

  pub unsent_of_IsTodo : (l : Ledger F) → IsTodo [] l → unsent_outbox l ≡ []
  unfolding unsent_outbox
  unsent_of_IsTodo l h = none_left (select (λ r. not r.sent) l.outbox_events) h.covered
    where
      none_left :
          (rows : List (OutboxRow F))
          → IsCovered [] rows
          → map {B = String × LedgerUpdated F} (λ r. (r.event_id, r.payload)) rows ≡ []
      none_left [] c = refl
      none_left (r ∷ rows) c = cc (c.0)

  IsCovered-cons :
      (x : String × LedgerUpdated F) (todo : List (String × LedgerUpdated F))
      (rows : List (OutboxRow F))
      → IsCovered todo rows
      → IsCovered (x ∷ todo) rows
  IsCovered-cons x todo [] h = tt
  IsCovered-cons x todo (r ∷ rows) h = (ground (arith, h.0), IsCovered-cons x todo rows h.1)

  all-IsCovered :
      (rows : List (OutboxRow F)) → IsCovered (map (λ r. (r.event_id, r.payload)) rows) rows
  all-IsCovered [] = tt
  all-IsCovered (r ∷ rows) = (
    ground (arith, eq_iff r.event_id r.event_id),
    IsCovered-cons (r.event_id, r.payload) _ rows (all-IsCovered rows),
  )

  pub IsTodo-unsent : (l : Ledger F) → IsTodo (unsent_outbox l) l
  unfolding unsent_outbox
  IsTodo-unsent l = record { covered = all-IsCovered (select (λ r. not r.sent) l.outbox_events) }
