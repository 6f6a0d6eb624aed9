-- ===== src/Outbox/Relay/Publication.antt =====
-- Every unsent row reaches the stream, once or twice, in order, and is then marked sent.
use event_driven_trading_led.Base.{
  ℕ, ◌+◌, String, ◌≡◌, ap, sym, ◌∙◌, Bool, true, false, List, [], ◌∷◌, ◌++◌, arith, map, length,
  append-nil, append_assoc, map-append, if◌then◌else◌,
}
use event_driven_trading_led.Outbox.Bus.{StreamBus, entries, xadd}
use event_driven_trading_led.Outbox.Bus.Reads.{entries-xadd}
use event_driven_trading_led.Outbox.Ledger.{LedgerUpdated, unsent_outbox}
use event_driven_trading_led.Outbox.Ledger.Sent.{
  IsTodo, IsTodo-mark_sent, IsTodo-unsent, unsent_of_IsTodo,
}
use event_driven_trading_led.Outbox.Relay.{Pipe, publish, relay_rows, relay_outbox}

module _ {F : Type 0} where
  -- the rows as they reach the stream
  abbrev pub copies : Bool → List (String × LedgerUpdated F) → List (LedgerUpdated F)
  copies dup [] = []
  copies dup (r ∷ rs) = (if dup then r.1 ∷ r.1 ∷ [] else r.1 ∷ []) ++ copies dup rs

  abbrev pub contents : String → StreamBus (LedgerUpdated F) → List (LedgerUpdated F)
  contents stream b = map (λ e. e.1) (entries stream b)

  contents-xadd :
      (stream : String) (e : LedgerUpdated F) (b : StreamBus (LedgerUpdated F))
      → contents stream (xadd stream e b).1 ≡ contents stream b ++ e ∷ []
  contents-xadd stream e b =
      ap (map (λ x. x.1)) (entries-xadd stream e b) ∙ map-append (λ x. x.1) (entries stream b) _

  contents-publish :
      (stream : String) (dup : Bool) (e : LedgerUpdated F) (b : StreamBus (LedgerUpdated F))
      → contents stream (publish stream dup e b)
        ≡ contents stream b ++ (if dup then e ∷ e ∷ [] else e ∷ [])
  unfolding publish
  contents-publish stream true e b =
      contents-xadd stream e (xadd stream e b).1
      ∙ ap (λ c. c ++ e ∷ []) (contents-xadd stream e b)
      ∙ append_assoc (contents stream b) (e ∷ []) (e ∷ [])
  contents-publish stream false e b = contents-xadd stream e b

  relay_rows-published :
      (stream : String) (dup : Bool) (rows : List (String × LedgerUpdated F)) (n : ℕ) (p : Pipe F)
      → (relay_rows stream dup rows n p).0 ≡ n + length rows
  unfolding relay_rows
  relay_rows-published stream dup [] n p = omega arith
  relay_rows-published stream dup (r ∷ rows) n p =
      omega (arith, relay_rows-published stream dup rows (n + 1) _)

  relay_rows-contents :
      (stream : String) (dup : Bool) (rows : List (String × LedgerUpdated F)) (n : ℕ) (p : Pipe F)
      → contents stream (relay_rows stream dup rows n p).1.bus
        ≡ contents stream p.bus ++ copies dup rows
  unfolding relay_rows
  relay_rows-contents stream dup [] n p = sym (append-nil (contents stream p.bus))
  relay_rows-contents stream dup (r ∷ rows) n p =
      relay_rows-contents stream dup rows (n + 1) _
      ∙ ap (λ c. c ++ copies dup rows) (contents-publish stream dup r.1 p.bus)
      ∙ append_assoc (contents stream p.bus) _ (copies dup rows)

  relay_rows-unsent :
      (stream : String) (dup : Bool) (rows : List (String × LedgerUpdated F)) (n : ℕ) (p : Pipe F)
      → IsTodo rows p.ledger
      → unsent_outbox (relay_rows stream dup rows n p).1.ledger ≡ []
  unfolding relay_rows
  relay_rows-unsent stream dup [] n p h = unsent_of_IsTodo p.ledger h
  relay_rows-unsent stream dup (r ∷ rows) n p h =
      relay_rows-unsent stream dup rows (n + 1) _ (IsTodo-mark_sent r.0 r.1 rows p.ledger h)

  -- A run of the relay leaves no row unsent, counts the rows that were, and appends to the stream
  -- each of their payloads in order, twice if duplicates are injected, and nothing else.
  pub relay_outbox_lem :
      (stream : String) (dup : Bool) (p : Pipe F)
      → let (published, p') = relay_outbox stream dup p in
        (unsent_outbox p'.ledger ≡ [])
        × (published ≡ length (unsent_outbox p.ledger))
        × (contents stream p'.bus ≡ contents stream p.bus ++ copies dup (unsent_outbox p.ledger))
  unfolding relay_outbox
  relay_outbox_lem stream dup p =
      let rows = unsent_outbox p.ledger in
      (
        relay_rows-unsent stream dup rows 0 p (IsTodo-unsent p.ledger),
        omega (arith, relay_rows-published stream dup rows 0 p),
        relay_rows-contents stream dup rows 0 p,
      )
