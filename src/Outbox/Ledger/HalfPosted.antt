-- ===== src/Outbox/Ledger/HalfPosted.antt =====
-- A posting whose audit id is taken: the IntegrityError is not rolled back.
use event_driven_trading_led.Base.{
  ◌∙◌, ap, sym, inl, inr, arith, eq_iff, ◌==◌, IsAmong, List, [], ◌∷◌, String, ◌≡◌, refl, false,
  true, none, some,
}
use event_driven_trading_led.Base.Exec.{err, integrity_error}
use event_driven_trading_led.Base.Dict.{lookup}
use event_driven_trading_led.Base.Float.{Float, zero_of}
use event_driven_trading_led.Outbox.Ledger.{
  Audit, TradeRequest, Draw, CrashPoint, Ledger, find_entry, cash_delta_of, write_entry,
  write_lines, write_cash, write_position, has_entry, has_audit, qty_is_null, tables_of, transact,
  post_trade, mark_sent,
}
use event_driven_trading_led.Outbox.Ledger.Posting.{post_trade-eq-transact, cash_is_null_lem}

has_audit-IsAmong :
    (audit_id : String) (a : Audit) (log : List Audit)
    → IsAmong a log
    → a.audit_id ≡ audit_id
    → has_audit audit_id log ≡ true
unfolding has_audit
has_audit-IsAmong audit_id a [] h same = absurd h
has_audit-IsAmong audit_id a (x ∷ log) (inl here) same =
    let equal : (x.audit_id == audit_id) ≡ true =
      (eq_iff x.audit_id audit_id).1 (ap (λ y. y.audit_id) (sym here) ∙ same) in
    rw equal refl
has_audit-IsAmong audit_id a (x ∷ log) (inr there) same =
    let later = has_audit-IsAmong audit_id a log there same in ground (arith, later)

module _ {F : Type 0} ⦃fl : Float F⦄ (d : Draw) (req : TradeRequest F) (l : Ledger F) where
  -- the ledger with the entry, the lines, the cash and the position of a trade
  abbrev pub half_posted : Ledger F
  half_posted = write_position req (
      write_cash req (cash_delta_of req)
        (write_lines d req (cash_delta_of req) (write_entry d req l)))

  -- A trade that would be accepted, but whose drawn audit id is that of a row of the audit log, raises
  -- IntegrityError, at whatever crash point, and leaves its entry, lines, cash and position in an open
  -- transaction, without the audit row and the outbox row; and the COMMIT of the next `mark_sent`
  -- keeps them.
  pub post_trade-half_posted :
      (cash : F) (crash : CrashPoint) (event_id : String) (a : Audit)
      → l.undo ≡ none
      → find_entry req.request_id l.journal_entries ≡ none
      → lookup req.account_id l.accounts ≡ some cash
      → fl.lt (fl.add cash (cash_delta_of req)) (zero_of fl) ≡ false
      → has_entry d.je l.journal_entries ≡ false
      → fl.is_nan (fl.abs (cash_delta_of req)) ≡ false
      → fl.is_nan (fl.add cash (cash_delta_of req)) ≡ false
      → qty_is_null req l.positions ≡ false
      → IsAmong a l.audit_log
      → a.audit_id ≡ d.audit_id
      → let (r, l') = post_trade d req crash l in
        (r ≡ err integrity_error)
        × (l' ≡ record half_posted { undo = some (tables_of l) })
        × (mark_sent event_id l' ≡ mark_sent event_id half_posted)
  unfolding transact mark_sent
  post_trade-half_posted cash crash event_id a idle fresh known covered entry amount left held among
        same =
      rw
        (
          post_trade-eq-transact d req l cash crash fresh known covered,
          idle,
          entry,
          amount,
          cash_is_null_lem d req l cash known,
          left,
          held,
          has_audit-IsAmong d.audit_id a l.audit_log among same,
        )
        (refl, refl, refl)
