-- ===== src/Outbox/Ledger/Posting.antt =====
-- What one call of `post_trade` does: replays, rejections, crashes, and the posting itself.
use event_driven_trading_led.Base.{
  String, ◌≡◌, refl, ap, sym, ◌∙◌, ◌⊎◌, Bool, true, false, Option, none, some, List, [], ◌∷◌, ◌++◌,
  arith, eq_iff, ◌==◌, ◌&&◌, inl, inr, Option-cases, Bool-cases, if◌then◌else◌,
}
use event_driven_trading_led.Base.Exec.{
  Result, ok, err, value_error, type_error, attribute_error, key_error, index_error,
  integrity_error, interface_error, assertion_error, response_error, crash_injected,
}
use event_driven_trading_led.Base.Dict.{lookup}
use event_driven_trading_led.Base.Float.{Float, zero_of}
use event_driven_trading_led.Outbox.Ledger.{
  TradeRequest, Draw, CrashPoint, no_crash, before_commit, after_commit_before_publish,
  JournalEntry, Position, Ledger, posted, replayed, find_entry, find_qty, add_qty, cash_delta_of,
  qty_delta_of, audit_of, write_entry, write_lines, write_cash, write_position, write_audit,
  write_outbox, has_entry, has_audit, has_event, cash_is_null, qty_is_null, tables_of, commit,
  rollback, finish, transact, reject, post_trade,
}

-- the entry that a posting adds is found, and hides no earlier one
pub find_entry-append :
    (rid : String) (es : List JournalEntry) (e : JournalEntry)
    → find_entry rid es ≡ none
    → find_entry rid (es ++ e ∷ []) ≡ (if e.source_event_id == rid then some e.je_id else none)
unfolding find_entry
find_entry-append rid [] e h = refl
find_entry-append rid (x ∷ es) e h = ground (arith, find_entry-append rid es e)

module _ {F : Type 0} (fl : Float F) where
  abbrev pub added : Option F → F → F
  added none q = q
  added (some p) q = fl.add p q

  -- the position after an addition, for the pair that is added to and for every other
  pub find_qty-add_qty :
      (a s b t : String) (q : F) (ps : List (Position F))
      → find_qty b t (add_qty fl a s q ps)
        ≡ (if a == b && s == t then some (added (find_qty b t ps) q) else find_qty b t ps)
  unfolding find_qty add_qty
  find_qty-add_qty a s b t q [] = ground (arith, eq_iff a b, eq_iff s t)
  find_qty-add_qty a s b t q (p ∷ ps) = ground (
    arith,
    find_qty-add_qty a s b t q ps,
    eq_iff a b,
    eq_iff s t,
    eq_iff p.account_id a,
    eq_iff p.account_id b,
    eq_iff p.symbol s,
    eq_iff p.symbol t,
  )

-- whether an exception is sqlite3.IntegrityError
abbrev pub is_integrity_error : {A : Type 0} → Result A → Bool
is_integrity_error (ok a) = false
is_integrity_error (err integrity_error) = true
is_integrity_error (err value_error) = false
is_integrity_error (err type_error) = false
is_integrity_error (err attribute_error) = false
is_integrity_error (err key_error) = false
is_integrity_error (err index_error) = false
is_integrity_error (err interface_error) = false
is_integrity_error (err assertion_error) = false
is_integrity_error (err response_error) = false
is_integrity_error (err crash_injected) = false

module _ {F : Type 0} ⦃fl : Float F⦄ (d : Draw) (req : TradeRequest F) (l : Ledger F) where
  -- the ledger that a posting commits, with the position that it reads back
  abbrev pub committed : Ledger F
  committed =
      let cash_delta = cash_delta_of req in
      let q = added fl (find_qty req.account_id req.symbol l.positions) (qty_delta_of req) in
      commit (
        write_outbox d req cash_delta q (
          write_audit d req "accepted" none (
            write_position req
              (write_cash req cash_delta (write_lines d req cash_delta (write_entry d req l))))))

  -- no transaction is open, the drawn ids are new to their tables, and the numbers that are stored are
  -- no NaN
  pub record IsStorable (cash : F) : Type 0 where
    pub idle : l.undo ≡ none
    pub entry_new : has_entry d.je l.journal_entries ≡ false
    pub amount : fl.is_nan (fl.abs (cash_delta_of req)) ≡ false
    pub left : fl.is_nan (fl.add cash (cash_delta_of req)) ≡ false
    pub held : qty_is_null req l.positions ≡ false
    pub audit_new : has_audit d.audit_id l.audit_log ≡ false
    pub event_new : has_event d.event_id l.outbox_events ≡ false

  -- a new request id, a known account with enough cash, and constraints that hold
  abbrev pub Accepts : F → Type 0
  Accepts cash =
      (find_entry req.request_id l.journal_entries ≡ none)
      × (lookup req.account_id l.accounts ≡ some cash)
      × (fl.lt (fl.add cash (cash_delta_of req)) (zero_of fl) ≡ false)
      × IsStorable cash

  position_read :
      find_qty req.account_id req.symbol
        (add_qty fl req.account_id req.symbol (qty_delta_of req) l.positions)
      ≡ some (added fl (find_qty req.account_id req.symbol l.positions) (qty_delta_of req))
  position_read = ground (
    arith,
    find_qty-add_qty fl req.account_id req.symbol req.account_id req.symbol (qty_delta_of req)
        l.positions,
    eq_iff req.account_id req.account_id,
    eq_iff req.symbol req.symbol,
  )

  pub cash_is_null_lem :
      (cash : F)
      → lookup req.account_id l.accounts ≡ some cash
      → cash_is_null req (cash_delta_of req) l.accounts
        ≡ fl.is_nan (fl.add cash (cash_delta_of req))
  unfolding cash_is_null
  cash_is_null_lem cash known = rw (cash_is_null, known) refl

  -- the ledger at the end of the transaction, before it is closed
  abbrev opened : Ledger F
  opened = record committed { undo = some (tables_of l) }

  -- A transaction whose constraints hold reaches its end.
  transact_lem :
      (cash : F) (crash : CrashPoint)
      → lookup req.account_id l.accounts ≡ some cash
      → IsStorable cash
      → transact d req (cash_delta_of req) crash l ≡ finish crash (posted d.je d.event_id) opened
  unfolding transact write_outbox
  transact_lem cash crash known s =
      rw
        (
          s.idle,
          s.entry_new,
          s.amount,
          cash_is_null_lem cash known,
          s.left,
          s.held,
          s.audit_new,
          position_read,
          s.event_new,
        )
        refl

  rolled_back : l.undo ≡ none → rollback opened ≡ l
  rolled_back idle = ap (λ u. record l { undo = u }) (sym idle)

  -- On a trade with a new id and enough cash `post_trade` is its transaction.
  pub post_trade-eq-transact :
      (cash : F) (crash : CrashPoint)
      → find_entry req.request_id l.journal_entries ≡ none
      → lookup req.account_id l.accounts ≡ some cash
      → fl.lt (fl.add cash (cash_delta_of req)) (zero_of fl) ≡ false
      → post_trade d req crash l ≡ transact d req (cash_delta_of req) crash l
  unfolding post_trade
  post_trade-eq-transact cash crash fresh known covered = ground arith

  -- A trade with a new request id, a known account and enough cash commits, with no crash; a crash
  -- before COMMIT raises and leaves the ledger as it was; a crash after COMMIT raises and leaves the
  -- ledger that the call without a crash would have committed. No transaction is open before, the
  -- drawn ids are new to their tables, and the amount, the cash and the quantity are no NaN.
  pub post_trade_atomic :
      (cash : F)
      → Accepts cash
      → (post_trade d req no_crash l ≡ (ok (posted d.je d.event_id), committed))
        × (post_trade d req before_commit l ≡ (err crash_injected, l))
        × (post_trade d req after_commit_before_publish l ≡ (err crash_injected, committed))
  post_trade_atomic cash (fresh, known, covered, s) =
      let runs : (crash : CrashPoint)
          → post_trade d req crash l ≡ finish crash (posted d.je d.event_id) opened =
        λ crash.
          post_trade-eq-transact cash crash fresh known covered ∙ transact_lem cash crash known s in
      (
        runs no_crash,
        runs before_commit ∙ ap (λ t. (err crash_injected, t)) (rolled_back s.idle),
        runs after_commit_before_publish,
      )

  -- A request whose id is in the journal is answered with the entry that is there, changes nothing
  -- and reaches no crash point.
  pub post_trade_replay :
      (crash : CrashPoint) {je : String}
      → find_entry req.request_id l.journal_entries ≡ some je
      → post_trade d req crash l ≡ (ok (replayed je), l)
  unfolding post_trade
  post_trade_replay crash seen = ground arith

  rejection :
      (c : F) (crash : CrashPoint)
      → find_entry req.request_id l.journal_entries ≡ none
      → lookup req.account_id l.accounts ≡ some c
      → fl.lt (fl.add c (cash_delta_of req)) (zero_of fl) ≡ true
      → post_trade d req crash l ≡ reject d req l
  unfolding post_trade
  rejection c crash fresh known short = ground arith

  -- the ledger with the audit row of a rejection
  abbrev pub audited : Ledger F
  audited = record l {
    audit_log = l.audit_log ++ audit_of d req "rejected" (some "NEGATIVE_CASH") ∷ [];
  }

  -- A rejection raises IntegrityError, or leaves one more audit row.
  reject_lem :
      l.undo ≡ none
      → (is_integrity_error (reject d req l).0 ≡ true) ⊎ ((reject d req l).1 ≡ audited)
  unfolding reject
  reject_lem idle = elim (Bool-cases (has_audit d.audit_id l.audit_log)) [
    | inl taken ↦ inl (rw (idle, taken) refl)
    | inr new ↦ inr (rw (idle, new) refl)
  ]

  -- A request for an account that is not there raises and changes nothing.
  pub post_trade_unknown :
      (crash : CrashPoint)
      → find_entry req.request_id l.journal_entries ≡ none
      → lookup req.account_id l.accounts ≡ none
      → post_trade d req crash l ≡ (err type_error, l)
  unfolding post_trade
  post_trade_unknown crash fresh unknown = ground arith

  -- what a call leaves: the ledger as it was, the committed ledger, or one more audit row
  abbrev pub Leaves : Ledger F → Type 0
  Leaves after =
      (after ≡ l) ⊎ (((after ≡ committed) × ((cash : F) × Accepts cash)) ⊎ (after ≡ audited))

  -- A transaction raises IntegrityError, or its constraints hold.
  transact-IsStorable :
      (cash : F) (crash : CrashPoint)
      → lookup req.account_id l.accounts ≡ some cash
      → l.undo ≡ none
      → (is_integrity_error (transact d req (cash_delta_of req) crash l).0 ≡ true) ⊎ IsStorable cash
  unfolding transact
  transact-IsStorable cash crash known idle =
      let cash_delta = cash_delta_of req in
      let null = cash_is_null_lem cash known in
      elim (Bool-cases (has_entry d.je l.journal_entries)) [
        | inl e ↦ inl (rw (idle, e) refl)
        | inr a1 ↦ elim (Bool-cases (fl.is_nan (fl.abs cash_delta))) [
          | inl e ↦ inl (rw (idle, a1, e) refl)
          | inr a2 ↦ elim (Bool-cases (fl.is_nan (fl.add cash cash_delta))) [
            | inl e ↦ inl (rw (idle, a1, a2, null, e) refl)
            | inr a3 ↦ elim (Bool-cases (qty_is_null req l.positions)) [
              | inl e ↦ inl (rw (idle, a1, a2, null, a3, e) refl)
              | inr a4 ↦ elim (Bool-cases (has_audit d.audit_id l.audit_log)) [
                | inl e ↦ inl (rw (idle, a1, a2, null, a3, a4, e) refl)
                | inr a5 ↦ elim (Bool-cases (has_event d.event_id l.outbox_events)) [
                  | inl e ↦ inl (rw (idle, a1, a2, null, a3, a4, a5, position_read, e) refl)
                  | inr a6 ↦ inr (record {
                    idle = idle;
                    entry_new = a1;
                    amount = a2;
                    left = a3;
                    held = a4;
                    audit_new = a5;
                    event_new = a6;
                  })
                ]
              ]
            ]
          ]
        ]
      ]

  accepted-Leaves :
      (cash : F) (crash : CrashPoint) → Accepts cash → Leaves (post_trade d req crash l).1
  accepted-Leaves cash no_crash h =
      inr (inl (ap (λ r. r.1) (post_trade_atomic cash h).0, (cash, h)))
  accepted-Leaves cash before_commit h = inl (ap (λ r. r.1) (post_trade_atomic cash h).1)
  accepted-Leaves cash after_commit_before_publish h =
      inr (inl (ap (λ r. r.1) (post_trade_atomic cash h).2, (cash, h)))

  -- A call raises IntegrityError, or leaves one of these, where no transaction is open before it.
  pub post_trade-Leaves :
      (crash : CrashPoint)
      → l.undo ≡ none
      → (is_integrity_error (post_trade d req crash l).0 ≡ true)
        ⊎ Leaves (post_trade d req crash l).1
  post_trade-Leaves crash idle = elim (Option-cases (find_entry req.request_id l.journal_entries)) [
    | inr (je, seen) ↦ inr (inl (ap (λ r. r.1) (post_trade_replay crash seen)))
    | inl fresh ↦ elim (Option-cases (lookup req.account_id l.accounts)) [
      | inl unknown ↦ inr (inl (ap (λ r. r.1) (post_trade_unknown crash fresh unknown)))
      | inr (cash, known) ↦
          elim (Bool-cases (fl.lt (fl.add cash (cash_delta_of req)) (zero_of fl))) [
            | inl short ↦
                rw (rejection cash crash fresh known short) (elim (reject_lem idle) [
                  | inl raised ↦ inl raised
                  | inr row ↦ inr (inr (inr row))
                ])
            | inr covered ↦ elim (transact-IsStorable cash crash known idle) [
              | inl raised ↦ inl (rw (post_trade-eq-transact cash crash fresh known covered) raised)
              | inr s ↦ inr (accepted-Leaves cash crash (fresh, known, covered, s))
            ]
          ]
    ]
  ]

module _ {F : Type 0} ⦃fl : Float F⦄ where
  find_entry-committed :
      (d : Draw) (req : TradeRequest F) (l : Ledger F)
      → find_entry req.request_id l.journal_entries ≡ none
      → find_entry req.request_id (committed d req l).journal_entries ≡ some d.je
  unfolding write_outbox
  find_entry-committed d req l fresh = ground (
    arith,
    find_entry-append req.request_id l.journal_entries
        (record { je_id = d.je; source_event_id = req.request_id; posted_at = d.entered_at }),
    eq_iff req.request_id req.request_id,
  )

  -- Retrying a request that was posted replays it: the answer names the first entry, and the ledger
  -- stays as the first call left it, whatever the retry draws and wherever it would crash.
  pub post_trade_retry :
      (d d' : Draw) (req : TradeRequest F) (crash : CrashPoint) (l : Ledger F) (cash : F)
      → Accepts d req l cash
      → let l' = (post_trade d req no_crash l).1 in
        post_trade d' req crash l' ≡ (ok (replayed d.je), l')
  post_trade_retry d d' req crash l cash h =
      rw ((post_trade_atomic d req l cash h).0)
        (post_trade_replay d' req (committed d req l) crash (find_entry-committed d req l h.0))
