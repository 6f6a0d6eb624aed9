-- ===== src/Outbox/Ledger/Invariant.antt =====
-- What every sequence of `post_trade` calls keeps, whatever they draw and wherever they crash.
use event_driven_trading_led.Base.{
  String, ◌≡◌, refl, false, none, some, List, [], ◌∷◌, ◌++◌, arith, eq_iff, map, inl, inr,
  map-append,
}
use event_driven_trading_led.Base.Dict.{lookup, lookup-update}
use event_driven_trading_led.Base.Float.{Float, zero_of}
use event_driven_trading_led.Outbox.Ledger.{
  TradeRequest, Draw, CrashPoint, JournalEntry, Ledger, find_entry, cash_delta_of, OutboxRow,
  find_qty, qty_delta_of, write_outbox, event_of, lines_of, post_trade,
}
use event_driven_trading_led.Outbox.Ledger.Posting.{
  added, Accepts, Leaves, audited, is_integrity_error, committed, find_entry-append,
  post_trade-Leaves,
}
use event_driven_trading_led.Outbox.Ledger.DoubleEntry.{
  IsMirrored, IsMirrored-append, lines_of-IsMirrored,
}

-- no request id stands twice in the journal
abbrev pub IsUnique : List JournalEntry → Type 0
IsUnique [] = Unit
IsUnique (e ∷ es) = (find_entry e.source_event_id es ≡ none) × IsUnique es

IsUnique-append :
    (es : List JournalEntry) (e : JournalEntry)
    → IsUnique es
    → find_entry e.source_event_id es ≡ none
    → IsUnique (es ++ e ∷ [])
unfolding find_entry
IsUnique-append [] e u h = (refl, tt)
IsUnique-append (x ∷ es) e u h = (
  ground (
    arith,
    find_entry-append x.source_event_id es e u.0,
    eq_iff x.source_event_id e.source_event_id,
    eq_iff e.source_event_id x.source_event_id,
  ),
  IsUnique-append es e u.1 (ground arith),
)

-- one call of `post_trade`
pub record Call (F : Type 0) : Type 0 where
  pub draw : Draw
  pub request : TradeRequest F
  pub crash : CrashPoint

module _ {F : Type 0} where
  -- the request ids of the journal, and those of the outbox
  abbrev pub posted_ids : Ledger F → List String
  posted_ids l = map (λ e. e.source_event_id) l.journal_entries

  abbrev pub outbox_ids : Ledger F → List String
  outbox_ids l = map (λ r. r.payload.content.source_event_id) l.outbox_events

module _ {F : Type 0} ⦃fl : Float F⦄ where
  pub record IsSound (l : Ledger F) : Type 0 where
    pub idle : l.undo ≡ none
    pub mirrored : IsMirrored l.journal_lines
    -- no account has negative cash
    pub solvent : (a : String) (c : F) → lookup a l.accounts ≡ some c → fl.lt c (zero_of fl) ≡ false
    pub unique : IsUnique l.journal_entries
    -- one outbox row for each journal entry, in the same order
    pub matched : posted_ids l ≡ outbox_ids l

  committed-IsSound :
      (d : Draw) (req : TradeRequest F) (l : Ledger F) (cash : F)
      → Accepts d req l cash
      → IsSound l
      → IsSound (committed d req l)
  unfolding write_outbox
  committed-IsSound d req l cash (fresh, known, covered, _) h =
      let entry : JournalEntry = record {
        je_id = d.je;
        source_event_id = req.request_id;
        posted_at = d.entered_at;
      } in
      let pos = added fl (find_qty req.account_id req.symbol l.positions) (qty_delta_of req) in
      let row : OutboxRow F = record {
        event_id = d.event_id;
        event_type = "LedgerUpdated";
        payload = event_of d req (cash_delta_of req) pos;
        sent = false;
        created_at = d.created_at;
      } in
      record {
        idle = refl;
        mirrored =
            IsMirrored-append l.journal_lines (lines_of d.je req (cash_delta_of req)) h.mirrored
              (lines_of-IsMirrored d.je req (cash_delta_of req));
        solvent = λ a c found. ground (
          arith,
          lookup-update req.account_id a (λ x. fl.add x (cash_delta_of req)) l.accounts,
          eq_iff req.account_id a,
          h.solvent a c,
        );
        unique = IsUnique-append l.journal_entries _ h.unique fresh;
        matched = cc (
          h.matched,
          map-append (λ (e : JournalEntry). e.source_event_id) l.journal_entries (entry ∷ []),
          map-append (λ (r : OutboxRow F). r.payload.content.source_event_id) l.outbox_events
              (row ∷ []),
        );
      }

  audited-IsSound :
      (d : Draw) (req : TradeRequest F) (l : Ledger F) → IsSound l → IsSound (audited d req l)
  audited-IsSound d req l h = record {
    idle = h.idle;
    mirrored = h.mirrored;
    solvent = h.solvent;
    unique = h.unique;
    matched = h.matched;
  }

  Leaves-IsSound :
      (d : Draw) (req : TradeRequest F) (l after : Ledger F)
      → Leaves d req l after
      → IsSound l
      → IsSound after
  Leaves-IsSound d req l after (inl same) h = rw same h
  Leaves-IsSound d req l after (inr (inl (done, (cash, ok_)))) h =
      rw done (committed-IsSound d req l cash ok_ h)
  Leaves-IsSound d req l after (inr (inr row)) h = rw row (audited-IsSound d req l h)

  -- the ledger after a sequence of calls, whose caller catches what they raise
  unfoldable pub post_all : List (Call F) → Ledger F → Ledger F
  post_all [] l = l
  post_all (c ∷ cs) l = post_all cs (post_trade c.draw c.request c.crash l).1

  -- no call of the sequence raises IntegrityError
  abbrev pub KeepsConstraints : List (Call F) → Ledger F → Type 0
  KeepsConstraints [] l = Unit
  KeepsConstraints (c ∷ cs) l =
      let (r, after) = post_trade c.draw c.request c.crash l in
      (is_integrity_error r ≡ false) × KeepsConstraints cs after

  -- a call that raises no IntegrityError, by what it leaves
  pub call-Leaves :
      (c : Call F) (l : Ledger F)
      → l.undo ≡ none
      → is_integrity_error (post_trade c.draw c.request c.crash l).0 ≡ false
      → Leaves c.draw c.request l (post_trade c.draw c.request c.crash l).1
  call-Leaves c l idle quiet = elim (post_trade-Leaves c.draw c.request l c.crash idle) [
    | inl raised ↦ cc (raised, quiet)
    | inr left ↦ left
  ]

  -- Any sequence of postings, of any requests and with any crashes, none of which raises
  -- IntegrityError, keeps the ledger sound: no transaction stays open, the journal lines stay mirrored
  -- pairs, no account goes below zero, no request has two entries, and the requests of the journal are
  -- those of the outbox, in order.
  pub post_all-IsSound :
      (cs : List (Call F)) (l : Ledger F)
      → KeepsConstraints cs l
      → IsSound l
      → IsSound (post_all cs l)
  unfolding post_all
  post_all-IsSound [] l quiet h = h
  post_all-IsSound (c ∷ cs) l quiet h =
      post_all-IsSound cs (post_trade c.draw c.request c.crash l).1 quiet.1
        (Leaves-IsSound c.draw c.request l _ (call-Leaves c l h.idle quiet.0) h)
