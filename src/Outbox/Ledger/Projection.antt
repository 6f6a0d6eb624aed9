-- ===== src/Outbox/Ledger/Projection.antt =====
-- What the outbox tells of the positions, after every sequence of `post_trade` calls.
use event_driven_trading_led.Base.{
  String, ◌≡◌, refl, ap, sym, ◌∙◌, false, none, not, List, [], ◌∷◌, ◌++◌, arith, ◌==◌, map, select,
  All, All-append, inl, inr, map-append, subst, append-nil, append_assoc,
}
use event_driven_trading_led.Base.Float.{Float}
use event_driven_trading_led.Outbox.Ledger.{
  TradeRequest, Draw, Ledger, LedgerUpdated, OutboxRow, Position, find_qty, add_qty, qty_delta_of,
  cash_delta_of, event_of, write_outbox, post_trade, unsent_outbox, new_ledger,
}
use event_driven_trading_led.Outbox.Ledger.Posting.{added, Leaves, committed, audited}
use event_driven_trading_led.Outbox.Ledger.Invariant.{Call, post_all, KeepsConstraints, call-Leaves}
use event_driven_trading_led.Outbox.Consumer.{contains, set_view}
use event_driven_trading_led.Outbox.Consumer.Dedupe.{
  view_after, ids, first_deliveries, contains-append,
}

module _ {F : Type 0} where
  -- a list of events none of whose ids was seen, nor stands earlier
  abbrev pub AreNew : List String → List (LedgerUpdated F) → Type 0
  AreNew seen [] = Unit
  AreNew seen (e ∷ es) = (contains e.event_id seen ≡ false) × AreNew (seen ++ e.event_id ∷ []) es

  pub first_deliveries-AreNew :
      (seen : List String) (es : List (LedgerUpdated F))
      → AreNew seen es
      → first_deliveries seen es ≡ es
  unfolding first_deliveries
  first_deliveries-AreNew seen [] h = refl
  first_deliveries-AreNew seen (e ∷ es) h =
      rw h.0 (ap (◌∷◌ e) (first_deliveries-AreNew (seen ++ e.event_id ∷ []) es h.1))

  AreNew-append :
      (seen : List String) (es : List (LedgerUpdated F)) (e : LedgerUpdated F)
      → AreNew seen es
      → contains e.event_id (seen ++ ids es) ≡ false
      → AreNew seen (es ++ e ∷ [])
  AreNew-append seen [] e h new =
      (subst (λ k. contains e.event_id k ≡ false) (append-nil seen) new, tt)
  AreNew-append seen (x ∷ es) e h new = (
    h.0,
    AreNew-append (seen ++ x.event_id ∷ []) es e h.1 (
        subst (λ k. contains e.event_id k ≡ false)
          (sym (append_assoc seen (x.event_id ∷ []) (ids es))) new),
  )

  view_after-append :
      (es : List (LedgerUpdated F)) (view : List (Position F)) (e : LedgerUpdated F)
      → view_after view (es ++ e ∷ [])
        ≡ set_view e.content.account_id e.content.symbol e.content.position_after
            (view_after view es)
  view_after-append [] view e = refl
  view_after-append (x ∷ es) view e =
      view_after-append es
        (set_view x.content.account_id x.content.symbol x.content.position_after view) e

  -- setting a position to what an addition makes of it is that addition
  set_view-added :
      (fl : Float F) (a s : String) (q : F) (ps : List (Position F))
      → set_view a s (added fl (find_qty a s ps) q) ps ≡ add_qty fl a s q ps
  unfolding set_view add_qty find_qty
  set_view-added fl a s q [] = refl
  set_view-added fl a s q (p ∷ ps) = ground (arith, set_view-added fl a s q ps)

  abbrev pub events : Ledger F → List (LedgerUpdated F)
  events l = map (λ r. r.payload) l.outbox_events

module _ {F : Type 0} ⦃fl : Float F⦄ where
  -- the outbox tells the positions, its rows are unsent, and its event ids differ
  pub record IsProjected (l : Ledger F) : Type 0 where
    pub idle : l.undo ≡ none
    pub told : view_after [] (events l) ≡ l.positions
    pub waiting : All (λ r. r.sent ≡ false) l.outbox_events
    pub new : AreNew [] (events l)

  row_of : Draw → TradeRequest F → Ledger F → OutboxRow F
  row_of d req l = record {
    event_id = d.event_id;
    event_type = "LedgerUpdated";
    payload =
        event_of d req (cash_delta_of req)
          (added fl (find_qty req.account_id req.symbol l.positions) (qty_delta_of req));
    sent = false;
    created_at = d.created_at;
  }

  committed-IsProjected :
      (d : Draw) (req : TradeRequest F) (l : Ledger F)
      → contains d.event_id (ids (events l)) ≡ false
      → IsProjected l
      → IsProjected (committed d req l)
  unfolding write_outbox row_of event_of
  committed-IsProjected d req l fresh h =
      let row = row_of d req l in
      let grown : events (committed d req l) ≡ events l ++ row.payload ∷ [] =
        map-append (λ (r : OutboxRow F). r.payload) l.outbox_events (row ∷ []) in
      record {
        idle = refl;
        told =
            ap (view_after []) grown
            ∙ view_after-append (events l) [] row.payload
            ∙ ap (set_view req.account_id req.symbol row.payload.content.position_after) h.told
            ∙ set_view-added fl req.account_id req.symbol (qty_delta_of req) l.positions;
        waiting =
            All-append (λ (r : OutboxRow F). r.sent ≡ false) l.outbox_events (row ∷ []) h.waiting
              (refl, tt);
        new = rw grown (AreNew-append [] (events l) row.payload h.new fresh);
      }

  -- the events of rows that are all unsent
  unsent_rows :
      (rows : List (OutboxRow F))
      → All (λ r. r.sent ≡ false) rows
      → map
          (λ (r : String × LedgerUpdated F). r.1)
          (map (λ (r : OutboxRow F). (r.event_id, r.payload)) (select (λ r. not r.sent) rows))
        ≡ map (λ r. r.payload) rows
  unfolding select
  unsent_rows [] h = refl
  unsent_rows (r ∷ rows) h = rw h.0 (ap (◌∷◌ r.payload) (unsent_rows rows h.1))

  pub payloads-unsent_outbox :
      (l : Ledger F) → IsProjected l → map (λ r. r.1) (unsent_outbox l) ≡ events l
  unfolding unsent_outbox
  payloads-unsent_outbox l h = unsent_rows l.outbox_events h.waiting

  -- no two calls draw one event id, and no event of a ledger has the id of a call
  abbrev pub DrawsApart : List (Call F) → Type 0
  DrawsApart [] = Unit
  DrawsApart (c ∷ cs) = All (λ x. (c.draw.event_id == x.draw.event_id) ≡ false) cs × DrawsApart cs

  abbrev pub DrawsFresh : Ledger F → List (Call F) → Type 0
  DrawsFresh l = All (λ x. contains x.draw.event_id (ids (events l)) ≡ false)

  ids-committed :
      (d : Draw) (req : TradeRequest F) (l : Ledger F)
      → ids (events (committed d req l)) ≡ ids (events l) ++ d.event_id ∷ []
  unfolding write_outbox row_of event_of
  ids-committed d req l =
      ap ids (map-append (λ (r : OutboxRow F). r.payload) l.outbox_events (row_of d req l ∷ []))
      ∙ map-append (λ (e : LedgerUpdated F). e.event_id) (events l) ((row_of d req l).payload ∷ [])

  DrawsFresh-committed :
      (d : Draw) (req : TradeRequest F) (l : Ledger F) (cs : List (Call F))
      → All (λ x. (d.event_id == x.draw.event_id) ≡ false) cs
      → DrawsFresh l cs
      → DrawsFresh (committed d req l) cs
  DrawsFresh-committed d req l [] apart fresh = tt
  DrawsFresh-committed d req l (x ∷ cs) apart fresh = (
    rw (
      ids-committed d req l,
      contains-append x.draw.event_id d.event_id (ids (events l)),
      fresh.0,
      apart.0,
    ),
    DrawsFresh-committed d req l cs apart.1 fresh.1,
  )

  audited-IsProjected :
      (d : Draw) (req : TradeRequest F) (l : Ledger F)
      → IsProjected l
      → IsProjected (audited d req l)
  audited-IsProjected d req l h = record {
    idle = h.idle;
    told = h.told;
    waiting = h.waiting;
    new = h.new;
  }

  -- one call, by what it leaves
  Leaves-IsProjected :
      (c : Call F) (cs : List (Call F)) (l after : Ledger F)
      → Leaves c.draw c.request l after
      → DrawsApart (c ∷ cs)
      → DrawsFresh l (c ∷ cs)
      → IsProjected l
      → IsProjected after × DrawsFresh after cs
  Leaves-IsProjected c cs l after (inl same) apart fresh h = rw same (h, fresh.1)
  Leaves-IsProjected c cs l after (inr (inl (done, _))) apart fresh h = rw done (
    committed-IsProjected c.draw c.request l fresh.0 h,
    DrawsFresh-committed c.draw c.request l cs apart.0 fresh.1,
  )
  Leaves-IsProjected c cs l after (inr (inr row)) apart fresh h =
      rw row (audited-IsProjected c.draw c.request l h, fresh.1)

  -- Any sequence of postings with event ids that differ, none of which raises IntegrityError, keeps this: the events of the outbox, applied
  -- in order to an empty view, give the positions; every row is unsent; and no event id stands twice.
  pub post_all-IsProjected :
      (cs : List (Call F)) (l : Ledger F)
      → DrawsApart cs
      → DrawsFresh l cs
      → KeepsConstraints cs l
      → IsProjected l
      → IsProjected (post_all cs l)
  unfolding post_all
  post_all-IsProjected [] l apart fresh quiet h = h
  post_all-IsProjected (c ∷ cs) l apart fresh quiet h =
      let after = (post_trade c.draw c.request c.crash l).1 in
      let step = Leaves-IsProjected c cs l after (call-Leaves c l h.idle quiet.0) apart fresh h in
      post_all-IsProjected cs after apart.1 step.1 quiet.1 step.0

  pub new_ledger-IsProjected : IsProjected new_ledger
  new_ledger-IsProjected = record { idle = refl; told = refl; waiting = tt; new = tt }

  pub new_ledger-DrawsFresh : (cs : List (Call F)) → DrawsFresh new_ledger cs
  new_ledger-DrawsFresh [] = tt
  new_ledger-DrawsFresh (c ∷ cs) = (refl, new_ledger-DrawsFresh cs)
