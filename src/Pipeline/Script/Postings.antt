-- ===== src/Pipeline/Script/Postings.antt =====
-- The three postings of run_pipeline.py.
use event_driven_trading_led.Base.{◌≡◌, refl, false, String, List, [], ◌∷◌, ◌++◌}
use event_driven_trading_led.Base.Exec.{ok}
use event_driven_trading_led.Base.Dict.{lookup, update}
use event_driven_trading_led.Base.Float.{Float}
use event_driven_trading_led.Outbox.Ledger.{
  Ledger, new_ledger, find_entry, cash_delta_of, has_entry, has_audit, has_event, qty_is_null,
  qty_delta_of, find_qty, add_qty, audit_of, event_of, write_outbox, lines_of,
}
use event_driven_trading_led.Outbox.Ledger.Posting.{committed, post_trade_atomic}
use event_driven_trading_led.Outbox.Ledger.DoubleEntry.{
  IsMirrored, IsMirrored-append, lines_of-IsMirrored,
}
use event_driven_trading_led.Pipeline.Gateway.Once.{AreDistinct}
use event_driven_trading_led.Pipeline.Script.{Draws, trade_request, post_each}

module _ (F : Type 0) ⦃fl : Float F⦄ where
  abbrev pub last_price : F
  last_price = fl.decimal 1030 1

  abbrev pub paid : F
  paid = fl.mul (fl.neg (fl.decimal 10 0)) last_price

  abbrev pub cash_0 : F
  cash_0 = fl.decimal 100000 1

  abbrev pub cash_1 : F
  cash_1 = fl.add cash_0 paid

  abbrev pub cash_2 : F
  cash_2 = fl.add cash_1 paid

  abbrev pub ten : F
  ten = fl.decimal 10 0

  -- the cash covers a trade, and what is left is no NaN
  abbrev pub Covers : F → Type 0
  Covers c = (fl.lt (fl.add c paid) (fl.decimal 0 0) ≡ false) × (fl.is_nan (fl.add c paid) ≡ false)

  -- the three trades are paid for, and what they store is no NaN
  pub record Affords : Type 0 where
    pub one : Covers cash_0
    pub two : Covers cash_1
    pub three : Covers cash_2
    pub amount : fl.is_nan (fl.abs paid) ≡ false
    pub held_one : fl.is_nan ten ≡ false
    pub held_two : fl.is_nan (fl.add ten ten) ≡ false
    pub held_three : fl.is_nan (fl.add (fl.add ten ten) ten) ≡ false

module _ (draws : Draws) where
  -- the ids of the ticks and of the engine's answers, in the order of the gateway's streams
  abbrev pub gateway_ids : List String
  gateway_ids =
      (draws.ticks 0).event_id
      ∷ (draws.ticks 1).event_id
      ∷ (draws.ticks 2).event_id
      ∷ (draws.ticks 3).event_id
      ∷ (draws.ticks 4).event_id
      ∷ (draws.stamps (draws.posts "t1").event_id).event_id
      ∷ (draws.stamps (draws.posts "t2").event_id).event_id
      ∷ (draws.stamps (draws.posts "t3").event_id).event_id
      ∷ []

  abbrev pub ledger_ids : List String
  ledger_ids =
      (draws.posts "t1").event_id ∷ (draws.posts "t2").event_id ∷ (draws.posts "t3").event_id ∷ []

  -- the ids that the postings draw differ, table by table
  pub record ArePostsApart : Type 0 where
    pub entries :
        AreDistinct ((draws.posts "t1").je ∷ (draws.posts "t2").je ∷ (draws.posts "t3").je ∷ [])
    pub audits : AreDistinct (
        (draws.posts "t1").audit_id
        ∷ (draws.posts "t2").audit_id
        ∷ (draws.posts "t3").audit_id
        ∷ [])
    pub events : AreDistinct ledger_ids

module _ {F : Type 0} ⦃fl : Float F⦄ (draws : Draws) where
  abbrev pub books_1 : Ledger F
  books_1 = committed (draws.posts "t1") (trade_request "t1" (last_price F)) new_ledger

  abbrev pub books_2 : Ledger F
  books_2 = committed (draws.posts "t2") (trade_request "t2" (last_price F)) books_1

  abbrev pub books_3 : Ledger F
  books_3 = committed (draws.posts "t3") (trade_request "t3" (last_price F)) books_2

  pub posts_lem :
      Affords F
      → ArePostsApart draws
      → post_each draws.posts (last_price F) ("t1" ∷ "t2" ∷ "t3" ∷ []) new_ledger ≡ (ok tt, books_3)
  unfolding post_each find_entry lookup update cash_delta_of write_outbox has_entry has_audit
      has_event qty_is_null qty_delta_of find_qty add_qty audit_of event_of
  posts_lem funds apart =
      let e = apart.entries in
      let a = apart.audits in
      let v = apart.events in
      let first =
        (post_trade_atomic (draws.posts "t1") (trade_request "t1" (last_price F)) new_ledger
          (cash_0 F)
          (
            refl,
            refl,
            funds.one.0,
            record {
              idle = refl;
              entry_new = refl;
              amount = funds.amount;
              left = funds.one.1;
              held = rw funds.held_one refl;
              audit_new = refl;
              event_new = refl;
            },
          )).0 in
      let second =
        (post_trade_atomic (draws.posts "t2") (trade_request "t2" (last_price F)) books_1 (cash_1 F)
          (
            refl,
            refl,
            funds.two.0,
            record {
              idle = refl;
              entry_new = rw e.0.0 refl;
              amount = funds.amount;
              left = funds.two.1;
              held = rw (funds.held_one, funds.held_two) refl;
              audit_new = rw a.0.0 refl;
              event_new = rw v.0.0 refl;
            },
          )).0 in
      let third =
        (post_trade_atomic (draws.posts "t3") (trade_request "t3" (last_price F)) books_2 (cash_2 F)
          (
            refl,
            refl,
            funds.three.0,
            record {
              idle = refl;
              entry_new = rw (e.0.1.0, e.1.0.0) refl;
              amount = funds.amount;
              left = funds.three.1;
              held = rw (funds.held_one, funds.held_three) refl;
              audit_new = rw (a.0.1.0, a.1.0.0) refl;
              event_new = rw (v.0.1.0, v.1.0.0) refl;
            },
          )).0 in
      rw (first, second, third) refl

module _ (F : Type 0) ⦃fl : Float F⦄ (draws : Draws) where
  pub mirrored : IsMirrored {F = F} (books_3 {F = F} draws).journal_lines
  unfolding write_outbox
  mirrored =
      let r1 = trade_request "t1" (last_price F) in
      let r2 = trade_request "t2" (last_price F) in
      let r3 = trade_request "t3" (last_price F) in
      let l1 = lines_of (draws.posts "t1").je r1 (cash_delta_of r1) in
      let l2 = lines_of (draws.posts "t2").je r2 (cash_delta_of r2) in
      let l3 = lines_of (draws.posts "t3").je r3 (cash_delta_of r3) in
      IsMirrored-append (l1 ++ l2) l3
        (IsMirrored-append l1 l2 (lines_of-IsMirrored (draws.posts "t1").je r1 (cash_delta_of r1))
          (lines_of-IsMirrored (draws.posts "t2").je r2 (cash_delta_of r2)))
        (lines_of-IsMirrored (draws.posts "t3").je r3 (cash_delta_of r3))
