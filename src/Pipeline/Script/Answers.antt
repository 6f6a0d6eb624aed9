-- ===== src/Pipeline/Script/Answers.antt =====
-- The poll of the risk engine in run_pipeline.py, and its answers.
use event_driven_trading_led.Base.{
  ℕ, ◌≡◌, refl, false, Option, ◌+◌, length, String, List, [], ◌∷◌, ◌++◌, select,
}
use event_driven_trading_led.Base.Exec.{ok}
use event_driven_trading_led.Base.Dict.{Dict, lookup, insert}
use event_driven_trading_led.Base.Float.{Float}
use event_driven_trading_led.Outbox.Bus.{
  Group, xadd, entries, put_group, find_group, pel_put, read_loop, xreadgroup, pel_drop, xack,
}
use event_driven_trading_led.Outbox.Ledger.{Draw}
use event_driven_trading_led.Outbox.Consumer.{contains}
use event_driven_trading_led.Pipeline.Market.{Body, Message, Stamp}
use event_driven_trading_led.Pipeline.Gateway.Once.{AreDistinct}
use event_driven_trading_led.Pipeline.Engine.{
  RiskEngine, Update, update_of, compute, absorb, react, react_each, poll_ledger,
}
use event_driven_trading_led.Pipeline.Script.{correlation}
use event_driven_trading_led.Pipeline.Script.Stages.{
  bus_of, at_start, at_end, fresh, update_message, update_entries, answer,
}

module _ {F : Type 0} ⦃fl : Float F⦄ where
  pub compute_lem :
      (s : Stamp) (ts ls rs : List (ℕ × Message F)) (g h i j : Group (Message F)) (latest : Dict F)
      (c : RiskEngine F)
      → (x : Body F) × (returns : List F) × (last : Option F) × (compute s "acct_123" correlation
            (record { bus = bus_of ts ls rs g h i j; latest = latest; engine = c })
          ≡ record {
            bus = bus_of ts ls (rs ++ (length rs + 1, answer s x) ∷ []) g h i j;
            latest = latest;
            engine = record c { returns = returns; last_pv = last };
          })
  unfolding compute xadd entries lookup insert
  compute_lem s ts ls rs g h i j latest c = (_, _, _, refl)

  pub react_lem :
      (stamps : String → Stamp) (eid : ℕ) (d : Draw) (delta q : F) (ts ls rs : List (ℕ × Message F))
      (g h i j : Group (Message F)) (latest : Dict F) (c : RiskEngine F)
      → contains d.event_id c.seen ≡ false
      → (x : Body F) × (returns : List F) × (last : Option F) × (react stamps eid
            (update_message d delta q)
            (record { bus = bus_of ts ls rs g h i j; latest = latest; engine = c })
          ≡ (
            ok tt,
            record {
              bus =
                  bus_of ts ls
                    (rs ++ (length rs + 1, answer (stamps d.event_id) x) ∷ [])
                    g
                    (record h { pel = pel_drop eid h.pel })
                    i
                    j;
              latest = latest;
              engine =
                  record (absorb d.event_id
                    (record {
                      account_id = "acct_123";
                      symbol = "AAPL";
                      cash_delta = delta;
                      position_after = q;
                    })
                    c) { returns = returns; last_pv = last };
            },
          ))
  unfolding react xack find_group put_group update_of absorb
  react_lem stamps eid d delta q ts ls rs g h i j latest c new =
      let (x, returns, last, done) =
        compute_lem (stamps d.event_id) ts ls rs g (record h { pel = pel_drop eid h.pel }) i j
          latest
          (absorb d.event_id
            (record {
              account_id = "acct_123";
              symbol = "AAPL";
              cash_delta = delta;
              position_after = q;
            })
            c) in
      (x, returns, last, rw (new, done) refl)

  abbrev pub update_of_message : F → F → Update F
  update_of_message c q = record {
    account_id = "acct_123";
    symbol = "AAPL";
    cash_delta = c;
    position_after = q;
  }

  abbrev pub answers : Stamp → Stamp → Stamp → Body F → Body F → Body F → List (ℕ × Message F)
  answers s1 s2 s3 x1 x2 x3 = (1, answer s1 x1) ∷ (2, answer s2 x2) ∷ (3, answer s3 x3) ∷ []

  pub poll_lem :
      (stamps : String → Stamp) (d1 d2 d3 : Draw) (c q1 q2 q3 : F) (ts : List (ℕ × Message F))
      (g i j : Group (Message F)) (latest : Dict F)
      → let ls = update_entries d1 d2 d3 c q1 q2 q3 in
        AreDistinct (d1.event_id ∷ d2.event_id ∷ d3.event_id ∷ [])
        → (x1 x2 x3 : Body F) × (cost : Dict F) × (returns : List F) × (last : Option F)
          × (poll_ledger stamps
                (record { bus = bus_of ts ls [] g at_start i j; latest = latest; engine = fresh })
              ≡ (
                ok tt,
                record {
                  bus =
                      bus_of ts ls
                        (answers
                          (stamps d1.event_id)
                          (stamps d2.event_id)
                          (stamps d3.event_id)
                          x1
                          x2
                          x3)
                        g
                        (at_end 3)
                        i
                        j;
                  latest = latest;
                  engine = record {
                    seen = d1.event_id ∷ d2.event_id ∷ d3.event_id ∷ [];
                    pos = ("AAPL", q3) ∷ [];
                    cost = cost;
                    returns = returns;
                    last_pv = last;
                    applied = 3;
                    skipped = 0;
                  };
                },
              ))
  unfolding poll_ledger react_each absorb insert xreadgroup find_group put_group pel_put read_loop
      pel_drop select lookup
  poll_lem stamps d1 d2 d3 c q1 q2 q3 ts g i j latest k =
      let ls = update_entries d1 d2 d3 c q1 q2 q3 in
      let h0 : Group (Message F) = record { last = 3; pel = ls } in
      let h1 : Group (Message F) = record h0 { pel = pel_drop 1 h0.pel } in
      let h2 : Group (Message F) = record h1 { pel = pel_drop 2 h1.pel } in
      let (x1, r1, p1, done_1) = react_lem stamps 1 d1 c q1 ts ls [] g h0 i j latest fresh refl in
      let rs1 : List (ℕ × Message F) = (1, answer (stamps d1.event_id) x1) ∷ [] in
      let c1 : RiskEngine F = record (absorb d1.event_id (update_of_message c q1) fresh) {
        returns = r1;
        last_pv = p1;
      } in
      let (x2, r2, p2, done_2) =
        react_lem stamps 2 d2 c q2 ts ls rs1 g h1 i j latest c1 (rw k.0.0 refl) in
      let rs2 : List (ℕ × Message F) = rs1 ++ (2, answer (stamps d2.event_id) x2) ∷ [] in
      let c2 : RiskEngine F = record (absorb d2.event_id (update_of_message c q2) c1) {
        returns = r2;
        last_pv = p2;
      } in
      let (x3, r3, p3, done_3) =
        react_lem stamps 3 d3 c q3 ts ls rs2 g h2 i j latest c2 (rw (k.0.1.0, k.1.0.0) refl) in
      (
        x1,
        x2,
        x3,
        (absorb d3.event_id (update_of_message c q3) c2).cost,
        r3,
        p3,
        rw (done_1, done_2, done_3) refl,
      )
