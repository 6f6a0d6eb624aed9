-- ===== src/Pipeline/Engine/Replay.antt =====
-- Duplicates and replays change nothing of what the risk engine derives.
use event_driven_trading_led.Base.{
  ℕ, ◌+◌, String, ◌≡◌, refl, true, some, List, [], ◌∷◌, arith, length, All,
}
use event_driven_trading_led.Base.Exec.{ok}
use event_driven_trading_led.Base.Float.{Float}
use event_driven_trading_led.Outbox.Bus.{Group, find_group, put_group, pel_drop}
use event_driven_trading_led.Outbox.Bus.Groups.{xack_lem, find_group-put_group_self}
use event_driven_trading_led.Outbox.Consumer.{contains}
use event_driven_trading_led.Pipeline.Market.{Message, Stamp}
use event_driven_trading_led.Pipeline.Engine.{World, react, react_each}

module _ {F : Type 0} ⦃fl : Float F⦄ (stamps : String → Stamp) where
  -- the world once a delivery was skipped
  abbrev skipped_once : ℕ → Group (Message F) → World F → World F
  skipped_once eid g w = record w {
    bus = record (w.bus) {
      groups =
          put_group "ledger.updates" "cg:risk-engine" (record g { pel = pel_drop eid g.pel })
            w.bus.groups;
    };
    engine = record (w.engine) { skipped = w.engine.skipped + 1 };
  }

  react_seen :
      (eid : ℕ) (evt : Message F) (g : Group (Message F)) (w : World F)
      → find_group "ledger.updates" "cg:risk-engine" w.bus.groups ≡ some g
      → contains evt.event_id w.engine.seen ≡ true
      → react stamps eid evt w ≡ (ok tt, skipped_once eid g w)
  unfolding react
  react_seen eid evt g w here seen =
      rw (seen, xack_lem "ledger.updates" "cg:risk-engine" eid g w.bus here)

  -- Deliveries whose ids were all seen, in any order and as often as may be, are each skipped and
  -- acknowledged: nothing is published, and the positions, costs, returns, last value, prices, seen
  -- ids and applied count stay, where the engine's group is there.
  pub react_each_seen :
      (es : List (ℕ × Message F)) (g : Group (Message F)) (w : World F)
      → find_group "ledger.updates" "cg:risk-engine" w.bus.groups ≡ some g
      → All (λ e. contains e.1.event_id w.engine.seen ≡ true) es
      → let (r, w') = react_each stamps es w in
        (r ≡ ok tt)
        × (w'.bus.streams ≡ w.bus.streams)
        × (w'.latest ≡ w.latest)
        × (w'.engine ≡ record (w.engine) { skipped = w.engine.skipped + length es })
  unfolding react_each
  react_each_seen [] g w here seen = (refl, refl, refl, ground arith)
  react_each_seen ((eid, evt) ∷ es) g w here seen =
      let g' : Group (Message F) = record g { pel = pel_drop eid g.pel } in
      let rest =
        react_each_seen es g' (skipped_once eid g w)
          (find_group-put_group_self "ledger.updates" "cg:risk-engine" g' w.bus.groups) seen.1 in
      rw (react_seen eid evt g w here seen.0) (rest.0, rest.1, rest.2, ground (arith, rest.3))
