-- ===== src/Pipeline/Script/Resilience.antt =====
-- The end of run_pipeline.py: the duplicate and the replay leave the positions.
use event_driven_trading_led.Base.{
  ℕ, ◌+◌, ◌≤◌, String, ◌≡◌, refl, ap, true, false, some, List, [], ◌∷◌, ◌++◌, arith, length, leb,
  take, All, All-append, All-take, All-select, ltb, map, subst, sym,
}
use event_driven_trading_led.Base.Exec.{ok, assert_that}
use event_driven_trading_led.Base.Dict.{Dict, lookup, lookup-insert_self}
use event_driven_trading_led.Base.Keys.{HasDistinctKeys, AreIn, AreIn-head, AreIn-map}
use event_driven_trading_led.Base.Float.{Float, EqSelf}
use event_driven_trading_led.Outbox.Bus.{Group, xadd, setid, entries}
use event_driven_trading_led.Outbox.Bus.Delivery.{IsNumbered, undelivered, undelivered_all, batch}
use event_driven_trading_led.Outbox.Bus.Groups.{find_group-put_group_self}
use event_driven_trading_led.Outbox.Bus.Reads.{
  IsReady, IsNumbered-append, xreadgroup_lem, advance, after_read,
}
use event_driven_trading_led.Outbox.Consumer.{contains}
use event_driven_trading_led.Pipeline.Market.{Message, Stamp}
use event_driven_trading_led.Pipeline.Engine.{World, poll_ledger}
use event_driven_trading_led.Pipeline.Engine.Replay.{react_each_seen}
use event_driven_trading_led.Pipeline.Script.{last_message, dict_holds, same_dict, resist}

module _ {F : Type 0} where
  last_message_lem :
      (P : ℕ × Message F → Type 0) (i : ℕ) (m : Message F) (es : List (ℕ × Message F))
      → ((j k : ℕ) (x : Message F) → P (j, x) → P (k, x))
      → All P ((i, m) ∷ es)
      → (x : Message F) × (last_message ((i, m) ∷ es) ≡ ok x) × ((k : ℕ) → P (k, x))
  unfolding last_message
  last_message_lem P i m [] any h = (m, refl, λ k. any i k m h.0)
  last_message_lem P i m ((j, n) ∷ es) any h = last_message_lem P j n es any h.1

module _ {F : Type 0} ⦃fl : Float F⦄ where
  dict_holds_lem :
      (d before : Dict F)
      → EqSelf fl
      → All (λ item. fl.is_nan item.1 ≡ false) d
      → AreIn (λ x. x) d before
      → dict_holds d before ≡ true
  dict_holds_lem [] before law numbers h = refl
  dict_holds_lem ((k, q) ∷ d) before law numbers h =
      let (here, later) = AreIn-head (λ x. x) k q d before h in
      rw (here, law.eq_self q numbers.0, dict_holds_lem d before law numbers.1 later) refl

  map_same : (d : Dict F) → map (λ item. (item.0, item.1)) d ≡ d
  map_same [] = refl
  map_same (x ∷ d) = ap (◌∷◌ x) (map_same d)

  -- each symbol has one position, and none is a NaN
  abbrev pub HasPositions : World F → Type 0
  HasPositions w =
      HasDistinctKeys w.engine.pos × All (λ item. fl.is_nan item.1 ≡ false) w.engine.pos

  same_dict_self :
      (d : Dict F)
      → EqSelf fl
      → HasDistinctKeys d
      → All (λ item. fl.is_nan item.1 ≡ false) d
      → same_dict d d ≡ true
  same_dict_self d law keys numbers =
      let same : AreIn (λ x. x) d d =
        subst (AreIn (λ x. x) d) (map_same d) (AreIn-map (λ x. x) d keys) in
      rw (dict_holds_lem d d law numbers same) (ground arith)

  -- the events that the engine has seen
  abbrev pub HasSeen : World F → List (ℕ × Message F) → Type 0
  HasSeen w = All (λ e. contains e.1.event_id w.engine.seen ≡ true)

  poll_ledger_seen :
      (stamps : String → Stamp) (es : List (ℕ × Message F)) (g : Group (Message F)) (w : World F)
      → IsReady "ledger.updates" "cg:risk-engine" es g w.bus
      → HasSeen w es
      → let (r, w') = poll_ledger stamps w in
        (r ≡ ok tt)
        × (w'.engine
            ≡ record (w.engine) { skipped = w.engine.skipped + length (batch 10 g.last es) })
  unfolding poll_ledger
  poll_ledger_seen stamps es g w ready seen =
      let P : ℕ × Message F → Type 0 = λ e. contains e.1.event_id w.engine.seen ≡ true in
      let given : HasSeen w (batch 10 g.last es) =
        All-take P 10 (undelivered g.last es) (All-select P (λ e. ltb g.last e.0) es seen) in
      let b = after_read "ledger.updates" "cg:risk-engine" 10 es g w.bus in
      let here =
        find_group-put_group_self "ledger.updates" "cg:risk-engine" (advance 10 es g)
          w.bus.groups in
      let done =
        react_each_seen stamps (batch 10 g.last es) (advance 10 es g) (record w { bus = b }) here
          given in
      rw (xreadgroup_lem "ledger.updates" "cg:risk-engine" 9 es g w.bus ready) (done.0, done.3)

  -- the bus with the duplicate of a message, and the group set back to the start
  abbrev rewound : Message F → World F → World F
  rewound m w = record w {
    bus = (setid "ledger.updates" "cg:risk-engine" 0 (xadd "ledger.updates" m w.bus).1).1;
  }

  abbrev from_start : Group (Message F)
  from_start = record { last = 0; pel = [] }

  rewound-IsReady :
      (m : Message F) (es : List (ℕ × Message F)) (w : World F)
      → lookup "ledger.updates" w.bus.streams ≡ some es
      → IsNumbered 0 es
      → IsReady "ledger.updates" "cg:risk-engine"
          (es ++ (length es + 1, m) ∷ [])
          from_start
          (rewound m w).bus
  unfolding setid xadd entries
  rewound-IsReady m es w stream numbered = record {
    has_stream =
        subst
          (λ x.
            lookup "ledger.updates" (rewound m w).bus.streams ≡ some (x ++ (length x + 1, m) ∷ []))
          held (lookup-insert_self "ledger.updates" _ w.bus.streams);
    has_group = find_group-put_group_self "ledger.updates" "cg:risk-engine" from_start w.bus.groups;
    numbered = IsNumbered-append 0 (length es + 1) es m numbered (omega arith);
    below = tt;
  }
    where
      held : entries "ledger.updates" w.bus ≡ es
      held = rw (entries, stream) refl

  rewound-engine : (m : Message F) (w : World F) → (rewound m w).engine ≡ w.engine
  unfolding setid xadd
  rewound-engine m w = refl

  three_skipped :
      (n : ℕ) (d : ℕ × Message F) (es : List (ℕ × Message F))
      → 2 ≤ length es
      → leb 3 (n + length (take 10 (es ++ d ∷ []))) ≡ true
  three_skipped n d (x ∷ y ∷ []) h = ground arith
  three_skipped n d (x ∷ y ∷ z ∷ es) h = ground arith
  three_skipped n d [] h = ground arith
  three_skipped n d (x ∷ []) h = ground arith

  -- The resilience pass succeeds on any world whose stream `ledger.updates` is numbered, holds at
  -- least two events, and holds only events that the engine has seen, where each symbol has one
  -- position and none is a NaN: the duplicate and the replay raise nothing, leave the positions, and
  -- are counted as skipped.
  pub resist_passes :
      (stamps : String → Stamp) (es : List (ℕ × Message F)) (w : World F)
      → EqSelf fl
      → lookup "ledger.updates" w.bus.streams ≡ some es
      → IsNumbered 0 es
      → 2 ≤ length es
      → HasSeen w es
      → HasPositions w
      → resist stamps w ≡ ok tt
  unfolding resist assert_that
  resist_passes stamps [] w law stream numbered two seen positions = absurd (omega arith)
  resist_passes stamps ((i, m) ∷ es) w law stream numbered two seen positions =
      let P : ℕ × Message F → Type 0 = λ e. contains e.1.event_id w.engine.seen ≡ true in
      let (x, last, known) = last_message_lem P i m es (λ j k y h. h) seen in
      let all : List (ℕ × Message F) = ((i, m) ∷ es) ++ (length ((i, m) ∷ es) + 1, x) ∷ [] in
      let ready = rewound-IsReady x ((i, m) ∷ es) w stream numbered in
      let again =
        All-append P ((i, m) ∷ es) ((length ((i, m) ∷ es) + 1, x) ∷ []) seen (known 0, tt) in
      let (quiet, after) = poll_ledger_seen stamps all from_start (rewound x w) ready again in
      let same = same_dict_self w.engine.pos law positions.0 positions.1 in
      let enough : leb 3 (w.engine.skipped + length (batch 10 0 all)) ≡ true =
        subst (λ d. leb 3 (w.engine.skipped + length (take 10 d)) ≡ true)
          (sym (undelivered_all 0 0 all ready.numbered (omega arith)))
          (three_skipped w.engine.skipped (length ((i, m) ∷ es) + 1, x) ((i, m) ∷ es) two) in
      rw (stream, last, quiet, after, same, enough) refl
