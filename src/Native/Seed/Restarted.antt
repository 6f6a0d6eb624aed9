-- ===== src/Native/Seed/Restarted.antt =====
-- poc/native-kill-restart/run_proof.py: the consumer process as the script runs it, killed and then
-- restarted.
use event_driven_trading_led.Base.{
  String, ℕ, suc, ◌<◌, ◌≡◌, refl, ap, true, false, Option, some, List, [], ◌++◌, map, length, All,
}
use event_driven_trading_led.Base.Exec.{ok}
use event_driven_trading_led.Base.Float.{Float}
use event_driven_trading_led.Native.Store.{KillStore, processed_ids, projection}
use event_driven_trading_led.Native.Relay.{Pipe, relay_run}
use event_driven_trading_led.Native.Consumer.{handle_each}
use event_driven_trading_led.Native.Consumer.Delivery.{Delivery}
use event_driven_trading_led.Native.Process.{Round, exit_done, consume}
use event_driven_trading_led.Native.Process.Drains.{
  events_of, entries_of, is_busy, IsQuiet, handle_each-append, consume_drains,
}
use event_driven_trading_led.Native.Script.{started}
use event_driven_trading_led.Native.Seed.{
  Trade, Codec, seed_account, seed_cash, postings, generate_from, baseline,
}
use event_driven_trading_led.Native.Seed.Baseline.{ids, as_values, Sound, IsClean, IsDistinct}
use event_driven_trading_led.Native.Seed.Run.{seeded_store}
use event_driven_trading_led.Native.Seed.Proof.{run_proof_lem}

module _ {F : Type 0} ⦃fl : Float F⦄ (codec : Codec F) where
  -- the shared file and the stream after the killed run of the relay and the next one
  abbrev pub relayed : List (Trade F) → ℕ → Pipe F
  relayed trades j =
      let start : Pipe F = record {
        db = seeded_store codec (generate_from codec trades);
        stream = [];
      } in
      (relay_run 0 (relay_run (suc j) start).1).1

  -- what the script asserts of the store at its end
  abbrev pub IsBaseline : List (Trade F) → KillStore F → Type 0
  IsBaseline trades s =
      (processed_ids s ≡ ids (postings codec 1 [] trades))
      × (baseline codec (generate_from codec trades)
          ≡ ok ((projection seed_account s).0, as_values (projection seed_account s).1))

  -- Any trades, read as they are written, with ids that differ and no NaN among their sums, are
  -- relayed by a run that is killed on a row and by a second one. A first consumer process handled
  -- some entries before it died. A restarted one gets, in busy rounds, what is left of a delivery of
  -- the stream, in which each entry comes in order and any earlier one again at any time, and then
  -- as many quiet rounds as it may idle, at least one. It ends with exit code 0, it has acknowledged
  -- each entry that it was given, and the store has each event recorded once, in order, and the cash
  -- and the positions of the baseline.
  pub run_proof_restarted :
      (trades : List (Trade F)) (j max_idle : ℕ) (before : List (Option String))
      (busy quiet : List Round)
      → let ps = postings codec 1 [] trades in
        let p = relayed trades j in
        let died = (handle_each codec.loads before p.db).1 in
        let (end, run) = consume codec.loads 0 max_idle (busy ++ quiet) (started died) in
        All (Sound codec) ps
        → IsDistinct codec ps
        → fl.is_nan seed_cash ≡ false
        → IsClean codec seed_cash ps
        → j < length trades
        → Delivery [] (map some p.stream) (before ++ events_of (entries_of busy))
        → 0 < max_idle
        → All (λ r. is_busy r ≡ true) busy
        → All IsQuiet quiet
        → length quiet ≡ max_idle
        → (end ≡ ok exit_done) × (run.acked ≡ entries_of busy) × IsBaseline trades run.db
  run_proof_restarted trades j max_idle before busy quiet sound distinct number clean lt d some_idle
        hb hq at =
      let p = relayed trades j in
      let rest = events_of (entries_of busy) in
      let (_, (ends, recorded, told)) =
        run_proof_lem codec trades j (before ++ rest) sound distinct number clean lt d in
      let final = (handle_each codec.loads (before ++ rest) p.db).1 in
      let whole : handle_each codec.loads (before ++ rest) p.db ≡ (ok tt, final) =
        ap (λ e. (e, final)) ends in
      let (t, first, second) = handle_each-append codec.loads before rest p.db final whole in
      let same : (handle_each codec.loads before p.db).1 ≡ t = ap (λ r. r.1) first in
      let drained =
        consume_drains codec.loads max_idle busy quiet (started t) final refl some_idle hb hq at
          second in
      rw (same, drained) (refl, refl, (recorded, told))
