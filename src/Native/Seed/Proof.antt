-- ===== src/Native/Seed/Proof.antt =====
-- poc/native-kill-restart/run_proof.py: what the run with both kills asserts at its end.
use event_driven_trading_led.Base.{
  ℕ, zero, suc, ◌+◌, ◌<◌, String, ◌≡◌, refl, ap, sym, subst, ◌∙◌, false, Option, some, List, [],
  ◌∷◌, ◌++◌, select, map, take, drop, length, length-map, All, arith,
}
use event_driven_trading_led.Base.Exec.{ok}
use event_driven_trading_led.Base.Dict.{lookup}
use event_driven_trading_led.Base.Float.{Float}
use event_driven_trading_led.Native.Store.{
  OutboxEvent, KillStore, unsent_rows, unsent_count, projection, already_processed,
}
use event_driven_trading_led.Native.Relay.{Pipe, exit_ok, exit_killed, relay_run}
use event_driven_trading_led.Native.Relay.Restart.{IsUnique, payloads, relay_run_restarted}
use event_driven_trading_led.Native.Relay.Effects.{SameEffects-trans, relay_run-SameEffects}
use event_driven_trading_led.Native.Consumer.{handle_each}
use event_driven_trading_led.Native.Consumer.Delivery.{Delivery, twice, handle_each-Delivery}
use event_driven_trading_led.Native.Seed.{
  Trade, Posting, Codec, seed_account, seed_cash, postings, event_of, generate_from, baseline,
}
use event_driven_trading_led.Native.Seed.Baseline.{
  positions_of, folded, ids, as_values, Sound, delivery_of, IsClean, IsDistinct, IsNew,
  baseline_from_lem, handle_each-deliveries,
}
use event_driven_trading_led.Native.Seed.Run.{
  row_of, seeded_store, seeded_store_lem, select-row_of, IsUnique-row_of,
}

length-twice :
    {A : Type 0}
    → (j : ℕ) (xs : List A) → j < length xs
    → length (take (suc j) xs ++ drop j xs) ≡ length xs + 1
length-twice j [] h = absurd (omega arith)
length-twice zero (x ∷ xs) h = omega arith
length-twice (suc j) (x ∷ xs) h = omega (arith, length-twice j xs (omega arith))

module _ {F : Type 0} ⦃fl : Float F⦄ (codec : Codec F) where
  pub length-postings :
      (i : ℕ) (d : List (String × F)) (ts : List (Trade F))
      → length (postings codec i d ts) ≡ length ts
  unfolding postings
  length-postings i d [] = refl
  length-postings i d (t ∷ ts) = ap suc (length-postings (i + 1) _ ts)

  deliveries_of :
      (ps : List (Posting F))
      → map some (payloads (map (row_of codec) ps)) ≡ map (delivery_of codec) ps
  deliveries_of [] = refl
  deliveries_of (p ∷ ps) = ap (◌∷◌ (delivery_of codec p)) (deliveries_of ps)

  deliveries_twice :
      (j : ℕ) (ps : List (Posting F))
      → let rows = map (row_of codec) ps in
        let es = map (delivery_of codec) ps in
        map some (payloads (take (suc j) rows ++ drop j rows)) ≡ take (suc j) es ++ drop j es
  deliveries_twice zero [] = refl
  deliveries_twice (suc j) [] = refl
  deliveries_twice zero (p ∷ ps) =
      ap (λ es. delivery_of codec p ∷ delivery_of codec p ∷ es) (deliveries_of ps)
  deliveries_twice (suc j) (p ∷ ps) = ap (◌∷◌ (delivery_of codec p)) (deliveries_twice j ps)

  IsNew-fresh :
      (s : KillStore F) (ps : List (Posting F)) → s.processed_events ≡ [] → IsNew codec s ps
  unfolding already_processed
  IsNew-fresh s [] h = tt
  IsNew-fresh s (p ∷ ps) h = (rw h refl, IsNew-fresh s ps h)

  relay_part :
      (ps : List (Posting F)) (j : ℕ) (p : Pipe F)
      → unsent_rows p.db ≡ map (row_of codec) ps
      → p.stream ≡ []
      → IsDistinct codec ps
      → j < length ps
      → let es = map (delivery_of codec) ps in
        let (killed, p') = relay_run (suc j) p in
        let (ended, p'') = relay_run 0 p' in
        (killed ≡ exit_killed)
        × (ended ≡ exit_ok)
        × (unsent_count p''.db ≡ 0)
        × (length p''.stream ≡ length ps + 1)
        × (map some p''.stream ≡ take (suc j) es ++ drop j es)
  relay_part ps j p rows empty distinct lt =
      let row = row_of codec in
      let unique = subst IsUnique (sym rows) (IsUnique-row_of codec ps distinct) in
      let short : j < length (unsent_rows p.db) = rw (rows, length-map row ps) lt in
      let (killed, ended, unsent, stream) = relay_run_restarted j p unique short in
      let all = (relay_run 0 (relay_run (suc j) p).1).1.stream in
      let published : all ≡ payloads (take (suc j) (map row ps) ++ drop j (map row ps)) =
        stream ∙ rw (rows, empty) in
      let count : length (take (suc j) (map row ps) ++ drop j (map row ps)) ≡ length ps + 1 =
        length-twice j (map row ps) (subst (λ r. j < length r) rows short)
        ∙ ap (λ n. n + 1) (length-map row ps) in
      (
        killed,
        ended,
        unfold unsent_count in ap length unsent,
        ap length published ∙ length-map (λ (r : OutboxEvent). r.payload) _ ∙ count,
        ap (map some) published ∙ deliveries_twice j ps,
      )

  positions_of-nil : positions_of {F = F} seed_account [] ≡ []
  unfolding select
  positions_of-nil = refl

  pub baseline-folded :
      (ps : List (Posting F))
      → All (Sound codec) ps
      → let (cash, positions) = folded fl ps (seed_cash, []) in
        baseline codec (map (event_of codec) ps) ≡ ok (cash, as_values positions)
  unfolding baseline
  baseline-folded ps sound = baseline_from_lem codec ps seed_cash [] sound

  consumer_part :
      (ps : List (Posting F)) (j : ℕ) (db : KillStore F) (stream xs : List (Option String))
      → All (Sound codec) ps
      → IsDistinct codec ps
      → IsClean codec seed_cash ps
      → j < length ps
      → db.processed_events ≡ []
      → db.proj_positions ≡ []
      → lookup seed_account db.proj_cash ≡ some seed_cash
      → stream ≡ take (suc j) (map (delivery_of codec) ps) ++ drop j (map (delivery_of codec) ps)
      → Delivery [] stream xs
      → let (e, s') = handle_each codec.loads xs db in
        (e ≡ ok tt)
        × (s'.processed_events ≡ ids ps)
        × (baseline codec (map (event_of codec) ps)
            ≡ ok ((projection seed_account s').0, as_values (projection seed_account s').1))
  consumer_part ps j db stream xs sound distinct clean lt fresh flat account same d =
      let es = map (delivery_of codec) ps in
      let short : j < length es = rw (length-map (delivery_of codec) ps) lt in
      let (ends, projected, recorded_ids) =
        handle_each-deliveries codec ps seed_cash db sound distinct (IsNew-fresh db ps fresh)
          account clean in
      let t = (handle_each codec.loads es db).1 in
      let once : handle_each codec.loads es db ≡ (ok tt, t) = ap (λ e. (e, t)) ends in
      let streamed : handle_each codec.loads stream db ≡ (ok tt, t) =
        rw same (handle_each-Delivery codec.loads es _ db t (twice j [] es short) once) in
      let delivered = handle_each-Delivery codec.loads stream xs db t d streamed in
      let fold : projection seed_account t ≡ folded fl ps (seed_cash, []) =
        projected
        ∙ ap (λ ps'. folded fl ps (seed_cash, positions_of seed_account ps')) flat
        ∙ ap (λ d. folded fl ps (seed_cash, d)) positions_of-nil in
      rw delivered (
        refl,
        recorded_ids ∙ rw fresh,
        baseline-folded ps sound ∙ ap (λ r. ok (r.0, as_values r.1)) (sym fold),
      )

  -- Any trades, read as they are written, with ids that differ and no NaN among their sums: the relay
  -- is killed on a row (from 0) between the publish and its mark, is run again, and the consumer gets
  -- every entry of the stream in order and any earlier one again at any time. Then the first run
  -- of the relay is killed and the second ends; no row is left unsent and the stream has one entry
  -- more than there are trades; the consumer raises nothing, has recorded each event once, in order,
  -- and its projection is the baseline.
  pub run_proof_lem :
      (trades : List (Trade F)) (j : ℕ) (xs : List (Option String))
      → let ps = postings codec 1 [] trades in
        let events = generate_from codec trades in
        let start : Pipe F = record { db = seeded_store codec events; stream = [] } in
        let (killed, p') = relay_run (suc j) start in
        let (ended, p'') = relay_run 0 p' in
        let (e, s') = handle_each codec.loads xs p''.db in
        All (Sound codec) ps
        → IsDistinct codec ps
        → fl.is_nan seed_cash ≡ false
        → IsClean codec seed_cash ps
        → j < length trades
        → Delivery [] (map some p''.stream) xs
        → ((killed ≡ exit_killed)
            × (ended ≡ exit_ok)
            × (unsent_count p''.db ≡ 0)
            × (length p''.stream ≡ length trades + 1))
          × ((e ≡ ok tt)
              × (s'.processed_events ≡ ids ps)
              × (baseline codec events
                  ≡ ok ((projection seed_account s').0, as_values (projection seed_account s').1)))
  run_proof_lem trades j xs sound distinct number clean lt d =
      let ps = postings codec 1 [] trades in
      let start : Pipe F = record {
        db = seeded_store codec (generate_from codec trades);
        stream = [];
      } in
      let p' = (relay_run (suc j) start).1 in
      let p'' = (relay_run 0 p').1 in
      let seeded = seeded_store_lem codec ps distinct number in
      let trades_posted : length ps ≡ length trades = length-postings 1 [] trades in
      let short : j < length ps = rw trades_posted lt in
      let rows : unsent_rows start.db ≡ map (row_of codec) ps =
        ap unsent_rows seeded ∙ (unfold unsent_rows in select-row_of codec ps) in
      let (killed, ended, unsent, count, same) = relay_part ps j start rows refl distinct short in
      let untouched =
        SameEffects-trans start.db p'.db p''.db (relay_run-SameEffects (suc j) start)
          (relay_run-SameEffects 0 p') in
      (
        (killed, ended, unsent, count ∙ ap (λ n. n + 1) trades_posted),
        consumer_part ps j p''.db (map some p''.stream) xs sound distinct clean short
            (untouched.processed ∙ ap (λ s. s.processed_events) seeded)
            (untouched.positions ∙ ap (λ s. s.proj_positions) seeded)
            (ap (λ s. lookup seed_account s) (untouched.cash ∙ ap (λ s. s.proj_cash) seeded)
              ∙ (unfold lookup in refl))
            same d,
      )
