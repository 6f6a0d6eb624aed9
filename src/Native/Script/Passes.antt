-- ===== src/Native/Script/Passes.antt =====
-- The run with both kills passes.
use event_driven_trading_led.Base.{
  ℕ, zero, suc, ◌+◌, ◌<◌, ◌≤◌, ◌≡◌, refl, ap, sym, subst, ◌∙◌, true, false, some, List, [], ◌∷◌,
  ◌++◌, map, take, drop, length, length-map, All, arith, leb,
}
use event_driven_trading_led.Base.Exec.{assert_that, ok}
use event_driven_trading_led.Base.Dict.{Dict, insert}
use event_driven_trading_led.Base.Float.{Float, EqSelf}
use event_driven_trading_led.Risk.Store.{distinct}
use event_driven_trading_led.Native.Store.{
  KillStore, new_store, init_projection, unsent_rows, unsent_count, processed_ids, projection,
}
use event_driven_trading_led.Native.Relay.{Pipe, exit_ok, relay_run}
use event_driven_trading_led.Native.Relay.Restart.{IsUnique, relay_run_killed}
use event_driven_trading_led.Native.Consumer.{handle_each}
use event_driven_trading_led.Native.Consumer.Delivery.{Delivery}
use event_driven_trading_led.Native.Process.{StreamEntry, Round, exit_done, consume}
use event_driven_trading_led.Native.Process.Drains.{
  events_of, entries_of, is_busy, IsQuiet, handle_each-append,
}
use event_driven_trading_led.Native.Process.Kills.{single, consume_killed}
use event_driven_trading_led.Native.Seed.{
  event_of, Trade, Posting, Codec, seed_account, seed_cash, postings, generate_from, baseline,
}
use event_driven_trading_led.Native.Seed.Baseline.{
  folded, ids, as_values, Sound, IsClean, IsDistinct,
}
use event_driven_trading_led.Native.Seed.Run.{
  row_of, seeded_store, seeded_store_lem, seed_outbox-IsDistinct, select-row_of, IsUnique-row_of,
}
use event_driven_trading_led.Native.Seed.Proof.{length-postings, baseline-folded, run_proof_lem}
use event_driven_trading_led.Native.Seed.Restarted.{relayed, run_proof_restarted}
use event_driven_trading_led.Native.Script.{
  started, events, event_ids, seeded, relay_steps, consumer_steps, final_steps, proof_steps,
  proof_main, exit_code,
}
use event_driven_trading_led.Native.Script.Dicts.{
  folded-IsPositions, same_positions-as_values, distinct-ids, same_set_self,
}

module _ {F : Type 0} where
  as_values_injective : (d e : Dict F) → as_values d ≡ as_values e → d ≡ e
  as_values_injective [] [] h = refl
  as_values_injective [] (y ∷ e) h = cc (h)
  as_values_injective (x ∷ d) [] h = cc (h)
  as_values_injective ((k, x) ∷ d) ((j, y) ∷ e) h =
      let rest : as_values d ≡ as_values e = cc (h) in
      let same_rest = as_values_injective d e rest in cc (h, same_rest)

length-drop :
    {A : Type 0} → (j : ℕ) (xs : List A) → j ≤ length xs → length (drop j xs) + j ≡ length xs
length-drop zero xs h = omega arith
length-drop (suc j) [] h = absurd (omega arith)
length-drop (suc j) (x ∷ xs) h = omega (arith, length-drop j xs (omega arith))

length-take : {A : Type 0} → (j : ℕ) (xs : List A) → j ≤ length xs → length (take j xs) ≡ j
length-take zero xs h = refl
length-take (suc j) [] h = absurd (omega arith)
length-take (suc j) (x ∷ xs) h = ap suc (length-take j xs (omega arith))

ids_of :
    {F : Type 0}
    → ⦃fl : Float F⦄ → (codec : Codec F) (ps : List (Posting F))
    → map (λ e. e.0) (map (event_of codec) ps) ≡ ids ps
ids_of codec [] = refl
ids_of codec (p ∷ ps) = ap (◌∷◌ p.event_id) (ids_of codec ps)

module _ {F : Type 0} ⦃fl : Float F⦄ (codec : Codec F) (trades : List (Trade F)) where
  seeded_lem :
      let ps = postings codec 1 [] trades in
      IsDistinct codec ps
      → fl.is_nan seed_cash ≡ false
      → seeded codec trades ≡ ok (seeded_store codec (generate_from codec trades))
  unfolding seeded init_projection insert
  seeded_lem distinct number =
      let ps = postings codec 1 [] trades in
      let posted : seeded codec trades
          ≡ ok (record new_store {
            outbox_events = map (row_of codec) ps;
            proj_cash = (seed_account, seed_cash) ∷ [];
          }) =
        rw (seed_outbox-IsDistinct codec ps distinct, number) refl in
      posted ∙ ap ok (sym (seeded_store_lem codec ps distinct number))

  length-events : length (events codec trades) ≡ length trades
  length-events = length-map _ (postings codec 1 [] trades) ∙ length-postings codec 1 [] trades

  relay_steps_lem :
      let ps = postings codec 1 [] trades in
      let db = seeded_store codec (generate_from codec trades) in
      let start : Pipe F = record { db = db; stream = [] } in
      let (first, p) = relay_run 3 start in
      let (second, p') = relay_run 0 p in
      IsDistinct codec ps
      → fl.is_nan seed_cash ≡ false
      → 2 < length trades
      → second ≡ exit_ok
      → unsent_count p'.db ≡ 0
      → length p'.stream ≡ length trades + 1
      → relay_steps codec trades db ≡ ok p'
  unfolding relay_steps assert_that
  relay_steps_lem distinct number lt ended unsent count =
      let ps = postings codec 1 [] trades in
      let start : Pipe F = record {
        db = seeded_store codec (generate_from codec trades);
        stream = [];
      } in
      let p = (relay_run 3 start).1 in
      let seeded_db = seeded_store_lem codec ps distinct number in
      let rows : unsent_rows start.db ≡ map (row_of codec) ps =
        ap unsent_rows seeded_db ∙ (unfold unsent_rows in select-row_of codec ps) in
      let many : length (unsent_rows start.db) ≡ length trades =
        ap length rows ∙ length-map (row_of codec) ps ∙ length-postings codec 1 [] trades in
      let (killed, left, published) =
        relay_run_killed 2 start (subst IsUnique (sym rows) (IsUnique-row_of codec ps distinct))
          (omega (arith, many)) in
      let three : length p.stream ≡ 3 =
        ap length published
        ∙ length-map _ (take 3 (unsent_rows start.db))
        ∙ length-take 3 (unsent_rows start.db) (omega (arith, many)) in
      let waiting : unsent_count p.db ≡ length (drop 2 (unsent_rows start.db)) =
        unfold unsent_count in ap length left in
      let unmarked : unsent_count p.db + 2 ≡ length (events codec trades) =
        ap (λ n. n + 2) waiting
        ∙ length-drop 2 (unsent_rows start.db) (omega (arith, many))
        ∙ many
        ∙ sym length-events in
      let all : length (relay_run 0 p).1.stream ≡ length (events codec trades) + 1 =
        count ∙ ap (λ n. n + 1) (sym length-events) in
      rw (killed, three, unmarked, ended, all, unsent) (ground arith)

  -- the second kill point, and the store at the end
  consumer_steps_lem :
      (x y : StreamEntry) (busy quiet : List Round) (pending : ℕ)
      → let ps = postings codec 1 [] trades in
        let p = relayed codec trades 2 in
        let before = x.event ∷ y.event ∷ [] in
        let died = (handle_each codec.loads before p.db).1 in
        let (end, run) = consume codec.loads 0 3 (busy ++ quiet) (started died) in
        (t : KillStore F)
        → handle_each codec.loads before p.db ≡ (ok tt, t)
        → end ≡ ok exit_done
        → 1 ≤ pending
        → consumer_steps codec trades (single x ∷ single y ∷ []) pending (busy ++ quiet) p.db
          ≡ ok run.db
  unfolding consumer_steps assert_that
  consumer_steps_lem x y busy quiet pending t first ended some_pending =
      let p = relayed codec trades 2 in
      let killed = consume_killed codec.loads 2 3 (x ∷ []) y [] (started p.db) t refl first in
      let same : (handle_each codec.loads (x.event ∷ y.event ∷ []) p.db).1 ≡ t =
        ap (λ r. r.1) first in
      let at_end : (consume codec.loads 0 3 (busy ++ quiet) (started t)).0 ≡ ok exit_done =
        rw (sym same) ended in
      let counted : leb 1 pending ≡ true = ground arith in rw (killed, counted, same, at_end) refl

  final_steps_lem :
      (db : KillStore F)
      → let ps = postings codec 1 [] trades in
        let (cash, positions) = folded fl ps (seed_cash, []) in
        IsDistinct codec ps
        → IsClean codec seed_cash ps
        → EqSelf fl
        → fl.lt (fl.abs (fl.sub cash cash)) (fl.decimal 1 9) ≡ true
        → processed_ids db ≡ ids ps
        → (projection seed_account db).0 ≡ cash
        → (projection seed_account db).1 ≡ positions
        → final_steps codec trades (cash, as_values positions) 0 db ≡ ok tt
  unfolding final_steps assert_that
  final_steps_lem db differ clean law close recorded cash positions =
      let ps = postings codec 1 [] trades in
      let fold = folded fl ps (seed_cash, []) in
      let named : event_ids codec trades ≡ ids ps =
        ap (distinct []) (ids_of codec ps) ∙ distinct-ids codec ps differ in
      let all = same_set_self (ids ps) in
      let held =
        same_positions-as_values fold.1 law
          (folded-IsPositions codec ps seed_cash [] clean (tt, tt)) in
      rw (cash, positions, recorded, named, all, close, held) (ground arith)

  -- At least three trades, read as they are written, with ids that differ and no NaN among their sums;
  -- a final cash that is within 1e-9 of itself, and numbers that equal themselves unless they are NaN.
  -- Redis gives the first consumer process two entries, one by one, counts a pending one after its
  -- death, and gives the second, in busy rounds, what is left of a delivery of the stream, in which
  -- each entry comes in order and any earlier one again at any time, and then three quiet rounds; at
  -- the end none is pending. Then no assertion fails: `main` ends with exit code 0.
  pub proof_main_passes :
      (x y : StreamEntry) (busy quiet : List Round) (pending : ℕ)
      → let ps = postings codec 1 [] trades in
        let cash = (folded fl ps (seed_cash, [])).0 in
        let before = x.event ∷ y.event ∷ [] in
        All (Sound codec) ps
        → IsDistinct codec ps
        → fl.is_nan seed_cash ≡ false
        → IsClean codec seed_cash ps
        → EqSelf fl
        → fl.lt (fl.abs (fl.sub cash cash)) (fl.decimal 1 9) ≡ true
        → 2 < length trades
        → 1 ≤ pending
        → Delivery []
            (map some (relayed codec trades 2).stream)
            (before ++ events_of (entries_of busy))
        → All (λ r. is_busy r ≡ true) busy
        → All IsQuiet quiet
        → length quiet ≡ 3
        → proof_main codec trades (single x ∷ single y ∷ []) pending (busy ++ quiet) 0 ≡ ok 0
  unfolding proof_main proof_steps exit_code
  proof_main_passes x y busy quiet pending sound distinct number clean law close lt some_pending d
        hb hq at =
      let ps = postings codec 1 [] trades in
      let fold = folded fl ps (seed_cash, []) in
      let p = relayed codec trades 2 in
      let before = x.event ∷ y.event ∷ [] in
      let rest = events_of (entries_of busy) in
      let died = (handle_each codec.loads before p.db).1 in
      let ((_, sent, unsent, count), (ends, _, _)) =
        run_proof_lem codec trades 2 (before ++ rest) sound distinct number clean lt d in
      let final = (handle_each codec.loads (before ++ rest) p.db).1 in
      let (t, first, _) =
        handle_each-append codec.loads before rest p.db final (ap (λ e. (e, final)) ends) in
      let (ended, _, (recorded, told)) =
        run_proof_restarted codec trades 2 3 before busy quiet sound distinct number clean lt d
          (omega arith) hb hq at in
      let db = (consume codec.loads 0 3 (busy ++ quiet) (started died)).1.db in
      let base : baseline codec (events codec trades) ≡ ok (fold.0, as_values fold.1) =
        baseline-folded codec ps sound in
      let same : ok (fold.0, as_values fold.1)
          ≡ ok ((projection seed_account db).0, as_values (projection seed_account db).1) =
        sym base ∙ told in
      let cash : (projection seed_account db).0 ≡ fold.0 = cc (same) in
      let positions : (projection seed_account db).1 ≡ fold.1 =
        as_values_injective (projection seed_account db).1 fold.1 (cc (same)) in
      rw
        (
          seeded_lem distinct number,
          base,
          relay_steps_lem distinct number lt sent unsent count,
          consumer_steps_lem x y busy quiet pending t first ended some_pending,
          final_steps_lem db distinct clean law close recorded cash positions,
        )
        refl
