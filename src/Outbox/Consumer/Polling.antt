-- ===== src/Outbox/Consumer/Polling.antt =====
-- `poll` and `recover`: what they consume, what stays pending, and a crash between the two.
use event_driven_trading_led.Base.{
  ℕ, ◌≡◌, refl, ap, ◌∙◌, true, false, some, List, [], ◌∷◌, ◌++◌, arith, map,
}
use event_driven_trading_led.Base.Exec.{ok}
use event_driven_trading_led.Outbox.Bus.{Group, find_group, put_group, pel_drop}
use event_driven_trading_led.Outbox.Bus.Delivery.{batch}
use event_driven_trading_led.Outbox.Bus.Groups.{
  find_group-put_group_self, put_group-put_group, xack_lem, redeliver_pending_lem,
}
use event_driven_trading_led.Outbox.Bus.Reads.{IsReady, advance, xreadgroup_lem}
use event_driven_trading_led.Outbox.Ledger.{LedgerUpdated}
use event_driven_trading_led.Outbox.Consumer.{
  RiskConsumer, World, consume, apply, apply_each, poll_batch, poll, poll_ok, recover,
}
use event_driven_trading_led.Outbox.Consumer.Dedupe.{consume_all}

module _ {E : Type 0} where
  pub drop_all : List (ℕ × E) → List (ℕ × E) → List (ℕ × E)
  drop_all [] pel = pel
  drop_all ((i, e) ∷ es) pel = drop_all es (pel_drop i pel)

module _ {F : Type 0} where
  abbrev pub events : List (ℕ × LedgerUpdated F) → List (LedgerUpdated F)
  events = map (λ e. e.1)

  -- the world with the deliveries consumed and acknowledged
  abbrev pub settled : List (ℕ × LedgerUpdated F) → Group (LedgerUpdated F) → World F → World F
  settled es g w =
      let c = w.consumer in
      record {
        bus = record (w.bus) {
          groups = put_group c.stream c.group (record g { pel = drop_all es g.pel }) w.bus.groups;
        };
        consumer = consume_all (events es) c;
      }

  consume-stream :
      (e : LedgerUpdated F) (c : RiskConsumer F)
      → ((consume e c).stream ≡ c.stream) × ((consume e c).group ≡ c.group)
  unfolding consume
  consume-stream e c = ground arith

  apply_lem :
      (eid : ℕ) (evt : LedgerUpdated F) (g : Group (LedgerUpdated F)) (w : World F)
      → find_group w.consumer.stream w.consumer.group w.bus.groups ≡ some g
      → apply eid evt w ≡ (ok tt, settled ((eid, evt) ∷ []) g w)
  unfolding apply consume_all drop_all
  apply_lem eid evt g w h = cc (xack_lem w.consumer.stream w.consumer.group eid g w.bus h)

  -- settling one delivery and then the others is settling all
  settled-settled :
      (e : ℕ × LedgerUpdated F) (es : List (ℕ × LedgerUpdated F)) (g : Group (LedgerUpdated F))
      (w : World F)
      → settled es (record g { pel = pel_drop e.0 g.pel }) (settled (e ∷ []) g w)
        ≡ settled (e ∷ es) g w
  unfolding consume_all drop_all
  settled-settled e es g w =
      let s = consume-stream e.1 w.consumer in
      let g' : Group (LedgerUpdated F) = record g { pel = pel_drop e.0 g.pel } in
      cc (
        s.0,
        s.1,
        put_group-put_group w.consumer.stream w.consumer.group
            (record g { pel = drop_all es g'.pel }) g' w.bus.groups,
      )

  settled-found :
      (e : ℕ × LedgerUpdated F) (g : Group (LedgerUpdated F)) (w : World F)
      → let w' = settled (e ∷ []) g w in
        find_group w'.consumer.stream w'.consumer.group w'.bus.groups
        ≡ some (record g { pel = pel_drop e.0 g.pel })
  unfolding consume_all drop_all
  settled-found e g w =
      let c = w.consumer in
      let s = consume-stream e.1 c in
      let g' : Group (LedgerUpdated F) = record g { pel = pel_drop e.0 g.pel } in
      cc (s.0, s.1, find_group-put_group_self c.stream c.group g' w.bus.groups)

  -- Each delivery of the loop is consumed and acknowledged.
  apply_each_lem :
      (e : ℕ × LedgerUpdated F) (es : List (ℕ × LedgerUpdated F)) (g : Group (LedgerUpdated F))
      (w : World F)
      → find_group w.consumer.stream w.consumer.group w.bus.groups ≡ some g
      → apply_each (e ∷ es) w ≡ (ok tt, settled (e ∷ es) g w)
  unfolding apply_each
  apply_each_lem e [] g w h = rw (apply_lem e.0 e.1 g w h)
  apply_each_lem e (e' ∷ es) g w h = rw (apply_lem e.0 e.1 g w h) (
      apply_each_lem e' es (record g { pel = pel_drop e.0 g.pel }) (settled (e ∷ []) g w)
        (settled-found e g w)
      ∙ ap (λ x. (ok tt, x)) (settled-settled e (e' ∷ es) g w))

  -- `poll` without a crash, and `recover`
  abbrev pub Ready : List (ℕ × LedgerUpdated F) → Group (LedgerUpdated F) → World F → Type 0
  Ready es g w = IsReady w.consumer.stream w.consumer.group es g w.bus

  -- the world after a read, with nothing consumed yet
  abbrev pub delivered : Group (LedgerUpdated F) → World F → World F
  delivered g w =
      let c = w.consumer in
      record w { bus = record (w.bus) { groups = put_group c.stream c.group g w.bus.groups } }

  settled-delivered :
      (b : List (ℕ × LedgerUpdated F)) (g : Group (LedgerUpdated F)) (w : World F)
      → settled b g (delivered g w) ≡ settled b g w
  settled-delivered b g w =
      let c = w.consumer in
      cc (put_group-put_group c.stream c.group (record g { pel = drop_all b g.pel }) g w.bus.groups)

  delivered-found :
      (g : Group (LedgerUpdated F)) (w : World F)
      → find_group w.consumer.stream w.consumer.group (delivered g w).bus.groups ≡ some g
  delivered-found g w = find_group-put_group_self w.consumer.stream w.consumer.group g w.bus.groups

  poll_batch_lem :
      (b : List (ℕ × LedgerUpdated F)) (g : Group (LedgerUpdated F)) (w : World F)
      → poll_batch false b (delivered g w) ≡ (ok poll_ok, settled b g w)
  poll_batch_lem [] g w = unfold drop_all consume_all in refl
  poll_batch_lem (e ∷ b) g w =
      rw (apply_each_lem e b g (delivered g w) (delivered-found g w))
        (ap (λ x. (ok poll_ok, x)) (settled-delivered (e ∷ b) g w))

  -- A poll consumes, in order, the next ten undelivered entries (or all, if they are fewer), and
  -- acknowledges each.
  pub poll_lem :
      (es : List (ℕ × LedgerUpdated F)) (g : Group (LedgerUpdated F)) (w : World F)
      → Ready es g w
      → poll false w ≡ (ok poll_ok, settled (batch 10 g.last es) (advance 10 es g) w)
  unfolding poll
  poll_lem es g w r =
      rw (xreadgroup_lem w.consumer.stream w.consumer.group 9 es g w.bus r)
        (poll_batch_lem (batch 10 g.last es) (advance 10 es g) w)

  poll_crash :
      (es : List (ℕ × LedgerUpdated F)) (g : Group (LedgerUpdated F)) (w : World F)
      → Ready es g w
      → (poll true w).1 ≡ delivered (advance 10 es g) w
  unfolding poll
  poll_crash es g w r =
      rw (xreadgroup_lem w.consumer.stream w.consumer.group 9 es g w.bus r)
        (go (batch 10 g.last es))
    where
      go :
          (b : List (ℕ × LedgerUpdated F))
          → (poll_batch true b (delivered (advance 10 es g) w)).1 ≡ delivered (advance 10 es g) w
      go [] = refl
      go (e ∷ b) = refl

  recover_lem :
      (g : Group (LedgerUpdated F)) (w : World F) → (recover (delivered g w)).1 ≡ settled g.pel g w
  unfolding recover
  recover_lem g w =
      let c = w.consumer in
      rw (redeliver_pending_lem c.stream c.group g (delivered g w).bus (delivered-found g w))
        (go g.pel)
    where
      go : (b : List (ℕ × LedgerUpdated F)) → (apply_each b (delivered g w)).1 ≡ settled b g w
      go [] = unfold apply_each drop_all consume_all in refl
      go (e ∷ b) =
          ap (λ r. r.1) (apply_each_lem e b g (delivered g w) (delivered-found g w))
          ∙ settled-delivered (e ∷ b) g w

  -- A consumer that crashes before its acknowledgements, and then recovers, ends with the bus and the
  -- fields of a consumer that did not crash: every effect is there once, and nothing is lost, where
  -- its stream and its group are there, the entries are numbered, and nothing was pending.
  pub poll_crash_recover :
      (es : List (ℕ × LedgerUpdated F)) (g : Group (LedgerUpdated F)) (w : World F)
      → Ready es g w
      → g.pel ≡ []
      → (recover (poll true w).1).1 ≡ (poll false w).1
  poll_crash_recover es g w r none_pending =
      let b = batch 10 g.last es in
      rw (poll_lem es g w r, poll_crash es g w r)
        (recover_lem (advance 10 es g) w
          ∙ ap (λ p. settled (p ++ b) (advance 10 es g) w) none_pending)
