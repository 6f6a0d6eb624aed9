-- ===== src/Outbox/Consumer/Dedupe.antt =====
-- The consumer against its specification: what it does is decided by the first delivery of each id.
use event_driven_trading_led.Base.{
  ◌+◌, String, ◌≡◌, refl, sym, subst, true, ◌||◌, List, [], ◌∷◌, ◌++◌, arith, eq_iff, ◌==◌, map,
  length, All, Bool-cases, inl, inr, append-nil, append_assoc, if◌then◌else◌,
}
use event_driven_trading_led.Outbox.Ledger.{LedgerUpdated, Position}
use event_driven_trading_led.Outbox.Consumer.{RiskConsumer, contains, set_view, consume}

pub contains-append :
    (k j : String) (ks : List String) → contains k (ks ++ j ∷ []) ≡ (contains k ks || j == k)
contains-append k j [] = ground arith
contains-append k j (i ∷ ks) = ground (arith, contains-append k j ks)

module _ {F : Type 0} where
  -- the deliveries that take effect: those whose id is not among the seen ones nor earlier
  unfoldable pub first_deliveries : List String → List (LedgerUpdated F) → List (LedgerUpdated F)
  first_deliveries seen [] = []
  first_deliveries seen (e ∷ es) =
      let new = e ∷ first_deliveries (seen ++ e.event_id ∷ []) es in
      let old = first_deliveries seen es in if contains e.event_id seen then old else new

  abbrev pub view_after : List (Position F) → List (LedgerUpdated F) → List (Position F)
  view_after view [] = view
  view_after view (e ∷ es) =
      view_after (set_view e.content.account_id e.content.symbol e.content.position_after view) es

  unfoldable pub consume_all : List (LedgerUpdated F) → RiskConsumer F → RiskConsumer F
  consume_all [] c = c
  consume_all (e ∷ es) c = consume_all es (consume e c)

  -- Over any deliveries, repeated and reordered ones included, the consumer applies the first
  -- delivery of each unseen id, once and in order, and skips the rest.
  pub consume_all_lem :
      (es : List (LedgerUpdated F)) (c : RiskConsumer F)
      → let new = first_deliveries c.seen es in
        let c' = consume_all es c in
        (c'.position_view ≡ view_after c.position_view new)
        × (c'.seen ≡ c.seen ++ map (λ e. e.event_id) new)
        × (c'.applied ≡ c.applied + length new)
        × (c'.applied + c'.skipped ≡ c.applied + c.skipped + length es)
  unfolding consume_all first_deliveries consume
  consume_all_lem [] c = (refl, sym (append-nil c.seen), omega arith, omega arith)
  consume_all_lem (e ∷ es) c =
      let d = e.content in
      let skipping : RiskConsumer F = record c { skipped = c.skipped + 1 } in
      let applying : RiskConsumer F = record c {
        position_view = set_view d.account_id d.symbol d.position_after c.position_view;
        seen = c.seen ++ e.event_id ∷ [];
        applied = c.applied + 1;
      } in
      let new = first_deliveries (c.seen ++ e.event_id ∷ []) es in
      ground (
        arith,
        consume_all_lem es skipping,
        consume_all_lem es applying,
        append_assoc c.seen (e.event_id ∷ []) (map (λ x. x.event_id) new),
      )

  -- each delivery twice in a row
  abbrev pub doubled : List (LedgerUpdated F) → List (LedgerUpdated F)
  doubled [] = []
  doubled (e ∷ es) = e ∷ e ∷ doubled es

  first_deliveries-doubled :
      (seen : List String) (es : List (LedgerUpdated F))
      → first_deliveries seen (doubled es) ≡ first_deliveries seen es
  unfolding first_deliveries
  first_deliveries-doubled seen [] = refl
  first_deliveries-doubled seen (e ∷ es) = ground (
    arith,
    contains-append e.event_id e.event_id seen,
    eq_iff e.event_id e.event_id,
    first_deliveries-doubled seen es,
    first_deliveries-doubled (seen ++ e.event_id ∷ []) es,
  )

  -- If every delivery arrives twice, the view, the seen ids and the applied count are those of a
  -- single delivery, and each second copy is skipped.
  pub consume_all-doubled :
      (es : List (LedgerUpdated F)) (c : RiskConsumer F)
      → let once = consume_all es c in
        let twice = consume_all (doubled es) c in
        (twice.position_view ≡ once.position_view)
        × (twice.seen ≡ once.seen)
        × (twice.applied ≡ once.applied)
        × (twice.skipped ≡ once.skipped + length es)
  consume_all-doubled es c =
      let a = consume_all_lem es c in
      let b = consume_all_lem (doubled es) c in
      let same = first_deliveries-doubled c.seen es in
      (
        cc (a.0, b.0, same),
        cc (a.1, b.1, same),
        ground (arith, a.2, b.2, same),
        ground (arith, a.2, b.2, a.3, b.3, same, length-doubled es),
      )
    where
      length-doubled : (es : List (LedgerUpdated F)) → length (doubled es) ≡ length es + length es
      length-doubled [] = omega arith
      length-doubled (e ∷ es) = omega (arith, length-doubled es)

  consume-keeps :
      (k : String) (e : LedgerUpdated F) (c : RiskConsumer F)
      → contains k c.seen ≡ true
      → contains k (consume e c).seen ≡ true
  unfolding consume
  consume-keeps k e c h = ground (arith, contains-append k e.event_id c.seen)

  consume-sees :
      (e : LedgerUpdated F) (c : RiskConsumer F) → contains e.event_id (consume e c).seen ≡ true
  unfolding consume
  consume-sees e c =
      ground (arith, contains-append e.event_id e.event_id c.seen, eq_iff e.event_id e.event_id)

  consume_all-keeps :
      (k : String) (es : List (LedgerUpdated F)) (c : RiskConsumer F)
      → contains k c.seen ≡ true
      → contains k (consume_all es c).seen ≡ true
  unfolding consume_all
  consume_all-keeps k [] c h = h
  consume_all-keeps k (e ∷ es) c h = consume_all-keeps k es (consume e c) (consume-keeps k e c h)

  abbrev pub ids : List (LedgerUpdated F) → List String
  ids = map (λ e. e.event_id)

  consume_all-sees :
      (k : String) (es : List (LedgerUpdated F)) (c : RiskConsumer F)
      → contains k (ids es) ≡ true
      → contains k (consume_all es c).seen ≡ true
  unfolding consume_all
  consume_all-sees k [] c h = cc
  consume_all-sees k (e ∷ es) c h = elim (Bool-cases (e.event_id == k)) [
    | inl here ↦
        let same : e.event_id ≡ k = (eq_iff e.event_id k).0 here in
        consume_all-keeps k es (consume e c)
          (subst (λ j. contains j (consume e c).seen ≡ true) same (consume-sees e c))
    | inr there ↦ consume_all-sees k es (consume e c) (ground arith)
  ]

  pub consume_all-seen :
      (xs : List (LedgerUpdated F)) (c : RiskConsumer F)
      → All (λ x. contains x.event_id c.seen ≡ true) xs
      → consume_all xs c ≡ record c { skipped = c.skipped + length xs }
  unfolding consume_all consume
  consume_all-seen [] c h = ground arith
  consume_all-seen (x ∷ xs) c h =
      ground (arith, consume_all-seen xs (record c { skipped = c.skipped + 1 }) h.1)

  -- Whatever is delivered again after it was consumed, in any order and as often as may be, changes
  -- nothing but the count of skipped deliveries.
  pub consume_all_replay :
      (es xs : List (LedgerUpdated F)) (c : RiskConsumer F)
      → All (λ x. contains x.event_id (ids es) ≡ true) xs
      → let c' = consume_all es c in
        consume_all xs c' ≡ record c' { skipped = c'.skipped + length xs }
  consume_all_replay es xs c h = consume_all-seen xs (consume_all es c) (all_seen xs h)
    where
      all_seen :
          (xs : List (LedgerUpdated F))
          → All (λ x. contains x.event_id (ids es) ≡ true) xs
          → All (λ x. contains x.event_id (consume_all es c).seen ≡ true) xs
      all_seen [] h = tt
      all_seen (x ∷ xs) h = (consume_all-sees x.event_id es c h.0, all_seen xs h.1)
