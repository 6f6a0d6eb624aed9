-- ===== src/Native/Consumer/Replay.antt =====
-- `_handle` on entries that are delivered again: after a kill, by a reclaim, in any order.
use event_driven_trading_led.Base.{
  String, ◌≡◌, refl, sym, subst, ◌⊎◌, inl, inr, Bool, true, false, ◌||◌, Option, none, some, List,
  [], ◌∷◌, ◌++◌, arith, eq_iff, ◌==◌, any, All, Bool-cases,
}
use event_driven_trading_led.Base.Exec.{
  Error, Result, ok, err, integrity_error, Result-cases, Run-cases,
}
use event_driven_trading_led.Base.Dict.{update}
use event_driven_trading_led.Base.Float.{Float}
use event_driven_trading_led.Risk.Json.{Value, bind_text}
use event_driven_trading_led.Native.Store.{
  KillStore, already_processed, cash_refused, put_position, apply,
}
use event_driven_trading_led.Native.Consumer.{Extract, record_event, extract, handle, handle_each}

-- one of the entries
abbrev pub Among : Option String → List (Option String) → Type 0
Among x [] = ⊥
Among x (e ∷ es) = (e ≡ x) ⊎ Among x es

pub any-append :
    (k : String) (ks : List String) (j : String)
    → any (λ i. i == k) (ks ++ j ∷ []) ≡ (any (λ i. i == k) ks || j == k)
any-append k [] j = ground arith
any-append k (i ∷ ks) j = ground (arith, any-append k ks j)

module _ {F : Type 0} ⦃fl : Float F⦄ where
  -- how `apply` ends: a duplicate, an exception, or a new event
  unfoldable pub Applies : String → (Result Bool × KillStore F) → KillStore F → Type 0
  Applies k p s =
      ((already_processed k s ≡ true) × (p ≡ (ok false, s)))
      ⊎ (((e : Error) × (p ≡ (err e, s)))
          ⊎ ((s' : KillStore F) × (p ≡ (ok true, s'))
              × (s'.processed_events ≡ s.processed_events ++ k ∷ [])))

  -- the store with the event recorded
  abbrev pub recorded : String → String → String → F → F → KillStore F → KillStore F
  recorded k a y qty delta s = record s {
    processed_events = s.processed_events ++ k ∷ [];
    proj_cash = update a (λ x. fl.add x delta) s.proj_cash;
    proj_positions = put_position a y qty s.proj_positions;
  }

  apply_cases :
      (k : String) (account symbol : Option String) (qty delta : F) (s : KillStore F)
      → Applies k (apply k account symbol qty delta s) s
  unfolding apply Applies
  apply_cases k account symbol qty delta s = elim (Bool-cases (already_processed k s)) [
    | inl old ↦ inl (old, rw old)
    | inr new ↦ go account symbol new
  ]
    where
      go :
          (account symbol : Option String)
          → already_processed k s ≡ false
          → Applies k (apply k account symbol qty delta s) s
      go none symbol new = inr (inl (integrity_error, rw new))
      go (some a) none new = inr (inl (integrity_error, rw new))
      go (some a) (some y) new =
          elim (Bool-cases (cash_refused a delta s.proj_cash || fl.is_nan qty)) [
            | inl bad ↦ inr (inl (integrity_error, rw (new, bad)))
            | inr good ↦ inr (inr (recorded k a y qty delta s, rw (new, good), refl))
          ]

  pub record_event_cases :
      (x : Extract F) (s : KillStore F) → Applies x.event_id (record_event x s) s
  unfolding record_event Applies
  record_event_cases x s = elim (Result-cases (bind_text x.account_id)) [
    | inl (e, bad) ↦ inr (inl (e, rw bad))
    | inr (account, bound) ↦ elim (Result-cases (bind_text x.symbol)) [
      | inl (e, bad) ↦ inr (inl (e, rw (bound, bad)))
      | inr (symbol, known) ↦
          elim (apply_cases x.event_id account symbol x.qty_after x.cash_delta s) [
            | inl (old, same) ↦ inl (old, rw (bound, known) same)
            | inr (inl (e, raised)) ↦ inr (inl (e, rw (bound, known) raised))
            | inr (inr (s', done, grown)) ↦ inr (inr (s', rw (bound, known) done, grown))
          ]
    ]
  ]

module _ {F : Type 0} ⦃fl : Float F⦄ (loads : String → Option (Value F)) where
  -- an entry that has nothing to do, or whose event is recorded
  abbrev pub Settled : Option String → KillStore F → Type 0
  Settled event s =
      (extract loads event ≡ ok none)
      ⊎ ((x : Extract F) × (extract loads event ≡ ok (some x))
          × (already_processed x.event_id s ≡ true))

  pub handle_skips :
      (event : Option String) (s : KillStore F)
      → Settled event s
      → handle loads event s ≡ (ok false, s)
  unfolding handle
  handle_skips event s (inl nothing) = rw nothing
  handle_skips event s (inr (x, read, old)) = rw (read, old)

  pub already_processed-grown :
      (k j : String) (s s' : KillStore F)
      → s'.processed_events ≡ s.processed_events ++ j ∷ []
      → already_processed k s' ≡ (already_processed k s || j == k)
  unfolding already_processed
  already_processed-grown k j s s' h = rw h (any-append k s.processed_events j)

  -- One entry that is handled without an exception is settled, and every settled one stays so.
  pub handle_lem :
      (event : Option String) (b : Bool) (s s' : KillStore F)
      → handle loads event s ≡ (ok b, s')
      → Settled event s'
        × ((k : String) → already_processed k s ≡ true → already_processed k s' ≡ true)
  unfolding handle Applies
  handle_lem event b s s' h = elim (Result-cases (extract loads event)) [
    | inl (e, raised) ↦ ground arith
    | inr (none, nothing) ↦ (inl nothing, λ k seen. ground arith)
    | inr (some x, read) ↦ elim (Bool-cases (already_processed x.event_id s)) [
      | inl old ↦
          let end : s ≡ s' = ground arith in
          (inr (x, read, rw (sym end) old), λ k seen. rw (sym end) seen)
      | inr new ↦ elim (record_event_cases x s) [
        | inl (old, _) ↦ ground arith
        | inr (inl (e, raised)) ↦ ground arith
        | inr (inr (t, done, grown)) ↦
            let end : t ≡ s' = ground arith in
            (
              inr (
                x,
                read,
                rw (sym end, already_processed-grown x.event_id x.event_id s t grown)
                    (ground (arith, eq_iff x.event_id x.event_id)),
              ),
              λ k seen. rw (sym end, already_processed-grown k x.event_id s t grown) (ground arith),
            )
      ]
    ]
  ]

  pub Settled-handle :
      (event other : Option String) (b : Bool) (s s' : KillStore F)
      → handle loads other s ≡ (ok b, s')
      → Settled event s
      → Settled event s'
  Settled-handle event other b s s' h (inl nothing) = inl nothing
  Settled-handle event other b s s' h (inr (x, read, old)) =
      inr (x, read, (handle_lem other b s s' h).1 x.event_id old)

  Settled-handle_each :
      (event : Option String) (es : List (Option String)) (s s' : KillStore F)
      → handle_each loads es s ≡ (ok tt, s')
      → Settled event s
      → Settled event s'
  unfolding handle_each
  Settled-handle_each event [] s s' h old = subst (Settled event) (ground arith) old
  Settled-handle_each event (e ∷ es) s s' h old = elim (Run-cases (handle loads e s)) [
    | inl (x, t, raised) ↦ ground arith
    | inr (b, t, done) ↦
        Settled-handle_each event es t s' (ground arith) (Settled-handle event e b s t done old)
  ]

  handle_each-Settled :
      (event : Option String) (es : List (Option String)) (s s' : KillStore F)
      → handle_each loads es s ≡ (ok tt, s')
      → Among event es
      → Settled event s'
  unfolding handle_each
  handle_each-Settled event [] s s' h here = absurd here
  handle_each-Settled event (e ∷ es) s s' h here = elim (Run-cases (handle loads e s)) [
    | inl (x, t, raised) ↦ ground arith
    | inr (b, t, done) ↦ elim here [
      | inl found ↦
          Settled-handle_each event es t s' (ground arith)
            (subst (λ k. Settled k t) found (handle_lem e b s t done).0)
      | inr further ↦ handle_each-Settled event es t s' (ground arith) further
    ]
  ]

  handle_each_skips :
      (xs : List (Option String)) (s : KillStore F)
      → All (λ x. Settled x s) xs
      → handle_each loads xs s ≡ (ok tt, s)
  unfolding handle_each
  handle_each_skips [] s h = refl
  handle_each_skips (x ∷ xs) s h = rw (handle_skips x s h.0) (handle_each_skips xs s h.1)

  -- Once entries were handled without an exception, any of them may be delivered again, in any order
  -- and as often as may be, after a kill or by a reclaim: the store stays as it is.
  pub handle_each_replay :
      (es xs : List (Option String)) (s s' : KillStore F)
      → handle_each loads es s ≡ (ok tt, s')
      → All (λ x. Among x es) xs
      → handle_each loads xs s' ≡ (ok tt, s')
  handle_each_replay es xs s s' h again = handle_each_skips xs s' (all-Settled xs again)
    where
      all-Settled :
          (xs : List (Option String)) → All (λ x. Among x es) xs → All (λ x. Settled x s') xs
      all-Settled [] g = tt
      all-Settled (x ∷ xs) g = (handle_each-Settled x es s s' h g.0, all-Settled xs g.1)
