-- ===== src/Native/Process/Acks.antt =====
-- What the consumer process has acknowledged, at any moment and however it ends.
use event_driven_trading_led.Base.{
  String, ℕ, ◌+◌, ◌≡◌, subst, ◌⊎◌, inl, inr, Bool, true, false, not, ◌&&◌, Option, none, some, List,
  [], ◌∷◌, All, All-append, arith, leb, nat_eq, Bool-cases,
}
use event_driven_trading_led.Base.Exec.{Error, Exec, ok, err, Result-cases, Run-cases}
use event_driven_trading_led.Base.Float.{Float}
use event_driven_trading_led.Risk.Json.{Value}
use event_driven_trading_led.Native.Store.{KillStore, already_processed}
use event_driven_trading_led.Native.Consumer.{extract, handle}
use event_driven_trading_led.Native.Consumer.Replay.{
  Applies, record_event_cases, Settled, handle_lem, Settled-handle,
}
use event_driven_trading_led.Native.Process.{
  StreamEntry, Round, ConsumerRun, reclaim_each, take_each, poll, consume, ProcessEnd,
}

module _ {F : Type 0} ⦃fl : Float F⦄ (loads : String → Option (Value F)) where
  -- an entry that raises changes nothing
  handle_raised :
      (event : Option String) (x : Error) (s s' : KillStore F)
      → handle loads event s ≡ (err x, s')
      → s' ≡ s
  unfolding handle Applies
  handle_raised event x s s' h = elim (Result-cases (extract loads event)) [
    | inl (e, raised) ↦ ground arith
    | inr (none, nothing) ↦ ground arith
    | inr (some y, read) ↦ elim (Bool-cases (already_processed y.event_id s)) [
      | inl old ↦ ground arith
      | inr new ↦ elim (record_event_cases y s) [
        | inl (old, _) ↦ ground arith
        | inr (inl (e, raised)) ↦ ground arith
        | inr (inr (t, done, grown)) ↦ ground arith
      ]
    ]
  ]

  -- either nothing is changed and it raises, or the entry is settled and the settled ones stay so
  Handles : Option String → KillStore F → Type 0
  Handles event s =
      ((x : Error) × (handle loads event s ≡ (err x, s)))
      ⊎ ((b : Bool) × (s' : KillStore F) × (handle loads event s ≡ (ok b, s'))
          × (Settled loads event s')
          × ((other : Option String) → Settled loads other s → Settled loads other s'))

  handle_cases : (event : Option String) (s : KillStore F) → Handles event s
  unfolding Handles
  handle_cases event s = elim (Run-cases (handle loads event s)) [
    | inl (x, t, raised) ↦ inl (
      x,
      subst (λ k. handle loads event s ≡ (err x, k)) (handle_raised event x s t raised) raised,
    )
    | inr (b, t, done) ↦ inr (
      b,
      t,
      done,
      (handle_lem loads event b s t done).0,
      λ other old. Settled-handle loads other event b s t done old,
    )
  ]

  -- every acknowledged entry is settled
  abbrev pub IsAcked : ConsumerRun F → Type 0
  IsAcked s = All (λ e. Settled loads e.event s.db) s.acked

  All-Settled-mono :
      (es : List StreamEntry) (s s' : KillStore F)
      → ((other : Option String) → Settled loads other s → Settled loads other s')
      → All (λ e. Settled loads e.event s) es
      → All (λ e. Settled loads e.event s') es
  All-Settled-mono [] s s' mono h = tt
  All-Settled-mono (e ∷ es) s s' mono h = (mono e.event h.0, All-Settled-mono es s s' mono h.1)

  reclaim_each-IsAcked :
      (es : List StreamEntry) (s : ConsumerRun F) → IsAcked s → IsAcked (reclaim_each loads es s).1
  unfolding reclaim_each Handles
  reclaim_each-IsAcked [] s h = h
  reclaim_each-IsAcked (e ∷ es) s h = elim (handle_cases e.event s.db) [
    | inl (x, raised) ↦ rw raised h
    | inr (b, t, done, settled, mono) ↦ rw done (
        reclaim_each-IsAcked es _ (
          All-append (λ k. Settled loads k.event t) s.acked (e ∷ [])
            (All-Settled-mono s.acked s.db t mono h) (settled, tt)))
  ]

  take_each-IsAcked :
      (die : ℕ) (es : List StreamEntry) (s : ConsumerRun F)
      → IsAcked s
      → IsAcked (take_each loads die es s).1
  unfolding take_each Handles
  take_each-IsAcked die [] s h = h
  take_each-IsAcked die (e ∷ es) s h = elim (handle_cases e.event s.db) [
    | inl (x, raised) ↦ rw raised h
    | inr (b, t, done, settled, mono) ↦
        let kept = All-Settled-mono s.acked s.db t mono h in
        elim (Bool-cases (not (nat_eq die 0) && nat_eq (s.applied_new + 1) die)) [
          | inl died ↦ rw (done, died) kept
          | inr alive ↦
              rw (done, alive)
                (take_each-IsAcked die es _
                  (All-append (λ k. Settled loads k.event t) s.acked (e ∷ []) kept (settled, tt)))
        ]
  ]

  poll-IsAcked :
      (die max_idle pending : ℕ) (es : List StreamEntry) (rest : Exec (ConsumerRun F) ProcessEnd)
      (s : ConsumerRun F)
      → ((t : ConsumerRun F) → IsAcked t → IsAcked (rest t).1)
      → IsAcked s
      → IsAcked (poll loads die max_idle pending es rest s).1
  unfolding poll
  poll-IsAcked die max_idle pending [] rest s next h = elim (Bool-cases (nat_eq pending 0)) [
    | inr busy ↦ rw busy (next s h)
    | inl idle ↦ elim (Bool-cases (leb max_idle (s.idle_polls + 1))) [
      | inl ended ↦ rw (idle, ended) h
      | inr more ↦ rw (idle, more) (next (record s { idle_polls = s.idle_polls + 1 }) h)
    ]
  ]
  poll-IsAcked die max_idle pending (e ∷ es) rest s next h =
      let start : ConsumerRun F = record s { idle_polls = 0 } in
      let taken = take_each-IsAcked die (e ∷ es) start h in
      elim (Run-cases (take_each loads die (e ∷ es) start)) [
        | inl (x, t, raised) ↦ rw raised (subst (λ p. IsAcked p.1) raised taken)
        | inr (true, t, done) ↦ rw done (subst (λ p. IsAcked p.1) done taken)
        | inr (false, t, done) ↦ rw done (next t (subst (λ p. IsAcked p.1) done taken))
      ]

  -- Whatever Redis answers and however the process ends, by an exception, by the kill, at rest or not
  -- yet, every entry that it has acknowledged is settled in the store: it had nothing to do, or its
  -- event is recorded.
  pub consume-IsAcked :
      (die max_idle : ℕ) (rounds : List Round) (s : ConsumerRun F)
      → IsAcked s
      → IsAcked (consume loads die max_idle rounds s).1
  unfolding consume
  consume-IsAcked die max_idle [] s h = h
  consume-IsAcked die max_idle (r ∷ rs) s h =
      let claimed = reclaim_each-IsAcked r.claimed s h in
      elim (Run-cases (reclaim_each loads r.claimed s)) [
        | inl (x, t, raised) ↦ rw raised (subst (λ p. IsAcked p.1) raised claimed)
        | inr (_, t, done) ↦ rw done (
            poll-IsAcked die max_idle r.pending r.new_entries (consume loads die max_idle rs) t
              (consume-IsAcked die max_idle rs) (subst (λ p. IsAcked p.1) done claimed))
      ]
