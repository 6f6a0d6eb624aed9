-- ===== src/Risk/Worker/Reclaim.antt =====
-- Entries of `ledger.updates` that are delivered again: what was handled is settled, and stays so.
use event_driven_trading_led.Base.{
  ℕ, ◌+◌, String, ◌≡◌, refl, sym, subst, IsAmong, All-IsAmong, ◌⊎◌, inl, inr, Bool, true, Option,
  none, some, List, [], ◌∷◌, ◌++◌, arith, All, map, length, append-nil, append_assoc, Option-cases,
}
use event_driven_trading_led.Base.Exec.{Result, ok, err, Run-cases}
use event_driven_trading_led.Base.Float.{Float}
use event_driven_trading_led.Risk.Json.{Value}
use event_driven_trading_led.Risk.Config.{Config}
use event_driven_trading_led.Risk.Store.{AppliedEvent, RiskStore}
use event_driven_trading_led.Risk.Consumer.{
  Stamp, RiskEnvelope, parse_ledger, process_ledger_envelope,
}
use event_driven_trading_led.Risk.Consumer.Settled.{
  is_settled, is_settled-append, process_settled, process_log, process_settles,
}
use event_driven_trading_led.Risk.Worker.{
  Entry, Command, xack, RiskWorker, parse_event, handle_ledger, reclaim_ledger, drain_ledger,
}
use event_driven_trading_led.Risk.Worker.Handling.{handled, handle_ledger_lem}

module _ {F : Type 0} ⦃fl : Float F⦄ (loads : String → Option (Value F)) (cfg : Config F) where
  -- whether an entry has nothing left to do, by the log
  abbrev pub has_settled : List (AppliedEvent F) → Entry → Bool
  has_settled log e = elim (parse_event loads e) [
    | none ↦ true
    | some env ↦ is_settled log (parse_ledger env)
  ]

  has_settled-append :
      (log : List (AppliedEvent F)) (row : AppliedEvent F) (e : Entry)
      → has_settled log e ≡ true
      → has_settled (log ++ row ∷ []) e ≡ true
  has_settled-append log row e h = elim (Option-cases (parse_event loads e)) [
    | inl unread ↦ rw (has_settled, unread)
    | inr (env, read) ↦
        rw (has_settled, read) (is_settled-append log row (parse_ledger env) (ground arith))
  ]

  handle_settled :
      (stamps : String → Stamp) (e : Entry) (w : RiskWorker F)
      → has_settled w.store.applied_events e ≡ true
      → handle_ledger loads cfg stamps e w
        ≡ (ok 0, record w { sent = w.sent ++ xack cfg.ledger_stream e.entry_id ∷ [] })
  handle_settled stamps e w h = elim (Option-cases (parse_event loads e)) [
    | inl unread ↦ rw (handle_ledger_lem loads cfg stamps e w, unread)
    | inr (env, read) ↦ rw (
      handle_ledger_lem loads cfg stamps e w,
      read,
      process_settled cfg (stamps e.entry_id) env w.store (ground arith),
    )
  ]

  handle_settles :
      (stamps : String → Stamp) (e : Entry) (n : ℕ) (w w' : RiskWorker F)
      → handle_ledger loads cfg stamps e w ≡ (ok n, w')
      → has_settled w'.store.applied_events e ≡ true
  handle_settles stamps e n w w' h = elim (Option-cases (parse_event loads e)) [
    | inl unread ↦ rw (has_settled, unread)
    | inr (env, read) ↦
        let run = process_ledger_envelope cfg (stamps e.entry_id) env w.store in
        elim (Run-cases run) [
          | inl (x, s, raised) ↦
              ground (arith, handle_ledger_lem loads cfg stamps e w, read, raised)
          | inr (r, s, done) ↦
              let here : w'.store ≡ s =
                ground (arith, handle_ledger_lem loads cfg stamps e w, read, done) in
              rw (has_settled, read, here)
                (process_settles cfg (stamps e.entry_id) env r w.store s done)
        ]
  ]

  handled_store :
      (e : Entry) (p : Result (Option (RiskEnvelope F)) × RiskStore F) (w : RiskWorker F)
      → (handled cfg e p w).1.store ≡ p.1
  handled_store e (err x, s) w = refl
  handled_store e (ok none, s) w = refl
  handled_store e (ok (some env), s) w = refl

  -- what handling an entry leaves in the log
  pub handle_ledger_log :
      (stamps : String → Stamp) (e : Entry) (w : RiskWorker F)
      → let log = (handle_ledger loads cfg stamps e w).1.store.applied_events in
        (log ≡ w.store.applied_events)
        ⊎ ((row : AppliedEvent F) × (log ≡ w.store.applied_events ++ row ∷ []))
  handle_ledger_log stamps e w = elim (Option-cases (parse_event loads e)) [
    | inl unread ↦ inl (rw (handle_ledger_lem loads cfg stamps e w, unread))
    | inr (env, read) ↦
        let run = process_ledger_envelope cfg (stamps e.entry_id) env w.store in
        elim (process_log cfg (stamps e.entry_id) env w.store) [
          | inl same ↦
              inl (rw (handle_ledger_lem loads cfg stamps e w, read, handled_store e run w) same)
          | inr (row, grown) ↦
              inr (
                row,
                rw (handle_ledger_lem loads cfg stamps e w, read, handled_store e run w) grown,
              )
        ]
  ]

  -- handling any entry leaves what is settled so
  handle_ledger_keeps :
      (stamps : String → Stamp) (d e : Entry) (w : RiskWorker F)
      → has_settled w.store.applied_events d ≡ true
      → has_settled (handle_ledger loads cfg stamps e w).1.store.applied_events d ≡ true
  handle_ledger_keeps stamps d e w h = elim (handle_ledger_log stamps e w) [
    | inl same ↦ subst (λ log. has_settled log d ≡ true) (sym same) h
    | inr (row, grown) ↦
        subst (λ log. has_settled log d ≡ true) (sym grown)
          (has_settled-append w.store.applied_events row d h)
  ]

  -- so does a read
  drain_ledger_keeps :
      (stamps : String → Stamp) (d : Entry) (es : List Entry) (n : ℕ) (w w' : RiskWorker F)
      → has_settled w.store.applied_events d ≡ true
      → drain_ledger loads cfg stamps es w ≡ (ok n, w')
      → has_settled w'.store.applied_events d ≡ true
  unfolding drain_ledger
  drain_ledger_keeps stamps d [] n w w' h run =
      let same : w ≡ w' = cc (run) in
      subst (λ (v : RiskWorker F). has_settled v.store.applied_events d ≡ true) same h
  drain_ledger_keeps stamps d (e ∷ es) n w w' h run =
      elim (Run-cases (handle_ledger loads cfg stamps e w)) [
        | inl (x, v, raised) ↦ ground (arith, run, raised)
        | inr (k, v, done) ↦ elim (Run-cases (drain_ledger loads cfg stamps es v)) [
          | inl (x, u, raised) ↦ ground (arith, run, done, raised)
          | inr (m, u, rest) ↦
              let same : u ≡ w' = ground (arith, run, done, rest) in
              let kept : has_settled v.store.applied_events d ≡ true =
                subst
                  (λ (p : Result ℕ × RiskWorker F). has_settled p.1.store.applied_events d ≡ true)
                  done (handle_ledger_keeps stamps d e w h) in
              subst (λ (v' : RiskWorker F). has_settled v'.store.applied_events d ≡ true) same
                (drain_ledger_keeps stamps d es m v u kept rest)
        ]
      ]

  -- after a read whose entries were all handled, each of them is settled
  drain_ledger_settles :
      (stamps : String → Stamp) (es : List Entry) (n : ℕ) (w w' : RiskWorker F)
      → drain_ledger loads cfg stamps es w ≡ (ok n, w')
      → All (λ d. has_settled w'.store.applied_events d ≡ true) es
  unfolding drain_ledger
  drain_ledger_settles stamps [] n w w' run = tt
  drain_ledger_settles stamps (e ∷ es) n w w' run =
      elim (Run-cases (handle_ledger loads cfg stamps e w)) [
        | inl (x, v, raised) ↦ ground (arith, run, raised)
        | inr (k, v, done) ↦ elim (Run-cases (drain_ledger loads cfg stamps es v)) [
          | inl (x, u, raised) ↦ ground (arith, run, done, raised)
          | inr (m, u, rest) ↦
              let same : u ≡ w' = ground (arith, run, done, rest) in
              subst
                (λ (v' : RiskWorker F).
                  All (λ d. has_settled v'.store.applied_events d ≡ true) (e ∷ es))
                same
                (
                  drain_ledger_keeps stamps e es m v u (handle_settles stamps e k w v done) rest,
                  drain_ledger_settles stamps es m v u rest,
                )
        ]
      ]

  abbrev pub acks : List Entry → List (Command F)
  acks ds = map (λ d. xack cfg.ledger_stream d.entry_id) ds

  settled_chosen :
      (log : List (AppliedEvent F)) (es ds : List Entry)
      → All (λ e. has_settled log e ≡ true) es
      → All (λ d. IsAmong d es) ds
      → All (λ d. has_settled log d ≡ true) ds
  settled_chosen log es [] h among = tt
  settled_chosen log es (d ∷ ds) h among = (
    All-IsAmong (λ e. has_settled log e ≡ true) es d h among.0,
    settled_chosen log es ds h among.1,
  )

  reclaim_settled :
      (stamps : String → Stamp) (ds : List Entry) (w : RiskWorker F)
      → All (λ d. has_settled w.store.applied_events d ≡ true) ds
      → reclaim_ledger loads cfg stamps ds w
        ≡ (ok (length ds), record w { sent = w.sent ++ acks ds })
  unfolding reclaim_ledger
  reclaim_settled stamps [] w h = ground (arith, append-nil w.sent)
  reclaim_settled stamps (d ∷ ds) w h =
      let next : RiskWorker F = record w {
        sent = w.sent ++ xack cfg.ledger_stream d.entry_id ∷ [];
      } in
      let count : length ds + 1 ≡ length (d ∷ ds) = omega arith in
      rw (
        handle_settled stamps d w h.0,
        reclaim_settled stamps ds next h.1,
        append_assoc w.sent (xack cfg.ledger_stream d.entry_id ∷ []) (acks ds),
        count,
      )

  -- The entries of a read were all handled, but their acknowledgements were lost; XAUTOCLAIM returns
  -- some of them, in any order. They are acknowledged again, with no write and nothing published.
  pub reclaim_ledger-drain_ledger :
      (stamps stamps' : String → Stamp) (es ds : List Entry) (n : ℕ) (w w' : RiskWorker F)
      → drain_ledger loads cfg stamps es w ≡ (ok n, w')
      → All (λ d. IsAmong d es) ds
      → reclaim_ledger loads cfg stamps' ds w'
        ≡ (ok (length ds), record w' { sent = w'.sent ++ acks ds })
  reclaim_ledger-drain_ledger stamps stamps' es ds n w w' run among =
      reclaim_settled stamps' ds w' (
        settled_chosen w'.store.applied_events es ds (drain_ledger_settles stamps es n w w' run)
          among)
