-- ===== src/Risk/Worker/Handling.antt =====
-- One entry of `ledger.updates`: what is published and acknowledged, and when.
use event_driven_trading_led.Base.{
  ℕ, ◌+◌, String, ◌≡◌, refl, ◌∙◌, eq_iff, ◌==◌, if◌then◌else◌, Option, none, some, List, [], ◌∷◌,
  ◌++◌, append_assoc, map, append-nil, length, inl, inr, arith, Option-cases,
}
use event_driven_trading_led.Base.Exec.{Result, ok, err, Answer-cases, Run-cases}
use event_driven_trading_led.Base.Float.{Float}
use event_driven_trading_led.Risk.Json.{Value}
use event_driven_trading_led.Risk.Config.{Config}
use event_driven_trading_led.Risk.Store.{RiskStore}
use event_driven_trading_led.Risk.Consumer.{Stamp, RiskEnvelope, process_ledger_envelope}
use event_driven_trading_led.Risk.Consumer.Redelivery.{process_redelivered_ok}
use event_driven_trading_led.Risk.Worker.{
  Entry, Command, xadd, xack, RiskWorker, parse_event, send, publish_some, handle_ledger,
  drain_ledger,
}

module _ {F : Type 0} where
  -- the entries that a list of commands acknowledges on a stream
  abbrev pub acked : String → List (Command F) → List String
  acked stream [] = []
  acked stream (xadd _ _ ∷ cs) = acked stream cs
  acked stream (xack at entry ∷ cs) =
      if at == stream then entry ∷ acked stream cs else acked stream cs

  -- the envelopes that it publishes on one
  abbrev pub published : String → List (Command F) → List (RiskEnvelope F)
  published stream [] = []
  published stream (xadd at env ∷ cs) =
      if at == stream then env ∷ published stream cs else published stream cs
  published stream (xack _ _ ∷ cs) = published stream cs

  acked-append :
      (stream : String) (cs ds : List (Command F))
      → acked stream (cs ++ ds) ≡ acked stream cs ++ acked stream ds
  acked-append stream [] ds = refl
  acked-append stream (xadd _ _ ∷ cs) ds = acked-append stream cs ds
  acked-append stream (xack at entry ∷ cs) ds = ground (arith, acked-append stream cs ds)

  length-published-append :
      (stream : String) (cs ds : List (Command F))
      → length (published stream (cs ++ ds))
        ≡ length (published stream cs) + length (published stream ds)
  length-published-append stream [] ds = omega arith
  length-published-append stream (xadd at _ ∷ cs) ds =
      ground (arith, length-published-append stream cs ds)
  length-published-append stream (xack _ entry ∷ cs) ds = length-published-append stream cs ds

  -- what a worker has sent, when `cs` were the last commands
  sends :
      (ledger risk : String) (w w' : RiskWorker F) (cs : List (Command F))
      → w'.sent ≡ w.sent ++ cs
      → (acked ledger w'.sent ≡ acked ledger w.sent ++ acked ledger cs)
        × (length (published risk w'.sent)
            ≡ length (published risk w.sent) + length (published risk cs))
  sends ledger risk w w' cs h =
      (rw h (acked-append ledger w.sent cs), rw h (length-published-append risk w.sent cs))

  sends_ack :
      (ledger risk : String) (w w' : RiskWorker F) (id : String)
      → w'.sent ≡ w.sent ++ xack ledger id ∷ []
      → (acked ledger w'.sent ≡ acked ledger w.sent ++ id ∷ [])
        × (length (published risk w'.sent) ≡ length (published risk w.sent) + 0)
  sends_ack ledger risk w w' id h =
      let all = sends ledger risk w w' (xack ledger id ∷ []) h in
      let same = (eq_iff ledger ledger).1 refl in (all.0 ∙ rw same refl, all.1)

  sends_both :
      (ledger risk : String) (w w' : RiskWorker F) (env : RiskEnvelope F) (id : String)
      → w'.sent ≡ w.sent ++ xadd risk env ∷ xack ledger id ∷ []
      → (acked ledger w'.sent ≡ acked ledger w.sent ++ id ∷ [])
        × (length (published risk w'.sent) ≡ length (published risk w.sent) + 1)
  sends_both ledger risk w w' env id h =
      let all = sends ledger risk w w' (xadd risk env ∷ xack ledger id ∷ []) h in
      let same = (eq_iff ledger ledger).1 refl in
      let there = (eq_iff risk risk).1 refl in (all.0 ∙ rw same refl, all.1 ∙ rw there refl)

module _ {F : Type 0} (cfg : Config F) where
  -- the worker after an entry that was read as `result`, with `s` for its store
  abbrev pub handled :
      Entry
      → Result (Option (RiskEnvelope F)) × RiskStore F
      → RiskWorker F
      → Result ℕ × RiskWorker F
  handled e (err x, s) w = (err x, record w { store = s })
  handled e (ok none, s) w =
      (ok 0, record w { store = s; sent = w.sent ++ xack cfg.ledger_stream e.entry_id ∷ [] })
  handled e (ok (some env), s) w = (
    ok 1,
    record w {
      store = s;
      sent = w.sent ++ xadd cfg.risk_stream env ∷ xack cfg.ledger_stream e.entry_id ∷ [];
    },
  )

module _ {F : Type 0} ⦃fl : Float F⦄ (loads : String → Option (Value F)) (cfg : Config F) where
  -- An entry that cannot be read is acknowledged with nothing done. A readable one is processed:
  -- if that raises, nothing is published or acknowledged; otherwise the envelope, if there is one,
  -- is published, and after it the entry is acknowledged.
  pub handle_ledger_lem :
      (stamps : String → Stamp) (e : Entry) (w : RiskWorker F)
      → handle_ledger loads cfg stamps e w ≡ elim (parse_event loads e) [
        | none ↦ handled cfg e (ok none, w.store) w
        | some env ↦ handled cfg e (process_ledger_envelope cfg (stamps e.entry_id) env w.store) w
      ]
  unfolding handle_ledger send publish_some
  handle_ledger_lem stamps e w = elim (Option-cases (parse_event loads e)) [
    | inl unread ↦ rw unread
    | inr (env, read) ↦
        elim (Answer-cases (process_ledger_envelope cfg (stamps e.entry_id) env w.store)) [
          | inl (x, s, raised) ↦ rw (read, raised)
          | inr (inl (s, skipped)) ↦ rw (read, skipped)
          | inr (inr (risk_env, s, applied)) ↦ rw (
            read,
            applied,
            append_assoc w.sent (xadd cfg.risk_stream risk_env ∷ [])
                (xack cfg.ledger_stream e.entry_id ∷ []),
          )
        ]
  ]

  -- An entry that was handled to its end, and is delivered again because its XACK was lost, is
  -- acknowledged again with no write and nothing published.
  pub handle_ledger_redelivered :
      (stamps stamps' : String → Stamp) (e : Entry) (n : ℕ) (w w' : RiskWorker F)
      → handle_ledger loads cfg stamps e w ≡ (ok n, w')
      → handle_ledger loads cfg stamps' e w'
        ≡ (ok 0, record w' { sent = w'.sent ++ xack cfg.ledger_stream e.entry_id ∷ [] })
  handle_ledger_redelivered stamps stamps' e n w w' h = elim (Option-cases (parse_event loads e)) [
    | inl unread ↦ rw (handle_ledger_lem stamps' e w', unread)
    | inr (env, read) ↦
        elim (Answer-cases (process_ledger_envelope cfg (stamps e.entry_id) env w.store)) [
          | inl (x, s, raised) ↦ ground (arith, handle_ledger_lem stamps e w, read, raised)
          | inr (inl (s, skipped)) ↦
              let here : w'.store ≡ s =
                ground (arith, handle_ledger_lem stamps e w, read, skipped) in
              rw (
                handle_ledger_lem stamps' e w',
                read,
                here,
                process_redelivered_ok cfg (stamps e.entry_id) (stamps' e.entry_id) env none w.store
                    s skipped,
              )
          | inr (inr (risk_env, s, applied)) ↦
              let here : w'.store ≡ s =
                ground (arith, handle_ledger_lem stamps e w, read, applied) in
              rw (
                handle_ledger_lem stamps' e w',
                read,
                here,
                process_redelivered_ok cfg (stamps e.entry_id) (stamps' e.entry_id) env
                    (some risk_env) w.store s applied,
              )
        ]
  ]

  -- one entry: an acknowledgement, after as many envelopes as the answer says
  handle_ledger_sends :
      (stamps : String → Stamp) (e : Entry) (n : ℕ) (w w' : RiskWorker F)
      → handle_ledger loads cfg stamps e w ≡ (ok n, w')
      → (acked cfg.ledger_stream w'.sent ≡ acked cfg.ledger_stream w.sent ++ e.entry_id ∷ [])
        × (length (published cfg.risk_stream w'.sent)
            ≡ length (published cfg.risk_stream w.sent) + n)
  handle_ledger_sends stamps e n w w' h = elim (Option-cases (parse_event loads e)) [
    | inl unread ↦
        let end : w'.sent ≡ w.sent ++ xack cfg.ledger_stream e.entry_id ∷ [] =
          ground (arith, handle_ledger_lem stamps e w, unread) in
        let none_published : n ≡ 0 = ground (arith, handle_ledger_lem stamps e w, unread) in
        rw none_published (sends_ack cfg.ledger_stream cfg.risk_stream w w' e.entry_id end)
    | inr (env, read) ↦
        elim (Answer-cases (process_ledger_envelope cfg (stamps e.entry_id) env w.store)) [
          | inl (x, s, raised) ↦ ground (arith, handle_ledger_lem stamps e w, read, raised)
          | inr (inl (s, skipped)) ↦
              let end : w'.sent ≡ w.sent ++ xack cfg.ledger_stream e.entry_id ∷ [] =
                ground (arith, handle_ledger_lem stamps e w, read, skipped) in
              let none_published : n ≡ 0 =
                ground (arith, handle_ledger_lem stamps e w, read, skipped) in
              rw none_published (sends_ack cfg.ledger_stream cfg.risk_stream w w' e.entry_id end)
          | inr (inr (risk_env, s, applied)) ↦
              let end : w'.sent
                  ≡ w.sent
                    ++ xadd cfg.risk_stream risk_env ∷ xack cfg.ledger_stream e.entry_id ∷ [] =
                ground (arith, handle_ledger_lem stamps e w, read, applied) in
              let one_published : n ≡ 1 =
                ground (arith, handle_ledger_lem stamps e w, read, applied) in
              rw one_published
                (sends_both cfg.ledger_stream cfg.risk_stream w w' risk_env e.entry_id end)
        ]
  ]

  -- When the entries of a read are all handled, each is acknowledged once on the stream of the ledger,
  -- in the order they were read, and the answer is the number of envelopes published on the stream of
  -- the risk.
  pub drain_ledger_lem :
      (stamps : String → Stamp) (es : List Entry) (n : ℕ) (w w' : RiskWorker F)
      → drain_ledger loads cfg stamps es w ≡ (ok n, w')
      → (acked cfg.ledger_stream w'.sent
          ≡ acked cfg.ledger_stream w.sent ++ map (λ e. e.entry_id) es)
        × (length (published cfg.risk_stream w'.sent)
            ≡ length (published cfg.risk_stream w.sent) + n)
  unfolding drain_ledger
  drain_ledger_lem stamps [] n w w' h =
      (ground (arith, append-nil (acked cfg.ledger_stream w.sent)), ground arith)
  drain_ledger_lem stamps (e ∷ es) n w w' h =
      elim (Run-cases (handle_ledger loads cfg stamps e w)) [
        | inl (x, v, raised) ↦ ground arith
        | inr (k, v, done) ↦ elim (Run-cases (drain_ledger loads cfg stamps es v)) [
          | inl (x, u, raised) ↦ ground arith
          | inr (m, u, rest) ↦
              let end : (n ≡ k + m) × (w' ≡ u) = (ground arith, ground arith) in
              let first = handle_ledger_sends stamps e k w v done in
              let others = drain_ledger_lem stamps es m v u rest in
              (
                rw (end.1, others.0, first.0)
                    (append_assoc (acked cfg.ledger_stream w.sent) (e.entry_id ∷ [])
                      (map (λ e'. e'.entry_id) es)),
                rw (end.1, end.0, others.1, first.1) (omega arith),
              )
        ]
      ]
