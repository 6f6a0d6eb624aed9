-- ===== src/Native/Relay/Effects.antt =====
-- What the relay leaves alone: it writes no table but the outbox.
use event_driven_trading_led.Base.{
  ℕ, ◌+◌, ◌≡◌, refl, ◌∙◌, inl, inr, List, [], ◌∷◌, ◌++◌, Bool-cases, ◌&&◌, not, nat_eq,
}
use event_driven_trading_led.Native.Store.{OutboxEvent, KillStore, unsent_rows, mark_sent}
use event_driven_trading_led.Native.Relay.{Pipe, relay_rows, relay_run}

-- the tables of the consumer, in two stores
pub record SameEffects {F : Type 0} (s s' : KillStore F) : Type 0 where
  pub processed : s'.processed_events ≡ s.processed_events
  pub cash : s'.proj_cash ≡ s.proj_cash
  pub positions : s'.proj_positions ≡ s.proj_positions

module _ {F : Type 0} where
  pub SameEffects-trans :
      (a b c : KillStore F) → SameEffects a b → SameEffects b c → SameEffects a c
  SameEffects-trans a b c h k = record {
    processed = k.processed ∙ h.processed;
    cash = k.cash ∙ h.cash;
    positions = k.positions ∙ h.positions;
  }

  relay_rows-SameEffects :
      (die : ℕ) (rows : List OutboxEvent) (n : ℕ) (p : Pipe F)
      → SameEffects p.db (relay_rows die rows n p).1.db
  unfolding relay_rows mark_sent
  relay_rows-SameEffects die [] n p = record { processed = refl; cash = refl; positions = refl }
  relay_rows-SameEffects die (r ∷ rows) n p =
      elim (Bool-cases (not (nat_eq die 0) && nat_eq (n + 1) die)) [
        | inl killed ↦ rw killed (record { processed = refl; cash = refl; positions = refl })
        | inr alive ↦
            let next : Pipe F = record p {
              stream = p.stream ++ r.payload ∷ [];
              db = mark_sent r.event_id p.db;
            } in
            let rest = relay_rows-SameEffects die rows (n + 1) next in
            rw alive
              (record { processed = rest.processed; cash = rest.cash; positions = rest.positions })
      ]

  -- Whether it is killed or not, a run of the relay changes no recorded event, no cash and no
  -- position.
  pub relay_run-SameEffects : (die : ℕ) (p : Pipe F) → SameEffects p.db (relay_run die p).1.db
  unfolding relay_run
  relay_run-SameEffects die p = relay_rows-SameEffects die (unsent_rows p.db) 0 p
