-- ===== src/Native/Process.antt =====
-- poc/native-kill-restart/consumer_proc.py: the loop of the consumer process. What Redis answers in
-- one round of the loop is a parameter; creating the group, sleeping and printing are left out.
pub mod Acks
pub mod Drains
pub mod Main
pub mod Kills
use event_driven_trading_led.Base.{
  ℕ, ◌+◌, String, Bool, true, false, not, Option, none, some, List, [], ◌∷◌, ◌++◌, ◌&&◌, leb,
  nat_eq, if◌then◌else◌,
}
use event_driven_trading_led.Base.Exec.{Exec, Result, ok, err, pure, gets, modify, ◌>>=◌, ◌>>◌}
use event_driven_trading_led.Base.Float.{Float}
use event_driven_trading_led.Risk.Json.{Value}
use event_driven_trading_led.Native.Store.{KillStore}
use event_driven_trading_led.Native.Consumer.{handle}

pub record StreamEntry : Type 0 where
  pub entry_id : String
  pub event : Option String

-- the answers of XAUTOCLAIM, XREADGROUP and XPENDING in one round
pub record Round : Type 0 where
  pub claimed : List StreamEntry
  pub new_entries : List StreamEntry
  pub pending : ℕ

pub data ProcessEnd : Type 0 where
  exit_done exit_died still_running : ProcessEnd

-- the store, the entries for which XACK was sent, and the counters
pub record ConsumerRun (F : Type 0) : Type 0 where
  pub db : KillStore F
  pub acked : List StreamEntry
  pub applied_new : ℕ
  pub reclaimed : ℕ
  pub idle_polls : ℕ

module _ {F : Type 0} where
  abbrev pub on_db : {A : Type 0} → Exec (KillStore F) A → Exec (ConsumerRun F) A
  on_db m s = ((m s.db).0, record s { db = (m s.db).1 })

  abbrev pub ack : StreamEntry → Exec (ConsumerRun F) Unit
  ack e = modify (λ s. record s { acked = s.acked ++ e ∷ [] })

module _ {F : Type 0} ⦃fl : Float F⦄ (loads : String → Option (Value F)) where
  -- the loop over the entries that were claimed
  pub reclaim_each : List StreamEntry → Exec (ConsumerRun F) Unit
  reclaim_each [] = pure tt
  reclaim_each (e ∷ es) = do
    on_db (handle loads e.event)
    ack e
    modify (λ s. record s { reclaimed = s.reclaimed + 1 })
    reclaim_each es

  -- the loop over the new entries; true is the death of the process
  pub take_each : ℕ → List StreamEntry → Exec (ConsumerRun F) Bool
  take_each die [] = pure false
  take_each die (e ∷ es) = do
    on_db (handle loads e.event)
    modify (λ s. record s { applied_new = s.applied_new + 1 })
    died ← gets (λ s. not (nat_eq die 0) && nat_eq s.applied_new die)
    let rest = take_each die es in if died then pure true else (do ack e; rest)

  -- what a round does with the new entries and the count of the pending ones; `rest` is the next
  -- round
  pub poll :
      ℕ
      → ℕ
      → ℕ
      → List StreamEntry
      → Exec (ConsumerRun F) ProcessEnd
      → Exec (ConsumerRun F) ProcessEnd
  poll die max_idle pending [] rest =
      if nat_eq pending 0
      then (do
        modify (λ s. record s { idle_polls = s.idle_polls + 1 })
        ended ← gets (λ s. leb max_idle s.idle_polls)
        if ended then pure exit_done else rest)
      else rest
  poll die max_idle pending (e ∷ es) rest = do
    modify (λ s. record s { idle_polls = 0 })
    died ← take_each die (e ∷ es)
    if died then pure exit_died else rest

  -- the loop of `main`, as far as the answers go
  pub consume : ℕ → ℕ → List Round → Exec (ConsumerRun F) ProcessEnd
  consume die max_idle [] = pure still_running
  consume die max_idle (r ∷ rs) = do
    reclaim_each r.claimed
    poll die max_idle r.pending r.new_entries (consume die max_idle rs)
