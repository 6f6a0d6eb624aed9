-- ===== src/Native/Relay.antt =====
-- poc/native-kill-restart/relay_proc.py: the relay process. The stream is the list of the payloads
-- that were added to it, of which each entry has more fields (Native/Fields); a payload that is JSON
-- but no object, and a delay between rows, are left out.
pub mod Restart
pub mod Effects
use event_driven_trading_led.Base.{
  ℕ, ◌+◌, String, Bool, true, false, List, [], ◌∷◌, ◌++◌, ◌&&◌, not, nat_eq, if◌then◌else◌,
}
use event_driven_trading_led.Native.Store.{OutboxEvent, KillStore, unsent_rows, mark_sent}

pub record Pipe (F : Type 0) : Type 0 where
  pub db : KillStore F
  pub stream : List String

pub data Exit : Type 0 where
  exit_ok exit_killed : Exit

module _ {F : Type 0} where
  -- the loop over the rows, with the count of those published
  unfoldable pub relay_rows : ℕ → List OutboxEvent → ℕ → Pipe F → Exit × Pipe F
  relay_rows die [] published p = (exit_ok, p)
  relay_rows die (r ∷ rows) published p =
      let sent : Pipe F = record p { stream = p.stream ++ r.payload ∷ [] } in
      let rest =
        relay_rows die rows (published + 1) (record sent { db = mark_sent r.event_id sent.db }) in
      if not (nat_eq die 0) && nat_eq (published + 1) die then (exit_killed, sent) else rest

  -- `main`, with `--die-after-publish`
  unfoldable pub relay_run : ℕ → Pipe F → Exit × Pipe F
  relay_run die p = relay_rows die (unsent_rows p.db) 0 p
