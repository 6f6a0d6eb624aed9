-- ===== src/Native/Relay/Restart.antt =====
-- The relay killed between a publish and its mark, and run again.
use event_driven_trading_led.Base.{
  ℕ, zero, suc, ◌+◌, ◌<◌, String, ◌≡◌, refl, ap, sym, ◌∙◌, true, false, not, List, [], ◌∷◌, ◌++◌,
  arith, eq_iff, ◌==◌, map, select, take, drop, length, All, nat_eq, ◌&&◌, map-append, subst,
  append_assoc, append-nil, if◌then◌else◌,
}
use event_driven_trading_led.Native.Store.{OutboxEvent, KillStore, unsent_rows, mark_sent}
use event_driven_trading_led.Native.Relay.{Pipe, exit_ok, exit_killed, relay_rows, relay_run}

-- no event id stands twice
abbrev pub IsUnique : List OutboxEvent → Type 0
IsUnique [] = Unit
IsUnique (r ∷ rows) = All (λ x. (x.event_id == r.event_id) ≡ false) rows × IsUnique rows

IsUnique-drop : (j : ℕ) (rows : List OutboxEvent) → IsUnique rows → IsUnique (drop j rows)
IsUnique-drop zero rows u = u
IsUnique-drop (suc j) [] u = tt
IsUnique-drop (suc j) (r ∷ rows) u = IsUnique-drop j rows u.1

abbrev pub payloads : List OutboxEvent → List String
payloads = map (λ r. r.payload)

select-others :
    (k : String) (rows : List OutboxEvent)
    → All (λ x. (x.event_id == k) ≡ false) rows
    → select (λ x. not (x.event_id == k)) rows ≡ rows
unfolding select
select-others k [] h = refl
select-others k (r ∷ rows) h = ground (arith, select-others k rows h.1)

marked :
    (k : String) (rows : List OutboxEvent)
    → select
        (λ r. not r.sent)
        (map (λ r. if r.event_id == k then record r { sent = true } else r) rows)
      ≡ select (λ x. not (x.event_id == k)) (select (λ r. not r.sent) rows)
unfolding select
marked k [] = refl
marked k (r ∷ rows) = ground (arith, marked k rows)

module _ {F : Type 0} where
  unsent_rows-mark_sent :
      (r : OutboxEvent) (rows : List OutboxEvent) (s : KillStore F)
      → unsent_rows s ≡ r ∷ rows
      → IsUnique (r ∷ rows)
      → unsent_rows (mark_sent r.event_id s) ≡ rows
  unfolding unsent_rows mark_sent select
  unsent_rows-mark_sent r rows s h u =
      marked r.event_id s.outbox_events
      ∙ ap (select (λ x. not (x.event_id == r.event_id))) h
      ∙ ground (arith, select-others r.event_id rows u.0, eq_iff r.event_id r.event_id)

  relay_rows_clean :
      (rows : List OutboxEvent) (n : ℕ) (p : Pipe F)
      → unsent_rows p.db ≡ rows
      → IsUnique rows
      → let (e, p') = relay_rows 0 rows n p in
        (e ≡ exit_ok) × (unsent_rows p'.db ≡ []) × (p'.stream ≡ p.stream ++ payloads rows)
  unfolding relay_rows
  relay_rows_clean [] n p h u = (refl, h, sym (append-nil p.stream))
  relay_rows_clean (r ∷ rows) n p h u =
      let next : Pipe F = record p {
        stream = p.stream ++ r.payload ∷ [];
        db = mark_sent r.event_id p.db;
      } in
      let rest = relay_rows_clean rows (n + 1) next (unsent_rows-mark_sent r rows p.db h u) u.1 in
      (rest.0, rest.1, rest.2 ∙ append_assoc p.stream (r.payload ∷ []) (payloads rows))

  -- killed on the row `j`, counted from 0
  relay_rows_killed :
      (die j : ℕ) (rows : List OutboxEvent) (n : ℕ) (p : Pipe F)
      → die ≡ n + suc j
      → unsent_rows p.db ≡ rows
      → IsUnique rows
      → j < length rows
      → let (e, p') = relay_rows die rows n p in
        (e ≡ exit_killed)
        × (unsent_rows p'.db ≡ drop j rows)
        × (p'.stream ≡ p.stream ++ payloads (take (suc j) rows))
  unfolding relay_rows
  relay_rows_killed die j [] n p at h u lt = absurd (omega arith)
  relay_rows_killed die zero (r ∷ rows) n p at h u lt = (ground arith, ground arith, ground arith)
  relay_rows_killed die (suc j) (r ∷ rows) n p at h u lt =
      let next : Pipe F = record p {
        stream = p.stream ++ r.payload ∷ [];
        db = mark_sent r.event_id p.db;
      } in
      let rest =
        relay_rows_killed die j rows (n + 1) next (omega arith)
          (unsent_rows-mark_sent r rows p.db h u) u.1 (omega arith) in
      let alive : not (nat_eq die 0) && nat_eq (n + 1) die ≡ false = ground arith in
      rw alive (
        rest.0,
        rest.1,
        rest.2 ∙ append_assoc p.stream (r.payload ∷ []) (payloads (take (suc j) rows)),
      )

  -- what a relay leaves that is killed on its row `j`
  pub relay_run_killed :
      (j : ℕ) (p : Pipe F)
      → IsUnique (unsent_rows p.db)
      → j < length (unsent_rows p.db)
      → let rows = unsent_rows p.db in
        let (killed, p') = relay_run (suc j) p in
        (killed ≡ exit_killed)
        × (unsent_rows p'.db ≡ drop j rows)
        × (p'.stream ≡ p.stream ++ payloads (take (suc j) rows))
  unfolding relay_run
  relay_run_killed j p u lt =
      relay_rows_killed (suc j) j (unsent_rows p.db) 0 p (omega arith) refl u lt

  -- A relay that is killed on its row `j` (from 0), after publishing it and before marking it, and is
  -- run again to the end, leaves no row unsent and has published every row that was unsent in order,
  -- row `j` twice and each other once, where the event ids of those rows are distinct.
  pub relay_run_restarted :
      (j : ℕ) (p : Pipe F)
      → IsUnique (unsent_rows p.db)
      → j < length (unsent_rows p.db)
      → let rows = unsent_rows p.db in
        let (killed, p') = relay_run (suc j) p in
        let (ended, p'') = relay_run 0 p' in
        (killed ≡ exit_killed)
        × (ended ≡ exit_ok)
        × (unsent_rows p''.db ≡ [])
        × (p''.stream ≡ p.stream ++ payloads (take (suc j) rows ++ drop j rows))
  unfolding relay_run
  relay_run_restarted j p u lt =
      let rows = unsent_rows p.db in
      let first = relay_run_killed j p u lt in
      let p' = (relay_run (suc j) p).1 in
      let second =
        relay_rows_clean (unsent_rows p'.db) 0 p' refl
          (subst IsUnique (sym first.1) (IsUnique-drop j rows u)) in
      (
        first.0,
        second.0,
        second.1,
        second.2
            ∙ ap (λ s. s ++ payloads (unsent_rows p'.db)) first.2
            ∙ ap (λ r. (p.stream ++ payloads (take (suc j) rows)) ++ payloads r) first.1
            ∙ append_assoc p.stream (payloads (take (suc j) rows)) (payloads (drop j rows))
            ∙ ap (λ r. p.stream ++ r)
                (sym
                  (map-append (λ (r : OutboxEvent). r.payload) (take (suc j) rows) (drop j rows))),
      )
