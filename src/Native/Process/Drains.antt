-- ===== src/Native/Process/Drains.antt =====
-- How the loop of the consumer process ends.
use event_driven_trading_led.Base.{
  String, ℕ, ◌+◌, ◌<◌, ◌≡◌, refl, sym, subst, ◌∙◌, inl, inr, Bool, true, false, not, Option, List,
  [], ◌∷◌, ◌++◌, map, length, All, arith, leb, nat_eq, append_assoc, append-nil, map-append,
}
use event_driven_trading_led.Base.Exec.{Exec, ok, Run-cases}
use event_driven_trading_led.Base.Float.{Float}
use event_driven_trading_led.Risk.Json.{Value}
use event_driven_trading_led.Native.Store.{KillStore}
use event_driven_trading_led.Native.Consumer.{handle, handle_each}
use event_driven_trading_led.Native.Process.{
  StreamEntry, Round, ProcessEnd, exit_done, ConsumerRun, reclaim_each, take_each, poll, consume,
}

abbrev pub events_of : List StreamEntry → List (Option String)
events_of = map (λ e. e.event)

-- what the rounds deliver, and how many of those entries are new or claimed
abbrev pub entries_of : List Round → List StreamEntry
entries_of [] = []
entries_of (r ∷ rs) = r.claimed ++ (r.new_entries ++ entries_of rs)

abbrev pub count_new : List Round → ℕ
count_new [] = 0
count_new (r ∷ rs) = length r.new_entries + count_new rs

abbrev pub count_claimed : List Round → ℕ
count_claimed [] = 0
count_claimed (r ∷ rs) = length r.claimed + count_claimed rs

-- a round that has a new entry, or after which an entry is pending; and one with nothing
abbrev pub is_busy : Round → Bool
is_busy r = not (nat_eq (length r.new_entries + r.pending) 0)

abbrev pub IsQuiet : Round → Type 0
IsQuiet r = (r.claimed ≡ []) × (r.new_entries ≡ []) × (r.pending ≡ 0)

module _ {F : Type 0} ⦃fl : Float F⦄ (loads : String → Option (Value F)) where
  pub handle_each-append :
      (xs ys : List (Option String)) (s s' : KillStore F)
      → handle_each loads (xs ++ ys) s ≡ (ok tt, s')
      → (t : KillStore F) × (handle_each loads xs s ≡ (ok tt, t))
        × (handle_each loads ys t ≡ (ok tt, s'))
  unfolding handle_each
  handle_each-append [] ys s s' h = (s, refl, h)
  handle_each-append (x ∷ xs) ys s s' h = elim (Run-cases (handle loads x s)) [
    | inl (e, t, raised) ↦ ground arith
    | inr (b, t, done) ↦
        let (u, first, second) = handle_each-append xs ys t s' (ground arith) in
        (u, rw done first, second)
  ]

  reclaim_each_lem :
      (es : List StreamEntry) (s : ConsumerRun F) (db : KillStore F)
      → handle_each loads (events_of es) s.db ≡ (ok tt, db)
      → reclaim_each loads es s
        ≡ (ok tt, record s { db = db; acked = s.acked ++ es; reclaimed = s.reclaimed + length es })
  unfolding reclaim_each handle_each
  reclaim_each_lem [] s db h = ground (arith, append-nil s.acked)
  reclaim_each_lem (e ∷ es) s db h = elim (Run-cases (handle loads e.event s.db)) [
    | inl (x, t, raised) ↦ ground arith
    | inr (b, t, done) ↦
        let next : ConsumerRun F = record s {
          db = t;
          acked = s.acked ++ e ∷ [];
          reclaimed = s.reclaimed + 1;
        } in
        let count : (s.reclaimed + 1) + length es ≡ s.reclaimed + length (e ∷ es) = omega arith in
        rw done (
          reclaim_each_lem es next db (ground arith) ∙ rw (append_assoc s.acked (e ∷ []) es, count))
  ]

  take_each_lem :
      (es : List StreamEntry) (s : ConsumerRun F) (db : KillStore F)
      → handle_each loads (events_of es) s.db ≡ (ok tt, db)
      → take_each loads 0 es s ≡ (
        ok false,
        record s { db = db; acked = s.acked ++ es; applied_new = s.applied_new + length es },
      )
  unfolding take_each handle_each
  take_each_lem [] s db h = ground (arith, append-nil s.acked)
  take_each_lem (e ∷ es) s db h = elim (Run-cases (handle loads e.event s.db)) [
    | inl (x, t, raised) ↦ ground arith
    | inr (b, t, done) ↦
        let next : ConsumerRun F = record s {
          db = t;
          acked = s.acked ++ e ∷ [];
          applied_new = s.applied_new + 1;
        } in
        let count : (s.applied_new + 1) + length es ≡ s.applied_new + length (e ∷ es) =
          omega arith in
        rw done
          (take_each_lem es next db (ground arith) ∙ rw (append_assoc s.acked (e ∷ []) es, count))
  ]

  -- at the end of enough quiet rounds the process is at rest
  consume_quiet :
      (max_idle : ℕ) (quiet : List Round) (s : ConsumerRun F)
      → All IsQuiet quiet
      → s.idle_polls < max_idle
      → s.idle_polls + length quiet ≡ max_idle
      → consume loads 0 max_idle quiet s ≡ (ok exit_done, record s { idle_polls = max_idle })
  unfolding consume reclaim_each poll
  consume_quiet max_idle [] s h lt at = absurd (omega arith)
  consume_quiet max_idle (r ∷ []) s h lt at =
      let last : leb max_idle (s.idle_polls + 1) ≡ true = ground arith in
      let count : s.idle_polls + 1 ≡ max_idle = omega arith in
      rw (h.0.0, h.0.1, h.0.2, last, count) refl
  consume_quiet max_idle (r ∷ q ∷ rs) s h lt at =
      let more : leb max_idle (s.idle_polls + 1) ≡ false = ground arith in
      rw (h.0.0, h.0.1, h.0.2, more)
        (consume_quiet max_idle (q ∷ rs) (record s { idle_polls = s.idle_polls + 1 }) h.1
          (omega arith) (omega arith))

  -- a busy round takes its new entries and goes on
  poll_busy :
      (max_idle pending : ℕ) (es : List StreamEntry) (rest : Exec (ConsumerRun F) ProcessEnd)
      (s : ConsumerRun F) (db : KillStore F)
      → nat_eq (length es + pending) 0 ≡ false
      → s.idle_polls ≡ 0
      → handle_each loads (events_of es) s.db ≡ (ok tt, db)
      → poll loads 0 max_idle pending es rest s
        ≡ rest
            (record s { db = db; acked = s.acked ++ es; applied_new = s.applied_new + length es })
  unfolding poll handle_each
  poll_busy max_idle pending [] rest s db busy idle h =
      let waits : nat_eq pending 0 ≡ false = ground arith in
      let same : s.db ≡ db = ground arith in
      let count : s.applied_new + 0 ≡ s.applied_new = omega arith in
      rw (waits, sym same, append-nil s.acked, count) refl
  poll_busy max_idle pending (e ∷ es) rest s db busy idle h =
      rw (take_each_lem (e ∷ es) (record s { idle_polls = 0 }) db h, sym idle) refl

  -- A process that is not to be killed, gets busy rounds whose entries raise no exception, and then
  -- as many quiet rounds as it may idle, which is at least one, ends with exit code 0: it
  -- has handled and acknowledged every entry of the busy rounds in order, and counted them.
  pub consume_drains :
      (max_idle : ℕ) (busy quiet : List Round) (s : ConsumerRun F) (db : KillStore F)
      → s.idle_polls ≡ 0
      → 0 < max_idle
      → All (λ r. is_busy r ≡ true) busy
      → All IsQuiet quiet
      → length quiet ≡ max_idle
      → handle_each loads (events_of (entries_of busy)) s.db ≡ (ok tt, db)
      → consume loads 0 max_idle (busy ++ quiet) s ≡ (
        ok exit_done,
        record {
          db = db;
          acked = s.acked ++ entries_of busy;
          applied_new = s.applied_new + count_new busy;
          reclaimed = s.reclaimed + count_claimed busy;
          idle_polls = max_idle;
        },
      )
  unfolding consume handle_each
  consume_drains max_idle [] quiet s db idle lt hb hq at h =
      let same : s.db ≡ db = ground arith in
      let new : s.applied_new + 0 ≡ s.applied_new = omega arith in
      let old : s.reclaimed + 0 ≡ s.reclaimed = omega arith in
      rw (append-nil s.acked, sym same, new, old)
        (consume_quiet max_idle quiet s hq (omega arith) (omega arith))
  consume_drains max_idle (r ∷ rs) quiet s db idle lt hb hq at h =
      let later = entries_of rs in
      let (t, first, then_new) =
        handle_each-append (events_of r.claimed) (events_of (r.new_entries ++ later)) s.db db (
          subst (λ es. handle_each loads es s.db ≡ (ok tt, db))
            (map-append (λ (e : StreamEntry). e.event) r.claimed (r.new_entries ++ later)) h) in
      let (u, second, third) = handle_each-append (events_of r.new_entries) (events_of later) t db (
        subst (λ es. handle_each loads es t ≡ (ok tt, db))
          (map-append (λ (e : StreamEntry). e.event) r.new_entries later) then_new) in
      let claimed : ConsumerRun F = record s {
        db = t;
        acked = s.acked ++ r.claimed;
        reclaimed = s.reclaimed + length r.claimed;
      } in
      let next : ConsumerRun F = record claimed {
        db = u;
        acked = claimed.acked ++ r.new_entries;
        applied_new = s.applied_new + length r.new_entries;
      } in
      let rest = consume loads 0 max_idle (rs ++ quiet) in
      let works : nat_eq (length r.new_entries + r.pending) 0 ≡ false = ground arith in
      let joined_acks : next.acked ++ later ≡ s.acked ++ entries_of (r ∷ rs) =
        append_assoc claimed.acked r.new_entries later
        ∙ append_assoc s.acked r.claimed (r.new_entries ++ later) in
      let new : next.applied_new + count_new rs ≡ s.applied_new + count_new (r ∷ rs) =
        omega arith in
      let old : next.reclaimed + count_claimed rs ≡ s.reclaimed + count_claimed (r ∷ rs) =
        omega arith in
      rw (reclaim_each_lem r.claimed s t first) (
        poll_busy max_idle r.pending r.new_entries rest claimed u works idle second
        ∙ consume_drains max_idle rs quiet next db idle lt hb.1 hq at third
        ∙ rw (joined_acks, new, old))
