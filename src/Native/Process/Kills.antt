-- ===== src/Native/Process/Kills.antt =====
-- The consumer process killed before it acknowledges its last entry.
use event_driven_trading_led.Base.{
  ℕ, suc, ◌+◌, String, ◌≡◌, refl, ◌∙◌, inl, inr, true, false, not, ◌&&◌, Option, List, [], ◌∷◌,
  ◌++◌, map, length, arith, nat_eq, append_assoc, append-nil,
}
use event_driven_trading_led.Base.Exec.{ok, Run-cases}
use event_driven_trading_led.Base.Float.{Float}
use event_driven_trading_led.Risk.Json.{Value}
use event_driven_trading_led.Native.Store.{KillStore}
use event_driven_trading_led.Native.Consumer.{handle, handle_each}
use event_driven_trading_led.Native.Process.{
  StreamEntry, Round, exit_died, ConsumerRun, reclaim_each, take_each, poll, consume,
}
use event_driven_trading_led.Native.Process.Drains.{events_of}

-- a round with one new entry, as `count=1` reads it, and nothing to claim
abbrev pub single : StreamEntry → Round
single e = record { claimed = []; new_entries = e ∷ []; pending = 1 }

module _ {F : Type 0} ⦃fl : Float F⦄ (loads : String → Option (Value F)) where
  -- A process that is to die on its n-th new entry gets n new entries one by one, which raise no
  -- exception: it dies after it has handled them all, in order, and has acknowledged all but the
  -- last, whatever further answers were to come.
  pub consume_killed :
      (die max_idle : ℕ) (es : List StreamEntry) (last : StreamEntry) (more : List Round)
      (s : ConsumerRun F) (db : KillStore F)
      → s.applied_new + suc (length es) ≡ die
      → handle_each loads (events_of (es ++ last ∷ [])) s.db ≡ (ok tt, db)
      → consume loads die max_idle (map single (es ++ last ∷ []) ++ more) s ≡ (
        ok exit_died,
        record s { db = db; acked = s.acked ++ es; applied_new = die; idle_polls = 0 },
      )
  unfolding consume poll take_each reclaim_each handle_each
  consume_killed die max_idle [] last more s db at h =
      elim (Run-cases (handle loads last.event s.db)) [
        | inl (e, t, raised) ↦ ground arith
        | inr (b, t, done) ↦
            let same : t ≡ db = ground arith in
            let count : s.applied_new + 1 ≡ die = omega arith in
            let dies : not (nat_eq die 0) && nat_eq die die ≡ true = ground arith in
            rw (done, same, count, dies, append-nil s.acked) refl
      ]
  consume_killed die max_idle (e ∷ es) last more s db at h =
      elim (Run-cases (handle loads e.event s.db)) [
        | inl (x, t, raised) ↦ ground arith
        | inr (b, t, done) ↦
            let next : ConsumerRun F = record {
              db = t;
              acked = s.acked ++ e ∷ [];
              applied_new = s.applied_new + 1;
              reclaimed = s.reclaimed;
              idle_polls = 0;
            } in
            let lives : not (nat_eq die 0) && nat_eq (s.applied_new + 1) die ≡ false =
              ground arith in
            rw (done, lives)
              (consume_killed die max_idle es last more next db (omega arith) (ground arith)
                ∙ rw (append_assoc s.acked (e ∷ []) es) refl)
      ]
