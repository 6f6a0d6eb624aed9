-- ===== src/Native/Seed/Run.antt =====
-- poc/native-kill-restart/run_proof.py: the store that the run starts from.
use event_driven_trading_led.Base.{
  String, ◌≡◌, refl, ap, sym, ◌∙◌, ◌||◌, false, not, some, List, [], ◌∷◌, ◌++◌, map, select, any,
  All, ◌==◌, arith, eq_iff, append_assoc, append-nil,
}
use event_driven_trading_led.Base.Exec.{ok}
use event_driven_trading_led.Base.Dict.{insert}
use event_driven_trading_led.Base.Float.{Float}
use event_driven_trading_led.Native.Store.{
  OutboxEvent, KillStore, new_store, seed_rows, seed_outbox, init_projection,
}
use event_driven_trading_led.Native.Relay.Restart.{IsUnique}
use event_driven_trading_led.Native.Seed.{
  Posting, Codec, seed_account, seed_cash, seed_envelope, event_of,
}
use event_driven_trading_led.Native.Seed.Baseline.{IsDistinct}

module _ {F : Type 0} ⦃fl : Float F⦄ (codec : Codec F) where
  -- the row of a posting that is not sent
  abbrev pub row_of : Posting F → OutboxEvent
  row_of p = record {
    event_id = p.event_id;
    event_type = "LedgerUpdated";
    payload = codec.dumps (seed_envelope p);
    sent = false;
  }

  -- no row has the id of one of the postings
  abbrev IsFree : List OutboxEvent → List (Posting F) → Type 0
  IsFree rows = All (λ q. any (λ r. r.event_id == q.event_id) rows ≡ false)

  any-append_row :
      (k : String) (rows : List OutboxEvent) (r : OutboxEvent)
      → any (λ x. x.event_id == k) (rows ++ r ∷ [])
        ≡ (any (λ x. x.event_id == k) rows || r.event_id == k)
  any-append_row k [] r = ground arith
  any-append_row k (x ∷ rows) r = ground (arith, any-append_row k rows r)

  IsFree-append :
      (p : Posting F) (rows : List OutboxEvent) (ps : List (Posting F))
      → All (λ q. (p.event_id == q.event_id) ≡ false) ps
      → IsFree rows ps
      → IsFree (rows ++ row_of p ∷ []) ps
  IsFree-append p rows [] other free = tt
  IsFree-append p rows (q ∷ ps) other free = (
    rw (any-append_row q.event_id rows (row_of p), free.0, other.0),
    IsFree-append p rows ps other.1 free.1,
  )

  seed_rows-IsDistinct :
      (ps : List (Posting F)) (rows : List OutboxEvent)
      → IsDistinct codec ps
      → IsFree rows ps
      → seed_rows (map (event_of codec) ps) rows ≡ some (rows ++ map row_of ps)
  unfolding seed_rows
  seed_rows-IsDistinct [] rows distinct free = ap some (sym (append-nil rows))
  seed_rows-IsDistinct (p ∷ ps) rows distinct free = rw free.0 (
      seed_rows-IsDistinct ps (rows ++ row_of p ∷ []) distinct.1
        (IsFree-append p rows ps distinct.0 free.1)
      ∙ ap some (append_assoc rows (row_of p ∷ []) (map row_of ps)))

  pub select-row_of :
      (ps : List (Posting F)) → select (λ r. not r.sent) (map row_of ps) ≡ map row_of ps
  unfolding select
  select-row_of [] = refl
  select-row_of (p ∷ ps) = ap (◌∷◌ (row_of p)) (select-row_of ps)

  All-row_of :
      (p : Posting F) (ps : List (Posting F))
      → All (λ q. (p.event_id == q.event_id) ≡ false) ps
      → All (λ x. (x.event_id == p.event_id) ≡ false) (map row_of ps)
  All-row_of p [] h = tt
  All-row_of p (q ∷ ps) h = (
    ground (arith, h.0, eq_iff p.event_id q.event_id, eq_iff q.event_id p.event_id),
    All-row_of p ps h.1,
  )

  pub IsUnique-row_of : (ps : List (Posting F)) → IsDistinct codec ps → IsUnique (map row_of ps)
  IsUnique-row_of [] h = tt
  IsUnique-row_of (p ∷ ps) h = (All-row_of p ps h.0, IsUnique-row_of ps h.1)

  IsFree-nil : (ps : List (Posting F)) → IsFree [] ps
  IsFree-nil [] = tt
  IsFree-nil (p ∷ ps) = (refl, IsFree-nil ps)

  -- the store once it is seeded
  abbrev pub seeded_store : List (String × (String × String)) → KillStore F
  seeded_store events = (init_projection seed_account seed_cash (seed_outbox events new_store).1).1

  pub seed_outbox-IsDistinct :
      (ps : List (Posting F))
      → IsDistinct codec ps
      → seed_outbox {F = F} (map (event_of codec) ps) new_store
        ≡ (ok tt, record new_store { outbox_events = map row_of ps })
  unfolding seed_outbox
  seed_outbox-IsDistinct ps distinct =
      rw (seed_rows-IsDistinct ps [] distinct (IsFree-nil ps), seed_outbox)

  pub seeded_store_lem :
      (ps : List (Posting F))
      → IsDistinct codec ps
      → fl.is_nan seed_cash ≡ false
      → seeded_store (map (event_of codec) ps) ≡ (record new_store {
        outbox_events = map row_of ps;
        proj_cash = (seed_account, seed_cash) ∷ [];
      })
  unfolding init_projection insert
  seeded_store_lem ps distinct number =
      ap (λ r. (init_projection seed_account seed_cash r.1).1) (seed_outbox-IsDistinct ps distinct)
      ∙ rw (number, init_projection)
