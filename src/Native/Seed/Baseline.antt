-- ===== src/Native/Seed/Baseline.antt =====
-- One delivery of each seeded event, by the consumer and by `baseline`.
use event_driven_trading_led.Base.{
  String, ◌≡◌, refl, ap, sym, ◌∙◌, true, false, Option, some, List, [], ◌∷◌, ◌++◌, map, select, All,
  ◌==◌, arith, eq_iff, append-nil, append_assoc,
}
use event_driven_trading_led.Base.Exec.{ok}
use event_driven_trading_led.Base.Dict.{Dict, lookup, insert, lookup-update}
use event_driven_trading_led.Base.Float.{Float}
use event_driven_trading_led.Risk.Json.{Value, num, str}
use event_driven_trading_led.Native.Store.{
  KillStore, ProjectedPosition, already_processed, cash_refused, put_position, apply, projection,
}
use event_driven_trading_led.Native.Consumer.{
  Extract, extract_root, extract, record_event, handle, handle_each,
}
use event_driven_trading_led.Native.Consumer.Replay.{recorded, already_processed-grown}
use event_driven_trading_led.Native.Seed.{
  Posting, Codec, seed_account, seed_envelope, event_of, plus, key_of, fold_event, baseline_from,
}
use event_driven_trading_led.Risk.Narrative.Reply.{item, field_or_raise}

module _ {F : Type 0} where
  -- the positions of an account, as `projection` lists them
  abbrev pub positions_of : String → List (ProjectedPosition F) → Dict F
  positions_of account_id ps =
      map (λ p. (p.symbol, p.qty)) (select (λ p. p.account_id == account_id) ps)

  positions_of-put_position :
      (a y : String) (q : F) (ps : List (ProjectedPosition F))
      → positions_of a (put_position a y q ps) ≡ insert y q (positions_of a ps)
  unfolding put_position insert select
  positions_of-put_position a y q [] = ground (arith, eq_iff a a)
  positions_of-put_position a y q (p ∷ ps) =
      ground (arith, eq_iff p.account_id a, eq_iff p.symbol y, positions_of-put_position a y q ps)

  -- the fold of the postings
  abbrev pub folded : Float F → List (Posting F) → F × Dict F → F × Dict F
  folded fl [] acc = acc
  folded fl (p ∷ ps) acc =
      folded fl ps (fl.add acc.0 p.cash_delta, insert p.symbol p.position_after acc.1)

  abbrev pub ids : List (Posting F) → List String
  ids = map (λ p. p.event_id)

  abbrev pub as_values : Dict F → Dict (Value F)
  as_values = map (λ e. (e.0, num e.1))

  insert-as_values :
      (k : String) (x : F) (d : Dict F) → insert k (num x) (as_values d) ≡ as_values (insert k x d)
  unfolding insert
  insert-as_values k x [] = refl
  insert-as_values k x ((j, w) ∷ d) = ground (arith, insert-as_values k x d)

module _ {F : Type 0} ⦃fl : Float F⦄ (codec : Codec F) where
  -- the event of a posting is read as it was written, and has an id
  abbrev pub Sound : Posting F → Type 0
  Sound p =
      ((p.event_id == "") ≡ false)
      × ((codec.dumps (seed_envelope p) == "") ≡ false)
      × (codec.loads (codec.dumps (seed_envelope p)) ≡ some (seed_envelope p))

  fold_event_lem :
      (p : Posting F) (cash : F) (d : Dict F)
      → Sound p
      → fold_event codec (event_of codec p) (cash, as_values d)
        ≡ ok (fl.add cash p.cash_delta, as_values (insert p.symbol p.position_after d))
  unfolding fold_event plus key_of item field_or_raise
  fold_event_lem p cash d (named, shown, read) =
      rw (read, insert-as_values p.symbol p.position_after d)

  pub baseline_from_lem :
      (ps : List (Posting F)) (cash : F) (d : Dict F)
      → All Sound ps
      → baseline_from codec (map (event_of codec) ps) (cash, as_values d)
        ≡ ok ((folded fl ps (cash, d)).0, as_values (folded fl ps (cash, d)).1)
  unfolding baseline_from
  baseline_from_lem [] cash d h = refl
  baseline_from_lem (p ∷ ps) cash d h =
      rw (fold_event_lem p cash d h.0) (baseline_from_lem ps (fl.add cash p.cash_delta) _ h.1)

  -- what `_extract` makes of a posting
  abbrev extract_of : Posting F → Extract F
  extract_of p = record {
    event_id = p.event_id;
    account_id = str seed_account;
    symbol = str p.symbol;
    qty_after = p.position_after;
    cash_delta = p.cash_delta;
  }

  abbrev pub delivery_of : Posting F → Option String
  delivery_of p = some (codec.dumps (seed_envelope p))

  extract-delivery_of :
      (p : Posting F) → Sound p → extract codec.loads (delivery_of p) ≡ ok (some (extract_of p))
  unfolding extract extract_root
  extract-delivery_of p (named, shown, read) = rw (shown, read, named)

  -- no sum and no position is a NaN, from a cash on
  abbrev pub IsClean : F → List (Posting F) → Type 0
  IsClean cash [] = Unit
  IsClean cash (p ∷ ps) =
      (fl.is_nan p.cash_delta ≡ false)
      × (fl.is_nan (fl.add cash p.cash_delta) ≡ false)
      × (fl.is_nan p.position_after ≡ false)
      × IsClean (fl.add cash p.cash_delta) ps

  abbrev after_posting : Posting F → KillStore F → KillStore F
  after_posting p s = recorded p.event_id seed_account p.symbol p.position_after p.cash_delta s

  cash_refused_clean :
      (delta cash : F) (accounts : Dict F)
      → lookup seed_account accounts ≡ some cash
      → fl.is_nan delta ≡ false
      → fl.is_nan (fl.add cash delta) ≡ false
      → cash_refused seed_account delta accounts ≡ false
  unfolding cash_refused
  cash_refused_clean delta cash accounts account a b = rw (account, a, b, cash_refused)

  handle-delivery_of :
      (p : Posting F) (ps : List (Posting F)) (cash : F) (s : KillStore F)
      → Sound p
      → already_processed p.event_id s ≡ false
      → lookup seed_account s.proj_cash ≡ some cash
      → IsClean cash (p ∷ ps)
      → handle codec.loads (delivery_of p) s ≡ (ok true, after_posting p s)
  unfolding handle record_event apply
  handle-delivery_of p ps cash s sound new account clean =
      let allowed = cash_refused_clean p.cash_delta cash s.proj_cash account clean.0 clean.1 in
      rw (extract-delivery_of p sound, new, allowed, clean.2)

  -- no id stands twice
  abbrev pub IsDistinct : List (Posting F) → Type 0
  IsDistinct [] = Unit
  IsDistinct (p ∷ ps) = All (λ q. (p.event_id == q.event_id) ≡ false) ps × IsDistinct ps

  -- none of the postings is recorded
  abbrev pub IsNew : KillStore F → List (Posting F) → Type 0
  IsNew s = All (λ q. already_processed q.event_id s ≡ false)

  IsNew-after_posting :
      (p : Posting F) (s : KillStore F) (ps : List (Posting F))
      → All (λ q. (p.event_id == q.event_id) ≡ false) ps
      → IsNew s ps
      → IsNew (after_posting p s) ps
  IsNew-after_posting p s [] other new = tt
  IsNew-after_posting p s (q ∷ ps) other new = (
    rw (
      already_processed-grown codec.loads q.event_id p.event_id s (after_posting p s) refl,
      other.0,
      new.0,
    ),
    IsNew-after_posting p s ps other.1 new.1,
  )

  lookup-after_posting :
      (p : Posting F) (cash : F) (s : KillStore F)
      → lookup seed_account s.proj_cash ≡ some cash
      → lookup seed_account (after_posting p s).proj_cash ≡ some (fl.add cash p.cash_delta)
  lookup-after_posting p cash s account =
      rw (lookup-update seed_account seed_account (λ x. fl.add x p.cash_delta) s.proj_cash, account)

  -- Postings with distinct ids that are not recorded, delivered once each: no exception, their ids are
  -- recorded in order, and the projection is their fold.
  pub handle_each-deliveries :
      (ps : List (Posting F)) (cash : F) (s : KillStore F)
      → All Sound ps
      → IsDistinct ps
      → IsNew s ps
      → lookup seed_account s.proj_cash ≡ some cash
      → IsClean cash ps
      → let (e, s') = handle_each codec.loads (map delivery_of ps) s in
        (e ≡ ok tt)
        × (projection seed_account s'
            ≡ folded fl ps (cash, positions_of seed_account s.proj_positions))
        × (s'.processed_events ≡ s.processed_events ++ ids ps)
  unfolding handle_each
  handle_each-deliveries [] cash s sound distinct new account clean =
      (refl, unfold projection in rw account, sym (append-nil s.processed_events))
  handle_each-deliveries (p ∷ ps) cash s sound distinct new account clean =
      let next = after_posting p s in
      let rest =
        handle_each-deliveries ps (fl.add cash p.cash_delta) next sound.1 distinct.1
          (IsNew-after_posting p s ps distinct.0 new.1) (lookup-after_posting p cash s account)
          clean.3 in
      rw (handle-delivery_of p ps cash s sound.0 new.0 account clean) (
        rest.0,
        rest.1
            ∙ ap (λ d. folded fl ps (fl.add cash p.cash_delta, d))
                (positions_of-put_position seed_account p.symbol p.position_after s.proj_positions),
        rest.2 ∙ append_assoc s.processed_events (p.event_id ∷ []) (ids ps),
      )
