-- ===== src/Native/Script/Dicts.antt =====
-- The comparisons at the end of run_proof.py, of what agrees with itself.
use event_driven_trading_led.Base.{
  String, ◌≡◌, refl, ap, true, false, List, [], ◌∷◌, ◌++◌, any, length, length-map, All, arith,
  eq_iff, ◌==◌,
}
use event_driven_trading_led.Base.Text.{is_within, same_set}
use event_driven_trading_led.Base.Dict.{Dict, insert}
use event_driven_trading_led.Base.Keys.{
  HasDistinctKeys, insert-All, insert-HasDistinctKeys, AreIn, AreIn-head, AreIn-map,
}
use event_driven_trading_led.Base.Float.{Float, EqSelf}
use event_driven_trading_led.Risk.Json.{Value, num}
use event_driven_trading_led.Risk.Store.{distinct}
use event_driven_trading_led.Native.Consumer.Replay.{any-append}
use event_driven_trading_led.Native.Seed.{Posting, Codec}
use event_driven_trading_led.Native.Seed.Baseline.{folded, ids, as_values, IsClean, IsDistinct}
use event_driven_trading_led.Native.Script.{holds_items, same_positions}

module _ {F : Type 0} ⦃fl : Float F⦄ where
  -- each symbol has one position, and no position is a NaN
  abbrev pub IsPositions : Dict F → Type 0
  IsPositions d = HasDistinctKeys d × All (λ item. fl.is_nan item.1 ≡ false) d

  pub folded-IsPositions :
      (codec : Codec F) (ps : List (Posting F)) (cash : F) (d : Dict F)
      → IsClean codec cash ps
      → IsPositions d
      → IsPositions (folded fl ps (cash, d)).1
  folded-IsPositions codec [] cash d clean h = h
  folded-IsPositions codec (p ∷ ps) cash d (_, _, number, rest) h =
      folded-IsPositions codec ps (fl.add cash p.cash_delta) (insert p.symbol p.position_after d)
        rest
        (
          insert-HasDistinctKeys p.symbol p.position_after d h.0,
          insert-All (λ item. fl.is_nan item.1 ≡ false) p.symbol p.position_after d h.1
              (λ _ _. number) number,
        )

  holds_items_lem :
      (d : Dict F) (base : Dict (Value F))
      → EqSelf fl
      → All (λ item. fl.is_nan item.1 ≡ false) d
      → AreIn num d base
      → holds_items d base ≡ true
  holds_items_lem [] base law numbers h = refl
  holds_items_lem ((k, q) ∷ d) base law numbers h =
      let (here, later) = AreIn-head num k q d base h in
      rw (here, law.eq_self q numbers.0, holds_items_lem d base law numbers.1 later)

  pub same_positions-as_values :
      (d : Dict F) → EqSelf fl → IsPositions d → same_positions d (as_values d) ≡ true
  same_positions-as_values d law h =
      let items = holds_items_lem d (as_values d) law h.1 (AreIn-map num d h.0) in
      let count : length (as_values d) ≡ length d = length-map _ d in
      rw (count, items) (ground arith)

  -- the ids of postings with distinct ids, without repetitions
  IsNewTo : List String → List (Posting F) → Type 0
  IsNewTo seen ps = All (λ q. any (λ j. j == q.event_id) seen ≡ false) ps

  IsNewTo-snoc :
      (p : Posting F) (seen : List String) (ps : List (Posting F))
      → All (λ q. (p.event_id == q.event_id) ≡ false) ps
      → IsNewTo seen ps
      → IsNewTo (seen ++ p.event_id ∷ []) ps
  unfolding IsNewTo
  IsNewTo-snoc p seen [] other h = tt
  IsNewTo-snoc p seen (q ∷ ps) other h = (
    rw (any-append q.event_id seen p.event_id, h.0, other.0) refl,
    IsNewTo-snoc p seen ps other.1 h.1,
  )

  module _ (codec : Codec F) where
    distinct_new :
        (ps : List (Posting F)) (seen : List String)
        → IsDistinct codec ps
        → IsNewTo seen ps
        → distinct seen (ids ps) ≡ ids ps
    unfolding distinct IsNewTo
    distinct_new [] seen h new = refl
    distinct_new (p ∷ ps) seen h new =
        let later =
          distinct_new ps (seen ++ p.event_id ∷ []) h.1 (IsNewTo-snoc p seen ps h.0 new.1) in
        rw new.0 (ap (◌∷◌ p.event_id) later)

    IsNewTo-nil : (ps : List (Posting F)) → IsNewTo [] ps
    unfolding IsNewTo
    IsNewTo-nil [] = tt
    IsNewTo-nil (p ∷ ps) = (refl, IsNewTo-nil ps)

    pub distinct-ids : (ps : List (Posting F)) → IsDistinct codec ps → distinct [] (ids ps) ≡ ids ps
    distinct-ids ps h = distinct_new ps [] h (IsNewTo-nil ps)

is_within-cons :
    (y : String) (xs ys : List String) → is_within xs ys ≡ true → is_within xs (y ∷ ys) ≡ true
is_within-cons y [] ys h = refl
is_within-cons y (x ∷ xs) ys h = ground (arith, is_within-cons y xs ys, h)

is_within_self : (xs : List String) → is_within xs xs ≡ true
is_within_self [] = refl
is_within_self (x ∷ xs) = ground (arith, eq_iff x x, is_within-cons x xs xs (is_within_self xs))

pub same_set_self : (xs : List String) → same_set xs xs ≡ true
same_set_self xs = rw (is_within_self xs) refl
