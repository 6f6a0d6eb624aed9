-- ===== src/Risk/Positions.antt =====
-- services/risk-engine/app/store.py: the positions that are derived from the event log.
pub mod Latest
use Prim.Native.Char.{code}
use Prim.Native.String
use event_driven_trading_led.Base.{
  ℕ, String, Bool, true, false, not, Option, none, some, List, [], ◌∷◌, ◌&&◌, ◌==◌, ltb, nat_eq,
  map, any, if◌then◌else◌,
}
use event_driven_trading_led.Base.Float.{Float, zero_of}
use event_driven_trading_led.Risk.Metrics.{Holding}
use event_driven_trading_led.Risk.Store.{AppliedEvent, RiskStore, get_price, price_or_zero}

-- the order of a TEXT column, by code points
pub text_leb : String → String → Bool
text_leb String.[] t = true
text_leb (String.◌∷◌ c s) String.[] = false
text_leb (String.◌∷◌ c s) (String.◌∷◌ d t) =
    let rest = text_leb s t in
    if ltb (code c) (code d) then true else if nat_eq (code c) (code d) then rest else false

module _ {F : Type 0} where
  -- a later row for the same account and symbol
  unfoldable pub has_later : String → String → List (AppliedEvent F) → Bool
  has_later a s es = any (λ e. e.account_id == a && e.symbol == s) es

  -- the rows of an account whose rowid is the largest for their symbol
  unfoldable pub latest_rows : String → List (AppliedEvent F) → List (AppliedEvent F)
  latest_rows a [] = []
  latest_rows a (e ∷ es) =
      let rest = latest_rows a es in
      if e.account_id == a && not (has_later a e.symbol es) then e ∷ rest else rest

  -- ORDER BY symbol
  unfoldable pub insert_by_symbol : AppliedEvent F → List (AppliedEvent F) → List (AppliedEvent F)
  insert_by_symbol e [] = e ∷ []
  insert_by_symbol e (x ∷ xs) =
      let rest = insert_by_symbol e xs in
      if text_leb e.symbol x.symbol then e ∷ x ∷ xs else x ∷ rest

  unfoldable pub order_by_symbol : List (AppliedEvent F) → List (AppliedEvent F)
  order_by_symbol [] = []
  order_by_symbol (e ∷ es) = insert_by_symbol e (order_by_symbol es)

module _ {F : Type 0} ⦃fl : Float F⦄ where
  abbrev pub holding_of : AppliedEvent F → Holding F
  holding_of e = record { symbol = e.symbol; qty = e.position_after; price = price_or_zero e.price }

  unfoldable pub latest_positions : String → RiskStore F → List (Holding F)
  latest_positions account_id s =
      map holding_of (order_by_symbol (latest_rows account_id s.applied_events))

  unfoldable pub resolve : RiskStore F → Holding F → Holding F
  resolve s h = elim (get_price h.symbol s) [ none ↦ h | some mark ↦ record h { price = mark } ]

  unfoldable pub resolved_positions : String → RiskStore F → List (Holding F)
  resolved_positions account_id s = map (resolve s) (latest_positions account_id s)
