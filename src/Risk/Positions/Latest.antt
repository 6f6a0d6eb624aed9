-- ===== src/Risk/Positions/Latest.antt =====
-- The SQL of `latest_positions` against its meaning: the last event of each symbol.
use event_driven_trading_led.Base.{
  String, ◌≡◌, refl, ap, ◌∙◌, Bool, true, false, not, Option, none, some, List, [], ◌∷◌, arith,
  eq_iff, ◌==◌, ◌&&◌, map, inl, inr, Bool-cases, if◌then◌else◌,
}
use event_driven_trading_led.Base.Float.{Float}
use event_driven_trading_led.Risk.Metrics.{Holding}
use event_driven_trading_led.Risk.Store.{AppliedEvent, RiskStore, get_price, price_or_zero}
use event_driven_trading_led.Risk.Positions.{
  has_later, latest_rows, insert_by_symbol, order_by_symbol, holding_of, latest_positions, resolve,
  resolved_positions,
}

module _ {F : Type 0} where
  -- the last event of the log for an account and a symbol
  pub last_event : String → String → List (AppliedEvent F) → Option (AppliedEvent F)
  last_event a s [] = none
  last_event a s (e ∷ es) = elim (last_event a s es) [
    | some later ↦ some later
    | none ↦ if e.account_id == a && e.symbol == s then some e else none
  ]

  find_row : String → List (AppliedEvent F) → Option (AppliedEvent F)
  find_row s [] = none
  find_row s (e ∷ es) = if e.symbol == s then some e else find_row s es

  abbrev is_some : Option (AppliedEvent F) → Bool
  is_some none = false
  is_some (some e) = true

  has_later-eq-is_some :
      (a s : String) (es : List (AppliedEvent F)) → has_later a s es ≡ is_some (last_event a s es)
  unfolding has_later last_event
  has_later-eq-is_some a s [] = refl
  has_later-eq-is_some a s (e ∷ es) = ground (arith, has_later-eq-is_some a s es)

  find_row-latest_rows :
      (a s : String) (es : List (AppliedEvent F))
      → find_row s (latest_rows a es) ≡ last_event a s es
  unfolding latest_rows last_event find_row
  find_row-latest_rows a s [] = refl
  find_row-latest_rows a s (e ∷ es) =
      ground
        (arith, find_row-latest_rows a s es, has_later-eq-is_some a e.symbol es, eq_iff e.symbol s)

  -- no symbol stands twice
  abbrev IsDistinct : List (AppliedEvent F) → Type 0
  IsDistinct [] = Unit
  IsDistinct (e ∷ es) = (find_row e.symbol es ≡ none) × IsDistinct es

  latest_rows-IsDistinct : (a : String) (es : List (AppliedEvent F)) → IsDistinct (latest_rows a es)
  unfolding latest_rows
  latest_rows-IsDistinct a [] = tt
  latest_rows-IsDistinct a (e ∷ es) =
      elim (Bool-cases (e.account_id == a && not (has_later a e.symbol es))) [
        | inl newest ↦ rw newest (
          ground (arith, find_row-latest_rows a e.symbol es, has_later-eq-is_some a e.symbol es),
          latest_rows-IsDistinct a es,
        )
        | inr older ↦ rw older (latest_rows-IsDistinct a es)
      ]

  find_row-insert_by_symbol :
      (s : String) (e : AppliedEvent F) (xs : List (AppliedEvent F))
      → find_row e.symbol xs ≡ none
      → find_row s (insert_by_symbol e xs) ≡ (if e.symbol == s then some e else find_row s xs)
  unfolding find_row insert_by_symbol
  find_row-insert_by_symbol s e [] h = refl
  find_row-insert_by_symbol s e (x ∷ xs) h = ground (
    arith,
    find_row-insert_by_symbol s e xs,
    eq_iff e.symbol s,
    eq_iff x.symbol s,
    eq_iff x.symbol e.symbol,
  )

  find_row-order_by_symbol :
      (s : String) (es : List (AppliedEvent F))
      → IsDistinct es
      → find_row s (order_by_symbol es) ≡ find_row s es
  unfolding order_by_symbol find_row
  find_row-order_by_symbol s [] h = refl
  find_row-order_by_symbol s (e ∷ es) h =
      find_row-insert_by_symbol s e (order_by_symbol es)
        (find_row-order_by_symbol e.symbol es h.1 ∙ h.0)
      ∙ ap (λ r. if e.symbol == s then some e else r) (find_row-order_by_symbol s es h.1)

  pub find_holding : String → List (Holding F) → Option (Holding F)
  find_holding s [] = none
  find_holding s (h ∷ hs) = if h.symbol == s then some h else find_holding s hs

module _ {F : Type 0} ⦃fl : Float F⦄ where
  -- what the last event of a symbol gives: its position, at the live price if there is one, and at
  -- its own price, or zero, if there is none
  abbrev pub resolved_of : RiskStore F → Option (AppliedEvent F) → Option (Holding F)
  resolved_of s none = none
  resolved_of s (some e) = some (record {
    symbol = e.symbol;
    qty = e.position_after;
    price = elim (get_price e.symbol s) [ none ↦ price_or_zero e.price | some mark ↦ mark ];
  })

  find_holding-resolved :
      (sy : String) (s : RiskStore F) (rows : List (AppliedEvent F))
      → find_holding sy (map (resolve s) (map holding_of rows)) ≡ resolved_of s (find_row sy rows)
  unfolding find_holding find_row resolve
  find_holding-resolved sy s [] = refl
  find_holding-resolved sy s (e ∷ es) = ground (arith, find_holding-resolved sy s es)

  -- For every account and symbol the resolved position is that of the last applied event, marked at
  -- the live price, else at the price of that event, else at zero; a symbol with no event has none.
  pub find_holding-resolved_positions :
      (account_id symbol : String) (s : RiskStore F)
      → find_holding symbol (resolved_positions account_id s)
        ≡ resolved_of s (last_event account_id symbol s.applied_events)
  unfolding resolved_positions latest_positions
  find_holding-resolved_positions account_id symbol s =
      let rows = latest_rows account_id s.applied_events in
      find_holding-resolved symbol s (order_by_symbol rows)
      ∙ ap (resolved_of s) (
          find_row-order_by_symbol symbol rows (latest_rows-IsDistinct account_id s.applied_events)
          ∙ find_row-latest_rows account_id symbol s.applied_events)
