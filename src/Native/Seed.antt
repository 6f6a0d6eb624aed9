-- ===== src/Native/Seed.antt =====
-- poc/native-kill-restart/seed.py: the trades that are posted, and the cash and positions that one
-- delivery of each leaves. `json.loads`, `json.dumps` and the format `f"evt-{i:03d}"` are parameters.
pub mod Baseline
pub mod Run
pub mod Proof
pub mod Restarted
use event_driven_trading_led.Base.{
  ℕ, ◌+◌, String, Bool, true, false, Option, none, some, List, [], ◌∷◌, map, ◌==◌, if◌then◌else◌,
}
use event_driven_trading_led.Base.Exec.{
  Result, ok, err, type_error, value_error, or_raise, bind_result,
}
use event_driven_trading_led.Base.Dict.{Dict, lookup, insert}
use event_driven_trading_led.Base.Float.{Float, zero_of}
use event_driven_trading_led.Risk.Json.{Value, null, bool, num, str, arr, obj, end, field}
use event_driven_trading_led.Risk.Narrative.Reply.{item}

pub record Trade (F : Type 0) : Type 0 where
  pub symbol : String
  pub side : String
  pub quantity : F
  pub price : F

-- the arguments of `_envelope`
pub record Posting (F : Type 0) : Type 0 where
  pub event_id : String
  pub symbol : String
  pub side : String
  pub quantity : F
  pub price : F
  pub cash_delta : F
  pub position_after : F

-- what the code asks of its runtime
pub record Codec (F : Type 0) : Type 0 where
  pub loads : String → Option (Value F)
  pub dumps : Value F → String
  pub event_id : ℕ → String

abbrev pub seed_account : String
seed_account = "acct_123"

module _ {F : Type 0} where
  -- `_envelope`
  abbrev pub seed_envelope : Posting F → Value F
  seed_envelope p =
      let content = obj (
        field "account_id" (str seed_account) (
          field "symbol" (str p.symbol) (
            field "side" (str p.side) (
              field "quantity" (num p.quantity) (
                field "price" (num p.price) (
                  field "cash_delta" (num p.cash_delta)
                    (field "position_after" (num p.position_after) end))))))) in
      obj (
        field "event_id" (str p.event_id) (
          field "event_type" (str "LedgerUpdated") (
            field "schema_version" (str "1")
              (field "producer" (str "ledger-core") (field "data" content end)))))

  -- `positions.get(symbol, 0.0)`
  abbrev pub held : F → String → Dict F → F
  held default symbol positions = elim (lookup symbol positions) [ none ↦ default | some q ↦ q ]

module _ {F : Type 0} ⦃fl : Float F⦄ where
  abbrev pub seed_cash : F
  seed_cash = fl.decimal 10000 0

  abbrev trade : String → String → ℕ → ℕ → Trade F
  trade symbol side quantity price = record {
    symbol = symbol;
    side = side;
    quantity = fl.decimal quantity 0;
    price = fl.decimal price 0;
  }

  -- `TRADES`
  abbrev pub seed_trades : List (Trade F)
  seed_trades =
      trade "AAPL" "BUY" 10 100
      ∷ trade "MSFT" "BUY" 5 200
      ∷ trade "AAPL" "BUY" 5 110
      ∷ trade "MSFT" "SELL" 2 210
      ∷ trade "AAPL" "SELL" 3 120
      ∷ trade "MSFT" "BUY" 4 190
      ∷ []

  module _ (codec : Codec F) where
    -- the loop over the trades, from the number `i` and the positions so far
    unfoldable pub postings : ℕ → Dict F → List (Trade F) → List (Posting F)
    postings i positions [] = []
    postings i positions (t ∷ ts) =
        let notional = fl.mul t.quantity t.price in
        let pos_delta = if t.side == "BUY" then t.quantity else fl.neg t.quantity in
        let position = fl.add (held (zero_of fl) t.symbol positions) pos_delta in
        let posting : Posting F = record {
          event_id = codec.event_id i;
          symbol = t.symbol;
          side = t.side;
          quantity = t.quantity;
          price = t.price;
          cash_delta = if t.side == "BUY" then fl.neg notional else notional;
          position_after = position;
        } in
        posting ∷ postings (i + 1) (insert t.symbol position positions) ts

    abbrev pub event_of : Posting F → String × (String × String)
    event_of p = (p.event_id, ("LedgerUpdated", codec.dumps (seed_envelope p)))

    -- `generate`, of any trades
    abbrev pub generate_from : List (Trade F) → List (String × (String × String))
    generate_from trades = map event_of (postings 1 [] trades)

    abbrev pub generate : List (String × (String × String))
    generate = generate_from seed_trades

    -- `x + v`
    pub plus : F → Value F → Result F
    plus x (num y) = ok (fl.add x y)
    plus x (bool true) = ok (fl.add x (fl.decimal 1 0))
    plus x (bool false) = ok (fl.add x (fl.decimal 0 0))
    plus x null = err type_error
    plus x (str s) = err type_error
    plus x (arr xs) = err type_error
    plus x (obj fs) = err type_error

    -- a value as a key of `positions`; what is no text is refused here, and never written above
    pub key_of : Value F → Result String
    key_of (str s) = ok s
    key_of null = err type_error
    key_of (bool b) = err type_error
    key_of (num x) = err type_error
    key_of (arr xs) = err type_error
    key_of (obj fs) = err type_error

    -- the body of the loop of `baseline`
    pub fold_event : String × (String × String) → F × Dict (Value F) → Result (F × Dict (Value F))
    fold_event (event_id, (event_type, payload)) (cash, positions) =
        bind_result (or_raise (codec.loads payload) value_error) λ root.
          bind_result (item "data" root) λ content. bind_result (item "cash_delta" content) λ delta.
            bind_result (plus cash delta) λ total.
              bind_result (item "position_after" content) λ position.
                bind_result (item "symbol" content) λ symbol.
                  bind_result (key_of symbol) λ key. ok (total, insert key position positions)

    pub baseline_from :
        List (String × (String × String)) → F × Dict (Value F) → Result (F × Dict (Value F))
    baseline_from [] acc = ok acc
    baseline_from (e ∷ es) acc = bind_result (fold_event e acc) λ next. baseline_from es next

    pub baseline : List (String × (String × String)) → Result (F × Dict (Value F))
    baseline events = baseline_from events (seed_cash, [])
