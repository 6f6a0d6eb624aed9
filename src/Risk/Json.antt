-- ===== src/Risk/Json.antt =====
-- The values that `json.loads` returns, and what Python does with them: `.get`, truth, `float`, and
-- binding them to a TEXT column. Numbers are of the one type of the `Float` interface, the keys of
-- an object are distinct, and no identifier is a NaN.
use event_driven_trading_led.Base.{
  String, Bool, true, false, not, Option, none, some, ◌==◌, if◌then◌else◌,
}
use event_driven_trading_led.Base.Exec.{
  Result, ok, err, value_error, type_error, attribute_error, interface_error,
}
use event_driven_trading_led.Base.Float.{Float, zero_of}

mutual
  pub data Value (F : Type 0) : Type 0 where
    null : Value F
    bool : Bool → Value F
    num : F → Value F
    str : String → Value F
    arr : Items F → Value F
    obj : Fields F → Value F

  pub data Items (F : Type 0) : Type 0 where
    nil : Items F
    cons : Value F → Items F → Items F

  pub data Fields (F : Type 0) : Type 0 where
    end : Fields F
    field : String → Value F → Fields F → Fields F

module _ {F : Type 0} where
  -- `d.get(k)` of a dict, where a missing key is None
  abbrev pub get_field : String → Fields F → Value F
  get_field k end = null
  get_field k (field j v fs) = if j == k then v else get_field k fs

  -- `v.get(k)`
  abbrev pub get : String → Value F → Result (Value F)
  get k (obj fs) = ok (get_field k fs)
  get k null = err attribute_error
  get k (bool b) = err attribute_error
  get k (num x) = err attribute_error
  get k (str s) = err attribute_error
  get k (arr xs) = err attribute_error

  abbrev pub is_null : Value F → Bool
  is_null null = true
  is_null v = false

module _ {F : Type 0} ⦃fl : Float F⦄ where
  -- `bool(v)`
  abbrev pub truthy : Value F → Bool
  truthy null = false
  truthy (bool b) = b
  truthy (num x) = not (fl.eq x (zero_of fl))
  truthy (str s) = not (s == "")
  truthy (arr nil) = false
  truthy (arr (cons v vs)) = true
  truthy (obj end) = false
  truthy (obj (field k v fs)) = true

  -- `v or {}`
  abbrev pub or_empty : Value F → Value F
  or_empty v = if truthy v then v else obj end

  abbrev pub parse_number : String → Result F
  parse_number s = elim (fl.of_text s) [ none ↦ err value_error | some x ↦ ok x ]

  -- `float(v)`
  abbrev pub to_float : Value F → Result F
  to_float null = err type_error
  to_float (bool true) = ok (fl.decimal 1 0)
  to_float (bool false) = ok (fl.decimal 0 0)
  to_float (num x) = ok x
  to_float (str s) = parse_number s
  to_float (arr xs) = err type_error
  to_float (obj fs) = err type_error

  -- a value bound to a TEXT column; NULL is none
  abbrev pub bind_text : Value F → Result (Option String)
  bind_text null = ok none
  bind_text (bool true) = ok (some "1")
  bind_text (bool false) = ok (some "0")
  bind_text (num x) = ok (some (fl.to_text x))
  bind_text (str s) = ok (some s)
  bind_text (arr xs) = err interface_error
  bind_text (obj fs) = err interface_error
