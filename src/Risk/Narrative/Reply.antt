-- ===== src/Risk/Narrative/Reply.antt =====
-- llm_explain.py: what the service is asked, and the JSON document that its answer holds.
pub mod Choices
use Prim.Native.String
use event_driven_trading_led.Base.{
  ℕ, String, Bool, true, false, Option, none, some, List, [], ◌∷◌, map, ◌==◌, if◌then◌else◌,
}
use event_driven_trading_led.Base.Exec.{
  Error, Result, ok, err, value_error, type_error, key_error, index_error, bind_result, or_raise,
}
use event_driven_trading_led.Risk.Json.{
  Value, Items, Fields, null, bool, num, str, arr, obj, nil, cons, end, field,
}
use event_driven_trading_led.Risk.Explain.{Facts}

-- what came of the POST: a URLError, a TimeoutError or an OSError; another exception; or a body
pub data Response : Type 0 where
  network_error : Response
  raised : Error → Response
  answered : String → Response

-- what the code asks of its runtime and of the service
pub record Runtime (F : Type 0) : Type 0 where
  pub getenv : String → Option String
  -- `s.strip()`, `s.lower()` and `s.rstrip("/")`
  pub strip : String → String
  pub lower : String → String
  pub rstrip_slash : String → String
  -- `str(v)`
  pub show : Value F → String
  -- `json.loads`; none is a ValueError
  pub loads : String → Option (Value F)
  -- `json.dumps`
  pub dumps : Value F → String
  -- the POST to a URL, with a key, a timeout, a model and a user payload
  pub post : String → String → F → String → String → Response

module _ {F : Type 0} where
  -- `d[k]`, where the key is there or not
  unfoldable pub field_or_raise : String → Fields F → Result (Value F)
  field_or_raise k end = err key_error
  field_or_raise k (field j v fs) = if j == k then ok v else field_or_raise k fs

  -- `v[k]` with a text `k`
  unfoldable pub item : String → Value F → Result (Value F)
  item k (obj fs) = field_or_raise k fs
  item k null = err type_error
  item k (bool b) = err type_error
  item k (num x) = err type_error
  item k (str s) = err type_error
  item k (arr xs) = err type_error

  pub first_item : Items F → Result (Value F)
  first_item nil = err index_error
  first_item (cons v vs) = ok v

  -- `v[0]`; of a text it is the first byte here, which no later step reads
  pub first_of : Value F → Result (Value F)
  first_of (arr xs) = first_item xs
  first_of (str s) = if s == "" then err index_error else ok (str (String.slice s 0 1))
  first_of (obj fs) = err key_error
  first_of null = err type_error
  first_of (bool b) = err type_error
  first_of (num x) = err type_error

  -- `json.loads(v)`
  pub loads_value : Runtime F → Value F → Result (Value F)
  loads_value rt (str s) = or_raise (rt.loads s) value_error
  loads_value rt null = err type_error
  loads_value rt (bool b) = err type_error
  loads_value rt (num x) = err type_error
  loads_value rt (arr xs) = err type_error
  loads_value rt (obj fs) = err type_error

  -- the body of the answer, down to the document that the model wrote
  pub document_of : Runtime F → String → Result (Value F)
  document_of rt raw = bind_result (or_raise (rt.loads raw) value_error) λ parsed.
      bind_result (item "choices" parsed) λ choices. bind_result (first_of choices) λ choice.
        bind_result (item "message" choice)
          λ message. bind_result (item "content" message) λ content. loads_value rt content

  abbrev pub items_of : List (Value F) → Items F
  items_of [] = nil
  items_of (v ∷ vs) = cons v (items_of vs)

  -- `_build_user_payload`
  pub build_user_payload : Runtime F → Facts F → String
  build_user_payload rt facts =
      let metrics =
        map
          (λ m. obj (
            field "key" (str m.key)
              (field "label" (str m.label) (field "plain" (str m.plain) end))))
          facts.metrics in
      let changes =
        map
          (λ c. obj (
            field "key" (str c.key)
              (field "direction" (str c.direction) (field "plain" (str c.plain) end))))
          facts.changes in
      rt.dumps (
        obj (
          field "headline" (str facts.headline) (
            field "summary" (str facts.summary) (
              field "metrics" (arr (items_of metrics)) (
                field "changes" (arr (items_of changes))
                  (field "notes" (arr (items_of (map str facts.notes))) end))))))
