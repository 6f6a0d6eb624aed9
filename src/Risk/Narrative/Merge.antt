-- ===== src/Risk/Narrative/Merge.antt =====
-- llm_explain.py: the prose of a document laid over the facts.
pub mod Figures
use event_driven_trading_led.Base.{
  String, Bool, true, false, not, Option, none, some, List, [], ◌∷◌, map, ◌==◌, if◌then◌else◌,
}
use event_driven_trading_led.Base.Exec.{Result, ok, err, type_error, bind_result}
use event_driven_trading_led.Base.Dict.{Dict, lookup, insert}
use event_driven_trading_led.Risk.Json.{
  Value, Items, Fields, null, bool, num, str, arr, obj, nil, cons, end, field, get_field,
}
use event_driven_trading_led.Risk.Explain.{Facts}
use event_driven_trading_led.Risk.Explain.Metrics.{Metric}
use event_driven_trading_led.Risk.Explain.Changes.{Change}
use event_driven_trading_led.Risk.Narrative.Reply.{Runtime}

-- `llm.get(k, [])`
unfoldable pub get_or_nil : {F : Type 0} → String → Fields F → Value F
get_or_nil k end = arr nil
get_or_nil k (field j v fs) = if j == k then v else get_or_nil k fs

-- an entry put into the map by its key: a text; another value that can be a key, which no key of
-- the facts equals; or one that cannot
unfoldable pub put_prose : {F : Type 0} → Value F → String → Dict String → Result (Dict String)
put_prose (str k) plain d = ok (insert k plain d)
put_prose null plain d = ok d
put_prose (bool b) plain d = ok d
put_prose (num x) plain d = ok d
put_prose (arr xs) plain d = err type_error
put_prose (obj fs) plain d = err type_error

module _ {F : Type 0} (rt : Runtime F) where
  -- whether a text is left after `strip`
  abbrev pub has_prose : String → Bool
  has_prose s = not (rt.strip s == "")

  -- a text of the document, else the one that was there
  unfoldable pub prose_or : String → Value F → String
  prose_or old (str s) = if has_prose s then rt.strip s else old
  prose_or old null = old
  prose_or old (bool b) = old
  prose_or old (num x) = old
  prose_or old (arr xs) = old
  prose_or old (obj fs) = old

  -- `[str(n) for n in notes if str(n).strip()]`
  pub notes_from : Items F → List String
  notes_from nil = []
  notes_from (cons v vs) =
      let rest = notes_from vs in if has_prose (rt.show v) then rt.show v ∷ rest else rest

  -- the notes of the document, where it has a list of them that is not empty
  unfoldable pub notes_or : List String → Value F → List String
  notes_or old (arr nil) = old
  notes_or old (arr (cons v vs)) = notes_from (cons v vs)
  notes_or old null = old
  notes_or old (bool b) = old
  notes_or old (num x) = old
  notes_or old (str s) = old
  notes_or old (obj fs) = old

  -- the prose of an element that is a dict with a text for `plain`
  unfoldable pub prose_of : Value F → Option String
  prose_of (str s) = if has_prose s then some s else none
  prose_of null = none
  prose_of (bool b) = none
  prose_of (num x) = none
  prose_of (arr xs) = none
  prose_of (obj fs) = none

  unfoldable pub add_prose : Value F → Dict String → Result (Dict String)
  add_prose (obj fs) d = elim (prose_of (get_field "plain" fs)) [
    | none ↦ ok d
    | some plain ↦ put_prose (get_field "key" fs) plain d
  ]
  add_prose null d = ok d
  add_prose (bool b) d = ok d
  add_prose (num x) d = ok d
  add_prose (str s) d = ok d
  add_prose (arr xs) d = ok d

  unfoldable pub prose_items : Items F → Dict String → Result (Dict String)
  prose_items nil d = ok d
  prose_items (cons v vs) d = bind_result (add_prose v d) (λ d'. prose_items vs d')

  -- the comprehension over a value of the document; the elements of a text or a dict are texts
  unfoldable pub prose_map : Value F → Result (Dict String)
  prose_map (arr xs) = prose_items xs []
  prose_map (str s) = ok []
  prose_map (obj fs) = ok []
  prose_map null = err type_error
  prose_map (bool b) = err type_error
  prose_map (num x) = err type_error

  abbrev pub overlay : Option String → String → String
  overlay none plain = plain
  overlay (some s) plain = rt.strip s

  unfoldable pub overlay_metric : Dict String → Metric F → Metric F
  overlay_metric d m = record m { plain = overlay (lookup m.key d) m.plain }

  unfoldable pub overlay_change : Dict String → Change F → Change F
  overlay_change d c = record c { plain = overlay (lookup c.key d) c.plain }

  -- `_merge`
  unfoldable pub merge : Facts F → Fields F → Result (Facts F)
  merge facts llm = bind_result (prose_map (get_or_nil "metrics" llm)) λ metric_plain.
      bind_result (prose_map (get_or_nil "changes" llm)) λ change_plain. ok (record facts {
        headline = prose_or facts.headline (get_field "headline" llm);
        summary = prose_or facts.summary (get_field "summary" llm);
        notes = notes_or facts.notes (get_field "notes" llm);
        metrics = map (overlay_metric metric_plain) facts.metrics;
        changes = map (overlay_change change_plain) facts.changes;
        mode = some "llm";
      })
