-- ===== src/Risk/Narrative/Merge/Figures.antt =====
-- The merge takes prose from the document, and no figure.
use event_driven_trading_led.Base.{String, ◌≡◌, refl, ap, List, [], ◌∷◌, map, some, inl, inr}
use event_driven_trading_led.Base.Exec.{ok, Result-cases}
use event_driven_trading_led.Base.Dict.{Dict}
use event_driven_trading_led.Risk.Json.{Fields}
use event_driven_trading_led.Risk.Explain.{Facts}
use event_driven_trading_led.Risk.Explain.Metrics.{Metric}
use event_driven_trading_led.Risk.Explain.Changes.{Change}
use event_driven_trading_led.Risk.Narrative.Reply.{Runtime}
use event_driven_trading_led.Risk.Narrative.Merge.{
  get_or_nil, prose_map, overlay_metric, overlay_change, merge,
}

module _ {F : Type 0} where
  abbrev pub metric_figures : List (Metric F) → List (String × (String × F))
  metric_figures = map (λ m. (m.key, (m.label, m.value)))

  abbrev pub change_figures : List (Change F) → List (String × (String × F))
  change_figures = map (λ c. (c.key, (c.direction, c.delta)))

  -- the account, the time, and every key, label, value, direction and difference, in order
  pub record SameFigures (a b : Facts F) : Type 0 where
    pub account : b.account_id ≡ a.account_id
    pub time : b.computed_at ≡ a.computed_at
    pub metric : metric_figures b.metrics ≡ metric_figures a.metrics
    pub change : change_figures b.changes ≡ change_figures a.changes

  module _ (rt : Runtime F) where
    metric_figures-overlay :
        (d : Dict String) (ms : List (Metric F))
        → metric_figures (map (overlay_metric rt d) ms) ≡ metric_figures ms
    unfolding overlay_metric
    metric_figures-overlay d [] = refl
    metric_figures-overlay d (m ∷ ms) =
        ap (◌∷◌ (m.key, (m.label, m.value))) (metric_figures-overlay d ms)

    change_figures-overlay :
        (d : Dict String) (cs : List (Change F))
        → change_figures (map (overlay_change rt d) cs) ≡ change_figures cs
    unfolding overlay_change
    change_figures-overlay d [] = refl
    change_figures-overlay d (c ∷ cs) =
        ap (◌∷◌ (c.key, (c.direction, c.delta))) (change_figures-overlay d cs)

    -- Whatever document the model wrote, the merge either raises, or returns facts with the figures of
    -- the ones that it was given, marked as the model's.
    pub merge_figures :
        (facts out : Facts F) (llm : Fields F)
        → merge rt facts llm ≡ ok out
        → SameFigures facts out × (out.mode ≡ some "llm")
    unfolding merge
    merge_figures facts out llm h = elim (Result-cases (prose_map rt (get_or_nil "metrics" llm))) [
      | inl (e, raised) ↦ cc (h, raised)
      | inr (d, first) ↦ elim (Result-cases (prose_map rt (get_or_nil "changes" llm))) [
        | inl (e, raised) ↦ cc (h, first, raised)
        | inr (d', second) ↦ (
          record {
            account = cc (h, first, second);
            time = cc (h, first, second);
            metric = cc (h, first, second, metric_figures-overlay d facts.metrics);
            change = cc (h, first, second, change_figures-overlay d' facts.changes);
          },
          cc (h, first, second),
        )
      ]
    ]
