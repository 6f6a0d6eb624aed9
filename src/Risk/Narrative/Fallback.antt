-- ===== src/Risk/Narrative/Fallback.antt =====
-- When the rewrite is served, when the endpoint falls back, and when it fails.
use event_driven_trading_led.Base.{
  String, ◌≡◌, sym, subst, ◌⊎◌, inl, inr, true, false, Option, none, some, ◌==◌, Bool-cases,
}
use event_driven_trading_led.Base.Exec.{Error, Result, ok, err, index_error, Result-cases}
use event_driven_trading_led.Base.Float.{Float}
use event_driven_trading_led.Risk.Json.{Value, null, bool, num, str, arr, obj, nil}
use event_driven_trading_led.Risk.Explain.{Facts}
use event_driven_trading_led.Risk.Narrative.Merge.{merge}
use event_driven_trading_led.Risk.Narrative.Merge.Figures.{SameFigures, merge_figures}
use event_driven_trading_led.Risk.Narrative.Reply.{
  Runtime, Response, network_error, raised, answered, document_of, item,
}
use event_driven_trading_led.Risk.Narrative.Reply.Choices.{document_no_choices}
use event_driven_trading_led.Risk.Narrative.{
  LlmConfig, llm_config, is_caught, caught, narrate, read_response, generate_llm_narrative,
}

module _ {F : Type 0} ⦃fl : Float F⦄ (rt : Runtime F) where
  -- an answer that keeps the figures, and an exception that no clause takes
  abbrev pub Faithful : Facts F → Result (Option (Facts F)) → Type 0
  Faithful facts (ok none) = Unit
  Faithful facts (ok (some out)) = SameFigures facts out × (out.mode ≡ some "llm")
  Faithful facts (err e) = is_caught e ≡ false

  caught-Faithful : (facts : Facts F) (e : Error) → Faithful facts (caught e)
  unfolding caught
  caught-Faithful facts e = elim (Bool-cases (is_caught e)) [
    | inl taken ↦ rw taken tt
    | inr free ↦ rw free free
  ]

  narrate-Faithful : (facts : Facts F) (v : Value F) → Faithful facts (narrate rt facts v)
  unfolding narrate
  narrate-Faithful facts (obj llm) = elim (Result-cases (merge rt facts llm)) [
    | inl (e, failed) ↦
        let same : narrate rt facts (obj llm) ≡ caught e = rw (failed, narrate) in
        subst (Faithful facts) (sym same) (caught-Faithful facts e)
    | inr (out, done) ↦
        let same : narrate rt facts (obj llm) ≡ ok (some out) = rw (done, narrate) in
        subst (Faithful facts) (sym same) (merge_figures rt facts out llm done)
  ]
  narrate-Faithful facts null = tt
  narrate-Faithful facts (bool b) = tt
  narrate-Faithful facts (num x) = tt
  narrate-Faithful facts (str s) = tt
  narrate-Faithful facts (arr xs) = tt

  read_response-Faithful :
      (facts : Facts F) (r : Response) → Faithful facts (read_response rt facts r)
  unfolding read_response
  read_response-Faithful facts network_error = tt
  read_response-Faithful facts (raised e) = caught-Faithful facts e
  read_response-Faithful facts (answered raw) = elim (Result-cases (document_of rt raw)) [
    | inl (e, failed) ↦
        let same : read_response rt facts (answered raw) ≡ caught e = rw (failed, read_response) in
        subst (Faithful facts) (sym same) (caught-Faithful facts e)
    | inr (v, read) ↦
        let same : read_response rt facts (answered raw) ≡ narrate rt facts v =
          rw (read, read_response) in
        subst (Faithful facts) (sym same) (narrate-Faithful facts v)
  ]

  -- With a timeout that is a number, the rewrite is absent, or it has the figures of the facts and is
  -- marked as the model's, or an exception of a kind that no clause takes comes out.
  pub generate-Faithful :
      (facts : Facts F) (cfg : LlmConfig F)
      → llm_config rt ≡ ok cfg
      → Faithful facts (generate_llm_narrative rt facts)
  unfolding generate_llm_narrative
  generate-Faithful facts cfg h = elim (Bool-cases cfg.enabled) [
    | inr off ↦ rw (h, off) tt
    | inl on ↦ elim (Bool-cases (cfg.api_key == "")) [
      | inl no_key ↦ rw (h, on, no_key) tt
      | inr key ↦ rw (h, on, key) (read_response-Faithful facts _)
    ]
  ]

  -- With a timeout that is a number, and the model switched off, no key, or a service that cannot be
  -- reached, there is no rewrite and no exception.
  pub generate_unavailable :
      (facts : Facts F) (cfg : LlmConfig F)
      → llm_config rt ≡ ok cfg
      → (cfg.enabled ≡ false)
        ⊎ ((cfg.api_key == "") ≡ true)
        ⊎ ((url key : String) (timeout : F) (model payload : String)
            → rt.post url key timeout model payload ≡ network_error)
      → generate_llm_narrative rt facts ≡ ok none
  unfolding generate_llm_narrative read_response
  generate_unavailable facts cfg h why = elim (Bool-cases cfg.enabled) [
    | inr off ↦ rw (h, off)
    | inl on ↦ elim (Bool-cases (cfg.api_key == "")) [
      | inl no_key ↦ rw (h, on, no_key)
      | inr key ↦ elim why [
        | inl off ↦ cc (on, off)
        | inr (inl no_key) ↦ cc (key, no_key)
        | inr (inr down) ↦ rw (h, on, key, down)
      ]
    ]
  ]

  -- Where the service is called and answers a body whose list of choices is empty, the IndexError
  -- comes out of the function.
  pub generate_no_choices :
      (facts : Facts F) (cfg : LlmConfig F) (raw : String) (body : Value F)
      → llm_config rt ≡ ok cfg
      → cfg.enabled ≡ true
      → (cfg.api_key == "") ≡ false
      → ((url key : String) (timeout : F) (model payload : String)
          → rt.post url key timeout model payload ≡ answered raw)
      → rt.loads raw ≡ some body
      → item "choices" body ≡ ok (arr nil)
      → generate_llm_narrative rt facts ≡ err index_error
  unfolding generate_llm_narrative read_response caught is_caught
  generate_no_choices facts cfg raw body h on key answer parsed empty =
      rw (h, on, key, answer) (rw (document_no_choices rt raw body parsed empty, read_response))

  -- A timeout in the environment that is no number raises a ValueError, also when the model is
  -- switched off.
  pub generate_bad_timeout :
      (facts : Facts F) (e : Error)
      → llm_config rt ≡ err e
      → generate_llm_narrative rt facts ≡ err e
  unfolding generate_llm_narrative
  generate_bad_timeout facts e h = rw h
