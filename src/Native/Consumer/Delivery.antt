-- ===== src/Native/Consumer/Delivery.antt =====
-- At-least-once delivery: each entry in its order, and any earlier one again at any time.
use event_driven_trading_led.Base.{
  String, Bool, ℕ, zero, suc, ◌<◌, ◌≡◌, refl, subst, inl, inr, Option, List, [], ◌∷◌, ◌++◌, take,
  drop, length, All, arith,
}
use event_driven_trading_led.Base.Exec.{ok, Run-cases}
use event_driven_trading_led.Base.Float.{Float}
use event_driven_trading_led.Risk.Json.{Value}
use event_driven_trading_led.Native.Store.{KillStore}
use event_driven_trading_led.Native.Consumer.{handle, handle_each}
use event_driven_trading_led.Native.Consumer.Replay.{
  Among, Settled, handle_lem, handle_skips, Settled-handle,
}

-- what is delivered, after some entries, of those that are left
pub data Delivery
    : List (Option String) → List (Option String) → List (Option String) → Type 0 where
  finished : (done : List (Option String)) → Delivery done [] []
  again :
      {done es xs : List (Option String)} (x : Option String)
      → Among x done
      → Delivery done es xs
      → Delivery done es (x ∷ xs)
  next :
      {done es xs : List (Option String)} (e : Option String)
      → Delivery (e ∷ done) es xs
      → Delivery done (e ∷ es) (e ∷ xs)

-- each entry once
pub each_once : (done es : List (Option String)) → Delivery done es es
each_once done [] = finished done
each_once done (e ∷ es) = next e (each_once (e ∷ done) es)

-- the entries of a relay that was killed on its row `j`: that entry comes twice
pub twice :
    (j : ℕ) (done es : List (Option String))
    → j < length es
    → Delivery done es (take (suc j) es ++ drop j es)
twice j done [] h = absurd (omega arith)
twice zero done (e ∷ es) h = next e (again e (inl refl) (each_once (e ∷ done) es))
twice (suc j) done (e ∷ es) h = next e (twice j (e ∷ done) es (omega arith))

module _ {F : Type 0} ⦃fl : Float F⦄ (loads : String → Option (Value F)) where
  Settled-Among :
      (x : Option String) (done : List (Option String)) (s : KillStore F)
      → All (λ e. Settled loads e s) done
      → Among x done
      → Settled loads x s
  Settled-Among x [] s h here = absurd here
  Settled-Among x (e ∷ done) s h (inl found) = subst (λ k. Settled loads k s) found h.0
  Settled-Among x (e ∷ done) s h (inr further) = Settled-Among x done s h.1 further

  All-Settled-handle :
      (e : Option String) (b : Bool) (done : List (Option String)) (s s' : KillStore F)
      → handle loads e s ≡ (ok b, s')
      → All (λ x. Settled loads x s) done
      → All (λ x. Settled loads x s') done
  All-Settled-handle e b [] s s' h old = tt
  All-Settled-handle e b (x ∷ done) s s' h old =
      (Settled-handle loads x e b s s' h old.0, All-Settled-handle e b done s s' h old.1)

  -- from a store in which the earlier entries are settled
  handle_each-Delivery_from :
      {done es xs : List (Option String)} (s s' : KillStore F)
      → Delivery done es xs
      → All (λ x. Settled loads x s) done
      → handle_each loads es s ≡ (ok tt, s')
      → handle_each loads xs s ≡ (ok tt, s')
  unfolding handle_each
  handle_each-Delivery_from s s' (finished done) old h = h
  handle_each-Delivery_from {done} s s' (again x here rest) old h =
      rw (handle_skips loads x s (Settled-Among x done s old here))
        (handle_each-Delivery_from s s' rest old h)
  handle_each-Delivery_from {done} s s' (next e rest) old h = elim (Run-cases (handle loads e s)) [
    | inl (x, t, raised) ↦ ground arith
    | inr (b, t, done_now) ↦ rw done_now (
        handle_each-Delivery_from t s' rest
          ((handle_lem loads e b s t done_now).0, All-Settled-handle e b done s t done_now old)
          (ground arith))
  ]

  -- If the entries, delivered once each, are handled without an exception, then so is any delivery in
  -- which earlier entries come again at any time, and it ends in the same store.
  pub handle_each-Delivery :
      (es xs : List (Option String)) (s s' : KillStore F)
      → Delivery [] es xs
      → handle_each loads es s ≡ (ok tt, s')
      → handle_each loads xs s ≡ (ok tt, s')
  handle_each-Delivery es xs s s' d h = handle_each-Delivery_from s s' d tt h
