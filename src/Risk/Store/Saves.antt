-- ===== src/Risk/Store/Saves.antt =====
-- `save_risk_snapshot` of store.py: the upsert, or the refusal of a NaN.
use event_driven_trading_led.Base.{◌≡◌, ◌⊎◌, inl, inr, some, ◌||◌, Bool-cases}
use event_driven_trading_led.Base.Exec.{ok, err, integrity_error}
use event_driven_trading_led.Base.Dict.{insert, lookup-insert_self}
use event_driven_trading_led.Base.Float.{Float}
use event_driven_trading_led.Risk.Store.{
  RiskSnapshot, RiskStore, save_risk_snapshot, get_risk_snapshot,
}

module _ {F : Type 0} where
  abbrev pub saved : RiskSnapshot F → RiskStore F → RiskStore F
  saved r s = record s { risk_snapshots = insert r.account_id r s.risk_snapshots }

  pub get_risk_snapshot-saved :
      (r : RiskSnapshot F) (s : RiskStore F) → get_risk_snapshot r.account_id (saved r s) ≡ some r
  unfolding get_risk_snapshot
  get_risk_snapshot-saved r s = lookup-insert_self r.account_id r s.risk_snapshots

module _ {F : Type 0} ⦃fl : Float F⦄ where
  pub save_risk_snapshot_lem :
      (r : RiskSnapshot F) (s : RiskStore F)
      → (save_risk_snapshot r s ≡ (err integrity_error, s))
        ⊎ (save_risk_snapshot r s ≡ (ok tt, saved r s))
  unfolding save_risk_snapshot
  save_risk_snapshot_lem r s =
      elim (Bool-cases (
        fl.is_nan r.portfolio_value
        || fl.is_nan r.pnl
        || fl.is_nan r.volatility
        || fl.is_nan r.var
        || fl.is_nan r.sharpe)) [ inl nan ↦ inl (rw nan) | inr numbers ↦ inr (rw numbers) ]
