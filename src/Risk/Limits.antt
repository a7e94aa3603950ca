-- ===== src/Risk/Limits.antt =====
-- src/risk/limits.py: the limits in force, and the one call that changes them. The `changes` of a
-- call are the function that gives the named fields their new values, which are of the fields' types:
-- what the validation converts is left out.
pub mod Laws
use sibilla.Base.{
  Text, text, lower, starts_with, one_of, [], ◌∷◌, Option, none, some, Bool, true, ◌||◌, Result, ok,
  err, if◌then◌else◌,
}
use sibilla.Float.{Float}
use sibilla.Config.{RiskLimits, is_valid}
use sibilla.Store.{World, audit}

-- How a change of the limits raised.
pub data LimitsError : Type 0 where
  risk_violation validation_error db_error : LimitsError

-- `_override`, the database and how the call ended.
pub record LimitsOutcome (W : Type 0) : Type 0 where
  pub override : Option (RiskLimits W)
  pub world : World W
  pub result : Result LimitsError (RiskLimits W)

abbrev pub is_empty : Text → Bool
is_empty [] = true
is_empty (_ ∷ _) = Bool.false

-- `not actor or actor.lower() in _LLM_ACTORS or actor.lower().startswith("llm")`
unfoldable pub is_llm_actor : Text → Bool
is_llm_actor actor =
    is_empty actor
    || one_of (lower actor) (
        text "llm"
        ∷ text "agent"
        ∷ text "analyst"
        ∷ text "critic"
        ∷ text "portfolio_manager"
        ∷ text "judge"
        ∷ text "system:llm"
        ∷ [])
    || starts_with (lower actor) (text "llm")

module _ {W : Type 0} ⦃F : Float W⦄ where
  -- `_override or get_settings().risk`
  unfoldable pub current_limits : RiskLimits W → Option (RiskLimits W) → RiskLimits W
  current_limits settings none = settings
  current_limits settings (some limits) = limits

  -- The assignment of `_override` and the audit that follows it.
  abbrev pub apply_limits : Bool → W → Text → RiskLimits W → World W → LimitsOutcome W
  apply_limits audit_ok now actor after w =
      elim (audit audit_ok now (text "risk_config_changed") actor (some (text "risk_limits")) w) [
        | none ↦ record { override = some after; world = w; result = err LimitsError.db_error }
        | some w' ↦ record { override = some after; world = w'; result = ok after }
      ]

  unfoldable pub update_limits_human :
      Bool
      → W
      → RiskLimits W
      → Text
      → (RiskLimits W → RiskLimits W)
      → Option (RiskLimits W)
      → World W
      → LimitsOutcome W
  update_limits_human audit_ok now settings actor changes override w =
      if is_llm_actor actor
      then record { override = override; world = w; result = err LimitsError.risk_violation }
      else (let after = changes (current_limits settings override) in
          if is_valid after
          then apply_limits audit_ok now actor after w
          else record { override = override; world = w; result = err LimitsError.validation_error })

  -- `reset_limits_override`: what is left of `_override`.
  abbrev pub reset_limits_override : Option (RiskLimits W) → Option (RiskLimits W)
  reset_limits_override override = none
