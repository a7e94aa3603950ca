-- ===== src/Risk/Limits/Laws.antt =====
-- Who can change the limits, and that the limits in force are always valid.
use sibilla.Base.{
  Text, Option, Bool, true, false, ◌≡◌, refl, err, Bool-cases, inl, inr, List, [], ◌∷◌,
}
use sibilla.Float.{Float}
use sibilla.Config.{RiskLimits, is_valid}
use sibilla.Store.{World, audit}
use sibilla.Risk.Limits.{
  LimitsError, is_llm_actor, current_limits, apply_limits, update_limits_human,
}

-- A requested change, with its time and the outcome of its audit.
pub record Change (W : Type 0) : Type 0 where
  pub audit_ok : Bool
  pub now : W
  pub actor : Text
  pub changes : RiskLimits W → RiskLimits W

module _ {W : Type 0} ⦃F : Float W⦄ where
  -- A change that an LLM actor asks for raises, and changes neither the limits nor the database.
  pub update_limits_human-llm :
      (audit_ok : Bool) (now : W) (settings : RiskLimits W) (actor : Text)
      (changes : RiskLimits W → RiskLimits W) (override : Option (RiskLimits W)) (w : World W)
      → is_llm_actor actor ≡ true
      → let o = update_limits_human audit_ok now settings actor changes override w in
        (o.override ≡ override) × (o.world ≡ w) × (o.result ≡ err LimitsError.risk_violation)
  unfolding update_limits_human
  update_limits_human-llm audit_ok now settings actor changes override w h = rw h (refl, refl, refl)

  abbrev InForce : RiskLimits W → Option (RiskLimits W) → Type 0
  InForce settings override = is_valid (current_limits settings override) ≡ true

  apply_limits-InForce :
      (audit_ok : Bool) (now : W) (settings : RiskLimits W) (actor : Text) (after : RiskLimits W)
      (w : World W)
      → is_valid after ≡ true
      → InForce settings (apply_limits audit_ok now actor after w).override
  unfolding audit current_limits
  apply_limits-InForce true now settings actor after w h = h
  apply_limits-InForce false now settings actor after w h = h

  update-InForce :
      (audit_ok : Bool) (now : W) (settings : RiskLimits W) (actor : Text)
      (changes : RiskLimits W → RiskLimits W) (override : Option (RiskLimits W)) (w : World W)
      → InForce settings override
      → InForce settings
          (update_limits_human audit_ok now settings actor changes override w).override
  unfolding update_limits_human
  update-InForce audit_ok now settings actor changes override w h =
      elim (Bool-cases (is_llm_actor actor)) [
        | inl llm ↦ rw llm h
        | inr human ↦ elim (Bool-cases (is_valid (changes (current_limits settings override)))) [
          | inl valid ↦ rw human (
              rw valid (
                apply_limits-InForce audit_ok now settings actor
                  (changes (current_limits settings override)) w valid))
          | inr invalid ↦ rw human (rw invalid h)
        ]
      ]

  unfoldable pub update_all :
      RiskLimits W → List (Change W) → Option (RiskLimits W) → World W → Option (RiskLimits W)
  update_all settings [] override w = override
  update_all settings (c ∷ cs) override w =
      let o = update_limits_human c.audit_ok c.now settings c.actor c.changes override w in
      update_all settings cs o.override o.world

  -- If the configured limits are valid, so are the limits in force after any changes by any actors,
  -- whether or not the audits are written.
  pub update_all-is_valid :
      (settings : RiskLimits W) (cs : List (Change W)) (override : Option (RiskLimits W))
      (w : World W)
      → is_valid (current_limits settings override) ≡ true
      → is_valid (current_limits settings (update_all settings cs override w)) ≡ true
  unfolding update_all
  update_all-is_valid settings [] override w h = h
  update_all-is_valid settings (c ∷ cs) override w h =
      let o = update_limits_human c.audit_ok c.now settings c.actor c.changes override w in
      update_all-is_valid settings cs o.override o.world
        (update-InForce c.audit_ok c.now settings c.actor c.changes override w h)
