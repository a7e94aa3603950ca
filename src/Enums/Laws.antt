-- ===== src/Enums/Laws.antt =====
-- Laws of the lookups and of the buckets of src/core/enums.py.
use mathlib.Core.Option.{some-injective}
use sibilla.Base.{◌≡◌, refl, sym, ap, ◌∙◌, some, ◌↔◌, true, ◌=?◌, =?_iff, Key}
use sibilla.Enums.StrEnum.{value, of_value}
use sibilla.Enums.Market.{
  Factor, factor_enum, factor_value, MarketStatus, market_status_enum, Direction, direction_enum,
  parse_direction, parse_market_status,
}
use sibilla.Enums.News.{EventType, event_type_value, event_type_enum}
use sibilla.Enums.State.{KillSwitchReason, kill_switch_reason_enum, SystemState, system_state_enum}

-- The lookups of the kill switch's strings undo `value`: what `load` reads is what was written.
pub of_value-value_reason : (r : KillSwitchReason) → of_value (value r) ≡ some r
unfolding of_value
of_value-value_reason KillSwitchReason.manual = refl
of_value-value_reason r = refl

pub of_value-value_state : (s : SystemState) → of_value (value s) ≡ some s
unfolding of_value
of_value-value_state SystemState.killed = refl
of_value-value_state s = refl

pub parse_market_status-value : (s : MarketStatus) → parse_market_status (some (value s)) ≡ s
unfolding parse_market_status
parse_market_status-value MarketStatus.unknown = refl
parse_market_status-value s = refl

pub parse_direction-value : (d : Direction) → parse_direction (value d) ≡ some d
unfolding parse_direction
parse_direction-value Direction.buy = refl
parse_direction-value d = refl

of_value-value_factor : (f : Factor) → of_value (value f) ≡ some f
unfolding of_value
of_value-value_factor Factor.volatility = refl
of_value-value_factor f = refl

-- Two factors with one string are one factor.
factor_value_injective : (f g : Factor) → factor_value f ≡ factor_value g → f ≡ g
factor_value_injective f g e =
    some-injective f g (sym (of_value-value_factor f) ∙ ap of_value e ∙ of_value-value_factor g)

pub factor_beq_iff : (f g : Factor) → ((factor_value f =? factor_value g) ≡ true) ↔ (f ≡ g)
factor_beq_iff f g = (
  λ h. factor_value_injective f g ((=?_iff (factor_value f) (factor_value g)).0 h),
  λ e. (=?_iff (factor_value f) (factor_value g)).1 (ap factor_value e),
)

instance abbrev pub factor_key : Key Factor
factor_key = record { beq = λ f g. factor_value f =? factor_value g; beq_iff = factor_beq_iff }

of_value-value_event_type : (t : EventType) → of_value (value t) ≡ some t
unfolding of_value
of_value-value_event_type EventType.alert = refl
of_value-value_event_type t = refl

event_type_value_injective : (s t : EventType) → event_type_value s ≡ event_type_value t → s ≡ t
event_type_value_injective s t e =
    some-injective s t
      (sym (of_value-value_event_type s) ∙ ap of_value e ∙ of_value-value_event_type t)

pub event_type_beq_iff :
    (s t : EventType) → ((event_type_value s =? event_type_value t) ≡ true) ↔ (s ≡ t)
event_type_beq_iff s t = (
  λ h. event_type_value_injective s t ((=?_iff (event_type_value s) (event_type_value t)).0 h),
  λ e. (=?_iff (event_type_value s) (event_type_value t)).1 (ap event_type_value e),
)

instance abbrev pub event_type_key : Key EventType
event_type_key = record {
  beq = λ s t. event_type_value s =? event_type_value t;
  beq_iff = event_type_beq_iff;
}
