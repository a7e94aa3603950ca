-- ===== src/Etoro/Runner/Closing.antt =====
-- `EtoroRunner.time_stop_close_all` of src/workers/etoro_runner.py. The broker's answer to a closing is a
-- parameter: for the identifier of a position its answer, or an exception.
pub mod Stopped
use sibilla.Base.{
  ℕ, Text, List, [], ◌∷◌, ◌++◌, map, All, Option, none, some, Bool, true, false, Result, ok, err,
  ◌≡◌, refl, ap,
}
use sibilla.Float.{Float}
use sibilla.Store.{World}
use sibilla.Etoro.Gateway.{
  RawPosition, BrokerPosition, positions, position_of, close_position, instrument_id_from_epic,
  instrument_id_from_epic-etoro_epic, etoro_epic,
}

-- What `close_position` was called with and returned from.
pub record Closing : Type 0 where
  pub position_id : Text
  pub instrument_id : ℕ

pub record Closed (W : Type 0) : Type 0 where
  pub world : World W
  pub closings : List Closing
  pub raised : Bool

module _ {W : Type 0} ⦃F : Float W⦄ (close : Text → Result Text Text) where
  -- The loop, with the closings so far. An exception leaves it.
  unfoldable pub close_from : List (BrokerPosition W) → World W → List Closing → Closed W
  unfolding close_position
  close_from [] w done = record { world = w; closings = done; raised = false }
  close_from (p ∷ ps) w done = elim (instrument_id_from_epic p.epic) [
    | none ↦ record { world = w; closings = done; raised = true }
    | some i ↦ elim (close p.deal_id) [
      | err e ↦ record { world = (close_position (err e) w).0; closings = done; raised = true }
      | ok answer ↦
          close_from ps (close_position (ok answer) w).0
            (done ++ (record { position_id = p.deal_id; instrument_id = i } ∷ []))
    ]
  ]

  -- `raw` is what the broker lists.
  unfoldable pub time_stop_close_all : List (RawPosition W) → World W → Closed W
  unfolding close_from positions
  time_stop_close_all raw w = close_from (positions raw) w []
