-- ===== src/Examples/Closing.antt =====
-- The time stop over two positions, src/workers/etoro_runner.py.
use sibilla.Base.{
  starts_with, if◌then◌else◌, ℕ, Text, text, List, [], ◌∷◌, ◌++◌, map, none, true, false, Result,
  ok, err, ◌≡◌,
}
use sibilla.Float.Fixed.{Fixed, fixed}
use sibilla.Etoro.Gateway.{RawPosition}
use sibilla.Etoro.Runner.Closing.{time_stop_close_all}
use sibilla.Etoro.Runner.Closing.Stopped.{closing_of, time_stop_close_all-closings}
use sibilla.Examples.Fixture.{whole, blank}

abbrev held : Text → ℕ → RawPosition Fixed
held position_id instrument_id = record {
  position_id = position_id;
  instrument_id = instrument_id;
  is_buy = none;
  units = whole 3;
  open_rate = whole 5;
  stop_loss_rate = none;
  take_profit_rate = none;
}

-- The broker knows the positions that are called "a".
abbrev close : Text → Result Text Text
close s = if starts_with s (text "a") then ok (text "Filled") else err (text "404")

abbrev book : List (RawPosition Fixed)
book = held (text "a1") 7 ∷ (held (text "a2") 8 ∷ [])

time_stop_close_all-closings_example :
    (((time_stop_close_all close book blank).closings ≡ map closing_of book)
      × ((time_stop_close_all close book blank).raised ≡ false))
    × ((p : RawPosition Fixed) (after : List (RawPosition Fixed)) (e : Text)
        → close p.position_id ≡ err e
        → ((time_stop_close_all close (book ++ (p ∷ after)) blank).closings ≡ map closing_of book)
          × ((time_stop_close_all close (book ++ (p ∷ after)) blank).raised ≡ true))
time_stop_close_all-closings_example = time_stop_close_all-closings close book blank (tt, (tt, tt))
