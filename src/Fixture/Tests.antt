-- ===== src/Fixture/Tests.antt =====
-- Tests of core/apps/backtest_fixture.c.
use alpha_fincial_pipline_c.Prelude.{
  ℕ, ◌≡◌, refl, true, false, Option, none, some, List, [], ◌∷◌, ◌==◌, ◌||◌, if◌then◌else◌,
}
use alpha_fincial_pipline_c.Prelude.Int.{ℤ, pos, ◌+ℤ◌, ◌-ℤ◌, ◌*ℤ◌}
use alpha_fincial_pipline_c.Domain.{ok, err, buy, io}
use alpha_fincial_pipline_c.Date.{date_parse, parse_digits, days_from_civil, day_of_era}
use alpha_fincial_pipline_c.Fixture.{
  Yyjson, Fixture, same_text, fixture_load, parse_config, parse_bars, parse_signals, read_bars,
  read_signals, parse_signal, copy_bounded, fixture_replay, key_config, key_bars, key_signals,
  key_ticker, key_strategy, key_train_start, key_train_end, key_test_start, key_test_end, key_date,
  key_close,
}
use alpha_fincial_pipline_c.Fixture.Loaded.{IsLoaded, fixture_load-IsLoaded}

-- A document as a table: the value 0 is the root, 1 the configuration, 2 the array of the bars, 3 its
-- bar, 4 the object of the signals, 5 a price, and the others are texts.
abbrev field_of : List (List ℕ × ℕ) → List ℕ → Option ℕ
field_of [] key = none
field_of ((name, value) ∷ fields) key =
    let later = field_of fields key in if same_text name key then some value else later

abbrev fields : ℕ → List (List ℕ × ℕ)
fields n =
    if n == 0
    then (key_config, 1) ∷ (key_bars, 2) ∷ (key_signals, 4) ∷ []
    else if n == 1
    then (key_ticker, 6)
      ∷ (key_strategy, 7)
      ∷ (key_train_start, 8)
      ∷ (key_train_end, 8)
      ∷ (key_test_start, 9)
      ∷ (key_test_end, 9)
      ∷ []
    else if n == 3
    then (key_date, 9) ∷ (key_close, 5) ∷ []
    else []

abbrev date_text : ℕ → List ℕ
date_text day = b'2' ∷ b'0' ∷ b'2' ∷ b'6' ∷ b'-' ∷ b'0' ∷ b'1' ∷ b'-' ∷ b'0' ∷ day ∷ []

abbrev text_of : ℕ → Option (List ℕ)
text_of n =
    if n == 6
    then some (b'0' ∷ b'5' ∷ [])
    else if n == 7
    then some (b'r' ∷ b's' ∷ b'i' ∷ [])
    else if n == 8
    then some (date_text b'1')
    else if n == 9
    then some (date_text b'2')
    else if n == 10
    then some (b'B' ∷ b'U' ∷ b'Y' ∷ [])
    else none

abbrev document : Yyjson ℕ ℤ
document = record {
  is_obj = λ v. elim v [ none ↦ false | some n ↦ n == 0 || n == 1 || n == 3 || n == 4 ];
  is_arr = λ v. elim v [ none ↦ false | some n ↦ n == 2 ];
  obj_get = λ v key. elim v [ none ↦ none | some n ↦ field_of (fields n) key ];
  get_str = λ v. elim v [ none ↦ none | some n ↦ text_of n ];
  get_sint = λ v. pos 0;
  get_num = λ v. elim v [ none ↦ pos 0 | some n ↦ if n == 5 then pos 700 else pos 0 ];
  elements = λ v. elim v [ none ↦ [] | some n ↦ if n == 2 then 3 ∷ [] else [] ];
  entries = λ v. elim v [ none ↦ [] | some n ↦ if n == 4 then (9, 10) ∷ [] else [] ];
}

abbrev loaded : Fixture ℤ
loaded = record {
  config = record {
    ticker = b'0' ∷ b'5' ∷ [];
    strategy = b'r' ∷ b's' ∷ b'i' ∷ [];
    train_start = pos 20454;
    train_end = pos 20454;
    test_start = pos 20455;
    test_end = pos 20455;
    initial_capital = pos 0;
    commission_rate_pct = pos 0;
    tax_rate_pct = pos 0;
    slippage_bps = pos 0;
  };
  prices = pos 700 ∷ [];
  dates = pos 20455 ∷ [];
  bar_count = 1;
  signal_days = pos 20455 ∷ [];
  signal_values = buy ∷ [];
  signal_count = 1;
}

loads : fixture_load document true (some (some 0)) true true ≡ ok loaded
unfolding fixture_load parse_config parse_bars parse_signals read_bars read_signals parse_signal
    copy_bounded date_parse parse_digits days_from_civil day_of_era ◌+ℤ◌ ◌-ℤ◌ ◌*ℤ◌
loads = refl

no_memory : fixture_load document true (some (some 0)) true false ≡ err io
unfolding fixture_load parse_config parse_bars parse_signals read_bars read_signals parse_signal
    copy_bounded date_parse parse_digits days_from_civil day_of_era ◌+ℤ◌ ◌-ℤ◌ ◌*ℤ◌
no_memory = refl

replays : fixture_replay loaded ≡ (pos 20455, buy) ∷ []
unfolding fixture_replay
replays = refl

fixture_load-IsLoaded_example : IsLoaded document (some 0) loaded
fixture_load-IsLoaded_example = fixture_load-IsLoaded document (some 0) true true true loaded loads
