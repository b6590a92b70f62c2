-- ===== src/Fixture.antt =====
-- core/apps/backtest_fixture.c: a backtest read from a JSON document. yyjson is a parameter: what its
-- queries give of a value, which may be NULL.
mod Keys
pub mod Reads
pub mod Loaded
mod Tests
pub use Keys.*
use alpha_fincial_pipline_c.Prelude.{
  ℕ, zero, suc, ◌+◌, ◌-◌, Bool, true, false, not, ◌&&◌, ◌||◌, Option, none, some, List, [], ◌∷◌,
  length, take, leb, ◌==◌, if◌then◌else◌,
}
use alpha_fincial_pipline_c.Prelude.Int.{ℤ, pos}
use alpha_fincial_pipline_c.Prelude.Word.{to_i32}
use alpha_fincial_pipline_c.Domain.{
  Error, Result, ok, err, invalid_arg, io, Signal, buy, sell, hold, close, ◌>>=◌,
}
use alpha_fincial_pipline_c.Date.{date_parse}
use alpha_fincial_pipline_c.Backtest.{ticker_cap, BacktestConfig, BacktestResult}
use alpha_fincial_pipline_c.Backtest.Engine.{Bar, Heap, all_given, backtest_run}
use alpha_fincial_pipline_c.Backtest.Signals.{replay_signal}
use alpha_fincial_pipline_c.Cost.{cost_model_make}
use alpha_fincial_pipline_c.Double.{Double}

-- `elements` are those of an array, `entries` the keys and values of an object, in order.
pub record Yyjson {ℓ κ} (V : Type ℓ) (W : Type κ) : Type (ℓ ⊔ κ) where
  pub is_obj : Option V → Bool
  pub is_arr : Option V → Bool
  pub obj_get : Option V → List ℕ → Option V
  pub get_str : Option V → Option (List ℕ)
  pub get_sint : Option V → ℤ
  pub get_num : Option V → W
  pub elements : Option V → List V
  pub entries : Option V → List (V × V)

abbrev pub strategy_cap : ℕ
strategy_cap = 16

-- `strcmp(s, t) == 0`
abbrev pub same_text : List ℕ → List ℕ → Bool
same_text [] [] = true
same_text (a ∷ s) (b ∷ t) = a == b && same_text s t
same_text _ _ = false

-- The text in `dst`, without its NUL.
unfoldable pub copy_bounded : List ℕ → ℕ → List ℕ
copy_bounded src cap = if leb cap (length src) then take (cap - 1) src else src

unfoldable pub parse_signal : List ℕ → Result Signal
parse_signal text =
    if same_text text (b'B' ∷ b'U' ∷ b'Y' ∷ [])
    then ok buy
    else if same_text text (b'S' ∷ b'E' ∷ b'L' ∷ b'L' ∷ [])
    then ok sell
    else if same_text text (b'H' ∷ b'O' ∷ b'L' ∷ b'D' ∷ [])
    then ok hold
    else if same_text text (b'C' ∷ b'L' ∷ b'O' ∷ b'S' ∷ b'E' ∷ [])
    then ok close
    else err invalid_arg

-- `alpha_fixture_t`. The arrays have as many elements as their counts say once they are read.
pub record Fixture {ℓ} (W : Type ℓ) : Type ℓ where
  pub config : BacktestConfig W
  pub prices : List W
  pub dates : List ℤ
  pub bar_count : ℕ
  pub signal_days : List ℤ
  pub signal_values : List Signal
  pub signal_count : ℕ

module _ {ℓ κ} {V : Type ℓ} {W : Type κ} (yyjson : Yyjson V W) where
  abbrev pub str_at : Option V → List ℕ → Option (List ℕ)
  str_at v key = yyjson.get_str (yyjson.obj_get v key)

  -- A text that is there; `none` is NULL.
  abbrev pub given_text : Option (List ℕ) → Result (List ℕ)
  given_text none = err invalid_arg
  given_text (some text) = ok text

  abbrev pub date_at : Option V → List ℕ → Result ℤ
  date_at v key = date_parse (str_at v key) true

  -- The fields of an object.
  abbrev pub read_config : Option V → Result (BacktestConfig W)
  read_config cfg = do
    ticker ← given_text (str_at cfg key_ticker)
    strategy ← given_text (str_at cfg key_strategy)
    train_start ← date_at cfg key_train_start
    train_end ← date_at cfg key_train_end
    test_start ← date_at cfg key_test_start
    test_end ← date_at cfg key_test_end
    ok (record {
      ticker = copy_bounded ticker ticker_cap;
      strategy = copy_bounded strategy strategy_cap;
      train_start = train_start;
      train_end = train_end;
      test_start = test_start;
      test_end = test_end;
      initial_capital = yyjson.get_sint (yyjson.obj_get cfg key_initial_capital);
      commission_rate_pct = yyjson.get_num (yyjson.obj_get cfg key_commission_rate_pct);
      tax_rate_pct = yyjson.get_num (yyjson.obj_get cfg key_tax_rate_pct);
      slippage_bps = to_i32 (yyjson.get_sint (yyjson.obj_get cfg key_slippage_bps));
    })

  unfoldable pub parse_config : Option V → Result (BacktestConfig W)
  parse_config cfg = if not (yyjson.is_obj cfg) then err invalid_arg else read_config cfg

  -- The dates and the prices.
  unfoldable pub read_bars : List V → Result (List ℤ × List W)
  read_bars [] = ok ([], [])
  read_bars (bar ∷ bars) = do
    let later = read_bars bars
    day ← date_at (some bar) key_date
    (dates, prices) ← later
    ok (day ∷ dates, yyjson.get_num (yyjson.obj_get (some bar) key_close) ∷ prices)

  unfoldable pub parse_bars : Option V → Bool → Result (List ℤ × List W)
  unfolding read_bars
  parse_bars bars allocates =
      if not (yyjson.is_arr bars)
      then err invalid_arg
      else if not allocates
      then err io
      else read_bars (yyjson.elements bars)

  unfoldable pub read_signals : List (V × V) → Result (List ℤ × List Signal)
  unfolding parse_signal
  read_signals [] = ok ([], [])
  read_signals ((key, value) ∷ entries) = do
    let later = read_signals entries
    text ← given_text (yyjson.get_str (some value))
    day ← date_parse (yyjson.get_str (some key)) true
    signal ← parse_signal text
    (days, values) ← later
    ok (day ∷ days, signal ∷ values)

  -- The signals are optional.
  unfoldable pub parse_signals : Option V → Bool → Result (List ℤ × List Signal)
  unfolding read_signals
  parse_signals signals allocates =
      if not (yyjson.is_obj signals)
      then ok ([], [])
      else if not allocates
      then err io
      else read_signals (yyjson.entries signals)

  abbrev pub read_root : Option V → Bool → Bool → Result (Fixture W)
  read_root root heap_bars heap_signals = do
    config ← parse_config (yyjson.obj_get root key_config)
    (dates, prices) ← parse_bars (yyjson.obj_get root key_bars) heap_bars
    (days, values) ← parse_signals (yyjson.obj_get root key_signals) heap_signals
    ok (record {
      config = config;
      prices = prices;
      dates = dates;
      bar_count = length (yyjson.elements (yyjson.obj_get root key_bars));
      signal_days = days;
      signal_values = values;
      signal_count =
          if yyjson.is_obj (yyjson.obj_get root key_signals)
          then length (yyjson.entries (yyjson.obj_get root key_signals))
          else 0;
    })

  -- `given`: neither pointer is NULL; `root` is that of the document, `none` if it is not read, and
  -- `heap_bars` and `heap_signals` say whether the buffers are allocated.
  unfoldable pub fixture_load : Bool → Option (Option V) → Bool → Bool → Result (Fixture W)
  fixture_load given none heap_bars heap_signals = if given then err io else err invalid_arg
  fixture_load given (some root) heap_bars heap_signals =
      if not given || not (yyjson.is_obj root)
      then err invalid_arg
      else read_root root heap_bars heap_signals

-- The table of `alpha_replay_source_t`, by entries.
abbrev pub entries_of : ℕ → List ℤ → List Signal → List (ℤ × Signal)
entries_of zero days values = []
entries_of (suc n) (day ∷ days) (value ∷ values) = (day, value) ∷ entries_of n days values
entries_of (suc n) _ _ = []

unfoldable pub fixture_replay {ℓ} : {W : Type ℓ} → Fixture W → List (ℤ × Signal)
fixture_replay fixture = entries_of fixture.signal_count fixture.signal_days fixture.signal_values

-- `alpha_fixture_free`: the buffers go, and all fields are zero. `nought` is 0.0.
unfoldable pub fixture_free {ℓ} : {W : Type ℓ} → W → Option (Fixture W) → Option (Fixture W)
fixture_free nought none = none
fixture_free nought (some fixture) = some (record {
  config = record {
    ticker = [];
    strategy = [];
    train_start = pos 0;
    train_end = pos 0;
    test_start = pos 0;
    test_end = pos 0;
    initial_capital = pos 0;
    commission_rate_pct = nought;
    tax_rate_pct = nought;
    slippage_bps = pos 0;
  };
  prices = [];
  dates = [];
  bar_count = 0;
  signal_days = [];
  signal_values = [];
  signal_count = 0;
})

abbrev pub bars_of {ℓ} : {W : Type ℓ} → ℕ → List ℤ → List W → List (Bar W)
bars_of zero dates prices = []
bars_of (suc n) (day ∷ dates) (price ∷ prices) =
    record { date = day; price = price } ∷ bars_of n dates prices
bars_of (suc n) _ _ = []

-- `run_once` of core/apps/backtest_runner.c, with what it writes to the result.
unfoldable pub run_once {ℓ} :
    {W : Type ℓ} ⦃d : Double W⦄ → Fixture W → Heap → Result (BacktestResult W)
unfolding fixture_replay
run_once fixture heap =
    let config = fixture.config in
    backtest_run all_given heap config (bars_of fixture.bar_count fixture.dates fixture.prices)
      (replay_signal (fixture_replay fixture))
      (cost_model_make config.commission_rate_pct config.tax_rate_pct config.slippage_bps)
