-- ===== src/Fixture/Loaded.antt =====
-- What a fixture holds that core/apps/backtest_fixture.c has loaded.
use alpha_fincial_pipline_c.Prelude.{
  ℕ, ◌-◌, ◌<◌, ◌≡◌, ◌∙◌, refl, Bool, not, ◌||◌, Option, some, List, [], length, if◌then◌else◌, leb,
  length-take, arith, Bool-cases, inl, inr,
}
use alpha_fincial_pipline_c.Domain.{ok, OnOk, OnOk-value, Result-cases}
use alpha_fincial_pipline_c.Backtest.{ticker_cap, BacktestConfig}
use alpha_fincial_pipline_c.Fixture.Reads.{
  BarsRead, SignalsRead, no_entry, read_bars-BarsRead, read_signals-SignalsRead, length-BarsRead,
  length-SignalsRead,
}
use alpha_fincial_pipline_c.Fixture.{
  read_config, read_root, Yyjson, strategy_cap, copy_bounded, Fixture, key_config, key_bars,
  key_signals, key_ticker, key_strategy, key_train_start, key_train_end, key_test_start,
  key_test_end, str_at, given_text, date_at, parse_config, parse_bars, parse_signals, fixture_load,
}

length-copy_bounded : (src : List ℕ) (cap : ℕ) → 0 < cap → length (copy_bounded src cap) < cap
unfolding copy_bounded
length-copy_bounded src cap h = elim (Bool-cases (leb cap (length src))) [
  | inl e ↦ rw e (omega (arith, length-take (cap - 1) src))
  | inr e ↦ rw e (ground arith)
]

module _ {ℓ κ} {V : Type ℓ} {W : Type κ} (yyjson : Yyjson V W) where
  -- The texts fit their buffers with the NUL.
  abbrev pub Fits : BacktestConfig W → Type 0
  Fits c = (length c.ticker < ticker_cap) × (length c.strategy < strategy_cap)

  read_config-Fits : (cfg : Option V) → OnOk Fits (read_config yyjson cfg)
  read_config-Fits cfg = elim (Result-cases (given_text yyjson (str_at yyjson cfg key_ticker))) [
    | inr (e, t) ↦ rw (t) tt
    | inl (ticker, t) ↦ elim (Result-cases (given_text yyjson (str_at yyjson cfg key_strategy))) [
      | inr (e, s) ↦ rw (t, s) tt
      | inl (strategy, s) ↦ elim (Result-cases (date_at yyjson cfg key_train_start)) [
        | inr (e, q0) ↦ rw (t, s, q0) tt
        | inl (day0, q0) ↦ elim (Result-cases (date_at yyjson cfg key_train_end)) [
          | inr (e, q1) ↦ rw (t, s, q0, q1) tt
          | inl (day1, q1) ↦ elim (Result-cases (date_at yyjson cfg key_test_start)) [
            | inr (e, q2) ↦ rw (t, s, q0, q1, q2) tt
            | inl (day2, q2) ↦ elim (Result-cases (date_at yyjson cfg key_test_end)) [
              | inr (e, q3) ↦ rw (t, s, q0, q1, q2, q3) tt
              | inl (day3, q3) ↦ rw (t, s, q0, q1, q2, q3) (caps ticker strategy)
            ]
          ]
        ]
      ]
    ]
  ]
    where
      caps :
          (ticker strategy : List ℕ)
          → (length (copy_bounded ticker ticker_cap) < ticker_cap)
            × (length (copy_bounded strategy strategy_cap) < strategy_cap)
      caps ticker strategy = (
        length-copy_bounded ticker ticker_cap (omega arith),
        length-copy_bounded strategy strategy_cap (omega arith),
      )

  parse_config-Fits : (cfg : Option V) → OnOk Fits (parse_config yyjson cfg)
  unfolding parse_config
  parse_config-Fits cfg = elim (Bool-cases (yyjson.is_obj cfg)) [
    | inr e ↦ rw e tt
    | inl e ↦ rw e (read_config-Fits cfg)
  ]

  abbrev pub bars_in : Option V → List V
  bars_in root = yyjson.elements (yyjson.obj_get root key_bars)

  -- No signals if there is no object of them.
  abbrev pub signals_in : Option V → List (V × V)
  signals_in root =
      if yyjson.is_obj (yyjson.obj_get root key_signals)
      then yyjson.entries (yyjson.obj_get root key_signals)
      else []

  -- The fixture is that of the document: every bar and every signal, in order, with arrays as long as
  -- their counts say, and texts that fit their buffers with the NUL.
  pub record IsLoaded (root : Option V) (f : Fixture W) : Type (ℓ ⊔ κ) where
    pub caps : Fits f.config
    pub bars : BarsRead yyjson (bars_in root) f.dates f.prices
    pub bars_counted : (length f.dates ≡ f.bar_count) × (length f.prices ≡ f.bar_count)
    pub signals : SignalsRead yyjson (signals_in root) f.signal_days f.signal_values
    pub signals_counted :
        (length f.signal_days ≡ f.signal_count) × (length f.signal_values ≡ f.signal_count)

  parse_bars-BarsRead :
      (bars : Option V) (heap : Bool)
      → OnOk
          (λ out. BarsRead yyjson (yyjson.elements bars) out.0 out.1)
          (parse_bars yyjson bars heap)
  unfolding parse_bars
  parse_bars-BarsRead bars heap = elim (Bool-cases (yyjson.is_arr bars)) [
    | inr e ↦ rw e tt
    | inl e ↦ elim (Bool-cases heap) [
      | inr a ↦ rw (e, a) tt
      | inl a ↦ rw (e, a) (read_bars-BarsRead yyjson (yyjson.elements bars))
    ]
  ]

  parse_signals-SignalsRead :
      (root : Option V) (heap : Bool)
      → OnOk
          (λ out. SignalsRead yyjson (signals_in root) out.0 out.1)
          (parse_signals yyjson (yyjson.obj_get root key_signals) heap)
  unfolding parse_signals
  parse_signals-SignalsRead root heap =
      elim (Bool-cases (yyjson.is_obj (yyjson.obj_get root key_signals))) [
        | inr e ↦ rw e no_entry
        | inl e ↦ elim (Bool-cases heap) [
          | inr a ↦ rw (e, a) tt
          | inl a ↦
              rw (e, a)
                (read_signals-SignalsRead yyjson (yyjson.entries (yyjson.obj_get root key_signals)))
        ]
      ]

  signal_count-eq :
      (root : Option V)
      → length (signals_in root) ≡ (
          if yyjson.is_obj (yyjson.obj_get root key_signals)
          then length (yyjson.entries (yyjson.obj_get root key_signals))
          else 0)
  signal_count-eq root = elim (Bool-cases (yyjson.is_obj (yyjson.obj_get root key_signals))) [
    | inl e ↦ rw e refl
    | inr e ↦ rw e refl
  ]

  read_root-IsLoaded :
      (root : Option V) (heap_bars heap_signals : Bool)
      → OnOk (IsLoaded root) (read_root yyjson root heap_bars heap_signals)
  read_root-IsLoaded root heap_bars heap_signals =
      elim (Result-cases (parse_config yyjson (yyjson.obj_get root key_config))) [
        | inr (e, c) ↦ rw (c) tt
        | inl (config, c) ↦
            elim (Result-cases (parse_bars yyjson (yyjson.obj_get root key_bars) heap_bars)) [
              | inr (e, b) ↦ rw (c, b) tt
              | inl (bars, b) ↦
                  elim (Result-cases
                    (parse_signals yyjson (yyjson.obj_get root key_signals) heap_signals)) [
                      | inr (e, s) ↦ rw (c, b, s) tt
                      | inl (signals, s) ↦
                          rw (c, b, s)
                            (let read : BarsRead yyjson (bars_in root) bars.0 bars.1 =
                                OnOk-value (λ out. BarsRead yyjson (bars_in root) out.0 out.1) _
                                  bars
                                  (parse_bars-BarsRead (yyjson.obj_get root key_bars) heap_bars)
                                  b in
                              let entries : SignalsRead yyjson (signals_in root) signals.0
                                  signals.1 =
                                OnOk-value (λ out. SignalsRead yyjson (signals_in root) out.0 out.1)
                                  _ signals (parse_signals-SignalsRead root heap_signals) s in
                              let many =
                                length-SignalsRead yyjson (signals_in root) signals.0 signals.1
                                  entries in
                              record {
                                caps =
                                    OnOk-value Fits _ config
                                      (parse_config-Fits (yyjson.obj_get root key_config)) c;
                                bars = read;
                                bars_counted =
                                    length-BarsRead yyjson (bars_in root) bars.0 bars.1 read;
                                signals = entries;
                                signals_counted =
                                    (many.0 ∙ signal_count-eq root, many.1 ∙ signal_count-eq root);
                              })
                    ]
            ]
      ]

  loads :
      (root : Option V) (given_both heap_bars heap_signals : Bool)
      → OnOk (IsLoaded root) (fixture_load yyjson given_both (some root) heap_bars heap_signals)
  unfolding fixture_load
  loads root given_both heap_bars heap_signals =
      elim (Bool-cases (not given_both || not (yyjson.is_obj root))) [
        | inl e ↦ rw e tt
        | inr e ↦ rw e (read_root-IsLoaded root heap_bars heap_signals)
      ]

  -- A fixture that `alpha_fixture_load` returns holds what the document holds: the date and the price
  -- of every bar and the date and the signal of every entry, in order; a document without an object
  -- of signals gives none. Its arrays are as long as its counts say, and the ticker and the strategy
  -- fit their buffers.
  pub fixture_load-IsLoaded :
      (root : Option V) (given_both heap_bars heap_signals : Bool) (f : Fixture W)
      → fixture_load yyjson given_both (some root) heap_bars heap_signals ≡ ok f
      → IsLoaded root f
  fixture_load-IsLoaded root given_both heap_bars heap_signals f h =
      OnOk-value (IsLoaded root) (fixture_load yyjson given_both (some root) heap_bars heap_signals)
        f (loads root given_both heap_bars heap_signals) h
