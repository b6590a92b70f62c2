-- ===== src/Backtest/Signals.antt =====
-- core/src/backtest/signal_source.c: the replay of a table of signals by date.
use alpha_fincial_pipline_c.Prelude.{ℕ, List, [], ◌∷◌, if◌then◌else◌}
use alpha_fincial_pipline_c.Prelude.Int.{ℤ, eqb_ℤ}
use alpha_fincial_pipline_c.Domain.{Signal, hold}

-- A signal source, its context included: it is given the date, all prices, how many of them are
-- known, and the position.
abbrev pub SignalFn {ℓ} : Type ℓ → Type ℓ
SignalFn W = ℤ → List W → ℕ → ℤ → Signal

-- The entries (day, signal) of `alpha_replay_source_t`.
unfoldable pub replay_lookup : List (ℤ × Signal) → ℤ → Signal
replay_lookup [] epoch_day = hold
replay_lookup ((day, signal) ∷ source) epoch_day =
    let later = replay_lookup source epoch_day in if eqb_ℤ day epoch_day then signal else later

unfoldable pub replay_signal {ℓ} : {W : Type ℓ} → List (ℤ × Signal) → SignalFn W
replay_signal source epoch_day prices n position = replay_lookup source epoch_day
