-- ===== src/Fixture/Keys.antt =====
-- The keys of the document that core/apps/backtest_fixture.c reads.
use alpha_fincial_pipline_c.Prelude.{ℕ, List, [], ◌∷◌}

abbrev pub key_config : List ℕ
key_config = b'c' ∷ b'o' ∷ b'n' ∷ b'f' ∷ b'i' ∷ b'g' ∷ []

abbrev pub key_bars : List ℕ
key_bars = b'b' ∷ b'a' ∷ b'r' ∷ b's' ∷ []

abbrev pub key_signals : List ℕ
key_signals = b's' ∷ b'i' ∷ b'g' ∷ b'n' ∷ b'a' ∷ b'l' ∷ b's' ∷ []

abbrev pub key_ticker : List ℕ
key_ticker = b't' ∷ b'i' ∷ b'c' ∷ b'k' ∷ b'e' ∷ b'r' ∷ []

abbrev pub key_strategy : List ℕ
key_strategy = b's' ∷ b't' ∷ b'r' ∷ b'a' ∷ b't' ∷ b'e' ∷ b'g' ∷ b'y' ∷ []

abbrev pub key_train_start : List ℕ
key_train_start = b't' ∷ b'r' ∷ b'a' ∷ b'i' ∷ b'n' ∷ b'_' ∷ b's' ∷ b't' ∷ b'a' ∷ b'r' ∷ b't' ∷ []

abbrev pub key_train_end : List ℕ
key_train_end = b't' ∷ b'r' ∷ b'a' ∷ b'i' ∷ b'n' ∷ b'_' ∷ b'e' ∷ b'n' ∷ b'd' ∷ []

abbrev pub key_test_start : List ℕ
key_test_start = b't' ∷ b'e' ∷ b's' ∷ b't' ∷ b'_' ∷ b's' ∷ b't' ∷ b'a' ∷ b'r' ∷ b't' ∷ []

abbrev pub key_test_end : List ℕ
key_test_end = b't' ∷ b'e' ∷ b's' ∷ b't' ∷ b'_' ∷ b'e' ∷ b'n' ∷ b'd' ∷ []

abbrev pub key_initial_capital : List ℕ
key_initial_capital =
    b'i' ∷ b'n' ∷ b'i' ∷ b't' ∷ b'i' ∷ b'a' ∷ b'l' ∷ b'_' ∷ b'c' ∷ b'a' ∷ b'p' ∷ b'i' ∷ b't' ∷ b'a'
    ∷ b'l' ∷ []

abbrev pub key_commission_rate_pct : List ℕ
key_commission_rate_pct =
    b'c' ∷ b'o' ∷ b'm' ∷ b'm' ∷ b'i' ∷ b's' ∷ b's' ∷ b'i' ∷ b'o' ∷ b'n' ∷ b'_' ∷ b'r' ∷ b'a' ∷ b't'
    ∷ b'e' ∷ b'_' ∷ b'p' ∷ b'c' ∷ b't' ∷ []

abbrev pub key_tax_rate_pct : List ℕ
key_tax_rate_pct =
    b't' ∷ b'a' ∷ b'x' ∷ b'_' ∷ b'r' ∷ b'a' ∷ b't' ∷ b'e' ∷ b'_' ∷ b'p' ∷ b'c' ∷ b't' ∷ []

abbrev pub key_slippage_bps : List ℕ
key_slippage_bps =
    b's' ∷ b'l' ∷ b'i' ∷ b'p' ∷ b'p' ∷ b'a' ∷ b'g' ∷ b'e' ∷ b'_' ∷ b'b' ∷ b'p' ∷ b's' ∷ []

abbrev pub key_date : List ℕ
key_date = b'd' ∷ b'a' ∷ b't' ∷ b'e' ∷ []

abbrev pub key_close : List ℕ
key_close = b'c' ∷ b'l' ∷ b'o' ∷ b's' ∷ b'e' ∷ []
