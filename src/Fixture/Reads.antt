-- ===== src/Fixture/Reads.antt =====
-- The loops of core/apps/backtest_fixture.c over the bars and the signals.
use alpha_fincial_pipline_c.Prelude.{
  ℕ, suc, ◌≡◌, refl, ap, true, Option, none, some, List, [], ◌∷◌, length, arith,
}
use alpha_fincial_pipline_c.Prelude.Int.{ℤ}
use alpha_fincial_pipline_c.Domain.{ok, Signal, OnOk, ok_inj, OnOk-value, OnOk-bind}
use alpha_fincial_pipline_c.Date.{date_parse}
use alpha_fincial_pipline_c.Fixture.{
  Yyjson, parse_signal, key_date, key_close, given_text, date_at, read_bars, read_signals,
}

module _ {ℓ κ} {V : Type ℓ} {W : Type κ} (yyjson : Yyjson V W) where
  -- The dates and prices of the bars, in their order.
  pub data BarsRead : List V → List ℤ → List W → Type (ℓ ⊔ κ) where
    none_left : BarsRead [] [] []
    reads :
        (bar : V) (bars : List V) (day : ℤ) (dates : List ℤ) (prices : List W)
        → date_at yyjson (some bar) key_date ≡ ok day
        → BarsRead bars dates prices
        → BarsRead
            (bar ∷ bars)
            (day ∷ dates)
            (yyjson.get_num (yyjson.obj_get (some bar) key_close) ∷ prices)

  pub read_bars-BarsRead :
      (bars : List V) → OnOk (λ out. BarsRead bars out.0 out.1) (read_bars yyjson bars)
  unfolding read_bars
  read_bars-BarsRead [] = none_left
  read_bars-BarsRead (bar ∷ bars) = OnOk-bind _ _ _ (λ day at. OnOk-bind _ _ _ (λ rest later.
      reads bar bars day rest.0 rest.1 at (
        OnOk-value (λ out. BarsRead bars out.0 out.1) (read_bars yyjson bars) rest
          (read_bars-BarsRead bars) later)))

  -- The days and signals of the entries, in their order.
  pub data SignalsRead : List (V × V) → List ℤ → List Signal → Type (ℓ ⊔ κ) where
    no_entry : SignalsRead [] [] []
    entry :
        (key value : V) (entries : List (V × V)) (text : List ℕ) (day : ℤ) (signal : Signal)
        (days : List ℤ) (values : List Signal)
        → yyjson.get_str (some value) ≡ some text
        → date_parse (yyjson.get_str (some key)) true ≡ ok day
        → parse_signal text ≡ ok signal
        → SignalsRead entries days values
        → SignalsRead ((key, value) ∷ entries) (day ∷ days) (signal ∷ values)

  given : (t : Option (List ℕ)) (text : List ℕ) → given_text yyjson t ≡ ok text → t ≡ some text
  given none text h = absurd (ground arith)
  given (some t) text h = ap some (ok_inj h)

  pub read_signals-SignalsRead :
      (entries : List (V × V))
      → OnOk (λ out. SignalsRead entries out.0 out.1) (read_signals yyjson entries)
  unfolding read_signals
  read_signals-SignalsRead [] = no_entry
  read_signals-SignalsRead ((key, value) ∷ entries) = OnOk-bind _ _ _ (λ text t.
      OnOk-bind _ _ _ (λ day d. OnOk-bind _ _ _ (λ signal s. OnOk-bind _ _ _ (λ rest later.
        entry key value entries text day signal rest.0 rest.1
          (given (yyjson.get_str (some value)) text t) d s
          (OnOk-value (λ out. SignalsRead entries out.0 out.1) (read_signals yyjson entries) rest
            (read_signals-SignalsRead entries) later)))))

  pub length-BarsRead :
      (bars : List V) (dates : List ℤ) (prices : List W)
      → BarsRead bars dates prices
      → (length dates ≡ length bars) × (length prices ≡ length bars)
  length-BarsRead bars dates prices none_left = (refl, refl)
  length-BarsRead bars dates prices (reads bar rest day days ps at more) =
      let (a, b) = length-BarsRead rest days ps more in (ap suc a, ap suc b)

  pub length-SignalsRead :
      (entries : List (V × V)) (days : List ℤ) (values : List Signal)
      → SignalsRead entries days values
      → (length days ≡ length entries) × (length values ≡ length entries)
  length-SignalsRead entries days values no_entry = (refl, refl)
  length-SignalsRead entries days values (entry key value rest text day signal ds vs t d s more) =
      let (a, b) = length-SignalsRead rest ds vs more in (ap suc a, ap suc b)
