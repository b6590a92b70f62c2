-- ===== src/MarketHours/Holiday.antt =====
-- `alpha_next_trading_session_start_holiday_aware` of core/src/calendar/market_hours.c.
use mathlib.Core.Path.{subst}
use native.Mathlib.Decide.{dec_lt}
use alpha_fincial_pipline_c.Prelude.{
  ℕ, zero, suc, ◌+◌, ◌≤◌, ◌<◌, ◌≡◌, ◌≢◌, ◌∙◌, sym, refl, Bool, true, false, ◌||◌, arith, some, List,
  [], ◌∷◌, Bool-cases, inl, inr, ◌⊎◌,
}
use alpha_fincial_pipline_c.Prelude.Int.{
  ℤ, pos, pos_part, neg_part, ◌+ℤ◌, ◌-ℤ◌, ◌≤ℤ◌, ◌<ℤ◌, int_laws, ltb_ℤ, eqb_ℤ,
}
use alpha_fincial_pipline_c.MarketHours.{
  is_weekend, is_holiday, kst_day_of, session_start_epoch, skip_closed, coverage,
  calendar_insufficient, next_trading_session_start_holiday_aware,
}
use alpha_fincial_pipline_c.MarketHours.Day.{session_start_epoch-after}

-- The list is sorted, and holds the day.
abbrev pub IsAscending : List ℤ → Type 0
IsAscending [] = Unit
IsAscending (a ∷ []) = Unit
IsAscending (a ∷ b ∷ l) = (a ≤ℤ b) × IsAscending (b ∷ l)

abbrev pub Holds : ℤ → List ℤ → Type 0
Holds d [] = ⊥
Holds d (a ∷ l) = (a ≡ d) ⊎ Holds d l

ascending-ge : (d a : ℤ) (l : List ℤ) → IsAscending (a ∷ l) → Holds d l → a ≤ℤ d
ascending-ge d a [] s h = absurd h
ascending-ge d a (b ∷ l) s (inl e) = rw (← e) s.0
ascending-ge d a (b ∷ l) s (inr h) = omega (arith, ascending-ge d b l s.1 h)

IsAscending-tail : (a : ℤ) (l : List ℤ) → IsAscending (a ∷ l) → IsAscending l
IsAscending-tail a [] s = tt
IsAscending-tail a (b ∷ l) s = s.1

eqb-eq : (a d : ℤ) → eqb_ℤ a d ≡ true → a ≡ d
eqb-eq a d h = ground (arith)

-- On a sorted calendar the early exit of `is_holiday` misses nothing.
pub is_holiday_sound : (d : ℤ) (l : List ℤ) → is_holiday d l ≡ true → Holds d l
unfolding is_holiday
is_holiday_sound d [] h = absurd (ground arith)
is_holiday_sound d (a ∷ l) h = elim (Bool-cases (eqb_ℤ a d)) [
  | inl e ↦ inl (eqb-eq a d e)
  | inr e ↦ inr (is_holiday_sound d l (ground arith))
]

pub is_holiday_complete : (d : ℤ) (l : List ℤ) → IsAscending l → Holds d l → is_holiday d l ≡ true
unfolding is_holiday
is_holiday_complete d [] s h = absurd h
is_holiday_complete d (a ∷ l) s (inl e) = ground arith
is_holiday_complete d (a ∷ l) s (inr h) =
    ground (arith, is_holiday_complete d l (IsAscending-tail a l s) h, ascending-ge d a l s h)

measure_step :
    (day last : ℤ)
    → ltb_ℤ last day ≡ false
    → suc (pos_part (last +ℤ pos 1 -ℤ (day +ℤ pos 1))) ≤ pos_part (last +ℤ pos 1 -ℤ day)
unfolding ◌+ℤ◌ ◌-ℤ◌
measure_step day last h = ground arith

module _ (holidays : List ℤ) (last : ℤ) where
  abbrev pub is_closed : ℤ → Bool
  is_closed day = is_weekend day || is_holiday day holidays

  -- What the search from `first` returns: the start of the first open day that the calendar
  -- covers, or the sentinel if it covers none.
  pub data Outcome (first r : ℤ) : Type 0 where
    opens :
        (day : ℤ)
        → r ≡ session_start_epoch day
        → first ≤ℤ day
        → day ≤ℤ last
        → is_closed day ≡ false
        → ((k : ℤ) → first ≤ℤ k → k <ℤ day → is_closed k ≡ true)
        → Outcome first r
    insufficient :
        r ≡ calendar_insufficient
        → ((k : ℤ) → first ≤ℤ k → k ≤ℤ last → is_closed k ≡ true)
        → Outcome first r

  one_more :
      (first k : ℤ)
      → is_closed first ≡ true
      → first ≤ℤ k
      → (first +ℤ pos 1 ≤ℤ k → is_closed k ≡ true)
      → is_closed k ≡ true
  one_more first k p h rest =
      elim (dec_lt (pos_part first + neg_part k) (pos_part k + neg_part first)) [
        | yes q ↦ rest (omega int_laws)
        | no q ↦ subst (λ d. is_closed d ≡ true) (same first k h q) p
      ]
    where
      same : (a b : ℤ) → a ≤ℤ b → ¬ (a <ℤ b) → a ≡ b
      same a b h l = omega int_laws

  Outcome-step :
      (first r : ℤ) → is_closed first ≡ true → Outcome (first +ℤ pos 1) r → Outcome first r
  Outcome-step first r p (opens day e lo hi here before) =
      opens day e (omega int_laws) hi here (λ k h l. one_more first k p h (λ m. before k m l))
  Outcome-step first r p (insufficient e all) =
      insufficient e (λ k h l. one_more first k p h (λ m. all k m l))

  skip_closed_lem :
      (fuel : ℕ) (day : ℤ)
      → pos_part (last +ℤ pos 1 -ℤ day) < fuel
      → (r : ℤ) × (skip_closed holidays last fuel day ≡ some r) × Outcome day r
  unfolding skip_closed
  skip_closed_lem zero day h = absurd (omega arith)
  skip_closed_lem (suc fuel) day h = elim (Bool-cases (ltb_ℤ last day)) [
    | inl past ↦ elim (Bool-cases (is_closed day)) [
      | inl p ↦
          (calendar_insufficient, rw (p, past), insufficient refl (λ k a b. absurd (ground arith)))
      | inr p ↦
          (calendar_insufficient, rw (p, past), insufficient refl (λ k a b. absurd (ground arith)))
    ]
    | inr covered ↦ elim (Bool-cases (is_closed day)) [
      | inr p ↦ (
        session_start_epoch day,
        rw (p, covered),
        opens day refl (omega arith) (ground arith) p (λ k a b. absurd (omega arith)),
      )
      | inl p ↦
          let (r, e, o) =
            skip_closed_lem fuel (day +ℤ pos 1) (omega (arith, measure_step day last covered)) in
          (r, rw (p, covered) e, Outcome-step day r p o)
    ]
  ]

-- For every instant and calendar, sorted or not, the holiday-aware search ends. It returns the start
-- of the first day behind the instant's KST day for which `is_weekend` and `is_holiday` both say no,
-- if that is covered, and otherwise the sentinel.
pub next_trading_session_start_holiday_aware_lem :
    (t : ℤ) (holidays : List ℤ) (last : ℤ)
    → (r : ℤ) × (next_trading_session_start_holiday_aware t holidays last ≡ some r)
      × Outcome holidays last (kst_day_of t +ℤ pos 1) r
unfolding next_trading_session_start_holiday_aware
next_trading_session_start_holiday_aware_lem t holidays last =
    let day = kst_day_of t +ℤ pos 1 in
    skip_closed_lem holidays last (coverage day last) day (omega arith)

-- A search over a sorted calendar that does not return the sentinel returns an instant after the
-- one given, at 09:00 KST of a covered day that is neither a weekend day nor on the calendar.
pub holiday_aware-is_trading_day :
    (t : ℤ) (holidays : List ℤ) (last r : ℤ)
    → IsAscending holidays
    → next_trading_session_start_holiday_aware t holidays last ≡ some r
    → r ≢ calendar_insufficient
    → (day : ℤ) × (r ≡ session_start_epoch day)
      × (t <ℤ r)
      × (day ≤ℤ last)
      × (is_weekend day ≡ false)
      × ¬ Holds day holidays
holiday_aware-is_trading_day t holidays last r s e ne =
    let (found, returns, o) = next_trading_session_start_holiday_aware_lem t holidays last in
    let same : found ≡ r = some_inj (sym returns ∙ e) in covered o same
  where
    some_inj : {a b : ℤ} → some a ≡ some b → a ≡ b
    some_inj p = cc

    later : (a b : ℤ) → a +ℤ pos 1 ≤ℤ b → a <ℤ b
    later a b h = omega int_laws

    covered :
        {found : ℤ}
        → Outcome holidays last (kst_day_of t +ℤ pos 1) found
        → found ≡ r
        → (day : ℤ) × (r ≡ session_start_epoch day)
          × (t <ℤ r)
          × (day ≤ℤ last)
          × (is_weekend day ≡ false)
          × ¬ Holds day holidays
    covered (insufficient p all) q = absurd (ne (sym q ∙ p))
    covered (opens day p lo hi here before) q =
        let at : r ≡ session_start_epoch day = sym q ∙ p in
        (
          day,
          at,
          rw at (session_start_epoch-after t day (later (kst_day_of t) day lo)),
          hi,
          ground arith,
          λ h. ground (arith, is_holiday_complete day holidays s h),
        )
