-- ===== src/MarketData/Ids.antt =====
-- The two conversions of an instrument id of core/src/market_data/market_data.c.
use alpha_fincial_pipline_c.Prelude.{
  ℕ, suc, ◌+◌, ◌<◌, ◌≡◌, refl, ap, ◌∙◌, true, false, some, List, [], ◌∷◌, ◌++◌, length, take, drop,
  arith, leb, length-append,
}
use alpha_fincial_pipline_c.Domain.{ok, Market, kospi, kosdaq, nyse, nasdaq}
use alpha_fincial_pipline_c.MarketData.{
  market_suffix, suffix_market, to_instrument_id, last_dot, from_instrument_id,
}

-- The market that an id gives back: both American markets have the suffix US.
abbrev pub listed : Market → Market
listed nasdaq = nyse
listed market = market

suffix_market-market_suffix :
    (market : Market) → suffix_market (market_suffix market) ≡ listed market
suffix_market-market_suffix kospi = refl
suffix_market-market_suffix kosdaq = refl
suffix_market-market_suffix nyse = refl
suffix_market-market_suffix nasdaq = refl

length-market_suffix : (market : Market) → length (b'.' ∷ market_suffix market) ≡ 3
length-market_suffix kospi = refl
length-market_suffix kosdaq = refl
length-market_suffix nyse = refl
length-market_suffix nasdaq = refl

leb-false : {a b : ℕ} → a < b → leb b a ≡ false
leb-false h = ground arith

last_dot-suffix : (market : Market) → last_dot (b'.' ∷ market_suffix market) ≡ some 0
unfolding last_dot
last_dot-suffix kospi = refl
last_dot-suffix kosdaq = refl
last_dot-suffix nyse = refl
last_dot-suffix nasdaq = refl

last_dot-append :
    (ticker rest : List ℕ)
    → last_dot rest ≡ some 0
    → last_dot (ticker ++ rest) ≡ some (length ticker)
unfolding last_dot
last_dot-append [] rest e = e
last_dot-append (c ∷ ticker) rest e = rw (last_dot-append ticker rest e) refl

take-length : (xs ys : List ℕ) → take (length xs) (xs ++ ys) ≡ xs
take-length [] ys = refl
take-length (x ∷ xs) ys = ap (λ l. x ∷ l) (take-length xs ys)

drop-length : (xs ys : List ℕ) (y : ℕ) → drop (suc (length xs)) (xs ++ (y ∷ ys)) ≡ ys
drop-length [] ys y = refl
drop-length (x ∷ xs) ys y = drop-length xs ys y

-- An id that `to_instrument_id` writes is read back by `from_instrument_id` as the same ticker,
-- dots in it included, with a buffer of more bytes than the ticker; the market is the same, but
-- NASDAQ comes back as NYSE. The hypotheses say that the two buffers are large enough.
pub from_instrument_id-to_instrument_id :
    (ticker : List ℕ) (market : Market) (n raw_n : ℕ)
    → length ticker + 3 < n
    → length ticker < raw_n
    → (id : List ℕ) × (to_instrument_id (some ticker) market true n ≡ ok id)
      × (from_instrument_id (some id) true raw_n true ≡ ok (ticker, listed market))
unfolding to_instrument_id from_instrument_id
from_instrument_id-to_instrument_id ticker market n raw_n h k =
    let suffix = market_suffix market in
    let dot = last_dot-append ticker (b'.' ∷ suffix) (last_dot-suffix market) in
    let before = take-length ticker (b'.' ∷ suffix) in
    let after = drop-length ticker suffix b'.' in
    let back = suffix_market-market_suffix market in
    let size : length (ticker ++ (b'.' ∷ suffix)) ≡ length ticker + 3 =
      length-append ticker (b'.' ∷ suffix)
      ∙ ap (λ k. length ticker + k) (length-market_suffix market) in
    let fits : leb n (length (ticker ++ (b'.' ∷ suffix))) ≡ false = rw size (leb-false h) in
    (ticker ++ (b'.' ∷ suffix), rw fits refl, rw (dot, before, after, back, leb-false k) refl)
