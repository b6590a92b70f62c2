-- ===== src/Postgres/Rows.antt =====
-- The rows and the statements of core/platform/db/postgres.c. `strtoll` is a parameter: its value,
-- whether it sets `errno`, and how many characters it reads. A string is the list of its bytes before
-- the NUL.
use alpha_fincial_pipline_c.Prelude.{
  ℕ, suc, Bool, true, false, not, ◌||◌, Option, none, some, List, [], ◌∷◌, length, get_or, leb,
  ◌==◌, if◌then◌else◌,
}
use alpha_fincial_pipline_c.Prelude.Int.{ℤ, pos, negsuc, leb_ℤ, ltb_ℤ}
use alpha_fincial_pipline_c.Domain.{invalid_arg}
use alpha_fincial_pipline_c.Double.{Double, ◌⊗◌, ◌⊘◌, nought, hundred, round_dp}
use alpha_fincial_pipline_c.Date.{decimal}
use alpha_fincial_pipline_c.Postgres.{Pg, Status, position, exposure, send_request}

abbrev pub text_cap : ℕ
text_cap = 64

-- `PQntuples`, and the values of the first row.
pub record Rows : Type 0 where
  pub ntuples : ℕ
  pub fields : List (List ℕ)

abbrev pub value_at : Rows → ℕ → List ℕ
value_at rows k = get_or rows.fields k []

-- The fields of ALPHA_PG_TEXT_CAP bytes and the numbers of a position.
pub record PgPosition : Type 0 where
  pub ticker : List ℕ
  pub name : List ℕ
  pub quantity : ℤ
  pub avg_price : ℤ
  pub current_price : ℤ
  pub is_paper : Bool
  pub account_scope : List ℕ
  pub strategy_id : List ℕ

pub record PgExposure {ℓ} (W : Type ℓ) : Type ℓ where
  pub ticker : List ℕ
  pub total_quantity : ℤ
  pub total_market_value : ℤ
  pub total_aum : ℤ
  pub exposure_pct : W
  pub strategy_count : ℤ

infixl 5 ◌>>=◌
abbrev pub ◌>>=◌ {ℓ κ} : {A : Type ℓ} {B : Type κ} → Option A → (A → Option B) → Option B
none >>= f = none
some a >>= f = f a

unfoldable pub copy_text : ℕ → List ℕ → Option (List ℕ)
copy_text cap src = if leb cap (length src) then none else some src

abbrev pub is_t : List ℕ → Bool
is_t (c ∷ []) = c == b't'
is_t _ = false

module _ (strtoll : List ℕ → ℤ × Bool × ℕ) where
  unfoldable pub parse_i64 : List ℕ → Option ℤ
  parse_i64 text =
      let (value, failed, used) = strtoll text in
      if failed || used == 0 || not (used == length text) then none else some value

  unfoldable pub parse_i32 : List ℕ → Option ℤ
  unfolding parse_i64
  parse_i32 text = parse_i64 text >>= λ value.
      if ltb_ℤ value (negsuc 2147483647) || ltb_ℤ (pos 2147483647) value then none else some value

  unfoldable pub parse_position : Rows → Option PgPosition
  unfolding parse_i32 copy_text
  parse_position rows =
      if not (rows.ntuples == 1)
      then none
      else (copy_text text_cap (value_at rows 0) >>= λ ticker.
          copy_text text_cap (value_at rows 1) >>= λ name.
          parse_i32 (value_at rows 2) >>= λ quantity. parse_i32 (value_at rows 3) >>= λ avg_price.
          parse_i32 (value_at rows 4) >>= λ current_price.
          copy_text text_cap (value_at rows 6) >>= λ account_scope.
          copy_text text_cap (value_at rows 7) >>= λ strategy_id. some (record {
            ticker = ticker;
            name = name;
            quantity = quantity;
            avg_price = avg_price;
            current_price = current_price;
            is_paper = is_t (value_at rows 5);
            account_scope = account_scope;
            strategy_id = strategy_id;
          }))

  module _ {ℓ} {W : Type ℓ} ⦃d : Double W⦄ where
    abbrev pub exposure_of : ℤ → ℤ → W
    exposure_of total_market_value total_aum =
        if ltb_ℤ (pos 0) total_aum
        then d.of_int total_market_value ⊘ d.of_int total_aum ⊗ hundred
        else nought

    unfoldable pub parse_exposure : Rows → Option (PgExposure W)
    unfolding parse_i64 parse_i32 copy_text
    parse_exposure rows =
        if not (rows.ntuples == 1)
        then none
        else (copy_text text_cap (value_at rows 0) >>= λ ticker.
            parse_i64 (value_at rows 1) >>= λ total_quantity.
            parse_i64 (value_at rows 2) >>= λ total_market_value.
            parse_i64 (value_at rows 3) >>= λ total_aum.
            parse_i32 (value_at rows 4) >>= λ strategy_count. some (record {
              ticker = ticker;
              total_quantity = total_quantity;
              total_market_value = total_market_value;
              total_aum = total_aum;
              exposure_pct = round_dp (exposure_of total_market_value total_aum) (pos 2);
              strategy_count = strategy_count;
            }))

-- `%d`; an int32_t has at most 11 characters, so the buffer of 16 holds it.
abbrev pub print_int : ℤ → List ℕ
print_int (pos n) = decimal n
print_int (negsuc n) = b'-' ∷ decimal (suc n)

abbrev pub print_bool : Bool → List ℕ
print_bool true = b't' ∷ b'r' ∷ b'u' ∷ b'e' ∷ []
print_bool false = b'f' ∷ b'a' ∷ b'l' ∷ b's' ∷ b'e' ∷ []

abbrev pub is_empty : List ℕ → Bool
is_empty [] = true
is_empty (c ∷ s) = false

abbrev pub upsert_params : PgPosition → List (List ℕ)
upsert_params p =
    p.ticker
    ∷ p.name
    ∷ print_int p.quantity
    ∷ print_int p.avg_price
    ∷ print_int p.current_price
    ∷ print_bool p.is_paper
    ∷ p.account_scope
    ∷ p.strategy_id
    ∷ []

pub data Column : Type 0 where
  ticker_column name_column quantity_column avg_price_column current_price_column is_paper_column
        account_scope_column strategy_id_column :
      Column

-- The columns that UPSERT_POSITION_SQL inserts the parameters $1 to $8 into, in this order; the two
-- that it sets to NOW() follow.
abbrev pub inserted_columns : List Column
inserted_columns =
    ticker_column ∷ name_column ∷ quantity_column ∷ avg_price_column ∷ current_price_column
    ∷ is_paper_column ∷ account_scope_column ∷ strategy_id_column ∷ []

-- The columns that it returns, in this order.
abbrev pub returned_columns : List Column
returned_columns =
    ticker_column ∷ name_column ∷ quantity_column ∷ avg_price_column ∷ current_price_column
    ∷ is_paper_column ∷ account_scope_column ∷ strategy_id_column ∷ []

-- `sent` says of the parameters whether `PQsendQueryParams` takes them.
unfoldable pub upsert_position :
    Pg → Option PgPosition → ℕ → (List (List ℕ) → Bool) → Bool → List ℕ → Pg × Status
unfolding send_request
upsert_position pg none user_data sent flush_rest message = (pg, some invalid_arg)
upsert_position pg (some p) user_data sent flush_rest message =
    if is_empty p.ticker || is_empty p.name || leb_ℤ p.quantity (pos 0) || is_empty p.account_scope
    then (pg, some invalid_arg)
    else send_request pg (record { kind = position; user_data = user_data })
        (sent (upsert_params p)) flush_rest message

unfoldable pub query_exposure :
    Pg → Option (List ℕ) → ℕ → (List (List ℕ) → Bool) → Bool → List ℕ → Pg × Status
unfolding send_request
query_exposure pg none user_data sent flush_rest message = (pg, some invalid_arg)
query_exposure pg (some ticker) user_data sent flush_rest message =
    if is_empty ticker || leb text_cap (length ticker)
    then (pg, some invalid_arg)
    else send_request pg (record { kind = exposure; user_data = user_data }) (sent (ticker ∷ []))
        flush_rest message
