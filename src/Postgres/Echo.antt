-- ===== src/Postgres/Echo.antt =====
-- The statement that writes a position in core/platform/db/postgres.c, and the reading of the row that
-- it returns.
use alpha_fincial_pipline_c.Prelude.{
  ◌%◌, ◌/◌, ℕ, zero, suc, ◌+◌, ◌≤◌, ◌<◌, ◌≡◌, refl, ap₂, ◌∙◌, map, ◌||◌, ◌==◌, if◌then◌else◌, Bool,
  true, false, some, List, [], ◌∷◌, length, arith,
}
use alpha_fincial_pipline_c.Prelude.Int.{ℤ, pos, negsuc, ◌≤ℤ◌}
use alpha_fincial_pipline_c.Date.{decimal, decimal_from}
use alpha_fincial_pipline_c.Postgres.Rows.{
  Rows, PgPosition, text_cap, copy_text, parse_i64, parse_i32, parse_position, print_int,
  print_bool, upsert_params, is_t, Column, inserted_columns, returned_columns, ticker_column,
  name_column, quantity_column, avg_price_column, current_price_column, is_paper_column,
  account_scope_column, strategy_id_column,
}

abbrev pub print_t : Bool → List ℕ
print_t true = b't' ∷ []
print_t false = b'f' ∷ []

-- The values that `parse_position` takes for a position: numbers in decimal, and t or f.
abbrev row_of : PgPosition → Rows
row_of p = record {
  ntuples = 1;
  fields =
      p.ticker
      ∷ p.name
      ∷ print_int p.quantity
      ∷ print_int p.avg_price
      ∷ print_int p.current_price
      ∷ print_t p.is_paper
      ∷ p.account_scope
      ∷ p.strategy_id
      ∷ [];
}

-- The four texts fit their buffers, and the three numbers are in the range of int32_t.
pub record Fits (p : PgPosition) : Type 0 where
  pub ticker_fits : length p.ticker < text_cap
  pub name_fits : length p.name < text_cap
  pub scope_fits : length p.account_scope < text_cap
  pub strategy_fits : length p.strategy_id < text_cap
  pub quantity_in : (negsuc 2147483647 ≤ℤ p.quantity) × (p.quantity ≤ℤ pos 2147483647)
  pub avg_price_in : (negsuc 2147483647 ≤ℤ p.avg_price) × (p.avg_price ≤ℤ pos 2147483647)
  pub current_price_in :
      (negsuc 2147483647 ≤ℤ p.current_price) × (p.current_price ≤ℤ pos 2147483647)

length-decimal_from : (fuel n : ℕ) (rest : List ℕ) → length rest ≤ length (decimal_from fuel n rest)
unfolding decimal_from
length-decimal_from zero n rest = omega arith
length-decimal_from (suc fuel) n rest =
    ground (arith, length-decimal_from fuel (n / 10) ((b'0' + n % 10) ∷ rest))

some_digit : (fuel n : ℕ) (rest : List ℕ) → 1 ≤ length (decimal_from (suc fuel) n rest)
unfolding decimal_from
some_digit fuel n rest = ground (arith, length-decimal_from fuel (n / 10) ((b'0' + n % 10) ∷ rest))

length-decimal : (n : ℕ) → 1 ≤ length (decimal n)
length-decimal n = let next : n + 1 ≡ suc n = omega arith in rw next (some_digit n n [])

length-print_int : (z : ℤ) → 1 ≤ length (print_int z)
length-print_int (pos n) = length-decimal n
length-print_int (negsuc n) = omega arith

copy_text-eq : (s : List ℕ) → length s < text_cap → copy_text text_cap s ≡ some s
unfolding copy_text
copy_text-eq s h = ground arith

is_t-print_t : (b : Bool) → is_t (print_t b) ≡ b
is_t-print_t true = refl
is_t-print_t false = refl

module _ (strtoll : List ℕ → ℤ × Bool × ℕ) where
  -- `strtoll` reads the decimal text of the number to its end.
  abbrev pub Reads : ℤ → Type 0
  Reads z = strtoll (print_int z) ≡ (z, false, length (print_int z))

  parse_i32-print_int :
      (z : ℤ)
      → Reads z
      → (negsuc 2147483647 ≤ℤ z) × (z ≤ℤ pos 2147483647)
      → parse_i32 strtoll (print_int z) ≡ some z
  unfolding parse_i32 parse_i64
  parse_i32-print_int z r h = let digits = length-print_int z in rw r (ground arith)

  parse_position-row_of :
      (p : PgPosition)
      → Fits p
      → Reads p.quantity
      → Reads p.avg_price
      → Reads p.current_price
      → parse_position strtoll (row_of p) ≡ some p
  unfolding parse_position
  parse_position-row_of p f q a c =
      rw
        (
          copy_text-eq p.ticker f.ticker_fits,
          copy_text-eq p.name f.name_fits,
          parse_i32-print_int p.quantity q f.quantity_in,
          parse_i32-print_int p.avg_price a f.avg_price_in,
          parse_i32-print_int p.current_price c f.current_price_in,
          copy_text-eq p.account_scope f.scope_fits,
          copy_text-eq p.strategy_id f.strategy_fits,
          is_t-print_t p.is_paper,
        )
        refl

-- Which type a column has.
abbrev pub is_integer : Column → Bool
is_integer quantity_column = true
is_integer avg_price_column = true
is_integer current_price_column = true
is_integer _ = false

abbrev pub is_boolean : Column → Bool
is_boolean is_paper_column = true
is_boolean _ = false

-- How a server writes, in a column, a value that it was given as a text: an integer in decimal, a
-- boolean as t or f, and a text as it is. An empty strategy id goes through NULLIF and COALESCE, and
-- so comes back empty.
pub record IsServer (written : Column → List ℕ → List ℕ) : Type 0 where
  pub integers :
      (c : Column) (z : ℤ)
      → is_integer c ≡ true
      → (negsuc 2147483647 ≤ℤ z) × (z ≤ℤ pos 2147483647)
      → written c (print_int z) ≡ print_int z
  pub booleans :
      (c : Column) (b : Bool) → is_boolean c ≡ true → written c (print_bool b) ≡ print_t b
  pub texts : (c : Column) (s : List ℕ) → (is_integer c || is_boolean c) ≡ false → written c s ≡ s

abbrev column_number : Column → ℕ
column_number ticker_column = 0
column_number name_column = 1
column_number quantity_column = 2
column_number avg_price_column = 3
column_number current_price_column = 4
column_number is_paper_column = 5
column_number account_scope_column = 6
column_number strategy_id_column = 7

-- The parameter that stands at the place of the column.
abbrev pub given_for : Column → List Column → List (List ℕ) → List ℕ
given_for c (column ∷ columns) (param ∷ params) =
    if column_number c == column_number column then param else given_for c columns params
given_for c _ _ = []

-- One row, whose values are those of the returned columns, from the parameters that were inserted.
pub record Returns (written : Column → List ℕ → List ℕ) (params : List (List ℕ)) (rows : Rows)
    : Type 0 where
  pub one_row : rows.ntuples ≡ 1
  pub values :
      rows.fields ≡ map (λ c. written c (given_for c inserted_columns params)) returned_columns

module _ (written : Column → List ℕ → List ℕ) (server : IsServer written) where
  returned-row_of :
      (p : PgPosition)
      → Fits p
      → map (λ c. written c (given_for c inserted_columns (upsert_params p))) returned_columns
        ≡ (row_of p).fields
  returned-row_of p f =
      rw
        (
          server.texts ticker_column p.ticker refl,
          server.texts name_column p.name refl,
          server.integers quantity_column p.quantity refl f.quantity_in,
          server.integers avg_price_column p.avg_price refl f.avg_price_in,
          server.integers current_price_column p.current_price refl f.current_price_in,
          server.booleans is_paper_column p.is_paper refl,
          server.texts account_scope_column p.account_scope refl,
          server.texts strategy_id_column p.strategy_id refl,
        )
        refl

  -- A position that is sent with `alpha_pg_upsert_position` is read back as it was: on a server that
  -- writes integers in decimal, booleans as t or f and texts as they are, the row that the statement
  -- returns from the parameters, by the columns that it inserts them into and those that it returns,
  -- is parsed to that position. That is provided that its texts fit their buffers, its numbers fit
  -- int32_t, and `strtoll` reads the three numbers.
  pub parse_position-upsert_params :
      (strtoll : List ℕ → ℤ × Bool × ℕ) (p : PgPosition) (rows : Rows)
      → Fits p
      → Reads strtoll p.quantity
      → Reads strtoll p.avg_price
      → Reads strtoll p.current_price
      → Returns written (upsert_params p) rows
      → parse_position strtoll rows ≡ some p
  parse_position-upsert_params strtoll p rows f q a c r =
      ap₂ (λ n fields. parse_position strtoll (record { ntuples = n; fields = fields })) r.one_row
        (r.values ∙ returned-row_of p f)
      ∙ parse_position-row_of strtoll p f q a c
