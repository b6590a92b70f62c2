-- ===== src/Adapter/Text.antt =====
-- The strings of core/apps/c_driver_adapter.c: the string of JSON that it prints, and the arguments.
use alpha_fincial_pipline_c.Prelude.{
  ℕ, ◌≡◌, refl, ap, sym, ◌∙◌, false, ◌||◌, Option, none, some, List, [], ◌∷◌, ◌==◌, if◌then◌else◌,
  Bool-cases, inl, inr,
}
use alpha_fincial_pipline_c.Fixture.{same_text}

abbrev quote : ℕ
quote = 34

abbrev backslash : ℕ
backslash = 92

abbrev escaped : ℕ → List ℕ → List ℕ
escaped c rest = if c == quote || c == backslash then backslash ∷ c ∷ rest else c ∷ rest

-- What is printed before `rest`.
abbrev json_from : List ℕ → List ℕ → List ℕ
json_from [] rest = quote ∷ rest
json_from (c ∷ text) rest = escaped c (json_from text rest)

-- What `json_string` prints.
unfoldable pub json_string : List ℕ → List ℕ
json_string text = quote ∷ json_from text []

-- `argv` without the name of the program.
unfoldable pub arg_value : List (List ℕ) → List ℕ → Option (List ℕ)
arg_value [] name = none
arg_value (arg ∷ []) name = none
arg_value (arg ∷ value ∷ argv) name =
    let later = arg_value (value ∷ argv) name in if same_text arg name then some value else later

abbrev pub in_text : ℕ → Option (List ℕ × List ℕ) → Option (List ℕ × List ℕ)
in_text c none = none
in_text c (some (text, rest)) = some (c ∷ text, rest)

-- A reader of the printed string behind its first quote, written on its own: the text, and what
-- stands behind the last quote.
unfoldable pub read_string : List ℕ → Option (List ℕ × List ℕ)
read_string [] = none
read_string (c ∷ []) = if c == quote then some ([], []) else none
read_string (c ∷ e ∷ rest) =
    let plain = read_string (e ∷ rest) in
    let quoted = read_string rest in
    if c == quote
    then some ([], e ∷ rest)
    else if c == backslash
    then in_text e quoted
    else in_text c plain

read_string-quote : (rest : List ℕ) → read_string (quote ∷ rest) ≡ some ([], rest)
unfolding read_string
read_string-quote [] = refl
read_string-quote (c ∷ rest) = refl

read_string-plain :
    (c e : ℕ) (more : List ℕ)
    → (c == quote) ≡ false
    → (c == backslash) ≡ false
    → read_string (c ∷ e ∷ more) ≡ in_text c (read_string (e ∷ more))
unfolding read_string
read_string-plain c e more p q = rw (p, q) refl

read_string-escaped :
    (c e : ℕ) (more : List ℕ)
    → read_string (escaped c (e ∷ more)) ≡ in_text c (read_string (e ∷ more))
unfolding read_string
read_string-escaped c e more = elim (Bool-cases (c == quote)) [
  | inl p ↦ rw p refl
  | inr p ↦ elim (Bool-cases (c == backslash)) [
    | inl q ↦ rw (p, q) refl
    | inr q ↦ rw (p, q) (read_string-plain c e more p q)
  ]
]

escaped-cons : (c : ℕ) (rest : List ℕ) → (e : ℕ) × (more : List ℕ) × (escaped c rest ≡ e ∷ more)
escaped-cons c rest = elim (Bool-cases (c == quote || c == backslash)) [
  | inl p ↦ (backslash, c ∷ rest, rw p refl)
  | inr p ↦ (c, rest, rw p refl)
]

json_from-cons : (text rest : List ℕ) → (e : ℕ) × (more : List ℕ) × (json_from text rest ≡ e ∷ more)
json_from-cons [] rest = (quote, rest, refl)
json_from-cons (c ∷ text) rest = escaped-cons c (json_from text rest)

-- The printed string, with anything behind it, is read back as the text.
read_string-json_from : (text rest : List ℕ) → read_string (json_from text rest) ≡ some (text, rest)
read_string-json_from [] rest = read_string-quote rest
read_string-json_from (c ∷ text) rest =
    let (e, more, p) = json_from-cons text rest in
    ap (λ l. read_string (escaped c l)) p
    ∙ read_string-escaped c e more
    ∙ ap (λ l. in_text c (read_string l)) (sym p)
    ∙ ap (in_text c) (read_string-json_from text rest)

-- What `json_string` prints stands behind a quote, and a reader of strings that undoes the escapes
-- reads it back as the text, to the end, for every text.
pub json_string-read_string :
    (text : List ℕ)
    → (printed : List ℕ) × (json_string text ≡ quote ∷ printed)
      × (read_string printed ≡ some (text, []))
unfolding json_string
json_string-read_string text = (json_from text [], refl, read_string-json_from text [])
