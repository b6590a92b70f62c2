-- ===== src/RedisAsync/Keys.antt =====
-- The keys of core/platform/cache/redis_async.c.
use mathlib.Core.List.{append_cancel_left}
use alpha_fincial_pipline_c.Prelude.{
  ℕ, ◌+◌, ◌≤◌, ◌≡◌, ◌∙◌, sym, true, some, List, ◌++◌, length, length-append, arith,
}
use alpha_fincial_pipline_c.Domain.{ok}
use alpha_fincial_pipline_c.RedisAsync.{latest_key, prefix, key_capacity}

latest_key-ok :
    (ticker key : List ℕ)
    → latest_key (some ticker) true key_capacity ≡ ok key
    → (length ticker ≤ 230) × (key ≡ prefix ++ ticker)
unfolding latest_key
latest_key-ok ticker key e = ground arith

-- A key that is made fits its buffer of 256 bytes with the NUL, and no other ticker has it.
pub latest_key-injective :
    (ticker other key : List ℕ)
    → latest_key (some ticker) true key_capacity ≡ ok key
    → latest_key (some other) true key_capacity ≡ ok key
    → (length key + 1 ≤ key_capacity) × (ticker ≡ other)
latest_key-injective ticker other key e f =
    let (short, same) = latest_key-ok ticker key e in
    let (_, same') = latest_key-ok other key f in
    (
      rw same (omega (arith, length-append prefix ticker)),
      append_cancel_left prefix ticker other (sym same ∙ same'),
    )
