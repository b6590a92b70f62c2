-- ===== src/Spike/Polled.antt =====
-- What a tick of spike/event_loop/main.c polls: the arrays of 18 entries have room for every watch.
use alpha_fincial_pipline_c.Prelude.{
  ℕ, suc, ◌+◌, ◌≤◌, ◌≡◌, refl, ap, inl, inr, true, Option, none, some, List, [], ◌∷◌, ◌++◌, length,
  ltb, if◌then◌else◌, Bool-cases, arith,
}
use alpha_fincial_pipline_c.Spike.{Spike, CurlWatch, max_curl_watches}
use alpha_fincial_pipline_c.Spike.Loop.{
  Owner, owner_pg, owner_redis, owner_curl, is_active, max_polled, poll_curl, poll_from, poll_set,
}
use alpha_fincial_pipline_c.Spike.Sound.{IsSound}

-- The slots of the watches with an interest, from slot `i` on.
abbrev pub active : ℕ → List CurlWatch → List Owner
active i [] = []
active i (watch ∷ watches) =
    if is_active watch then owner_curl i ∷ active (suc i) watches else active (suc i) watches

abbrev pub connections : Option ℕ → List Owner
connections none = owner_pg ∷ []
connections (some fd) = owner_pg ∷ owner_redis ∷ []

below_max : (count n : ℕ) → count + suc n ≤ max_polled → ltb count max_polled ≡ true
below_max count n h = ground arith

-- Where there is room, the guard does not cut the loop short.
poll_curl-active :
    (watches : List CurlWatch) (i count : ℕ)
    → count + length watches ≤ max_polled
    → poll_curl i count watches ≡ active i watches
unfolding poll_curl
poll_curl-active [] i count h = refl
poll_curl-active (watch ∷ watches) i count h =
    let room = below_max count (length watches) h in
    elim (Bool-cases (is_active watch)) [
      | inl e ↦
          rw (room, e)
            (ap (λ l. owner_curl i ∷ l)
              (poll_curl-active watches (suc i) (suc count) (omega (arith, h))))
      | inr e ↦ rw (room, e) (poll_curl-active watches (suc i) count (omega (arith, h)))
    ]

active-length : (watches : List CurlWatch) (i : ℕ) → length (active i watches) ≤ length watches
active-length [] i = omega arith
active-length (watch ∷ watches) i = elim (Bool-cases (is_active watch)) [
  | inl e ↦ rw e (omega (arith, active-length watches (suc i)))
  | inr e ↦ rw e (omega (arith, active-length watches (suc i)))
]

polled_with :
    (redis : Option ℕ) (watches : List CurlWatch)
    → length watches ≤ max_curl_watches
    → (poll_from redis watches ≡ connections redis ++ active 0 watches)
      × (length (poll_from redis watches) ≤ max_polled)
polled_with none watches h =
    let e = poll_curl-active watches 0 1 (omega (arith, h)) in
    (ap (λ l. owner_pg ∷ l) e, omega (arith, h, ap length e, active-length watches 0))
polled_with (some fd) watches h =
    let e = poll_curl-active watches 0 2 (omega (arith, h)) in
    (ap (λ l. owner_pg ∷ owner_redis ∷ l) e, omega (arith, h, ap length e, active-length watches 0))

-- In a state of a run, a tick polls Postgres, Redis if there is a context, and every watch of libcurl
-- with an interest: the guard of 18 entries leaves none out, and the arrays do not overflow.
pub poll_set_lem :
    (app : Spike)
    → IsSound app
    → (poll_set app ≡ connections app.redis ++ active 0 app.curl_watches)
      × (length (poll_set app) ≤ max_polled)
unfolding poll_set
poll_set_lem app h = polled_with app.redis app.curl_watches h.room
