-- ===== src/Spike/Sound.antt =====
-- The state of spike/event_loop/main.c keeps to its phases.
use alpha_fincial_pipline_c.Prelude.{
  ℕ, ◌≤◌, ◌≡◌, refl, ◌⊎◌, Bool, true, false, ◌&&◌, List, [], ◌∷◌, length, ◌==◌, if◌then◌else◌,
  arith,
}
use alpha_fincial_pipline_c.Fixture.{same_text}
use alpha_fincial_pipline_c.Spike.{
  Spike, max_curl_watches, fail, fail_unless, pg_send_initial, SpikeResult, boundary, tuples,
  refused, synced, other, take_tuples, at_boundary, drain_results, PgAnswer, SpikePoll, poll_failed,
  poll_ok, poll_again, pg_poll, pg_drain, pg_ready, is_200,
}

abbrev pub Phases : ℕ → Bool → Bool → Bool → Type 0
Phases state roundtrip recovered sync =
    ((state ≡ 0) × (roundtrip ≡ false) × (recovered ≡ false))
    ⊎ (((state ≡ 2) × (recovered ≡ false)) ⊎ ((state ≡ 3) × (sync ≡ true)))

-- Not connected, with nothing read; the first pipeline, with no recovery; or the recovery, behind a
-- sync.
abbrev pub PgPhase : Spike → Type 0
PgPhase app = Phases app.pg_state app.pg_roundtrip app.pg_recovered app.pg_sync_seen

-- The first connection, not cut off; or the second, behind a round trip and a disconnection.
abbrev pub Generations : ℕ → Bool → Bool → Bool → Type 0
Generations generation roundtrip disconnect recovered =
    ((generation ≤ 1) × (disconnect ≡ false) × (recovered ≡ false))
    ⊎ ((generation ≡ 2) × (disconnect ≡ true) × (roundtrip ≡ true))

abbrev pub RedisPhase : Spike → Type 0
RedisPhase app =
    Generations app.redis_generation app.redis_roundtrip app.redis_disconnect app.redis_recovered

-- `is_200`: a round trip is noted only with status 200.
pub record IsSound (app : Spike) : Type 0 where
  pub pg : PgPhase app
  pub redis : RedisPhase app
  pub curl : (app.curl_roundtrip ≡ false) ⊎ (is_200 app.curl_status ≡ true)
  pub room : length app.curl_watches ≤ max_curl_watches

roundtrip_phase :
    (state : ℕ) (roundtrip recovered sync : Bool)
    → (state == 2) ≡ true
    → Phases state roundtrip recovered sync
    → Phases state true recovered sync
roundtrip_phase state roundtrip recovered sync e h = ground arith

recovered_phase :
    (state : ℕ) (roundtrip recovered sync one rest : Bool)
    → (state == 3 && one && rest) ≡ true
    → Phases state roundtrip recovered sync
    → Phases state roundtrip true sync
recovered_phase state roundtrip recovered sync one rest e h = ground arith

boundary_phase :
    (state : ℕ) (roundtrip recovered sync : Bool)
    → (state == 2 && sync) ≡ true
    → Phases state roundtrip recovered sync
    → Phases 3 roundtrip recovered sync
boundary_phase state roundtrip recovered sync e h = ground arith

synced_phase :
    (state : ℕ) (roundtrip recovered sync : Bool)
    → Phases state roundtrip recovered sync
    → Phases state roundtrip recovered true
synced_phase state roundtrip recovered sync h = ground arith

sent_phase :
    (state : ℕ) (roundtrip recovered sync : Bool)
    → (state == 0) ≡ true
    → Phases state roundtrip recovered sync
    → Phases 2 roundtrip recovered sync
sent_phase state roundtrip recovered sync e h = ground arith

pub either :
    (b : Bool) (x y : Spike)
    → (b ≡ true → IsSound x)
    → (b ≡ false → IsSound y)
    → IsSound (if b then x else y)
either true x y h k = h refl
either false x y h k = k refl

pub fail-IsSound : (app : Spike) → IsSound app → IsSound (fail app)
fail-IsSound app h = record { pg = h.pg; redis = h.redis; curl = h.curl; room = h.room }

pub fail_unless-IsSound : (b : Bool) (app : Spike) → IsSound app → IsSound (fail_unless b app)
fail_unless-IsSound b app h = either b app (fail app) (λ e. h) (λ e. fail-IsSound app h)

-- A step of Postgres leaves the rest as it is.
with_pg :
    (app : Spike) (st : ℕ) (rt ab sy re : Bool)
    → IsSound app
    → Phases st rt re sy
    → IsSound (record app {
      pg_state = st;
      pg_roundtrip = rt;
      pg_abort_seen = ab;
      pg_sync_seen = sy;
      pg_recovered = re;
    })
with_pg app st rt ab sy re h p = record { pg = p; redis = h.redis; curl = h.curl; room = h.room }

take_tuples-IsSound :
    (app : Spike) (ntuples : ℕ) (value : List ℕ)
    → IsSound app
    → IsSound (take_tuples app ntuples value)
take_tuples-IsSound app ntuples value h =
    either (app.pg_state == 2) _ _
      (λ e.
        with_pg app app.pg_state true app.pg_abort_seen app.pg_sync_seen app.pg_recovered h
          (roundtrip_phase _ app.pg_roundtrip _ _ e h.pg))
      (λ e.
        either (app.pg_state == 3 && ntuples == 1 && same_text value (b'4' ∷ b'2' ∷ [])) _ _
          (λ f.
            with_pg app app.pg_state app.pg_roundtrip app.pg_abort_seen app.pg_sync_seen true h (
              recovered_phase _ _ app.pg_recovered _ (ntuples == 1)
                (same_text value (b'4' ∷ b'2' ∷ [])) f h.pg))
          (λ f. h))

at_boundary-IsSound : (app : Spike) (queued : Bool) → IsSound app → IsSound (at_boundary app queued)
at_boundary-IsSound app queued h =
    either (app.pg_state == 2 && app.pg_sync_seen) _ _
      (λ e.
        either queued _ _
          (λ f.
            with_pg app 3 app.pg_roundtrip app.pg_abort_seen app.pg_sync_seen app.pg_recovered h
              (boundary_phase app.pg_state _ _ _ e h.pg))
          (λ f. fail-IsSound app h))
      (λ e. h)

drain_results-IsSound :
    (results : List SpikeResult) (app : Spike) → IsSound app → IsSound (drain_results app results)
unfolding drain_results
drain_results-IsSound [] app h = h
drain_results-IsSound (boundary queued ∷ results) app h = at_boundary-IsSound app queued h
drain_results-IsSound (tuples ntuples value ∷ results) app h =
    drain_results-IsSound results (take_tuples app ntuples value)
      (take_tuples-IsSound app ntuples value h)
drain_results-IsSound (refused ∷ results) app h =
    drain_results-IsSound results _
      (with_pg app app.pg_state app.pg_roundtrip true app.pg_sync_seen app.pg_recovered h h.pg)
drain_results-IsSound (synced ∷ results) app h = drain_results-IsSound results _ (
    with_pg app app.pg_state app.pg_roundtrip app.pg_abort_seen true app.pg_recovered h
      (synced_phase _ _ _ app.pg_sync_seen h.pg))
drain_results-IsSound (other ∷ results) app h = drain_results-IsSound results app h

pg_poll-IsSound :
    (app : Spike) (poll : SpikePoll) (queued : Bool)
    → (app.pg_state == 0) ≡ true
    → IsSound app
    → IsSound (pg_poll app poll queued)
unfolding pg_send_initial
pg_poll-IsSound app poll_failed queued e h = fail-IsSound app h
pg_poll-IsSound app poll_ok true e h =
    with_pg app 2 app.pg_roundtrip app.pg_abort_seen app.pg_sync_seen app.pg_recovered h
      (sent_phase app.pg_state _ _ _ e h.pg)
pg_poll-IsSound app poll_ok false e h = fail-IsSound app h
pg_poll-IsSound app poll_again queued e h = h

pub pg_ready-IsSound :
    (app : Spike) (answer : PgAnswer) → IsSound app → IsSound (pg_ready app answer)
unfolding pg_ready pg_drain
pg_ready-IsSound app answer h =
    either (app.pg_state == 0) _ _ (λ e. pg_poll-IsSound app answer.poll answer.queued e h)
      (λ e.
        either answer.consumes _ _ (λ f. drain_results-IsSound answer.results app h)
          (λ f. fail-IsSound app h))
