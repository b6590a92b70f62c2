-- ===== src/Adapter/Submit.antt =====
-- `submit_one` of core/apps/c_driver_adapter.c: what is sent is counted.
use alpha_fincial_pipline_c.Prelude.{
  ℕ, suc, ◌+◌, ◌%◌, ◌^◌, ◌<◌, ◌≡◌, ◌≢◌, ◌∙◌, sym, refl, ap, ◌⊎◌, inl, inr, Bool, true, false, none,
  some, List, [], ◌∷◌, ◌++◌, length, length-append, ◌==◌, if◌then◌else◌, arith,
}
use mathlib.Core.Path.{subst}
use alpha_fincial_pipline_c.Date.{bool_ℕ}
use alpha_fincial_pipline_c.Domain.{invalid_arg}
use alpha_fincial_pipline_c.Postgres.{Pg, PendingRequest, wants_write, send_request}
use alpha_fincial_pipline_c.Postgres.Invariant.{Holds, send_request-Holds}
use alpha_fincial_pipline_c.Postgres.Rows.{PgPosition, upsert_position, query_exposure}
use alpha_fincial_pipline_c.RedisAsync.{Redis, command}
use alpha_fincial_pipline_c.RedisAsync.Pending.{accepted_by}
use alpha_fincial_pipline_c.Adapter.{
  Status, CaseKind, case_redis, case_db, Adapter, Environment, op_count, next_question,
}
use alpha_fincial_pipline_c.Adapter.Drive.{
  submit_redis, submit_pg, submit_as, sent_count, watch_sent, if_sent, submit_one, pg_request,
  with_token, redis_arguments,
}
use alpha_fincial_pipline_c.Adapter.Same.{Same, Same-refl, watch_set_write-Same}
use alpha_fincial_pipline_c.Adapter.Count.{Outstanding, IsTimed, Counts, next_count}
use alpha_fincial_pipline_c.Adapter.Rounds.{Rests, Rests-Same}

command-pending :
    (redis : Redis) (argv : List (List ℕ)) (sent : Bool)
    → let r = command redis (some argv) true sent in r.0.pending ≡ redis.pending + accepted_by r.1
unfolding command
command-pending redis argv sent = ground arith

-- The connection holds one request more if the status is ALPHA_OK.
SendsOne : List PendingRequest → Pg × Status → Type 0
SendsOne requests (pg, status) =
    (after : List PendingRequest) × Holds pg after
    × (length after ≡ length requests + accepted_by status)

send_request-SendsOne :
    (pg : Pg) (request : PendingRequest) (sent flush_rest : Bool) (message : List ℕ)
    (requests : List PendingRequest)
    → Holds pg requests
    → SendsOne requests (send_request pg request sent flush_rest message)
unfolding SendsOne
send_request-SendsOne pg request sent flush_rest message requests h =
    by_status (send_request pg request sent flush_rest message)
      (send_request-Holds pg request sent flush_rest message requests h)
  where
    by_status :
        (r : Pg × Status)
        → (r.1 ≡ none → Holds r.0 (requests ++ (request ∷ []))) × (r.1 ≢ none → Holds r.0 requests)
        → SendsOne requests r
    by_status (next, none) k =
        (requests ++ (request ∷ []), k.0 refl, length-append requests (request ∷ []))
    by_status (next, some e) k = (requests, k.1 (λ p. cc), omega arith)

unless-SendsOne :
    (b : Bool) (pg : Pg) (r : Pg × Status) (requests : List PendingRequest)
    → Holds pg requests
    → SendsOne requests r
    → SendsOne requests (if b then (pg, some invalid_arg) else r)
unfolding SendsOne
unless-SendsOne true pg r requests h k = (requests, h, omega arith)
unless-SendsOne false pg r requests h k = k

chosen-SendsOne :
    (b : Bool) (x y : Pg × Status) (requests : List PendingRequest)
    → SendsOne requests x
    → SendsOne requests y
    → SendsOne requests (if b then x else y)
chosen-SendsOne true x y requests h k = h
chosen-SendsOne false x y requests h k = k

upsert_position-SendsOne :
    (pg : Pg) (p : PgPosition) (takes : List (List ℕ) → Bool) (rest : Bool) (message : List ℕ)
    (requests : List PendingRequest)
    → Holds pg requests
    → SendsOne requests (upsert_position pg (some p) 0 takes rest message)
unfolding upsert_position
upsert_position-SendsOne pg p takes rest message requests h =
    unless-SendsOne _ pg _ requests h (send_request-SendsOne pg _ _ rest message requests h)

query_exposure-SendsOne :
    (pg : Pg) (ticker : List ℕ) (takes : List (List ℕ) → Bool) (rest : Bool) (message : List ℕ)
    (requests : List PendingRequest)
    → Holds pg requests
    → SendsOne requests (query_exposure pg (some ticker) 0 takes rest message)
unfolding query_exposure
query_exposure-SendsOne pg ticker takes rest message requests h =
    unless-SendsOne _ pg _ requests h (send_request-SendsOne pg _ _ rest message requests h)

-- Between the sending of an operation and its count; the library has `o` operations to answer.
record IsSent {ℓ} {W : Type ℓ} (n : ℕ) (b : Adapter W) (o : ℕ) : Type 0 where
  whole : b.total ≡ n
  small : n < 2 ^ 64
  outstanding : Outstanding b.kind b.redis b.pg o
  idle : b.inflight ≡ false
  split : b.submitted ≡ b.completed
  below : b.completed < n
  current : b.token.index ≡ b.completed
  sized : length b.latency_ns ≡ n
  timed : (b.failed ≡ true) ⊎ IsTimed b.completed b.latency_ns

module _ {ℓ} {W : Type ℓ} where
  -- The library has been given an operation.
  given-IsSent :
      {n : ℕ} (b : Adapter W) (redis : Redis) (pg : Pg) (o : ℕ)
      → IsSent n b 0
      → Outstanding b.kind redis pg o
      → IsSent n (record (next_question b) { redis = redis; pg = pg }) o
  given-IsSent b redis pg o h q = record {
    whole = h.whole;
    small = h.small;
    outstanding = q;
    idle = h.idle;
    split = h.split;
    below = h.below;
    current = h.current;
    sized = h.sized;
    timed = h.timed;
  }

  sent_count-Counts : {n : ℕ} (b : Adapter W) → IsSent n b 1 → Counts n (sent_count b) 1 0
  sent_count-Counts b h =
      let next : (b.submitted + 1) % 2 ^ 64 ≡ suc b.submitted =
        next_count b.submitted (omega (arith, h.small, h.below, h.split)) in
      record {
        whole = h.whole;
        small = h.small;
        outstanding = h.outstanding;
        sum = omega arith;
        split = omega (arith, next, h.split);
        below = omega (arith, next, h.split, h.below);
        current = inr h.current;
        sized = h.sized;
        timed = h.timed;
      }

  unsent-Counts : {n : ℕ} (b : Adapter W) → IsSent n b 0 → Counts n b 0 0
  unsent-Counts b h = record {
    whole = h.whole;
    small = h.small;
    outstanding = h.outstanding;
    sum = ap (λ c. bool_ℕ c) (sym h.idle);
    split = omega (arith, h.split, ap bool_ℕ h.idle);
    below = omega (arith, h.split, h.below);
    current = inl h.idle;
    sized = h.sized;
    timed = h.timed;
  }

module _ {ℓ} {W : Type ℓ} (env : Environment) where
  submit_pg-IsSent :
      {n : ℕ} (b : Adapter W) (operation : ℕ)
      → b.kind ≡ case_db
      → IsSent n b 0
      → let r = submit_pg env b operation in IsSent n r.0 (accepted_by r.1)
  unfolding SendsOne
  submit_pg-IsSent {n = n} b operation e h =
      let (requests, holds, empty) = subst (λ c. Outstanding c b.redis b.pg 0) e h.outstanding in
      let takes = λ (params : List (List ℕ)). env.takes b.asked in
      let rest = env.flush_rest b.asked in
      let message = env.message b.asked in
      let upsert =
        λ (p : PgPosition). upsert_position-SendsOne b.pg p takes rest message requests holds in
      let query = query_exposure-SendsOne b.pg b.ticker takes rest message requests holds in
      let r = pg_request env b operation in
      let (after, kept, one) : SendsOne requests r =
        chosen-SendsOne (operation == 0) _ _ requests (upsert b.db_row_a)
          (chosen-SendsOne (operation == 1) _ _ requests (upsert b.db_row_b) query) in
      let left : Outstanding case_db b.redis r.0 (accepted_by r.1) =
        (after, kept, omega (arith, one, empty)) in
      given-IsSent b b.redis r.0 (accepted_by r.1) h
        (subst (λ c. Outstanding c b.redis r.0 (accepted_by r.1)) (sym e) left)

  submit_redis-IsSent :
      {n : ℕ} (b : Adapter W) (operation : ℕ)
      → b.kind ≡ case_redis
      → IsSent n b 0
      → let r = submit_redis env b operation in IsSent n r.0 (accepted_by r.1)
  submit_redis-IsSent b operation e h =
      let r = command b.redis (some (redis_arguments b operation)) true (env.takes b.asked) in
      let none_pending : b.redis.pending ≡ 0 =
        subst (λ c. Outstanding c b.redis b.pg 0) e h.outstanding in
      let pending : r.0.pending ≡ accepted_by r.1 =
        command-pending b.redis (redis_arguments b operation) (env.takes b.asked)
        ∙ ap (λ k. k + accepted_by r.1) none_pending
        ∙ omega arith in
      given-IsSent b r.0 b.pg (accepted_by r.1) h
        (subst (λ c. Outstanding c r.0 b.pg (accepted_by r.1)) (sym e) pending)

  submit_as-IsSent :
      {n : ℕ} (kind : CaseKind) (b : Adapter W) (operation : ℕ)
      → b.kind ≡ kind
      → IsSent n b 0
      → let r = submit_as env kind b operation in IsSent n r.0 (accepted_by r.1)
  submit_as-IsSent case_redis b operation e h = submit_redis-IsSent b operation e h
  submit_as-IsSent case_db b operation e h = submit_pg-IsSent b operation e h

  watch_sent-Same : (kind : CaseKind) (b : Adapter W) → Same b (watch_sent env kind b).0
  watch_sent-Same case_redis b = Same-refl b
  watch_sent-Same case_db b = watch_set_write-Same env b (wants_write b.pg)

  if_sent-Rests :
      {n : ℕ} (r : Adapter W × Status) → IsSent n r.0 (accepted_by r.1) → Rests n (if_sent env r).0
  if_sent-Rests (b, none) h =
      Rests-Same (sent_count b) _ (watch_sent-Same b.kind (sent_count b)) (1, sent_count-Counts b h)
  if_sent-Rests (b, some e) h = (0, unsent-Counts b h)

  -- An adapter with operations left that is not waiting for one submits the next.
  pub submit_one-Rests :
      {n : ℕ} (a : Adapter W)
      → a.inflight ≡ false
      → a.completed < n
      → Rests n a
      → Rests n (submit_one env a).0
  unfolding submit_one
  submit_one-Rests {n = n} a idle left (o, h) =
      let none_flies : bool_ℕ a.inflight ≡ 0 = ap bool_ℕ idle in
      let nothing : o ≡ 0 = omega (arith, h.sum, none_flies) in
      let even : a.submitted ≡ a.completed = omega (arith, h.split, none_flies) in
      let begun = with_token env a in
      let ready_to_send : IsSent n begun 0 = record {
        whole = h.whole;
        small = h.small;
        outstanding = subst (λ k. Outstanding a.kind a.redis a.pg k) nothing h.outstanding;
        idle = idle;
        split = even;
        below = left;
        current = even;
        sized = h.sized;
        timed = h.timed;
      } in
      if_sent-Rests (submit_as env a.kind begun (a.submitted % op_count))
        (submit_as-IsSent a.kind begun (a.submitted % op_count) refl ready_to_send)
