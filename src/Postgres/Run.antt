-- ===== src/Postgres/Run.antt =====
-- Runs of core/platform/db/postgres.c: requests and service calls in any order.
use alpha_fincial_pipline_c.Prelude.{
  ℕ, ◌≡◌, ◌≢◌, refl, ap, ◌∙◌, sym, Bool, true, false, Option, none, some, List, [], ◌∷◌, ◌++◌,
  append_assoc, append_nil, arith, Bool-cases, inl, inr,
}
use alpha_fincial_pipline_c.Domain.{db, invalid_arg}
use alpha_fincial_pipline_c.Postgres.{
  PendingRequest, Pg, Completion, Libpq, ResultKind, Status, service, service_connect, service_sync,
  service_flush, service_read, send_request, and_then, set_error, is_failed, is_connecting,
}
use alpha_fincial_pipline_c.Postgres.Invariant.{Holds, keep-Holds, send_request-Holds}
use alpha_fincial_pipline_c.Postgres.Order.{Answers, requests_of, drain_results-Answers}

-- The ring of `next` is that of `pg`.
record Kept (pg next : Pg) : Type 0 where
  same_fifo : next.fifo ≡ pg.fifo
  same_capacity : next.capacity ≡ pg.capacity
  same_head : next.head ≡ pg.head
  same_count : next.count ≡ pg.count

kept :
    (pg next : Pg) (requests : List PendingRequest)
    → Kept pg next
    → Holds pg requests
    → Holds next requests
kept pg next requests k h =
    keep-Holds pg next requests k.same_fifo k.same_capacity k.same_head k.same_count h

module _ {ℓ κ} {Rows : Type ℓ} {V : Type κ} (parse : ResultKind → Rows → Option V) where
  service_connect-Kept :
      (pg : Pg) (readable writable : Bool) (lib : Libpq Rows)
      → Kept pg (service_connect parse pg readable writable lib).0
  unfolding service_connect
  service_connect-Kept pg readable writable lib = ground arith

  service_sync-Kept :
      (pg : Pg) (writable : Bool) (lib : Libpq Rows)
      → Kept pg (service_sync parse pg writable lib).0
  unfolding service_sync
  service_sync-Kept pg writable lib = ground arith

  service_flush-Kept :
      (pg : Pg) (writable : Bool) (lib : Libpq Rows)
      → Kept pg (service_flush parse pg writable lib).0
  unfolding service_flush
  service_flush-Kept pg writable lib = ground arith

  nothing-Answers :
      (pg : Pg) (status : Status) (requests : List PendingRequest)
      → Holds pg requests
      → Answers {V = V} requests (pg, status, [])
  nothing-Answers pg status requests h = record { rest = requests; split = refl; holds = h }

  service_read-Answers :
      (pg : Pg) (readable : Bool) (lib : Libpq Rows) (requests : List PendingRequest)
      → Holds pg requests
      → Answers requests (service_read parse pg readable lib)
  unfolding service_read
  service_read-Answers pg false lib requests h = nothing-Answers pg none requests h
  service_read-Answers pg true lib requests h = elim (Bool-cases lib.consumes) [
    | inl e ↦ rw e (drain_results-Answers parse lib.results pg lib.message requests h)
    | inr e ↦ rw e (
        nothing-Answers (set_error pg lib.message) (some db) requests
          (keep-Holds pg _ requests refl refl refl refl h))
  ]

  and_then-Answers :
      (pg : Pg) (r : Pg × Status) (next : Pg → Pg × Status × List (Completion V))
      (requests : List PendingRequest)
      → Kept pg r.0
      → Holds pg requests
      → ((pg1 : Pg) → Holds pg1 requests → Answers requests (next pg1))
      → Answers requests (and_then parse r next)
  and_then-Answers pg (pg1, none) next requests k h f = f pg1 (kept pg pg1 requests k h)
  and_then-Answers pg (pg1, some e) next requests k h f =
      nothing-Answers pg1 (some e) requests (kept pg pg1 requests k h)

  -- A call of the service answers the oldest requests, in order, and leaves the others queued.
  pub service-Answers :
      (pg : Pg) (readable writable : Bool) (lib : Libpq Rows) (requests : List PendingRequest)
      → Holds pg requests
      → Answers requests (service parse pg readable writable lib)
  unfolding service
  service-Answers pg readable writable lib requests h = elim (Bool-cases (is_failed pg.state)) [
    | inl e ↦ rw e (nothing-Answers pg (some invalid_arg) requests h)
    | inr e ↦ elim (Bool-cases (is_connecting pg.state)) [
      | inl c ↦
          let r = service_connect parse pg readable writable lib in
          rw (e, c)
            (nothing-Answers r.0 r.1 requests
              (kept pg r.0 requests (service_connect-Kept pg readable writable lib) h))
      | inr c ↦
          let flush = λ (synced : Pg). service_flush parse synced writable lib in
          let read = λ (flushed : Pg). service_read parse flushed readable lib in
          rw (e, c)
            (and_then-Answers pg (service_sync parse pg writable lib)
              (λ synced. and_then parse (flush synced) read) requests
              (service_sync-Kept pg writable lib) h
              (λ synced hs.
                and_then-Answers synced (flush synced) read requests
                  (service_flush-Kept synced writable lib) hs
                  (λ flushed hf. service_read-Answers flushed readable lib requests hf)))
    ]
  ]

  -- What a client does: it sends a request, or calls the service. Behind each stand the outcomes of
  -- libpq's calls.
  pub data Event : Type ℓ where
    sends : PendingRequest → Bool → Bool → List ℕ → Event
    serves : Bool → Bool → Libpq Rows → Event

  -- A request that was sent is accepted if the status is ALPHA_OK.
  abbrev pub accepted_by : Event → Status → List PendingRequest
  accepted_by (sends request _ _ _) none = request ∷ []
  accepted_by _ _ = []

  abbrev pub step : Pg → Event → Pg × Status × List (Completion V)
  step pg (sends request sent flush_rest message) =
      let r = send_request pg request sent flush_rest message in (r.0, r.1, [])
  step pg (serves readable writable lib) = service parse pg readable writable lib

  -- The last state, the accepted requests and the callbacks, each in order.
  unfoldable pub run : Pg → List Event → Pg × List PendingRequest × List (Completion V)
  run pg [] = (pg, [], [])
  run pg (event ∷ events) =
      let (next, status, done) = step pg event in
      let (last, accepted, later) = run next events in
      (last, accepted_by event status ++ accepted, done ++ later)

  sent-Answers :
      (next : Pg) (status : Status) (event : Event) (request : PendingRequest)
      (requests : List PendingRequest)
      → accepted_by event none ≡ request ∷ []
      → (status ≡ none → Holds next (requests ++ (request ∷ [])))
        × (status ≢ none → Holds next requests)
      → Answers {V = V} (requests ++ accepted_by event status) (next, status, [])
  sent-Answers next none event request requests e h = rw e (nothing-Answers next none _ (h.0 refl))
  sent-Answers next (some error) (sends _ _ _ _) request requests e h =
      rw (append_nil requests) (nothing-Answers next (some error) requests (h.1 some_none))
    where
      some_none : some error ≢ none
      some_none p = cc
  sent-Answers next (some error) (serves _ _ _) request requests e h =
      rw (append_nil requests) (nothing-Answers next (some error) requests (h.1 some_none))
    where
      some_none : some error ≢ none
      some_none p = cc

  step-Answers :
      (event : Event) (pg : Pg) (requests : List PendingRequest)
      → Holds pg requests
      → let r = step pg event in Answers (requests ++ accepted_by event r.1) r
  step-Answers (sends request sent flush_rest message) pg requests h =
      sent-Answers (send_request pg request sent flush_rest message).0 _
        (sends request sent flush_rest message) request requests refl
        (send_request-Holds pg request sent flush_rest message requests h)
  step-Answers (serves readable writable lib) pg requests h =
      rw (append_nil requests) (service-Answers pg readable writable lib requests h)

  requests_of-append :
      (done later : List (Completion V))
      → requests_of (done ++ later) ≡ requests_of done ++ requests_of later
  requests_of-append [] later = refl
  requests_of-append (c ∷ done) later = ap (λ l. c.request ∷ l) (requests_of-append done later)

  join :
      (requests now rest middle later : List PendingRequest) (done more : List (Completion V))
      → requests ++ now ≡ requests_of done ++ middle
      → middle ++ later ≡ requests_of more ++ rest
      → requests ++ (now ++ later) ≡ requests_of (done ++ more) ++ rest
  join requests now rest middle later done more e f =
      sym (append_assoc requests now later)
      ∙ ap (λ l. l ++ later) e
      ∙ append_assoc (requests_of done) middle later
      ∙ ap (λ l. requests_of done ++ l) f
      ∙ sym (append_assoc (requests_of done) (requests_of more) rest)
      ∙ ap (λ l. l ++ rest) (sym (requests_of-append done more))

  -- Over any run of requests and service calls from a valid ring that holds `requests`, requests are
  -- completed in the order in which they were accepted, each once: those completed, followed by
  -- those that the last ring holds, are the ones held at first followed by the ones accepted. The
  -- last ring is valid.
  pub run-Holds :
      (events : List Event) (pg : Pg) (requests : List PendingRequest)
      → Holds pg requests
      → let r = run pg events in
        (rest : List PendingRequest) × (requests ++ r.1 ≡ requests_of r.2 ++ rest) × Holds r.0 rest
  unfolding run
  run-Holds [] pg requests h = (requests, append_nil requests, h)
  run-Holds (event ∷ events) pg requests h =
      let now = step-Answers event pg requests h in
      let next = (step pg event).0 in
      let (rest, split, holds) = run-Holds events next now.rest now.holds in
      (
        rest,
        join requests _ rest now.rest (run next events).1 (step pg event).2 (run next events).2
            now.split split,
        holds,
      )
