-- ===== src/Postgres/Order.antt =====
-- The callbacks of core/platform/db/postgres.c, against the requests that its ring holds.
use alpha_fincial_pipline_c.Prelude.{
  ℕ, ◌≡◌, refl, ap, ◌∙◌, false, Option, none, some, List, [], ◌∷◌, ◌++◌, arith, Bool-cases, inl,
  inr, ◌==◌, ltb, ◌||◌, if◌then◌else◌,
}
use alpha_fincial_pipline_c.Domain.{db}
use alpha_fincial_pipline_c.Postgres.{
  PendingRequest, Pg, PgResult, boundary, pipeline_sync, tuples, pipeline_aborted, other,
  Completion, Message, ResultKind, Status, complete_head, value_of, failed, unqueued, with_value,
  take_result, drain_results, head_request,
}
use alpha_fincial_pipline_c.Postgres.Invariant.{Holds, keep-Holds, complete_head-Holds}

module _ {κ} {V : Type κ} where
  abbrev pub requests_of : List (Completion V) → List PendingRequest
  requests_of [] = []
  requests_of (c ∷ cs) = c.request ∷ requests_of cs

  -- What is left of `requests` after the callbacks is what the connection holds.
  pub record Answers (requests : List PendingRequest) (r : Pg × Status × List (Completion V))
      : Type κ where
    pub rest : List PendingRequest
    pub split : requests ≡ requests_of r.2 ++ rest
    pub holds : Holds r.0 rest

module _ {ℓ κ} {Rows : Type ℓ} {V : Type κ} (parse : ResultKind → Rows → Option V) where
  with_value-Holds :
      (pg : Pg) (error : Message) (value : Option V) (rest : List PendingRequest)
      → Holds (complete_head pg) rest
      → Holds (complete_head (with_value parse pg error value)) rest
  unfolding complete_head
  with_value-Holds pg error none rest h = keep-Holds (complete_head pg) _ rest refl refl refl refl h
  with_value-Holds pg error (some value) rest h = h

  take_result-Answers :
      (pg : Pg) (message : List ℕ) (result : PgResult Rows) (requests : List PendingRequest)
      (last : Pg × Status × List (Completion V))
      → Holds pg requests
      → ((rest : List PendingRequest)
          → Holds (take_result parse pg message result).0 rest
          → Answers rest last)
      → Answers requests (
          if pg.count == 0
          then (record pg { error = unqueued; state = failed }, some db, [])
          else (last.0, last.1, (take_result parse pg message result).1 ++ last.2))
  unfolding take_result
  take_result-Answers pg message result requests last h next = elim (Bool-cases (pg.count == 0)) [
    | inl e ↦ rw e (record {
      rest = requests;
      split = refl;
      holds = keep-Holds pg _ requests refl refl refl refl h;
    })
    | inr e ↦
        let (request, rest, split, head, tail) = complete_head-Holds pg requests h (ground arith) in
        let later =
          next rest (with_value-Holds pg _ (value_of parse (head_request pg) result) rest tail) in
        rw (e, head)
          (record {
            rest = later.rest;
            split = split ∙ ap (λ xs. request ∷ xs) later.split;
            holds = later.holds;
          })
  ]

  pub drain_results-Answers :
      (results : List (PgResult Rows)) (pg : Pg) (message : List ℕ) (requests : List PendingRequest)
      → Holds pg requests
      → Answers requests (drain_results parse pg message results)
  unfolding drain_results take_result
  drain_results-Answers [] pg message requests h = record {
    rest = requests;
    split = refl;
    holds = h;
  }
  drain_results-Answers (boundary ∷ results) pg message requests h =
      elim (Bool-cases (ltb 0 pg.count || pg.sync_sent)) [
        | inl e ↦ rw e (drain_results-Answers results pg message requests h)
        | inr e ↦ rw e (record { rest = requests; split = refl; holds = h })
      ]
  drain_results-Answers (pipeline_sync ∷ results) pg message requests h =
      drain_results-Answers results (record pg { sync_sent = false }) message requests
        (keep-Holds pg _ requests refl refl refl refl h)
  drain_results-Answers (tuples rows ∷ results) pg message requests h =
      take_result-Answers pg message (tuples rows) requests _ h
        (drain_results-Answers results (take_result parse pg message (tuples rows)).0 message)
  drain_results-Answers (pipeline_aborted ∷ results) pg message requests h =
      take_result-Answers pg message pipeline_aborted requests _ h
        (drain_results-Answers results (take_result parse pg message pipeline_aborted).0 message)
  drain_results-Answers (other text ∷ results) pg message requests h =
      take_result-Answers pg message (other text) requests _ h
        (drain_results-Answers results (take_result parse pg message (other text)).0 message)
