-- ===== src/Postgres/Invariant.antt =====
-- The indices of the request ring of core/platform/db/postgres.c stay in bounds.
use alpha_fincial_pipline_c.Prelude.{
  ℕ, ◌+◌, ◌%◌, ◌<◌, ◌≡◌, ◌≢◌, refl, ap, ◌∙◌, sym, Bool, Option, none, some, List, [], ◌∷◌, ◌++◌,
  map, arith, length-set, length-replicate, set,
}
use mathlib.Core.List.{map-append}
use native.Mathlib.Nat.{mod-lt}
use alpha_fincial_pipline_c.Postgres.{
  PendingRequest, Pg, connect_start, complete_head, send_request, set_error, head_request,
}
use alpha_fincial_pipline_c.Postgres.Queue.{
  IsValid, pending, ring, pending-send, pending-complete_head,
}

-- A valid ring that holds the given requests, oldest first.
pub record Holds (pg : Pg) (requests : List PendingRequest) : Type 0 where
  pub valid : IsValid pg
  pub queue : pending pg ≡ map some requests

-- A new connection, failed or not, is valid and holds nothing.
pub connect_start-Holds :
    (given allocates connects status_ok : Bool) (depth : ℕ) (message : List ℕ) (pg : Pg)
    → (connect_start given depth allocates connects status_ok message).0 ≡ some pg
    → Holds pg []
unfolding connect_start ring
connect_start-Holds given allocates connects status_ok depth message pg e =
    ground (arith, length-replicate {0} {A = Option PendingRequest} depth none)

-- What a step does to the other fields leaves the queue as it is.
pub keep-Holds :
    (pg next : Pg) (requests : List PendingRequest)
    → next.fifo ≡ pg.fifo
    → next.capacity ≡ pg.capacity
    → next.head ≡ pg.head
    → next.count ≡ pg.count
    → Holds pg requests
    → Holds next requests
keep-Holds pg next requests f c d n h = record {
  valid = record {
    size = rw (f, c) h.valid.size;
    head_in = rw (d, c) h.valid.head_in;
    count_in = rw (n, c) h.valid.count_in;
  };
  queue = rw (f, c, d, n) h.queue;
}

accepted-Holds :
    (pg : Pg) (request : PendingRequest) (flush_rest : Bool) (requests : List PendingRequest)
    → Holds pg requests
    → pg.count ≢ pg.capacity
    → Holds
        (record pg {
          fifo = set pg.fifo ((pg.head + pg.count) % pg.capacity) (some request);
          count = pg.count + 1;
          flush_pending = flush_rest;
        })
        (requests ++ (request ∷ []))
accepted-Holds pg request flush_rest requests h ne =
    let in_bounds = h.valid.count_in in
    let free : pg.count < pg.capacity = omega arith in
    record {
      valid = record {
        size = length-set pg.fifo _ (some request) ∙ h.valid.size;
        head_in = h.valid.head_in;
        count_in = omega arith;
      };
      queue =
          pending-send pg request h.valid free
          ∙ ap (λ q. q ++ (some request ∷ [])) h.queue
          ∙ sym (map-append some requests (request ∷ []));
    }

-- A request that is accepted goes to the end of the queue; any other leaves the queue as it is.
pub send_request-Holds :
    (pg : Pg) (request : PendingRequest) (sent flush_rest : Bool) (message : List ℕ)
    (requests : List PendingRequest)
    → Holds pg requests
    → let r = send_request pg request sent flush_rest message in
      (r.1 ≡ none → Holds r.0 (requests ++ (request ∷ []))) × (r.1 ≢ none → Holds r.0 requests)
unfolding send_request
send_request-Holds pg request sent flush_rest message requests h =
    let kept = keep-Holds pg pg requests refl refl refl refl h in
    let marked = keep-Holds pg (set_error pg message) requests refl refl refl refl h in
    let accepted = accepted-Holds pg request flush_rest requests h in ground arith

pub complete_head-Holds :
    (pg : Pg) (requests : List PendingRequest)
    → Holds pg requests
    → pg.count ≢ 0
    → (request : PendingRequest) × (rest : List PendingRequest) × (requests ≡ request ∷ rest)
      × (head_request pg ≡ some request)
      × Holds (complete_head pg) rest
unfolding complete_head
complete_head-Holds pg [] h ne =
    absurd (cons_nil (sym (pending-complete_head pg h.valid ne) ∙ h.queue))
  where
    cons_nil : {x : Option PendingRequest} {xs : List (Option PendingRequest)} → x ∷ xs ≡ [] → ⊥
    cons_nil e = cc
complete_head-Holds pg (request ∷ rest) h ne =
    let e = sym (pending-complete_head pg h.valid ne) ∙ h.queue in
    (
      request,
      rest,
      refl,
      cc,
      record {
        valid = record {
          size = h.valid.size;
          head_in = mod-lt (pg.head + 1) (omega (arith, h.valid.head_in));
          count_in = omega (arith, h.valid.count_in);
        };
        queue = cc;
      },
    )
