-- ===== src/HttpClient/Run.antt =====
-- Runs of the client of core/platform/http/http_client.c.
use alpha_fincial_pipline_c.Prelude.{
  ℕ, zero, suc, ◌+◌, ◌<◌, ◌≡◌, ◌∙◌, sym, refl, ap, ap₂, Bool, true, Option, none, some, List, [],
  ◌∷◌, ◌++◌, ◌==◌, length, arith, inl, inr, ◌⊎◌,
}
use alpha_fincial_pipline_c.Prelude.Int.{ℤ}
use alpha_fincial_pipline_c.Date.{bool_ℕ}
use alpha_fincial_pipline_c.HttpClient.Actions.{
  Kept, IsLegal, Serves, socket_action-Serves, timeout_action-Serves, cancel-Kept,
}
use alpha_fincial_pipline_c.HttpClient.Posting.{IsFresh, Posted, refused, added, post_json-Posted}
use alpha_fincial_pipline_c.HttpClient.{
  Status, Request, Client, unlink_and_free, request_at, Notice, Post, Setup, post_json, cancel,
  Action, socket_action, timeout_action, destroy_requests,
}
use alpha_fincial_pipline_c.HttpClient.Requests.{
  count_user, completed, completed-append, IsClient, unlink_and_free-IsClient,
}

abbrev pub no_requests : Client
no_requests = record { requests = []; pending = 0 }

-- The posts that succeed, by their user data.
abbrev pub accepted : ℕ → List ℕ → ℕ
accepted u [] = 0
accepted u (v ∷ vs) = bool_ℕ (v == u) + accepted u vs

abbrev pub accepts : Status → Post → List ℕ → List ℕ
accepts none post users = post.user_data ∷ users
accepts (some e) post users = users

-- What a client gets to from none, with the user data of the posts that succeeded, the latest
-- first, and what the owner was told.
pub data Run : Client → List ℕ → List Notice → Type 0 where
  starts : Run no_requests [] []
  posts :
      (c : Client) (users : List ℕ) (ns : List Notice) (post : Post) (setup : Setup)
      → Run c users ns
      → IsFresh c setup
      → Run (post_json c post setup).0 (accepts (post_json c post setup).1 post users) ns
  cancels :
      (c : Client) (users : List ℕ) (ns : List Notice) (user : ℕ)
      → Run c users ns
      → Run (cancel c user).0 users (ns ++ (cancel c user).2)
  sockets :
      (c : Client) (users : List ℕ) (ns : List Notice) (fd : ℤ) (ready : ℕ) (given : Bool)
      (libcurl : ℤ → ℕ → Action) (out : Client × Status × List Notice)
      → Run c users ns
      → IsLegal c (libcurl fd ready)
      → socket_action c fd ready given libcurl ≡ some out
      → Run out.0 users (ns ++ out.2)
  timeouts :
      (c : Client) (users : List ℕ) (ns : List Notice) (given : Bool) (action : Action)
      (out : Client × Status × List Notice)
      → Run c users ns
      → IsLegal c action
      → timeout_action c given action ≡ some out
      → Run out.0 users (ns ++ out.2)

pub record Holds (c : Client) (users : List ℕ) (ns : List Notice) : Type 0 where
  pub formed : IsClient c
  pub once : (u : ℕ) → accepted u users ≡ count_user u c.requests + completed u ns

Holds-Kept :
    (c after : Client) (users : List ℕ) (ns ms : List Notice)
    → Holds c users ns
    → Kept c after ms
    → Holds after users (ns ++ ms)
Holds-Kept c after users ns ms h k = record {
  formed = k.formed;
  once = λ u. omega (arith, h.once u, k.conserved u, completed-append u ns ms);
}

served-Holds :
    (c : Client) (users : List ℕ) (ns : List Notice)
    (served : Option (Client × Status × List Notice)) (out : Client × Status × List Notice)
    → Holds c users ns
    → Serves c served
    → served ≡ some out
    → Holds out.0 users (ns ++ out.2)
served-Holds c users ns served out h (found, runs, k) e =
    let same : found ≡ out = inj (sym runs ∙ e) in
    Holds-Kept c out.0 users ns out.2 h (rw same at k)
  where
    inj : {a b : Client × Status × List Notice} → some a ≡ some b → a ≡ b
    inj p = cc

posted-Holds :
    (c : Client) (users : List ℕ) (ns : List Notice) (post : Post) (out : Client × Status)
    → Holds c users ns
    → Posted c post out
    → Holds out.0 (accepts out.1 post users) ns
posted-Holds c users ns post out h (refused e) = h
posted-Holds c users ns post out h (added address absent valid room) =
    let formed = h.formed in
    let counted = formed.counted in
    record {
      formed = record {
        counted = omega arith;
        few = omega arith;
        distinct = (absent, formed.distinct);
        bounded = ((refl, omega arith), formed.bounded);
      };
      once = λ u. omega (arith, h.once u);
    }

-- At every point of every run of posts, cancellations, socket events and timeouts from a new
-- client, `pending` is the number of requests, at most 64; their addresses are distinct, and each
-- response is as long as its size says, at most 1 MiB. For each user data, the posts that succeeded
-- are as many as the requests pending and the completions reported together: each is completed
-- once. That is provided that a new request's address is not in use, that chunks are as long as
-- libcurl says, and that it reports a request done once, while it is pending.
pub Run-Holds : (c : Client) (users : List ℕ) (ns : List Notice) → Run c users ns → Holds c users ns
Run-Holds c users ns starts = record {
  formed = record { counted = refl; few = omega arith; distinct = tt; bounded = tt };
  once = λ u. refl;
}
Run-Holds c users ns (posts d vs ms post setup run fresh) =
    posted-Holds d vs ms post (post_json d post setup) (Run-Holds d vs ms run)
      (post_json-Posted d post setup fresh)
Run-Holds c users ns (cancels d vs ms user run) =
    let h = Run-Holds d vs ms run in
    Holds-Kept d (cancel d user).0 vs ms (cancel d user).2 h (cancel-Kept d user h.formed)
Run-Holds c users ns (sockets d vs ms fd ready given libcurl out run legal e) =
    let h = Run-Holds d vs ms run in
    served-Holds d vs ms (socket_action d fd ready given libcurl) out h
      (socket_action-Serves d fd ready given libcurl legal h.formed) e
Run-Holds c users ns (timeouts d vs ms given action out run legal e) =
    let h = Run-Holds d vs ms run in
    served-Holds d vs ms (timeout_action d given action) out h
      (timeout_action-Serves d given action legal h.formed) e

itself : (a : ℕ) → a == a ≡ true
itself a = ground arith

request_at-first :
    (c : Client) (r : Request) (rs : List Request)
    → c.requests ≡ r ∷ rs
    → request_at r.address c.requests ≡ some r
unfolding request_at
request_at-first c r rs e = rw (e, itself r.address) refl

requests-cases :
    (rs : List Request) → (rs ≡ []) ⊎ ((r : Request) × (rest : List Request) × (rs ≡ r ∷ rest))
requests-cases [] = inl refl
requests-cases (r ∷ rest) = inr (r, rest, refl)

no_requests_left : (c : Client) → IsClient c → c.requests ≡ [] → c ≡ no_requests
no_requests_left c h e =
    ap₂ (λ rs n. record { requests = rs; pending = n }) e (h.counted ∙ ap length e)

destroy_requests-next :
    (fuel : ℕ) (c : Client) (r : Request) (rs : List Request)
    → c.requests ≡ r ∷ rs
    → destroy_requests (suc fuel) c ≡ destroy_requests fuel (unlink_and_free c r.address)
unfolding destroy_requests
destroy_requests-next fuel c r rs e =
    ap (λ l. elim l [ [] ↦ some c | q ∷ qs ↦ destroy_requests fuel (unlink_and_free c q.address) ])
      e

-- The loop of `alpha_http_multi_destroy` ends, after a round for each request of a well-formed client
-- and one more test, and leaves no request and none pending.
pub destroy_requests_lem :
    (fuel : ℕ) (c : Client)
    → IsClient c
    → length c.requests < fuel
    → destroy_requests fuel c ≡ some no_requests
unfolding destroy_requests
destroy_requests_lem zero c h l = absurd (omega arith)
destroy_requests_lem (suc fuel) c h l = elim (requests-cases c.requests) [
  | inl e ↦ rw (no_requests_left c h e) refl
  | inr (r, rs, e) ↦
      let (formed, counts, pending) =
        unlink_and_free-IsClient c r r.address h (request_at-first c r rs e) in
      let before = h.counted in
      let after = formed.counted in
      destroy_requests-next fuel c r rs e
      ∙ destroy_requests_lem fuel (unlink_and_free c r.address) formed (omega arith)
]
