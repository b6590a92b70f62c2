-- ===== src/HttpClient/Actions.antt =====
-- What the events of libcurl do to the client of core/platform/http/http_client.c.
use alpha_fincial_pipline_c.Prelude.{
  ℕ, ◌+◌, ◌≡◌, ◌≢◌, refl, Bool, true, false, not, ◌||◌, Option, none, some, List, [], ◌∷◌, ◌++◌,
  ltb, ◌==◌, All, length, arith, Bool-cases, inl, inr, Option-cases,
}
use alpha_fincial_pipline_c.Prelude.Int.{ℤ, pos, ltb_ℤ}
use alpha_fincial_pipline_c.Domain.{invalid_arg, http}
use alpha_fincial_pipline_c.HttpClient.{
  Status, Request, Client, bytes_of, unlink_and_free, request_at, Notice, completes, CurlCall,
  receives, socket_changed, timer_changed, curl_call, curl_calls, Message, completion,
  drain_completions, request_of, cancel, Action, act, socket_action, timeout_action,
}
use alpha_fincial_pipline_c.HttpClient.Requests.{
  count_user, completed, completed-append, IsDistinct, IsBounded, receive_body-IsBounded,
  IsDistinct-receive_at, All-receive_at, length-receive_at, count_user-receive_at, IsClient,
  unlink_and_free-IsClient,
}

-- The client is well formed, and of the requests before, those that are gone were completed: for each
-- user data as many as there are completions.
pub record Kept (before after : Client) (ns : List Notice) : Type 0 where
  pub formed : IsClient after
  pub conserved :
      (u : ℕ) → count_user u after.requests + completed u ns ≡ count_user u before.requests

pub Kept-trans :
    (a b c : Client) (ns ms : List Notice) → Kept a b ns → Kept b c ms → Kept a c (ns ++ ms)
Kept-trans a b c ns ms h k = record {
  formed = k.formed;
  conserved = λ u. omega (arith, h.conserved u, k.conserved u, completed-append u ns ms);
}

-- A chunk holds as many bytes as its factors say.
abbrev pub IsWhole : CurlCall → Type 0
IsWhole (receives address chunk) = length chunk.data_bytes ≡ bytes_of chunk
IsWhole (socket_changed fd action) = Unit
IsWhole (timer_changed timeout_ms) = Unit

curl_call-Kept :
    (c : Client) (call : CurlCall)
    → IsWhole call
    → IsClient c
    → Kept c (curl_call c call).0 (curl_call c call).1
unfolding curl_call
curl_call-Kept c (receives address chunk) w h =
    let counted = h.counted in
    record {
      formed = record {
        counted = omega (arith, length-receive_at address chunk c.requests);
        few = h.few;
        distinct = IsDistinct-receive_at address chunk c.requests h.distinct;
        bounded =
            All-receive_at address chunk IsBounded (λ r b. receive_body-IsBounded r chunk w b)
              c.requests h.bounded;
      };
      conserved = λ u. omega (arith, count_user-receive_at address chunk u c.requests);
    }
curl_call-Kept c (socket_changed fd action) w h = record {
  formed = h;
  conserved = λ u. omega arith;
}
curl_call-Kept c (timer_changed timeout_ms) w h = record {
  formed = h;
  conserved = λ u. omega arith;
}

curl_calls-Kept :
    (c : Client) (calls : List CurlCall)
    → All IsWhole calls
    → IsClient c
    → Kept c (curl_calls c calls).0 (curl_calls c calls).1
unfolding curl_calls
curl_calls-Kept c [] w h = record { formed = h; conserved = λ u. omega arith }
curl_calls-Kept c (call ∷ calls) (w, ws) h =
    let first = curl_call-Kept c call w h in
    let next = (curl_call c call).0 in
    Kept-trans c next (curl_calls next calls).0 (curl_call c call).1 (curl_calls next calls).1 first
      (curl_calls-Kept next calls ws first.formed)

-- A request that libcurl says is done was added, and is not named again.
abbrev pub NamesLive : Client → List Message → Type 0
NamesLive c [] = Unit
NamesLive c (m ∷ ms) = elim m.is_done [
  | true ↦
      (r : Request) × (request_at m.address c.requests ≡ some r)
      × NamesLive (unlink_and_free c m.address) ms
  | false ↦ NamesLive c ms
]

drain_completions-Kept :
    (c : Client) (ms : List Message)
    → NamesLive c ms
    → IsClient c
    → (out : Client × List Notice) × (drain_completions c ms ≡ some out) × Kept c out.0 out.1
unfolding drain_completions
drain_completions-Kept c [] n h =
    ((c, []), refl, record { formed = h; conserved = λ u. omega arith })
drain_completions-Kept c (m ∷ ms) n h = elim (Bool-cases m.is_done) [
  | inr e ↦ let (out, runs, k) = drain_completions-Kept c ms (rw e at n) h in (out, rw e runs, k)
  | inl e ↦
      let (r, at, live) = rw e at n in
      let (formed, counts, pending) = unlink_and_free-IsClient c r m.address h at in
      let ((last, notices), runs, k) =
        drain_completions-Kept (unlink_and_free c m.address) ms live formed in
      (
        (last, completes (completion r m.status_code m.transport_code) ∷ notices),
        rw (e, at, runs) refl,
        record { formed = k.formed; conserved = λ u. omega (arith, k.conserved u, counts u) },
      )
]

-- What libcurl does in an action, to the client before it.
pub record IsLegal (c : Client) (action : Action) : Type 0 where
  pub whole : All IsWhole action.calls
  pub live : NamesLive (curl_calls c action.calls).0 action.messages

abbrev pub Serves : Client → Option (Client × Status × List Notice) → Type 0
Serves c served = (out : Client × Status × List Notice) × (served ≡ some out) × Kept c out.0 out.2

pub stays : (c : Client) → IsClient c → Kept c c []
stays c h = record { formed = h; conserved = λ u. omega arith }

pub act-Serves :
    (c : Client) (action : Action) → IsLegal c action → IsClient c → Serves c (act c action)
unfolding act
act-Serves c action legal h =
    let called = curl_calls-Kept c action.calls legal.whole h in
    let (next, notices) = curl_calls c action.calls in
    elim (Bool-cases action.succeeds) [
      | inr e ↦ (
        ((curl_calls c action.calls).0, some http, (curl_calls c action.calls).1),
        rw e refl,
        called,
      )
      | inl e ↦
          let ((last, later), runs, k) =
            drain_completions-Kept (curl_calls c action.calls).0 action.messages legal.live
              called.formed in
          (
            (last, none, (curl_calls c action.calls).1 ++ later),
            rw (e, runs) refl,
            Kept-trans c (curl_calls c action.calls).0 last (curl_calls c action.calls).1 later
                called k,
          )
    ]

-- If the messages that it drains name requests that are there, each once, and the chunks are as long
-- as libcurl says, `alpha_http_multi_socket_action` takes a well-formed client to a well-formed one,
-- and for each user data the requests that are gone are as many as the completions reported.
pub socket_action-Serves :
    (c : Client) (fd : ℤ) (ready : ℕ) (given : Bool) (libcurl : ℤ → ℕ → Action)
    → IsLegal c (libcurl fd ready)
    → IsClient c
    → Serves c (socket_action c fd ready given libcurl)
unfolding socket_action
socket_action-Serves c fd ready given libcurl legal h =
    elim (Bool-cases (ltb_ℤ fd (pos 0) || not given || ltb 3 ready)) [
      | inl e ↦ ((c, some invalid_arg, []), rw e refl, stays c h)
      | inr e ↦ rw e (act-Serves c (libcurl fd ready) legal h)
    ]

pub timeout_action-Serves :
    (c : Client) (given : Bool) (action : Action)
    → IsLegal c action
    → IsClient c
    → Serves c (timeout_action c given action)
unfolding timeout_action
timeout_action-Serves c given action legal h = elim (Bool-cases given) [
  | inr e ↦ ((c, some invalid_arg, []), rw e refl, stays c h)
  | inl e ↦ rw e (act-Serves c action legal h)
]

some_inj : (q r : Request) → some q ≡ some r → q ≡ r
some_inj q r e = cc

request_of-All :
    (P : Request → Type 0) (u : ℕ) (rs : List Request) (r : Request)
    → All P rs
    → request_of u rs ≡ some r
    → P r
unfolding request_of
request_of-All P u [] r h e = absurd (ground arith)
request_of-All P u (q ∷ rs) r (p, h) e = elim (Bool-cases (q.user_data == u)) [
  | inl b ↦ rw (some_inj q r (rw b at e)) at p
  | inr b ↦ request_of-All P u rs r h (rw b at e)
]

request_of-request_at :
    (u : ℕ) (rs : List Request) (r : Request)
    → IsDistinct rs
    → request_of u rs ≡ some r
    → (r.user_data ≡ u) × (request_at r.address rs ≡ some r)
unfolding request_of request_at
request_of-request_at u [] r d e = absurd (ground arith)
request_of-request_at u (q ∷ rs) r (p, d) e = elim (Bool-cases (q.user_data == u)) [
  | inl b ↦
      let same : q ≡ r = some_inj q r (rw b at e) in
      (rw (← same) (equal q.user_data u b), rw (same, itself r.address) refl)
  | inr b ↦
      let later : request_of u rs ≡ some r = rw b at e in
      let (a, at) = request_of-request_at u rs r d later in
      let apart = request_of-All (λ x. x.address ≢ q.address) u rs r p later in
      (a, rw (differ q.address r.address apart) at)
]
  where
    equal : (a b : ℕ) → a == b ≡ true → a ≡ b
    equal a b h = ground arith

    itself : (a : ℕ) → a == a ≡ true
    itself a = ground arith

    differ : (a b : ℕ) → b ≢ a → a == b ≡ false
    differ a b h = ground arith

pub cancel-Kept : (c : Client) (u : ℕ) → IsClient c → Kept c (cancel c u).0 (cancel c u).2
unfolding cancel
cancel-Kept c u h = elim (Bool-cases (u == 0)) [
  | inl e ↦ rw e (stays c h)
  | inr e ↦ elim (Option-cases (request_of u c.requests)) [
    | inl n ↦ rw (e, n) (stays c h)
    | inr (r, q) ↦
        let (same, at) = request_of-request_at u c.requests r h.distinct q in
        let (formed, counts, pending) = unlink_and_free-IsClient c r r.address h at in
        rw (e, q) (record { formed = formed; conserved = λ v. omega (arith, counts v) })
  ]
]
