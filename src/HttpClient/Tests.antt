-- ===== src/HttpClient/Tests.antt =====
-- Tests of core/platform/http/http_client.c.
use alpha_fincial_pipline_c.Prelude.{
  ℕ, ◌≡◌, refl, true, false, none, some, List, [], ◌∷◌, ◌++◌, arith,
}
use alpha_fincial_pipline_c.Prelude.Int.{pos}
use alpha_fincial_pipline_c.HttpClient.{
  Client, Request, Post, Setup, Action, receives, socket_changed, Notice, watches, completes,
  completion, post_json, timeout_action, cancel, destroy_requests, aborted, receive_body, link,
  fresh_request, request_at, unlink_and_free, curl_calls, Status, is_valid_post, act, request_of,
  curl_call, receive_at, unlink, drain_completions,
}
use alpha_fincial_pipline_c.HttpClient.Actions.{IsLegal}
use alpha_fincial_pipline_c.HttpClient.Posting.{Posted, IsFresh, post_json-Posted}
use alpha_fincial_pipline_c.HttpClient.Requests.{IsClient}
use alpha_fincial_pipline_c.HttpClient.Run.{
  Run, starts, posts, cancels, timeouts, Holds, Run-Holds, no_requests, accepts,
  destroy_requests_lem,
}

abbrev post_to : ℕ → Post
post_to user = record {
  kind = pos 1;
  url = some (b'h' ∷ []);
  json_body = some (b'{' ∷ b'}' ∷ []);
  authorization_header = none;
  timeout_ms = pos 500;
  user_data = user;
}

abbrev setup_at : ℕ → Setup
setup_at address = record {
  request = some address;
  easy = true;
  body = true;
  headers = true;
  with_auth = false;
  options = true;
  added = true;
}

abbrev first : Client
first = link no_requests (fresh_request (post_to 7) 100)

abbrev second : Client
second = link first (fresh_request (post_to 8) 200)

posts_first : post_json no_requests (post_to 7) (setup_at 100) ≡ (first, none)
unfolding post_json is_valid_post
posts_first = refl

-- The first request receives two bytes and is done.
abbrev action : Action
action = record {
  calls =
      socket_changed (pos 5) (pos 3)
      ∷ receives 100 (record { data_bytes = b'o' ∷ b'k' ∷ []; size = 1; count = 2; grows = true })
      ∷ [];
  succeeds = true;
  messages =
      record { is_done = true; address = 100; status_code = pos 200; transport_code = pos 0 } ∷ [];
}

serves :
    timeout_action second true action
    ≡ some (
      link no_requests (fresh_request (post_to 8) 200),
      none,
      watches (pos 5) (pos 3)
          ∷ completes (record {
            kind = pos 1;
            status_code = pos 200;
            transport_code = pos 0;
            response_body = b'o' ∷ b'k' ∷ [];
            response_size = 2;
            user_data = 7;
          })
          ∷ [],
    )
unfolding timeout_action act curl_calls curl_call receive_at receive_body drain_completions
    request_at unlink_and_free unlink
serves = refl

cancels_second :
    cancel second 8
    ≡ (first, none, completes (completion (fresh_request (post_to 8) 200) (pos 0) aborted) ∷ [])
unfolding cancel request_of unlink_and_free unlink
cancels_second = refl

abbrev served : Request
served = record {
  address = 100;
  kind = pos 1;
  response = b'o' ∷ b'k' ∷ [];
  response_size = 2;
  user_data = 7;
}

action-IsLegal : IsLegal second action
unfolding curl_calls curl_call receive_at receive_body request_at unlink_and_free unlink
action-IsLegal = record { whole = (tt, (refl, tt)); live = (served, refl, tt) }

abbrev after_first : Client
after_first = (post_json no_requests (post_to 7) (setup_at 100)).0

abbrev after_second : Client
after_second = (post_json after_first (post_to 8) (setup_at 200)).0

first_is : after_first ≡ first
unfolding post_json is_valid_post
first_is = refl

second_is : after_second ≡ second
unfolding post_json is_valid_post
second_is = refl

second-IsFresh : IsFresh after_first (setup_at 200)
unfolding post_json is_valid_post
second-IsFresh = (omega arith, tt)

post_json-Posted_example :
    Posted after_first (post_to 8) (post_json after_first (post_to 8) (setup_at 200))
post_json-Posted_example = post_json-Posted after_first (post_to 8) (setup_at 200) second-IsFresh

abbrev users : List ℕ
users =
    accepts (post_json after_first (post_to 8) (setup_at 200)).1 (post_to 8)
      (accepts (post_json no_requests (post_to 7) (setup_at 100)).1 (post_to 7) [])

run : Run after_second users []
run =
    posts after_first (accepts (post_json no_requests (post_to 7) (setup_at 100)).1 (post_to 7) [])
      [] (post_to 8) (setup_at 200) (posts no_requests [] [] (post_to 7) (setup_at 100) starts tt)
      second-IsFresh

-- Two posts, a completion, and the cancellation of what is left.
abbrev last : Client × Status × List Notice
last = (
  link no_requests (fresh_request (post_to 8) 200),
  none,
  watches (pos 5) (pos 3) ∷ completes (completion served (pos 200) (pos 0)) ∷ [],
)

Run-Holds_example : Holds (cancel last.0 8).0 users (([] ++ last.2) ++ (cancel last.0 8).2)
Run-Holds_example = Run-Holds (cancel last.0 8).0 users (([] ++ last.2) ++ (cancel last.0 8).2) (
    cancels last.0 users ([] ++ last.2) 8 (
      timeouts after_second users [] true action last run (rw second_is action-IsLegal)
        (rw second_is serves)))

first-IsClient : IsClient first
first-IsClient = record {
  counted = refl;
  few = omega arith;
  distinct = (tt, tt);
  bounded = ((refl, omega arith), tt);
}

destroy_requests_lem_example : destroy_requests 2 first ≡ some no_requests
destroy_requests_lem_example = destroy_requests_lem 2 first first-IsClient (omega arith)

second-IsClient : IsClient second
second-IsClient = record {
  counted = refl;
  few = omega arith;
  distinct = (((omega arith), tt), (tt, tt));
  bounded = ((refl, omega arith), ((refl, omega arith), tt));
}
