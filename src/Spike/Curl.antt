-- ===== src/Spike/Curl.antt =====
-- The watches of libcurl in spike/event_loop/main.c: the table does not overflow, and a round trip is one
-- with status 200.
use alpha_fincial_pipline_c.Prelude.{
  ℕ, ◌+◌, ◌≤◌, ◌≡◌, ◌⊎◌, Bool, true, false, ◌&&◌, Option, none, some, List, [], ◌∷◌, ◌++◌, length,
  length-set, length-append, leb, arith,
}
use alpha_fincial_pipline_c.Spike.{
  Spike, Interest, CurlWatch, max_curl_watches, CurlCall, remove, wants, with_action, no_interest,
  on_curl_socket, curl_calls, CurlMessage, is_200, curl_message, curl_messages, CurlAnswer,
  curl_action,
}
use alpha_fincial_pipline_c.Spike.Sound.{IsSound, either, fail-IsSound, fail_unless-IsSound}

-- A table that has room leaves the rest as it is.
with_watches :
    (app : Spike) (watches : List CurlWatch)
    → IsSound app
    → length watches ≤ max_curl_watches
    → IsSound (record app { curl_watches = watches })
with_watches app watches h l = record { pg = h.pg; redis = h.redis; curl = h.curl; room = l }

with_action-IsSound :
    (app : Spike) (i : ℕ) (interest : Interest) (found : Option CurlWatch)
    → IsSound app
    → IsSound (with_action app i interest found)
with_action-IsSound app i interest none h = h
with_action-IsSound app i interest (some watch) h =
    with_watches app _ h (
      omega
        (arith, h.room, length-set app.curl_watches i (record watch { curl_action = interest })))

on_curl_socket-IsSound :
    (app : Spike) (call : CurlCall) → IsSound app → IsSound (on_curl_socket app call)
unfolding on_curl_socket
on_curl_socket-IsSound app (remove none) h = h
on_curl_socket-IsSound app (remove (some i)) h = with_action-IsSound app i no_interest _ h
on_curl_socket-IsSound app (wants fd interest (some i)) h = with_action-IsSound app i interest _ h
on_curl_socket-IsSound app (wants fd interest none) h =
    let watch : CurlWatch = record { fd = fd; curl_action = interest } in
    either (leb max_curl_watches (length app.curl_watches)) _ _ (λ e. h)
      (λ e.
        with_watches app (app.curl_watches ++ (watch ∷ [])) h
          (room_for (length app.curl_watches) _ (length-append app.curl_watches (watch ∷ [])) e))
  where
    room_for : (n m : ℕ) → m ≡ n + 1 → leb max_curl_watches n ≡ false → m ≤ max_curl_watches
    room_for n m p e = ground arith

pub curl_calls-IsSound :
    (calls : List CurlCall) (app : Spike) → IsSound app → IsSound (curl_calls app calls)
unfolding curl_calls
curl_calls-IsSound [] app h = h
curl_calls-IsSound (call ∷ calls) app h =
    curl_calls-IsSound calls (on_curl_socket app call) (on_curl_socket-IsSound app call h)

right_is_200 : (result_ok is_right : Bool) → ((result_ok && is_right) ≡ false) ⊎ (is_right ≡ true)
right_is_200 result_ok is_right = ground arith

curl_message-IsSound :
    (app : Spike) (message : CurlMessage) → IsSound app → IsSound (curl_message app message)
unfolding curl_message
curl_message-IsSound app message h =
    let right = message.result_ok && is_200 message.status in
    let noted : Spike = record app { curl_status = message.status; curl_roundtrip = right } in
    either message.done _ _
      (λ e. fail_unless-IsSound right noted (record {
        pg = h.pg;
        redis = h.redis;
        curl = right_is_200 message.result_ok (is_200 message.status);
        room = h.room;
      }))
      (λ e. h)

curl_messages-IsSound :
    (messages : List CurlMessage) (app : Spike) → IsSound app → IsSound (curl_messages app messages)
unfolding curl_messages
curl_messages-IsSound [] app h = h
curl_messages-IsSound (message ∷ messages) app h =
    curl_messages-IsSound messages (curl_message app message) (curl_message-IsSound app message h)

pub curl_action-IsSound :
    (app : Spike) (answer : CurlAnswer) → IsSound app → IsSound (curl_action app answer)
unfolding curl_action
curl_action-IsSound app answer h =
    let called = curl_calls-IsSound answer.calls app h in
    either answer.succeeds _ _
      (λ e. curl_messages-IsSound answer.messages (curl_calls app answer.calls) called)
      (λ e. fail-IsSound (curl_calls app answer.calls) called)
