-- ===== src/HttpClient.antt =====
-- core/platform/http/http_client.c: POST requests in a multi handle of libcurl. A request is named by its
-- address. What libcurl and the allocator do is a parameter: whether a call succeeds, the callbacks
-- that libcurl makes while it handles an action, and the messages that it then holds. Callbacks for
-- sockets and the timer while a handle is added or removed change no state and are left out.
pub mod Requests
pub mod Actions
pub mod Posting
pub mod Run
mod Tests
use alpha_fincial_pipline_c.Prelude.{
  ℕ, zero, suc, ◌+◌, ◌-◌, ◌*◌, ◌%◌, ◌^◌, Bool, true, false, not, ◌&&◌, ◌||◌, Option, none, some,
  List, [], ◌∷◌, ◌++◌, take, ltb, leb, ◌==◌, if◌then◌else◌,
}
use alpha_fincial_pipline_c.Prelude.Int.{ℤ, pos, leb_ℤ, ltb_ℤ}
use alpha_fincial_pipline_c.Domain.{Error, invalid_arg, range, io, http}

-- A status: `none` is ALPHA_OK.
abbrev pub Status : Type 0
Status = Option Error

abbrev pub max_pending : ℕ
max_pending = 64

abbrev pub max_response_bytes : ℕ
max_response_bytes = 1024 * 1024

-- size_t arithmetic.
abbrev pub size_sub : ℕ → ℕ → ℕ
size_sub a b = (a + 2 ^ 64 - b) % 2 ^ 64

-- `response` is what the buffer holds, without the NUL.
pub record Request : Type 0 where
  pub address : ℕ
  pub kind : ℤ
  pub response : List ℕ
  pub response_size : ℕ
  pub user_data : ℕ

pub record Client : Type 0 where
  pub requests : List Request
  pub pending : ℕ

pub record Completion : Type 0 where
  pub kind : ℤ
  pub status_code : ℤ
  pub transport_code : ℤ
  pub response_body : List ℕ
  pub response_size : ℕ
  pub user_data : ℕ

-- What the owner of the event loop is told.
pub data Notice : Type 0 where
  watches : ℤ → ℤ → Notice
  timer : ℤ → Notice
  completes : Completion → Notice

-- One call of `receive_body`: the bytes, how many the two factors say, whether `realloc` succeeds.
pub record Chunk : Type 0 where
  pub data_bytes : List ℕ
  pub size : ℕ
  pub count : ℕ
  pub grows : Bool

abbrev pub bytes_of : Chunk → ℕ
bytes_of chunk = chunk.size * chunk.count % 2 ^ 64

-- The number of bytes that it returns is all of them, or 0.
unfoldable pub receive_body : Request → Chunk → Request × ℕ
receive_body request chunk =
    let bytes = bytes_of chunk in
    if ltb (size_sub max_response_bytes request.response_size) bytes
      || ltb (size_sub (size_sub (2 ^ 64 - 1) request.response_size) 1) bytes
    then (request, 0)
    else if not chunk.grows
    then (request, 0)
    else (
      record request {
        response = request.response ++ take bytes chunk.data_bytes;
        response_size = (request.response_size + bytes) % 2 ^ 64;
      },
      bytes,
    )

-- CURL_POLL_IN is 1, CURL_POLL_INOUT 3.
abbrev pub watch_of : ℤ → ℤ
watch_of action = if leb_ℤ (pos 1) action && leb_ℤ action (pos 3) then action else pos 0

pub data CurlCall : Type 0 where
  receives : ℕ → Chunk → CurlCall
  socket_changed : ℤ → ℤ → CurlCall
  timer_changed : ℤ → CurlCall

-- The buffer of the request at the address.
unfoldable pub receive_at : ℕ → Chunk → List Request → List Request
unfolding receive_body
receive_at address chunk [] = []
receive_at address chunk (r ∷ rs) =
    let later = receive_at address chunk rs in
    if r.address == address then (receive_body r chunk).0 ∷ rs else r ∷ later

unfoldable pub curl_call : Client → CurlCall → Client × List Notice
unfolding receive_at
curl_call client (receives address chunk) =
    (record client { requests = receive_at address chunk client.requests }, [])
curl_call client (socket_changed fd action) = (client, watches fd (watch_of action) ∷ [])
curl_call client (timer_changed timeout_ms) = (client, timer timeout_ms ∷ [])

unfoldable pub curl_calls : Client → List CurlCall → Client × List Notice
curl_calls client [] = (client, [])
curl_calls client (c ∷ cs) =
    let (next, notices) = curl_call client c in
    let (last, later) = curl_calls next cs in (last, notices ++ later)

-- The list without the request at the address, and whether it had one.
unfoldable pub unlink : ℕ → List Request → List Request × Bool
unlink address [] = ([], false)
unlink address (r ∷ rs) =
    let (rest, found) = unlink address rs in
    if r.address == address then (rs, true) else (r ∷ rest, found)

unfoldable pub unlink_and_free : Client → ℕ → Client
unfolding unlink
unlink_and_free client address =
    let (rest, found) = unlink address client.requests in
    if found
    then record { requests = rest; pending = size_sub client.pending 1 }
    else record { requests = rest; pending = client.pending }

-- A message of `curl_multi_info_read`: its request, by CURLINFO_PRIVATE.
pub record Message : Type 0 where
  pub is_done : Bool
  pub address : ℕ
  pub status_code : ℤ
  pub transport_code : ℤ

unfoldable pub request_at : ℕ → List Request → Option Request
request_at address [] = none
request_at address (r ∷ rs) =
    let later = request_at address rs in if r.address == address then some r else later

abbrev pub completion : Request → ℤ → ℤ → Completion
completion request status_code transport_code = record {
  kind = request.kind;
  status_code = status_code;
  transport_code = transport_code;
  response_body = request.response;
  response_size = request.response_size;
  user_data = request.user_data;
}

-- `none`: a message names a request that is not there, where the code reads freed memory.
unfoldable pub drain_completions : Client → List Message → Option (Client × List Notice)
unfolding request_at unlink_and_free
drain_completions client [] = some (client, [])
drain_completions client (m ∷ ms) =
    let skipped = drain_completions client ms in
    let drained = drain_completions (unlink_and_free client m.address) ms in
    if not m.is_done then skipped else elim (request_at m.address client.requests) [
      | none ↦ none
      | some request ↦ elim drained [
        | none ↦ none
        | some (last, notices) ↦
            some (last, completes (completion request m.status_code m.transport_code) ∷ notices)
      ]
    ]

-- `given`: no callback and not `out` is NULL; `opens`: `curl_multi_init` returns a handle; `options`:
-- the four options are set.
unfoldable pub multi_create : Bool → Bool → Bool → Bool → Option Client × Status
multi_create given allocates opens options =
    if not given
    then (none, some invalid_arg)
    else if not allocates
    then (none, some io)
    else if not opens
    then (none, some http)
    else if not options
    then (none, some http)
    else (some (record { requests = []; pending = 0 }), none)

-- The loop of `alpha_http_multi_destroy`; `none` is out of fuel.
unfoldable pub destroy_requests : ℕ → Client → Option Client
unfolding unlink_and_free
destroy_requests zero client = none
destroy_requests (suc fuel) client = elim client.requests [
  | [] ↦ some client
  | r ∷ rs ↦ destroy_requests fuel (unlink_and_free client r.address)
]

-- The pointers of a post that are `none` are NULL.
pub record Post : Type 0 where
  pub kind : ℤ
  pub url : Option (List ℕ)
  pub json_body : Option (List ℕ)
  pub authorization_header : Option (List ℕ)
  pub timeout_ms : ℤ
  pub user_data : ℕ

-- What the calls of `alpha_http_post_json` return: the address of the new request, and whether the
-- handle, the body, the two header lists and the options are made, and the handle is added.
pub record Setup : Type 0 where
  pub request : Option ℕ
  pub easy : Bool
  pub body : Bool
  pub headers : Bool
  pub with_auth : Bool
  pub options : Bool
  pub added : Bool

abbrev pub has_text : Option (List ℕ) → Bool
has_text none = false
has_text (some []) = false
has_text (some (c ∷ text)) = true

abbrev pub is_given {ℓ} : {A : Type ℓ} → Option A → Bool
is_given none = false
is_given (some a) = true

unfoldable pub is_valid_post : Post → Bool
is_valid_post post = not (
    not (has_text post.url)
    || not (is_given post.json_body)
    || leb_ℤ post.timeout_ms (pos 0)
    || ltb_ℤ post.kind (pos 0)
    || ltb_ℤ (pos 2) post.kind)

abbrev pub fresh_request : Post → ℕ → Request
fresh_request post address = record {
  address = address;
  kind = post.kind;
  response = [];
  response_size = 0;
  user_data = post.user_data;
}

abbrev pub link : Client → Request → Client
link client request = record {
  requests = request ∷ client.requests;
  pending = (client.pending + 1) % 2 ^ 64;
}

abbrev pub start_request : Client → Post → Setup → ℕ → Client × Status
start_request client post setup address =
    if not setup.easy || not setup.body
    then (unlink_and_free client address, some io)
    else if not setup.headers
    then (unlink_and_free client address, some io)
    else if is_given post.authorization_header && not setup.with_auth
    then (unlink_and_free client address, some io)
    else if not setup.options
    then (unlink_and_free client address, some http)
    else if not setup.added
    then (unlink_and_free (link client (fresh_request post address)) address, some http)
    else (link client (fresh_request post address), none)

unfoldable pub post_json : Client → Post → Setup → Client × Status
unfolding is_valid_post unlink_and_free
post_json client post setup =
    if not (is_valid_post post)
    then (client, some invalid_arg)
    else if leb max_pending client.pending
    then (client, some range)
    else elim setup.request [
      | none ↦ (client, some io)
      | some address ↦ start_request client post setup address
    ]

unfoldable pub request_of : ℕ → List Request → Option Request
request_of user_data [] = none
request_of user_data (r ∷ rs) =
    let later = request_of user_data rs in if r.user_data == user_data then some r else later

-- CURLE_ABORTED_BY_CALLBACK
abbrev pub aborted : ℤ
aborted = pos 42

-- The address 0 is NULL.
unfoldable pub cancel : Client → ℕ → Client × Status × List Notice
unfolding request_of unlink_and_free
cancel client user_data =
    if user_data == 0
    then (client, some invalid_arg, [])
    else elim (request_of user_data client.requests) [
      | none ↦ (client, some range, [])
      | some request ↦ (
        unlink_and_free client request.address,
        none,
        completes (completion request (pos 0) aborted) ∷ [],
      )
    ]

-- `curl_multi_socket_action` with its callbacks, whether it returns CURLM_OK, and the messages.
pub record Action : Type 0 where
  pub calls : List CurlCall
  pub succeeds : Bool
  pub messages : List Message

unfoldable pub act : Client → Action → Option (Client × Status × List Notice)
unfolding curl_calls drain_completions
act client action =
    let (called, notices) = curl_calls client action.calls in
    if not action.succeeds
    then some (called, some http, notices)
    else elim (drain_completions called action.messages) [
      | none ↦ none
      | some (last, later) ↦ some (last, none, notices ++ later)
    ]

-- `ready` has two bits, which libcurl's are the same as; `given`: `running_out` is not NULL. The
-- action is what libcurl does for the socket and the bits.
unfoldable pub socket_action :
    Client → ℤ → ℕ → Bool → (ℤ → ℕ → Action) → Option (Client × Status × List Notice)
unfolding act
socket_action client fd ready given libcurl =
    if ltb_ℤ fd (pos 0) || not given || ltb 3 ready
    then some (client, some invalid_arg, [])
    else act client (libcurl fd ready)

unfoldable pub timeout_action : Client → Bool → Action → Option (Client × Status × List Notice)
unfolding act
timeout_action client given action =
    if not given then some (client, some invalid_arg, []) else act client action
