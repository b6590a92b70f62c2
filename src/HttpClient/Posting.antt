-- ===== src/HttpClient/Posting.antt =====
-- Posting a request to the client of core/platform/http/http_client.c.
use alpha_fincial_pipline_c.Prelude.{
  ℕ, ◌+◌, ◌%◌, ◌^◌, ◌≤◌, ◌<◌, ◌≡◌, refl, true, not, ◌&&◌, ◌||◌, none, some, leb, ◌==◌, arith,
  Bool-cases, inl, inr, Option-cases,
}
use alpha_fincial_pipline_c.Domain.{Error, invalid_arg, range, io, http}
use alpha_fincial_pipline_c.HttpClient.{
  Status, Request, Client, unlink, unlink_and_free, max_pending, size_sub, Post, Setup,
  is_valid_post, post_json, start_request, link, fresh_request, is_given,
}
use alpha_fincial_pipline_c.HttpClient.Requests.{IsAbsent, unlink_and_free-IsAbsent}

-- The allocator's address is not in use.
abbrev pub IsFresh : Client → Setup → Type 0
IsFresh c setup = elim setup.request [ none ↦ Unit | some address ↦ IsAbsent address c.requests ]

-- A post is refused and leaves the client as it was, or adds one request.
pub data Posted (c : Client) (post : Post) : Client × Status → Type 0 where
  refused : (e : Error) → Posted c post (c, some e)
  added :
      (address : ℕ)
      → IsAbsent address c.requests
      → is_valid_post post ≡ true
      → c.pending < max_pending
      → Posted c post (link c (fresh_request post address), none)

unlink-link :
    (c : Client) (r : Request) → c.pending ≤ max_pending → unlink_and_free (link c r) r.address ≡ c
unfolding unlink_and_free unlink
unlink-link c r h = rw (itself r.address, back c.pending h) refl
  where
    back : (p : ℕ) → p ≤ max_pending → size_sub ((p + 1) % 2 ^ 64) 1 ≡ p
    back p h = omega arith

    itself : (a : ℕ) → a == a ≡ true
    itself a = ground arith

start_request-Posted :
    (c : Client) (post : Post) (setup : Setup) (address : ℕ)
    → IsAbsent address c.requests
    → is_valid_post post ≡ true
    → c.pending < max_pending
    → Posted c post (start_request c post setup address)
start_request-Posted c post setup address a v p =
    let gone = unlink_and_free-IsAbsent c address a in
    elim (Bool-cases (not setup.easy || not setup.body)) [
      | inl e ↦ rw (e, gone) (refused io)
      | inr e ↦ elim (Bool-cases setup.headers) [
        | inr h ↦ rw (e, h, gone) (refused io)
        | inl h ↦ elim (Bool-cases (is_given post.authorization_header && not setup.with_auth)) [
          | inl w ↦ rw (e, h, w, gone) (refused io)
          | inr w ↦ elim (Bool-cases setup.options) [
            | inr o ↦ rw (e, h, w, o, gone) (refused http)
            | inl o ↦ elim (Bool-cases setup.added) [
              | inr l ↦
                  rw (e, h, w, o, l, unlink-link c (fresh_request post address) (omega arith))
                    (refused http)
              | inl l ↦ rw (e, h, w, o, l) (added address a v p)
            ]
          ]
        ]
      ]
    ]

-- If the new request's address is not in use, `alpha_http_post_json` either returns an error and
-- leaves the client exactly as it was, at whatever point it failed, or succeeds on a valid post
-- with fewer than 64 requests pending, and adds this one request in front.
pub post_json-Posted :
    (c : Client) (post : Post) (setup : Setup)
    → IsFresh c setup
    → Posted c post (post_json c post setup)
unfolding post_json
post_json-Posted c post setup f = elim (Bool-cases (is_valid_post post)) [
  | inr v ↦ rw v (refused invalid_arg)
  | inl v ↦ elim (Bool-cases (leb max_pending c.pending)) [
    | inl p ↦ rw (v, p) (refused range)
    | inr p ↦ elim (Option-cases setup.request) [
      | inl n ↦ rw (v, p, n) (refused io)
      | inr (address, n) ↦
          rw (v, p, n) (start_request-Posted c post setup address (rw n at f) v (ground arith))
    ]
  ]
]
