-- ===== src/HttpClient/Requests.antt =====
-- The list of requests of core/platform/http/http_client.c under its operations.
use alpha_fincial_pipline_c.Prelude.{
  ℕ, ◌+◌, ◌-◌, ◌^◌, ◌≤◌, ◌≡◌, ◌≢◌, refl, true, false, ◌||◌, some, List, [], ◌∷◌, ◌++◌, take, ltb,
  ◌==◌, All, length, arith, Bool-cases, inl, inr, length-append, length-take,
}
use alpha_fincial_pipline_c.Date.{bool_ℕ}
use alpha_fincial_pipline_c.HttpClient.{
  Request, Client, Chunk, bytes_of, receive_body, receive_at, unlink, unlink_and_free, request_at,
  max_pending, max_response_bytes, size_sub, Notice, watches, timer, completes,
}

-- How many requests of the list carry the user data.
abbrev pub count_user : ℕ → List Request → ℕ
count_user u [] = 0
count_user u (r ∷ rs) = bool_ℕ (r.user_data == u) + count_user u rs

-- How many completions of the notices carry it.
abbrev pub completed : ℕ → List Notice → ℕ
completed u [] = 0
completed u (completes c ∷ ns) = bool_ℕ (c.user_data == u) + completed u ns
completed u (watches fd watch ∷ ns) = completed u ns
completed u (timer ms ∷ ns) = completed u ns

pub completed-append :
    (u : ℕ) (ns ms : List Notice) → completed u (ns ++ ms) ≡ completed u ns + completed u ms
completed-append u [] ms = omega arith
completed-append u (completes c ∷ ns) ms = omega (arith, completed-append u ns ms)
completed-append u (watches fd watch ∷ ns) ms = completed-append u ns ms
completed-append u (timer t ∷ ns) ms = completed-append u ns ms

abbrev pub IsAbsent : ℕ → List Request → Type 0
IsAbsent address = All (λ r. r.address ≢ address)

abbrev pub IsDistinct : List Request → Type 0
IsDistinct [] = Unit
IsDistinct (r ∷ rs) = IsAbsent r.address rs × IsDistinct rs

-- The size is the length of what is stored, and at most 1 MiB.
abbrev pub IsBounded : Request → Type 0
IsBounded r = (length r.response ≡ r.response_size) × (r.response_size ≤ max_response_bytes)

pub receive_body-IsBounded :
    (r : Request) (chunk : Chunk)
    → length chunk.data_bytes ≡ bytes_of chunk
    → IsBounded r
    → IsBounded (receive_body r chunk).0
unfolding receive_body
receive_body-IsBounded r chunk h (l, b) =
    elim (Bool-cases (
      ltb (size_sub max_response_bytes r.response_size) (bytes_of chunk)
      || ltb (size_sub (size_sub (2 ^ 64 - 1) r.response_size) 1) (bytes_of chunk))) [
        | inl e ↦ rw e (l, b)
        | inr e ↦ elim (Bool-cases chunk.grows) [
          | inr g ↦ rw (e, g) (l, b)
          | inl g ↦
              rw (e, g)
                (
                  omega (
                    arith,
                    length-append r.response (take (bytes_of chunk) chunk.data_bytes),
                    length-take (bytes_of chunk) chunk.data_bytes,
                    fits e,
                  ),
                  omega (arith, fits e),
                )
        ]
      ]
  where
    fits :
        (ltb (size_sub max_response_bytes r.response_size) (bytes_of chunk)
            || ltb (size_sub (size_sub (2 ^ 64 - 1) r.response_size) 1) (bytes_of chunk))
          ≡ false
        → r.response_size + bytes_of chunk ≤ max_response_bytes
    fits e = ground arith

module _ (address : ℕ) where
  pub All-unlink {ℓ} :
      (P : Request → Type ℓ) (rs : List Request) → All P rs → All P (unlink address rs).0
  unfolding unlink
  All-unlink P [] h = tt
  All-unlink P (r ∷ rs) (p, h) = elim (Bool-cases (r.address == address)) [
    | inl e ↦ rw e h
    | inr e ↦ rw e (p, All-unlink P rs h)
  ]

  pub IsDistinct-unlink : (rs : List Request) → IsDistinct rs → IsDistinct (unlink address rs).0
  unfolding unlink
  IsDistinct-unlink [] h = tt
  IsDistinct-unlink (r ∷ rs) (p, h) = elim (Bool-cases (r.address == address)) [
    | inl e ↦ rw e h
    | inr e ↦ rw e (All-unlink (λ q. q.address ≢ r.address) rs p, IsDistinct-unlink rs h)
  ]

  pub unlink-IsAbsent : (rs : List Request) → IsAbsent address rs → unlink address rs ≡ (rs, false)
  unfolding unlink
  unlink-IsAbsent [] h = refl
  unlink-IsAbsent (r ∷ rs) (p, h) = rw (unlink-IsAbsent rs h, differ r.address p) refl
    where
      differ : (a : ℕ) → a ≢ address → a == address ≡ false
      differ a n = ground arith

  pub unlink-request_at :
      (rs : List Request) (r : Request)
      → request_at address rs ≡ some r
      → ((unlink address rs).1 ≡ true)
        × (length (unlink address rs).0 + 1 ≡ length rs)
        × ((u : ℕ)
            → count_user u (unlink address rs).0 + bool_ℕ (r.user_data == u) ≡ count_user u rs)
  unfolding unlink request_at
  unlink-request_at [] r h = absurd (ground arith)
  unlink-request_at (q ∷ rs) r h = elim (Bool-cases (q.address == address)) [
    | inl e ↦ rw e (refl, omega arith, λ u. same u r q (rw e at h))
    | inr e ↦
        let (f, l, c) = unlink-request_at rs r (rw e at h) in
        rw e (f, omega arith, λ u. omega (arith, c u))
  ]
    where
      same :
          (u : ℕ) (r q : Request)
          → some q ≡ some r
          → count_user u rs + bool_ℕ (r.user_data == u)
            ≡ bool_ℕ (q.user_data == u) + count_user u rs
      same u r q p = let e : q ≡ r = cc in rw e (omega arith)

receive_body-same :
    (r : Request) (chunk : Chunk)
    → ((receive_body r chunk).0.address ≡ r.address)
      × ((receive_body r chunk).0.user_data ≡ r.user_data)
unfolding receive_body
receive_body-same r chunk =
    elim (Bool-cases (
      ltb (size_sub max_response_bytes r.response_size) (bytes_of chunk)
      || ltb (size_sub (size_sub (2 ^ 64 - 1) r.response_size) 1) (bytes_of chunk))) [
        | inl e ↦ rw e (refl, refl)
        | inr e ↦ elim (Bool-cases chunk.grows) [
          | inl g ↦ rw (e, g) (refl, refl)
          | inr g ↦ rw (e, g) (refl, refl)
        ]
      ]

module _ (address : ℕ) (chunk : Chunk) where
  pub All-receive_at {ℓ} :
      (P : Request → Type ℓ)
      → ((r : Request) → P r → P (receive_body r chunk).0)
      → (rs : List Request) → All P rs
      → All P (receive_at address chunk rs)
  unfolding receive_at
  All-receive_at P f [] h = tt
  All-receive_at P f (r ∷ rs) (p, h) = elim (Bool-cases (r.address == address)) [
    | inl e ↦ rw e (f r p, h)
    | inr e ↦ rw e (p, All-receive_at P f rs h)
  ]

  IsAbsent-receive_at :
      (a : ℕ) (rs : List Request) → IsAbsent a rs → IsAbsent a (receive_at address chunk rs)
  IsAbsent-receive_at a rs h =
      All-receive_at (λ r. r.address ≢ a) (λ r n. rw (receive_body-same r chunk).0 n) rs h

  pub IsDistinct-receive_at :
      (rs : List Request) → IsDistinct rs → IsDistinct (receive_at address chunk rs)
  unfolding receive_at
  IsDistinct-receive_at [] h = tt
  IsDistinct-receive_at (r ∷ rs) (p, h) = elim (Bool-cases (r.address == address)) [
    | inl e ↦ rw (e, (receive_body-same r chunk).0) (p, h)
    | inr e ↦ rw e (IsAbsent-receive_at r.address rs p, IsDistinct-receive_at rs h)
  ]

  pub length-receive_at : (rs : List Request) → length (receive_at address chunk rs) ≡ length rs
  unfolding receive_at
  length-receive_at [] = refl
  length-receive_at (r ∷ rs) = ground (arith, length-receive_at rs)

  pub count_user-receive_at :
      (u : ℕ) (rs : List Request) → count_user u (receive_at address chunk rs) ≡ count_user u rs
  unfolding receive_at
  count_user-receive_at u [] = refl
  count_user-receive_at u (r ∷ rs) = elim (Bool-cases (r.address == address)) [
    | inl e ↦ rw (e, (receive_body-same r chunk).1) refl
    | inr e ↦ rw (e, count_user-receive_at u rs) refl
  ]

-- `pending` counts the requests, which are at most 64, with distinct addresses and bounded
-- responses.
pub record IsClient (c : Client) : Type 0 where
  pub counted : c.pending ≡ length c.requests
  pub few : c.pending ≤ max_pending
  pub distinct : IsDistinct c.requests
  pub bounded : All IsBounded c.requests

pub unlink_and_free-IsAbsent :
    (c : Client) (address : ℕ) → IsAbsent address c.requests → unlink_and_free c address ≡ c
unfolding unlink_and_free
unlink_and_free-IsAbsent c address h = rw (unlink-IsAbsent address c.requests h) refl

pub unlink_and_free-IsClient :
    (c : Client) (r : Request) (address : ℕ)
    → IsClient c
    → request_at address c.requests ≡ some r
    → IsClient (unlink_and_free c address)
      × ((u : ℕ)
          → count_user u (unlink_and_free c address).requests + bool_ℕ (r.user_data == u)
            ≡ count_user u c.requests)
      × ((unlink_and_free c address).pending + 1 ≡ c.pending)
unfolding unlink_and_free
unlink_and_free-IsClient c r address h e =
    let (found, l, count) = unlink-request_at address c.requests r e in
    let a = h.counted in
    let b = h.few in
    rw found (
      record {
        counted = omega arith;
        few = omega arith;
        distinct = IsDistinct-unlink address c.requests h.distinct;
        bounded = All-unlink address IsBounded c.requests h.bounded;
      },
      count,
      omega arith,
    )
