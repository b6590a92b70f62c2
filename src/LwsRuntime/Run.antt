-- ===== src/LwsRuntime/Run.antt =====
-- Runs of the event runtime of core/platform/event/lws_runtime.c.
use alpha_fincial_pipline_c.Prelude.{
  ℕ, ◌+◌, ◌-◌, ◌%◌, ◌^◌, ◌≤◌, ◌≡◌, sym, refl, ap, Bool, true, false, not, ◌||◌, Option, none, some,
  List, [], ◌∷◌, get_elem?, set, length-set, arith, Bool-cases, Option-cases, inl, inr, ◌⊎◌, ◌==◌,
  ltb,
}
use alpha_fincial_pipline_c.Prelude.Int.{ℤ, pos, ltb_ℤ}
use alpha_fincial_pipline_c.Date.{bool_ℕ}
use alpha_fincial_pipline_c.LwsRuntime.{
  Watch, Runtime, Reason, foreign_fd_callback, has_wsi, free_slot, runtime_create, watch_add,
  set_write, watch_remove, LwsCall, wakes, calls_back, lws_call, lws_calls, maximum_wait,
  runtime_service,
}
use alpha_fincial_pipline_c.LwsRuntime.Slots.{
  count_active, count_active-set, free_slot-some, free_slot-none, foreign_fd_callback-active,
  count_active-replicate, length-replicate, IsRuntime, IsRuntime-bound,
}

-- Writing a watch that is as active as the one before it.
IsRuntime-set :
    (r : Runtime) (i : ℕ) (old new : Watch)
    → IsRuntime r
    → get_elem? r.watches i ≡ some old
    → new.active ≡ old.active
    → IsRuntime (record r { watches = set r.watches i new })
IsRuntime-set r i old new h at same =
    let counted = h.counted in
    let sized = h.sized in
    record {
      counted = omega (arith, count_active-set r.watches i old new at, ap bool_ℕ same);
      sized = omega (arith, length-set r.watches i new);
      small = h.small;
    }

occupied :
    (r : Runtime) (i : ℕ) (old new : Watch)
    → IsRuntime r
    → get_elem? r.watches i ≡ some old
    → old.active ≡ false
    → new.active ≡ true
    → IsRuntime (record r { watches = set r.watches i new; count = (r.count + 1) % 2 ^ 64 })
occupied r i old new h at off on =
    let counted = h.counted in
    let sized = h.sized in
    let small = h.small in
    record {
      counted = omega (
        arith,
        count_active-set r.watches i old new at,
        ap bool_ℕ off,
        ap bool_ℕ on,
        IsRuntime-bound r h,
      );
      sized = omega (arith, length-set r.watches i new);
      small = small;
    }

vacated :
    (r : Runtime) (i : ℕ) (old new : Watch)
    → IsRuntime r
    → get_elem? r.watches i ≡ some old
    → old.active ≡ true
    → new.active ≡ false
    → IsRuntime
        (record r { watches = set r.watches i new; count = (r.count + 2 ^ 64 - 1) % 2 ^ 64 })
vacated r i old new h at on off =
    let counted = h.counted in
    let sized = h.sized in
    let small = h.small in
    record {
      counted = omega (
        arith,
        count_active-set r.watches i old new at,
        ap bool_ℕ off,
        ap bool_ℕ on,
        IsRuntime-bound r h,
      );
      sized = omega (arith, length-set r.watches i new);
      small = small;
    }

watch_add-IsRuntime :
    (r : Runtime) (fd : ℤ) (wants_write : Bool) (ctx : ℕ) (given dups : Bool) (adopted : Option ℕ)
    → IsRuntime r
    → IsRuntime (watch_add r fd wants_write ctx given dups adopted).0
unfolding watch_add
watch_add-IsRuntime r fd wants_write ctx given dups adopted h =
    elim (Bool-cases (ltb_ℤ fd (pos 0) || not given)) [
      | inl e ↦ rw e h
      | inr e ↦ elim (Bool-cases (r.count == r.capacity)) [
        | inl full ↦ rw (e, full) h
        | inr room ↦ elim (Bool-cases dups) [
          | inr d ↦ rw (e, room, d) h
          | inl d ↦ elim (Option-cases (free_slot r.watches)) [
            | inl n ↦ rw (e, room, d, n) h
            | inr (i, n) ↦
                let (old, at, off) = free_slot-some r.watches i n in
                elim (Option-cases adopted) [
                  | inl a ↦ rw (e, room, d, n, a) (IsRuntime-set r i old _ h at (sym off))
                  | inr (wsi, a) ↦ rw (e, room, d, n, a) (occupied r i old _ h at off refl)
                ]
          ]
        ]
      ]
    ]

watch_remove-IsRuntime :
    (r : Runtime) (i : ℕ) (closing : List Reason)
    → IsRuntime r
    → IsRuntime (watch_remove r i closing).0
unfolding watch_remove
watch_remove-IsRuntime r i closing h = elim (Option-cases (get_elem? r.watches i)) [
  | inl n ↦ rw (watch_remove, n) h
  | inr (watch, at) ↦ elim (Bool-cases watch.active) [
    | inr off ↦ rw (watch_remove, at, off) h
    | inl on ↦ rw (watch_remove, at, on) (vacated r i watch _ h at on refl)
  ]
]

lws_call-IsRuntime : (r : Runtime) (c : LwsCall) → IsRuntime r → IsRuntime (lws_call r c).0
unfolding lws_call
lws_call-IsRuntime r wakes h = h
lws_call-IsRuntime r (calls_back i reason) h = elim (Option-cases (get_elem? r.watches i)) [
  | inl n ↦ rw (lws_call, n) h
  | inr (watch, at) ↦
      rw (lws_call, at)
        (IsRuntime-set r i watch (foreign_fd_callback watch reason).0 h at
          (foreign_fd_callback-active watch reason))
]

lws_calls-IsRuntime : (r : Runtime) (cs : List LwsCall) → IsRuntime r → IsRuntime (lws_calls r cs).0
unfolding lws_calls
lws_calls-IsRuntime r [] h = h
lws_calls-IsRuntime r (c ∷ cs) h =
    lws_calls-IsRuntime (lws_call r c).0 cs (lws_call-IsRuntime r c h)

runtime_service-IsRuntime :
    (r : Runtime) (timeout_ms : ℤ) (libwebsockets : ℤ → List LwsCall × Bool)
    → IsRuntime r
    → IsRuntime (runtime_service r timeout_ms libwebsockets).0
unfolding runtime_service
runtime_service-IsRuntime r timeout_ms libwebsockets h =
    elim (Bool-cases (ltb_ℤ timeout_ms (pos 0))) [
      | inl e ↦ rw e h
      | inr e ↦ rw e (lws_calls-IsRuntime r (libwebsockets (maximum_wait timeout_ms)).0 h)
    ]

set_write-active :
    (watch : Watch) (wants_write requested : Bool)
    → (set_write watch wants_write requested).0.active ≡ watch.active
unfolding set_write
set_write-active watch wants_write requested = elim (Bool-cases (has_wsi watch)) [
  | inl e ↦ rw e refl
  | inr e ↦ rw e refl
]

runtime_create-IsRuntime :
    (n : ℕ) (given allocates context vhost : Bool) (r : Runtime)
    → (runtime_create n given allocates context vhost).0 ≡ some r
    → IsRuntime r
unfolding runtime_create
runtime_create-IsRuntime n given allocates context vhost r e =
    elim (Bool-cases (n == 0 || ltb 256 n || not given)) [
      | inl a ↦ absurd (nothing (rw a at e))
      | inr a ↦ elim (Bool-cases (not allocates || not context || not vhost)) [
        | inl b ↦ absurd (nothing (rw (a, b) at e))
        | inr b ↦ rw (← made (rw (a, b) at e)) (record {
          counted = sym (count_active-replicate n);
          sized = length-replicate n;
          small = ground arith;
        })
      ]
    ]
  where
    nothing : none ≡ some r → ⊥
    nothing p = absurd (ground arith)

    made : {q : Runtime} → some q ≡ some r → q ≡ r
    made p = cc

-- What a runtime gets to from `alpha_lws_runtime_create`.
pub data Run : Runtime → Type 0 where
  starts :
      (n : ℕ) (given allocates context vhost : Bool) (r : Runtime)
      → (runtime_create n given allocates context vhost).0 ≡ some r
      → Run r
  adds :
      (r : Runtime) (fd : ℤ) (wants_write : Bool) (ctx : ℕ) (given dups : Bool) (adopted : Option ℕ)
      → Run r
      → Run (watch_add r fd wants_write ctx given dups adopted).0
  writes :
      (r : Runtime) (i : ℕ) (watch : Watch) (wants_write requested : Bool)
      → Run r
      → get_elem? r.watches i ≡ some watch
      → Run (record r { watches = set r.watches i (set_write watch wants_write requested).0 })
  removes : (r : Runtime) (i : ℕ) (closing : List Reason) → Run r → Run (watch_remove r i closing).0
  services :
      (r : Runtime) (timeout_ms : ℤ) (libwebsockets : ℤ → List LwsCall × Bool)
      → Run r
      → Run (runtime_service r timeout_ms libwebsockets).0

Run-IsRuntime : (r : Runtime) → Run r → IsRuntime r
Run-IsRuntime r (starts n given allocates context vhost q e) =
    runtime_create-IsRuntime n given allocates context vhost q e
Run-IsRuntime r (adds q fd wants_write ctx given dups adopted run) =
    watch_add-IsRuntime q fd wants_write ctx given dups adopted (Run-IsRuntime q run)
Run-IsRuntime r (writes q i watch wants_write requested run at) =
    IsRuntime-set q i watch (set_write watch wants_write requested).0 (Run-IsRuntime q run) at
      (set_write-active watch wants_write requested)
Run-IsRuntime r (removes q i closing run) = watch_remove-IsRuntime q i closing (Run-IsRuntime q run)
Run-IsRuntime r (services q timeout_ms libwebsockets run) =
    runtime_service-IsRuntime q timeout_ms libwebsockets (Run-IsRuntime q run)

-- After every run of the runtime from its creation, with watches added, changed and removed and
-- events served in any order, `count` is the number of active watches, and at most the capacity. It
-- is the capacity, or the search of `alpha_lws_watch_add` finds a slot that is not active: the
-- second ALPHA_ERR_RANGE of that function is never returned.
pub Run-room :
    (r : Runtime)
    → Run r
    → (r.count ≡ count_active r.watches)
      × (r.count ≤ r.capacity)
      × ((r.count ≡ r.capacity)
          ⊎ ((i : ℕ) × (watch : Watch) × (free_slot r.watches ≡ some i)
              × (get_elem? r.watches i ≡ some watch)
              × (watch.active ≡ false)))
Run-room r run =
    let h = Run-IsRuntime r run in
    let counted = h.counted in
    let sized = h.sized in
    (
      counted,
      IsRuntime-bound r h,
      elim (Option-cases (free_slot r.watches)) [
        | inl n ↦ inl (omega (arith, free_slot-none r.watches n))
        | inr (i, n) ↦
            let (watch, at, off) = free_slot-some r.watches i n in inr (i, watch, n, at, off)
      ],
    )
