-- ===== src/LwsRuntime/Tests.antt =====
-- Tests of core/platform/event/lws_runtime.c.
use alpha_fincial_pipline_c.Prelude.{ℕ, ◌≤◌, ◌≡◌, refl, true, false, some, [], ◌∷◌, ◌⊎◌, get_elem?}
use alpha_fincial_pipline_c.Prelude.Int.{pos, negsuc, ◌*ℤ◌}
use alpha_fincial_pipline_c.Domain.{ok, err, range}
use alpha_fincial_pipline_c.LwsRuntime.{
  Runtime, Watch, empty_watch, runtime_create, watch_add, watch_remove, runtime_service, wakes,
  calls_back, raw_close_file, timer_fired, free_slot, ready, service_wakeup, lws_calls, lws_call,
  foreign_fd_callback, callbacks, set_timer, runtime_destroy,
}
use alpha_fincial_pipline_c.LwsRuntime.Slots.{count_active}
use alpha_fincial_pipline_c.LwsRuntime.Run.{starts, adds, removes, services, Run-room}

abbrev fresh : Runtime
fresh = record { watches = empty_watch ∷ empty_watch ∷ []; capacity = 2; count = 0 }

creates : (runtime_create 2 true true true true).0 ≡ some fresh
unfolding runtime_create
creates = refl

-- Two watches, the second of which wants to write.
abbrev full : Runtime
full =
    (watch_add (watch_add fresh (pos 5) false 1 true true (some 10)).0 (pos 6) true 2 true true
      (some 11)).0

abbrev second : Watch
second = record {
  wsi = some 11;
  callback_ctx = 2;
  source_fd = pos 6;
  wants_write = true;
  active = true;
}

is_full : (watch_add full (pos 7) false 3 true true (some 12)).1 ≡ err range
unfolding watch_add free_slot
is_full = refl

wakes_second :
    (runtime_service full (pos 0) (λ wait. (wakes ∷ calls_back 0 timer_fired ∷ [], true))).2
    ≡ ready second false true false
      ∷ ready (record second { callback_ctx = 1 }) false false true
      ∷ []
unfolding watch_add free_slot runtime_service lws_calls lws_call service_wakeup foreign_fd_callback
wakes_second = refl

reuses_first :
    (watch_add (watch_remove full 0 (raw_close_file ∷ [])).0 (pos 7) false 3 true true (some 12)).1
    ≡ ok 0
unfolding watch_add free_slot watch_remove callbacks foreign_fd_callback
reuses_first = refl

closes_both : runtime_destroy full.watches ≡ 10 ∷ 11 ∷ []
unfolding watch_add free_slot runtime_destroy
closes_both = refl

sets_timer : set_timer (negsuc 0) second (pos 20) ≡ ok (pos 20000)
unfolding set_timer ◌*ℤ◌
sets_timer = refl

abbrev after : Runtime
after =
    (watch_remove
      (runtime_service full (pos 0) (λ wait. (wakes ∷ calls_back 1 raw_close_file ∷ [], true))).0 1
      []).0

Run-room_example :
    (after.count ≡ count_active after.watches)
    × (after.count ≤ after.capacity)
    × ((after.count ≡ after.capacity)
        ⊎ ((i : ℕ) × (watch : Watch) × (free_slot after.watches ≡ some i)
            × (get_elem? after.watches i ≡ some watch)
            × (watch.active ≡ false)))
Run-room_example = Run-room after (
    removes
      (runtime_service full (pos 0) (λ wait. (wakes ∷ calls_back 1 raw_close_file ∷ [], true))).0 1
      []
      (services full (pos 0) (λ wait. (wakes ∷ calls_back 1 raw_close_file ∷ [], true))
        (adds (watch_add fresh (pos 5) false 1 true true (some 10)).0 (pos 6) true 2 true true
          (some 11)
          (adds fresh (pos 5) false 1 true true (some 10)
            (starts 2 true true true true fresh creates)))))
