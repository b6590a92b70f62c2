-- ===== src/LwsRuntime/Slots.antt =====
-- The array of watches of core/platform/event/lws_runtime.c.
use alpha_fincial_pipline_c.Prelude.{
  ℕ, zero, suc, ◌+◌, ◌≤◌, ◌≡◌, refl, ap, Bool, true, false, none, some, List, [], ◌∷◌, length,
  get_elem?, set, arith, Bool-cases, Option-cases, inl, inr,
}
use alpha_fincial_pipline_c.Date.{bool_ℕ}
use alpha_fincial_pipline_c.LwsRuntime.{
  Watch, Runtime, Reason, raw_rx, raw_rx_file, raw_writeable, raw_writeable_file, timer_fired,
  raw_close, raw_close_file, other, foreign_fd_callback, replicate, empty_watch, free_slot,
}

abbrev pub count_active : List Watch → ℕ
count_active [] = 0
count_active (watch ∷ watches) = bool_ℕ watch.active + count_active watches

pub count_active-set :
    (watches : List Watch) (i : ℕ) (old new : Watch)
    → get_elem? watches i ≡ some old
    → count_active (set watches i new) + bool_ℕ old.active
      ≡ count_active watches + bool_ℕ new.active
count_active-set [] i old new h = absurd (ground arith)
count_active-set (watch ∷ watches) zero old new h =
    let same : watch ≡ old = inj h in rw same (omega arith)
  where
    inj : {a b : Watch} → some a ≡ some b → a ≡ b
    inj p = cc
count_active-set (watch ∷ watches) (suc i) old new h =
    omega (arith, count_active-set watches i old new h)

count_active-le : (watches : List Watch) → count_active watches ≤ length watches
count_active-le [] = omega arith
count_active-le (watch ∷ watches) = omega (arith, count_active-le watches, one watch.active)
  where
    one : (b : Bool) → bool_ℕ b ≤ 1
    one true = omega arith
    one false = omega arith

-- A slot that is found is there and not active; if none is found, all are active.
pub free_slot-some :
    (watches : List Watch) (i : ℕ)
    → free_slot watches ≡ some i
    → (watch : Watch) × (get_elem? watches i ≡ some watch) × (watch.active ≡ false)
unfolding free_slot
free_slot-some [] i h = absurd (ground arith)
free_slot-some (watch ∷ watches) i h = elim (Bool-cases watch.active) [
  | inr e ↦ (watch, rw (← zero_is i (rw e at h)) refl, e)
  | inl e ↦ elim (Option-cases (free_slot watches)) [
    | inl n ↦ absurd (nothing i (rw (e, n) at h))
    | inr (j, n) ↦
        let (found, at, off) = free_slot-some watches j n in
        (found, rw (← next_is i j (rw (e, n) at h)) at, off)
  ]
]
  where
    zero_is : (i : ℕ) → some 0 ≡ some i → 0 ≡ i
    zero_is i p = cc

    nothing : (i : ℕ) → none ≡ some i → ⊥
    nothing i p = absurd (ground arith)

    next_is : (i j : ℕ) → some (suc j) ≡ some i → suc j ≡ i
    next_is i j p = cc

pub free_slot-none :
    (watches : List Watch) → free_slot watches ≡ none → count_active watches ≡ length watches
unfolding free_slot
free_slot-none [] h = refl
free_slot-none (watch ∷ watches) h = elim (Bool-cases watch.active) [
  | inr e ↦ absurd (nothing 0 (rw e at h))
  | inl e ↦ elim (Option-cases (free_slot watches)) [
    | inl n ↦ omega (arith, free_slot-none watches n, ap bool_ℕ e)
    | inr (j, n) ↦ absurd (nothing (suc j) (rw (e, n) at h))
  ]
]
  where
    nothing : (i : ℕ) → some i ≡ none → ⊥
    nothing i p = absurd (ground arith)

-- A callback of the handle leaves the slot active or free.
pub foreign_fd_callback-active :
    (watch : Watch) (reason : Reason) → (foreign_fd_callback watch reason).0.active ≡ watch.active
unfolding foreign_fd_callback
foreign_fd_callback-active watch raw_rx = refl
foreign_fd_callback-active watch raw_rx_file = refl
foreign_fd_callback-active watch raw_writeable = refl
foreign_fd_callback-active watch raw_writeable_file = refl
foreign_fd_callback-active watch timer_fired = refl
foreign_fd_callback-active watch raw_close = refl
foreign_fd_callback-active watch raw_close_file = refl
foreign_fd_callback-active watch other = refl

pub count_active-replicate : (n : ℕ) → count_active (replicate n empty_watch) ≡ 0
count_active-replicate zero = refl
count_active-replicate (suc n) = omega (arith, count_active-replicate n)

pub length-replicate : (n : ℕ) → length (replicate n empty_watch) ≡ n
length-replicate zero = refl
length-replicate (suc n) = ap suc (length-replicate n)

-- `count` counts the active watches, of at most 256 slots.
pub record IsRuntime (runtime : Runtime) : Type 0 where
  pub counted : runtime.count ≡ count_active runtime.watches
  pub sized : length runtime.watches ≡ runtime.capacity
  pub small : runtime.capacity ≤ 256

pub IsRuntime-bound : (runtime : Runtime) → IsRuntime runtime → runtime.count ≤ runtime.capacity
IsRuntime-bound runtime h =
    let c = h.counted in let s = h.sized in omega (arith, count_active-le runtime.watches)
