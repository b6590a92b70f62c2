-- ===== src/Postgres/Queue.antt =====
-- The ring of slots in core/platform/db/postgres.c as a queue of requests.
use alpha_fincial_pipline_c.Prelude.{
  ℕ, zero, suc, ◌+◌, ◌-◌, ◌%◌, ◌≤◌, ◌<◌, ◌≡◌, ◌≢◌, refl, ap, ap₂, ◌∙◌, sym, Option, none, some,
  List, [], ◌∷◌, ◌++◌, length, get_elem?, set, arith, get_elem?-set_self, get_elem?-set_ne,
}
use native.Mathlib.Nat.{mod-add-mod, mod-eq_of_lt, mod-eq-sub-mod, add-zero}
use native.Mathlib.Decide.{dec_lt}
use alpha_fincial_pipline_c.Postgres.{PendingRequest, Pg, complete_head, head_request}

abbrev pub slot_at : List (Option PendingRequest) → ℕ → Option PendingRequest
slot_at fifo i = elim (get_elem? fifo i) [ none ↦ none | some slot ↦ slot ]

-- The `n` slots of a ring of `cap` from offset `k` behind `head` on.
unfoldable pub ring : List (Option PendingRequest) → ℕ → ℕ → ℕ → ℕ → List (Option PendingRequest)
ring fifo cap head k zero = []
ring fifo cap head k (suc n) = slot_at fifo ((head + k) % cap) ∷ ring fifo cap head (suc k) n

-- The slots in use, oldest first.
abbrev pub pending : Pg → List (Option PendingRequest)
pending pg = ring pg.fifo pg.capacity pg.head 0 pg.count

pub record IsValid (pg : Pg) : Type 0 where
  pub size : length pg.fifo ≡ pg.capacity
  pub head_in : pg.head < pg.capacity
  pub count_in : pg.count ≤ pg.capacity

-- Two offsets below the capacity have two slots.
slot-ne : (cap head j k : ℕ) → head < cap → j < k → k < cap → (head + j) % cap ≢ (head + k) % cap
slot-ne cap head j k h l m = elim (dec_lt (head + k) cap) [
  | yes p ↦ omega (
    arith,
    mod-eq_of_lt {n = head + k} {m = cap} p,
    mod-eq_of_lt {n = head + j} {m = cap} (omega arith),
  )
  | no p ↦ elim (dec_lt (head + j) cap) [
    | yes q ↦ omega (
      arith,
      mod-eq_of_lt {n = head + j} {m = cap} q,
      mod-eq-sub-mod {n = head + k} {m = cap} (omega arith),
      mod-eq_of_lt {n = head + k - cap} {m = cap} (omega arith),
    )
    | no q ↦ omega (
      arith,
      mod-eq-sub-mod {n = head + j} {m = cap} (omega arith),
      mod-eq_of_lt {n = head + j - cap} {m = cap} (omega arith),
      mod-eq-sub-mod {n = head + k} {m = cap} (omega arith),
      mod-eq_of_lt {n = head + k - cap} {m = cap} (omega arith),
    )
  ]
]

slot_at-set_self :
    (fifo : List (Option PendingRequest)) (i : ℕ) (v : Option PendingRequest)
    → i < length fifo
    → slot_at (set fifo i v) i ≡ v
slot_at-set_self fifo i v h = ground (arith, get_elem?-set_self fifo i v h)

slot_at-set_ne :
    (fifo : List (Option PendingRequest)) (i j : ℕ) (v : Option PendingRequest)
    → i ≢ j
    → slot_at (set fifo i v) j ≡ slot_at fifo j
slot_at-set_ne fifo i j v h = ground (arith, get_elem?-set_ne fifo v h)

-- A write at the next free offset appends to the slots in use.
ring-set :
    (fifo : List (Option PendingRequest)) (cap head i k n m : ℕ) (v : Option PendingRequest)
    → length fifo ≡ cap
    → head < cap
    → m ≡ k + n
    → m < cap
    → i ≡ (head + m) % cap
    → ring (set fifo i v) cap head k (suc n) ≡ ring fifo cap head k n ++ (v ∷ [])
unfolding ring
ring-set fifo cap head i k zero m v s h e l p =
    let same : m ≡ k = omega arith in
    let at : (head + k) % cap ≡ i = rw (p, same) in
    let inside : i < length fifo = rw (p, s) (omega arith) in
    rw (at, slot_at-set_self fifo i v inside)
ring-set fifo cap head i k (suc n) m v s h e l p =
    ap₂ ◌∷◌
      (slot_at-set_ne fifo i ((head + k) % cap) v
        (λ q. slot-ne cap head k m h (omega arith) l (sym q ∙ p)))
      (ring-set fifo cap head i (suc k) n m v s h (omega arith) l p)

-- Moving the head on by one moves the offsets.
ring-shift :
    (fifo : List (Option PendingRequest)) (cap head k n : ℕ)
    → ring fifo cap ((head + 1) % cap) k n ≡ ring fifo cap head (suc k) n
unfolding ring
ring-shift fifo cap head k zero = refl
ring-shift fifo cap head k (suc n) =
    let same : ((head + 1) % cap + k) % cap ≡ (head + suc k) % cap =
      rw mod-add-mod (ap (λ m. m % cap) (omega arith)) in
    rw (same, ring-shift fifo cap head (suc k) n)

pub pending-send :
    (pg : Pg) (request : PendingRequest)
    → IsValid pg
    → pg.count < pg.capacity
    → ring
        (set pg.fifo ((pg.head + pg.count) % pg.capacity) (some request))
        pg.capacity
        pg.head
        0
        (pg.count + 1)
      ≡ pending pg ++ (some request ∷ [])
pending-send pg request v l =
    let next : pg.count + 1 ≡ suc pg.count = omega arith in
    rw next (
      ring-set pg.fifo pg.capacity pg.head _ 0 pg.count pg.count (some request) v.size v.head_in
        (omega arith) l refl)

ring-cons :
    (fifo : List (Option PendingRequest)) (cap head n : ℕ)
    → head < cap
    → n ≢ 0
    → ring fifo cap head 0 n ≡ slot_at fifo head ∷ ring fifo cap ((head + 1) % cap) 0 (n - 1)
unfolding ring
ring-cons fifo cap head zero h ne = absurd (ne refl)
ring-cons fifo cap head (suc n) h ne =
    let at : (head + 0) % cap ≡ head = rw add-zero (mod-eq_of_lt h) in
    let less : suc n - 1 ≡ n = omega arith in rw (at, less, ring-shift fifo cap head 0 n)

-- Completing the head takes the oldest slot off.
pub pending-complete_head :
    (pg : Pg)
    → IsValid pg
    → pg.count ≢ 0
    → pending pg ≡ head_request pg ∷ pending (complete_head pg)
unfolding complete_head
pending-complete_head pg v ne = ring-cons pg.fifo pg.capacity pg.head pg.count v.head_in ne
