-- ===== src/Proxy/Balancer/Choice.antt =====
-- What every strategy promises, and what the least-connections strategy minimises.
use backend_infra_platform.Base.{
  ℕ, zero, suc, ◌%◌, ◌<◌, ℤ, pos, ◌+ℤ◌, ◌≤ℤ◌, ltb_ℤ, leb_ℤ, ltb, Bool, true, List, [], ◌∷◌, Option,
  none, some, ◌≡◌, refl, ◌∙◌, sym, ap, subst, ◌⊎◌, inl, inr, arith, Bool-cases, Memᴰ, All,
  get_elem?, length, keep, if◌then◌else◌,
}
use backend_infra_platform.Proxy.{Heap, Pool, healthy, is_alive, active_connections, weight_of}
use backend_infra_platform.Proxy.Balancer.{
  Strategy, to_uint64, fewest, pick, rotate, next_of, next, drawn, total_weight,
}

get_elem-Mem :
    (i : ℕ) (xs : List ℕ) → i < length xs → (x : ℕ) × (get_elem? xs i ≡ some x) × Memᴰ x xs
get_elem-Mem i [] h = absurd (omega arith)
get_elem-Mem zero (x ∷ xs) h = (x, refl, Memᴰ.head refl)
get_elem-Mem (suc i) (x ∷ xs) h =
    let (y, e, m) = get_elem-Mem i xs (omega arith) in (y, e, Memᴰ.tail m)

rotate-Mem : (idx b : ℕ) (bs : List ℕ) → (a : ℕ) × (rotate idx (b ∷ bs) ≡ some a) × Memᴰ a (b ∷ bs)
unfolding rotate
rotate-Mem idx b bs = get_elem-Mem (idx % length (b ∷ bs)) (b ∷ bs) (omega arith)

fewest-Mem : (h : Heap) (best : ℕ) (bs : List ℕ) → Memᴰ (fewest h best bs) (best ∷ bs)
unfolding fewest
fewest-Mem h best [] = Memᴰ.head refl
fewest-Mem h best (b ∷ bs) =
    elim (Bool-cases (ltb_ℤ (active_connections h b) (active_connections h best))) [
      | inl e ↦ rw e (Memᴰ.tail (fewest-Mem h b bs))
      | inr e ↦ rw e (elim (fewest-Mem h best bs) [
        | Memᴰ.head p ↦ Memᴰ.head p
        | Memᴰ.tail m ↦ Memᴰ.tail (Memᴰ.tail m)
      ])
    ]

pick-Mem :
    (h : Heap) (slot : ℕ) (c : ℤ) (last : ℕ) (bs : List ℕ)
    → Memᴰ (pick h slot c last bs) (last ∷ bs)
unfolding pick
pick-Mem h slot c last [] = Memᴰ.head refl
pick-Mem h slot c last (b ∷ bs) = elim (Bool-cases (ltb slot (to_uint64 (c +ℤ weight_of h b)))) [
  | inl e ↦ rw e (Memᴰ.tail (Memᴰ.head refl))
  | inr e ↦ rw e (Memᴰ.tail (pick-Mem h slot (c +ℤ weight_of h b) b bs))
]

abbrev Chooses : List ℕ → Option ℕ → Type 0
Chooses bs o = (a : ℕ) × (o ≡ some a) × Memᴰ a bs

next_of-Chooses :
    (s : Strategy) (h : Heap) (counter b : ℕ) (bs : List ℕ)
    → Chooses (b ∷ bs) (next_of s h counter (b ∷ bs)).0
unfolding next_of
next_of-Chooses Strategy.round_robin h counter b bs = rotate-Mem (drawn counter) b bs
next_of-Chooses Strategy.least_conn h counter b bs = (fewest h b bs, refl, fewest-Mem h b bs)
next_of-Chooses Strategy.weighted_round_robin h counter b bs =
    elim (Bool-cases (leb_ℤ (total_weight h (pos 0) (b ∷ bs)) (pos 0))) [
      | inl e ↦ rw e (rotate-Mem (drawn counter) b bs)
      | inr e ↦ rw e (
        _,
        refl,
        elim (pick-Mem h _ (pos 0) b (b ∷ bs)) [ Memᴰ.head p ↦ Memᴰ.head p | Memᴰ.tail m ↦ m ],
      )
    ]

keep-Mem : (q : ℕ → Bool) (n : ℕ) (ns : List ℕ) → Memᴰ n (keep q ns) → Memᴰ n ns × (q n ≡ true)
keep-Mem q n [] h = elim h [ ]
keep-Mem q n (m ∷ ns) h = elim (Bool-cases (q m)) [
  | inl e ↦ elim (subst (λ t. Memᴰ n (if t then m ∷ keep q ns else keep q ns)) e h) [
    | Memᴰ.head p ↦ (Memᴰ.head p, rw p e)
    | Memᴰ.tail t ↦ let (i, r) = keep-Mem q n ns t in (Memᴰ.tail i, r)
  ]
  | inr e ↦
      let (i, r) =
        keep-Mem q n ns (subst (λ t. Memᴰ n (if t then m ∷ keep q ns else keep q ns)) e h) in
      (Memᴰ.tail i, r)
]

next_of-outcome :
    (s : Strategy) (h : Heap) (counter : ℕ) (bs : List ℕ)
    → ((bs ≡ []) × ((next_of s h counter bs).0 ≡ none)) ⊎ Chooses bs (next_of s h counter bs).0
unfolding next_of
next_of-outcome s h counter [] = inl (refl, refl)
next_of-outcome s h counter (b ∷ bs) = inr (next_of-Chooses s h counter b bs)

-- For every strategy, every counter and every pool: either no backend of the pool is alive and the
-- choice fails, or the choice is a backend of the pool that is alive. The index never leaves the
-- list, whatever the weights and however far the counter has wrapped.
pub next-outcome :
    (s : Strategy) (h : Heap) (pool : Pool) (counter : ℕ)
    → ((healthy h pool ≡ []) × ((next s h pool counter).0 ≡ none))
      ⊎ ((a : ℕ) × ((next s h pool counter).0 ≡ some a) × Memᴰ a pool × (is_alive h a ≡ true))
unfolding next healthy
next-outcome s h pool counter = elim (next_of-outcome s h counter (healthy h pool)) [
  | inl e ↦ inl e
  | inr (a, e, m) ↦ let (i, q) = keep-Mem (is_alive h) a pool m in inr (a, e, i, q)
]

fewest-cons :
    (h : Heap) (best b : ℕ) (bs : List ℕ)
    → fewest h best (b ∷ bs)
      ≡ fewest h (if ltb_ℤ (active_connections h b) (active_connections h best) then b else best) bs
unfolding fewest
fewest-cons h best b bs = refl

fewest-nil : (h : Heap) (best : ℕ) → fewest h best [] ≡ best
unfolding fewest
fewest-nil h best = refl

fewest-least :
    (h : Heap) (best : ℕ) (bs : List ℕ)
    → (active_connections h (fewest h best bs) ≤ℤ active_connections h best)
      × All (λ b. active_connections h (fewest h best bs) ≤ℤ active_connections h b) bs
fewest-least h best [] = rw fewest-nil (omega arith, tt)
fewest-least h best (b ∷ bs) =
    let P : ℕ → Type 0 = λ x.
      (active_connections h x ≤ℤ active_connections h best)
      × All (λ y. active_connections h x ≤ℤ active_connections h y) (b ∷ bs) in
    elim (Bool-cases (ltb_ℤ (active_connections h b) (active_connections h best))) [
      | inl e ↦
          let (i, all) = fewest-least h b bs in
          subst P (sym (fewest-cons h best b bs ∙ ap (λ d. fewest h (if d then b else best) bs) e))
            (ground (arith, i), (i, all))
      | inr e ↦
          let (i, all) = fewest-least h best bs in
          subst P (sym (fewest-cons h best b bs ∙ ap (λ d. fewest h (if d then b else best) bs) e))
            (i, (ground (arith, i), all))
    ]

least-of :
    (h : Heap) (counter : ℕ) (bs : List ℕ) (a : ℕ)
    → (next_of Strategy.least_conn h counter bs).0 ≡ some a
    → All (λ b. active_connections h a ≤ℤ active_connections h b) bs
unfolding next_of
least-of h counter [] a e = tt
least-of h counter (b ∷ bs) a e =
    subst (λ x. All (λ y. active_connections h x ≤ℤ active_connections h y) (b ∷ bs)) (ground arith)
      (fewest-least h b bs)

-- The backend that the least-connections strategy chooses has at most as many active connections as
-- every living backend of the pool.
pub least_conn-minimal :
    (h : Heap) (pool : Pool) (counter a : ℕ)
    → (next Strategy.least_conn h pool counter).0 ≡ some a
    → All (λ b. active_connections h a ≤ℤ active_connections h b) (healthy h pool)
unfolding next
least_conn-minimal h pool counter a e = least-of h counter (healthy h pool) a e

-- The choice of the least-connections strategy, from the healthy backends.
abbrev pub least_of : Heap → List ℕ → Option ℕ
least_of h [] = none
least_of h (b ∷ bs) = some (fewest h b bs)

next_of-least :
    (h : Heap) (counter : ℕ) (bs : List ℕ)
    → (next_of Strategy.least_conn h counter bs).0 ≡ least_of h bs
unfolding next_of
next_of-least h counter [] = refl
next_of-least h counter (b ∷ bs) = refl

pub next-least_of :
    (h : Heap) (pool : Pool) (counter : ℕ)
    → (next Strategy.least_conn h pool counter).0 ≡ least_of h (healthy h pool)
unfolding next
next-least_of h pool counter = next_of-least h counter (healthy h pool)
