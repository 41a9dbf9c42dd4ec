-- ===== src/Proxy/Balancer/Rotation.antt =====
-- The turns that the round-robin strategy gives to the healthy backends.
use native.Mathlib.Nat.{mod-add-mod, mod-eq_of_lt, add-mod_right, mod-lt}
use backend_infra_platform.Base.{
  ℕ, zero, suc, ◌+◌, ◌-◌, ◌%◌, ◌≤◌, ◌<◌, leb, List, [], ◌∷◌, Option, ◌≡◌, sym, ap, ◌∙◌, arith, inl,
  inr, Bool-cases, get_elem?, length,
}
use backend_infra_platform.Proxy.{Heap, Pool, healthy}
use backend_infra_platform.Proxy.Balancer.{
  Strategy, next, next_of, rotate, drawn, add_one, uint64_mod,
}

-- The choice of the `k`-th call from the counter on, the pool and its health being the same.
abbrev pub turn : Heap → Pool → ℕ → ℕ → Option ℕ
turn h pool counter zero = (next Strategy.round_robin h pool counter).0
turn h pool counter (suc k) = turn h pool (next Strategy.round_robin h pool counter).1 k

drawn_eq : (c : ℕ) → c < uint64_mod → drawn c ≡ c
drawn_eq c h = omega (arith, h)

add_one_eq : (c : ℕ) → suc c < uint64_mod → add_one c ≡ suc c
add_one_eq c h = omega (arith, h)

next_of-round_robin :
    (h : Heap) (c b : ℕ) (bs : List ℕ)
    → c < uint64_mod
    → next_of Strategy.round_robin h c (b ∷ bs)
      ≡ (get_elem? (b ∷ bs) (c % length (b ∷ bs)), add_one c)
unfolding next_of rotate
next_of-round_robin h c b bs lt =
    ap (λ d. (get_elem? (b ∷ bs) (d % length (b ∷ bs)), add_one c)) (drawn_eq c lt)

next_of-alive :
    (h : Heap) (c : ℕ) (bs : List ℕ)
    → 0 < length bs
    → c < uint64_mod
    → next_of Strategy.round_robin h c bs ≡ (get_elem? bs (c % length bs), add_one c)
next_of-alive h c [] alive lt = absurd (omega (arith, alive))
next_of-alive h c (b ∷ bs) alive lt = next_of-round_robin h c b bs lt

next-round_robin :
    (h : Heap) (pool : Pool) (c : ℕ)
    → 0 < length (healthy h pool)
    → c < uint64_mod
    → next Strategy.round_robin h pool c
      ≡ (get_elem? (healthy h pool) (c % length (healthy h pool)), add_one c)
unfolding next
next-round_robin h pool c alive lt = next_of-alive h c (healthy h pool) alive lt

turn_eq :
    (h : Heap) (pool : Pool) (k c : ℕ)
    → 0 < length (healthy h pool)
    → c + k < uint64_mod
    → turn h pool c k ≡ get_elem? (healthy h pool) ((c + k) % length (healthy h pool))
turn_eq h pool zero c alive lt =
    ap (λ p. p.0) (next-round_robin h pool c alive (omega arith))
    ∙ ap (λ x. get_elem? (healthy h pool) (x % length (healthy h pool))) (omega arith)
turn_eq h pool (suc k) c alive lt =
    ap (λ p. turn h pool p.1 k) (next-round_robin h pool c alive (omega arith))
    ∙ ap (λ x. turn h pool x k) (add_one_eq c (omega (arith, lt)))
    ∙ turn_eq h pool k (suc c) alive (omega (arith, lt))
    ∙ ap (λ x. get_elem? (healthy h pool) (x % length (healthy h pool))) (omega arith)

-- A distance that takes `c` to the residue `i`.
distance : (c n i : ℕ) → i < n → (k : ℕ) × (k < n) × ((c + k) % n ≡ i)
distance c n i lt =
    let q = c % n in
    let small : q < n = mod-lt c (omega (arith, lt)) in
    elim (Bool-cases (leb q i)) [
      | inl le ↦
          let near : q + (i - q) ≡ i = ground arith in
          (
            i - q,
            omega (arith, lt),
            sym (mod-add-mod c n (i - q)) ∙ ap (λ x. x % n) near ∙ mod-eq_of_lt lt,
          )
      | inr gt ↦
          let past : i < q = ground arith in
          let far : q + (i + n - q) ≡ i + n = omega (arith, small) in
          (
            i + n - q,
            omega (arith, small, past),
            sym (mod-add-mod c n (i + n - q))
                ∙ ap (λ x. x % n) far
                ∙ add-mod_right i n
                ∙ mod-eq_of_lt lt,
          )
    ]

-- As long as the counter does not wrap, and the pool and its health stay the same, every healthy
-- backend has a turn within any run of as many calls as there are healthy backends, wherever the
-- counter stands.
pub round_robin-turns :
    (h : Heap) (pool : Pool) (c i : ℕ)
    → i < length (healthy h pool)
    → c + length (healthy h pool) ≤ uint64_mod
    → (k : ℕ) × (k < length (healthy h pool)) × (turn h pool c k ≡ get_elem? (healthy h pool) i)
round_robin-turns h pool c i lt room =
    let (k, short, at) = distance c (length (healthy h pool)) i lt in
    (
      k,
      short,
      turn_eq h pool k c (omega (arith, lt)) (omega (arith, short, room))
          ∙ ap (get_elem? (healthy h pool)) at,
    )
