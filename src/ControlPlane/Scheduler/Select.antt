-- ===== src/ControlPlane/Scheduler/Select.antt =====
-- Which node placement.go picks.
use backend_infra_platform.Base.{
  ◌≤◌, ◌≤ℤ◌, true, false, ◌&&◌, List, [], ◌∷◌, Option, none, some, ◌≡◌, refl, ◌⊎◌, inl, inr, arith,
  All, Bool-cases,
}
use mathlib.Core.List.{Memᴰ}
use backend_infra_platform.ControlPlane.Model.Deployment.{ResourceRequest}
use backend_infra_platform.ControlPlane.Model.Node.{Node}
use backend_infra_platform.ControlPlane.Scheduler.{
  is_candidate, is_better, consider, select_from, select_node,
}

-- `best` runs no more jobs than `n`, and registered no later if they run as many.
pub record IsPreferred (best n : Node) : Type 0 where
  pub less_loaded : best.running_jobs ≤ℤ n.running_jobs
  pub earlier : n.running_jobs ≤ℤ best.running_jobs → best.registered_at ≤ n.registered_at

abbrev pub Beats : ResourceRequest → Node → Node → Type 0
Beats required best n = is_candidate required n ≡ true → IsPreferred best n

-- The verdict on a list of nodes: nobody qualifies, or a qualified one that beats all others.
abbrev pub Chosen : ResourceRequest → List Node → Option Node → Type 0
Chosen required ns none = All (λ n. is_candidate required n ≡ false) ns
Chosen required ns (some best) =
    Memᴰ best ns × (is_candidate required best ≡ true) × All (Beats required best) ns

IsPreferred-refl : (n : Node) → IsPreferred n n
IsPreferred-refl n = record { less_loaded = omega arith; earlier = λ h. omega arith }

IsPreferred-trans : (a b c : Node) → IsPreferred a b → IsPreferred b c → IsPreferred a c
IsPreferred-trans a b c p q = record {
  less_loaded = omega (arith, p.less_loaded, q.less_loaded);
  earlier = λ h. omega (
    arith,
    p.less_loaded,
    q.less_loaded,
    p.earlier (omega (arith, q.less_loaded)),
    q.earlier (omega (arith, p.less_loaded)),
  );
}

is_better-IsPreferred : (n b : Node) → is_better n b ≡ true → IsPreferred n b
unfolding is_better
is_better-IsPreferred n b h = record { less_loaded = ground arith; earlier = λ e. ground arith }

not-is_better-IsPreferred : (n b : Node) → is_better n b ≡ false → IsPreferred b n
unfolding is_better
not-is_better-IsPreferred n b h = record { less_loaded = ground arith; earlier = λ e. ground arith }

module _ (required : ResourceRequest) where
  -- What the loop yields from a node that it holds already.
  record Improves (b : Node) (ns : List Node) : Type 0 where
    found : Node
    selected : select_from required (some b) ns ≡ some found
    origin : (found ≡ b) ⊎ Memᴰ found ns
    candidate : is_candidate required found ≡ true
    kept : IsPreferred found b
    beats : All (Beats required found) ns

  later : {x n : Node} {ns : List Node} → (x ≡ n) ⊎ Memᴰ x ns → Memᴰ x (n ∷ ns)
  later (inl e) = Memᴰ.head e
  later (inr m) = Memᴰ.tail m

  skip : {x b n : Node} {ns : List Node} → (x ≡ b) ⊎ Memᴰ x ns → (x ≡ b) ⊎ Memᴰ x (n ∷ ns)
  skip (inl e) = inl e
  skip (inr m) = inr (Memᴰ.tail m)

  select_from-Improves :
      (b : Node) (ns : List Node) → is_candidate required b ≡ true → Improves b ns
  unfolding select_from consider
  select_from-Improves b [] c = record {
    found = b;
    selected = refl;
    origin = inl refl;
    candidate = c;
    kept = IsPreferred-refl b;
    beats = tt;
  }
  select_from-Improves b (n ∷ ns) c = elim (Bool-cases (is_candidate required n && is_better n b)) [
    | inl take ↦
        let i = select_from-Improves n ns (ground arith) in
        record {
          found = i.found;
          selected = rw take i.selected;
          origin = inr (later i.origin);
          candidate = i.candidate;
          kept = IsPreferred-trans i.found n b i.kept (is_better-IsPreferred n b (ground arith));
          beats = (λ _. i.kept, i.beats);
        }
    | inr leave ↦
        let i = select_from-Improves b ns c in
        record {
          found = i.found;
          selected = rw leave i.selected;
          origin = skip i.origin;
          candidate = i.candidate;
          kept = i.kept;
          beats = (
            λ cn.
                IsPreferred-trans i.found b n i.kept (not-is_better-IsPreferred n b (ground arith)),
            i.beats,
          );
        }
  ]

  Chosen-cons_skip :
      (n : Node) (ns : List Node) (r : Option Node)
      → is_candidate required n ≡ false
      → Chosen required ns r
      → Chosen required (n ∷ ns) r
  Chosen-cons_skip n ns none c h = (c, h)
  Chosen-cons_skip n ns (some best) c (m, cb, all) = (Memᴰ.tail m, cb, (λ cn. absurd (cc), all))

-- `select_node` returns a candidate of the list that runs the fewest jobs among all the candidates
-- of the list, and that registered first among those; it finds none only if the list has none.
pub select_node-Chosen :
    (required : ResourceRequest) (ns : List Node) → Chosen required ns (select_node ns required)
unfolding select_node select_from consider
select_node-Chosen required [] = tt
select_node-Chosen required (n ∷ ns) = elim (Bool-cases (is_candidate required n)) [
  | inl c ↦
      let i = select_from-Improves required n ns c in
      rw (c, i.selected) (later required i.origin, i.candidate, (λ _. i.kept, i.beats))
  | inr c ↦ rw c (Chosen-cons_skip required n ns _ c (select_node-Chosen required ns))
]
