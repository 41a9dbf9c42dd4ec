-- ===== src/Proxy/Provider/Reuse.antt =====
-- What a refresh keeps of the backends that the pool already has.
use backend_infra_platform.Base.{
  ℕ, zero, suc, String, true, List, [], ◌∷◌, ◌++◌, Option, some, ◌≡◌, refl, sym, ap, ◌∙◌, subst,
  arith, inl, inr, Bool-cases, Option-cases, Memᴰ, get_elem?, length,
}
use mathlib.Core.List.{append-nil}
use backend_infra_platform.Base.SyncMap.{SyncMap, load}
use backend_infra_platform.Proxy.{Backend, Heap, new_backend}
use backend_infra_platform.Proxy.Provider.{
  BackendSpec, ConfigProvider, is_same, existing, add, add_spec, add_specs, refresh,
}

get_elem-append :
    (h ext : Heap) (a : ℕ) (b : Backend) → get_elem? h a ≡ some b → get_elem? (h ++ ext) a ≡ some b
get_elem-append [] ext a b e = absurd (ground arith)
get_elem-append (c ∷ h) ext zero b e = e
get_elem-append (c ∷ h) ext (suc a) b e = get_elem-append h ext a b e

Mem-left : (a : ℕ) (xs ys : List ℕ) → Memᴰ a xs → Memᴰ a (xs ++ ys)
Mem-left a [] ys m = elim m [ ]
Mem-left a (x ∷ xs) ys (Memᴰ.head e) = Memᴰ.head e
Mem-left a (x ∷ xs) ys (Memᴰ.tail m) = Memᴰ.tail (Mem-left a xs ys m)

Mem-end : (a : ℕ) (xs : List ℕ) → Memᴰ a (xs ++ a ∷ [])
Mem-end a [] = Memᴰ.head refl
Mem-end a (x ∷ xs) = Memᴰ.tail (Mem-end a xs)

is_same-to :
    (spec : BackendSpec) (h : Heap) (a : ℕ)
    → is_same spec (get_elem? h a) ≡ true
    → (b : Backend) × (get_elem? h a ≡ some b) × (is_same spec (some b) ≡ true)
unfolding is_same
is_same-to spec h a s = elim (Option-cases (get_elem? h a)) [
  | inl g ↦ absurd (ground arith)
  | inr (b, g) ↦ (b, g, ground arith)
]

-- What is kept is a backend of that URL and weight.
existing-to :
    (spec : BackendSpec) (known : SyncMap ℕ) (h : Heap) (a : ℕ)
    → existing spec known h ≡ some a
    → (load spec.name known ≡ some a)
      × ((b : Backend) × (get_elem? h a ≡ some b) × (is_same spec (some b) ≡ true))
unfolding existing
existing-to spec known h a e = elim (Option-cases (load spec.name known)) [
  | inl l ↦ absurd (ground arith)
  | inr (x, l) ↦ elim (Bool-cases (is_same spec (get_elem? h x))) [
    | inl s ↦
        let q : x ≡ a = ground arith in
        (l ∙ ap some q, is_same-to spec h a (subst (λ y. is_same spec (get_elem? h y) ≡ true) q s))
    | inr s ↦ absurd (ground arith)
  ]
]

existing-from :
    (spec : BackendSpec) (known : SyncMap ℕ) (h : Heap) (a : ℕ) (b : Backend)
    → load spec.name known ≡ some a
    → get_elem? h a ≡ some b
    → is_same spec (some b) ≡ true
    → existing spec known h ≡ some a
unfolding existing
existing-from spec known h a b l g s = rw (l, existing) (rw g (rw s refl))

module _ (parse_url : String → Option String) (known : SyncMap ℕ) where
  -- One spec adds to the pool and to the heap, at their ends.
  add_spec-grows :
      (spec : BackendSpec) (t : ConfigProvider)
      → ((xs : List ℕ) × ((add_spec parse_url known spec t).pool ≡ t.pool ++ xs))
        × ((ext : Heap) × ((add_spec parse_url known spec t).heap ≡ t.heap ++ ext))
  unfolding add_spec add
  add_spec-grows spec t = elim (Option-cases (existing spec known t.heap)) [
    | inl e ↦ elim (Option-cases (new_backend parse_url spec.name spec.url spec.weight)) [
      | inl n ↦
          rw (e, add_spec) (rw n (([], sym (append-nil t.pool)), ([], sym (append-nil t.heap))))
      | inr (b, n) ↦ rw (e, add_spec) (rw n ((length t.heap ∷ [], refl), (b ∷ [], refl)))
    ]
    | inr (a, e) ↦ rw (e, add_spec) ((a ∷ [], refl), ([], sym (append-nil t.heap)))
  ]

  add_spec-adds :
      (spec : BackendSpec) (t : ConfigProvider) (a : ℕ)
      → existing spec known t.heap ≡ some a
      → (add_spec parse_url known spec t).pool ≡ t.pool ++ a ∷ []
  unfolding add_spec add
  add_spec-adds spec t a e = rw (e, add_spec) refl

  add_specs-cons :
      (spec : BackendSpec) (specs : List BackendSpec) (t : ConfigProvider)
      → add_specs parse_url known (spec ∷ specs) t
        ≡ add_specs parse_url known specs (add_spec parse_url known spec t)
  unfolding add_specs
  add_specs-cons spec specs t = refl

  add_specs-nil : (t : ConfigProvider) → add_specs parse_url known [] t ≡ t
  unfolding add_specs
  add_specs-nil t = refl

  -- What is in the pool or in the heap stays there.
  add_specs-keeps :
      (specs : List BackendSpec) (t : ConfigProvider) (a : ℕ)
      → (Memᴰ a t.pool → Memᴰ a (add_specs parse_url known specs t).pool)
        × ((b : Backend)
            → get_elem? t.heap a ≡ some b
            → get_elem? (add_specs parse_url known specs t).heap a ≡ some b)
  add_specs-keeps [] t a = rw add_specs-nil (λ m. m, λ b e. e)
  add_specs-keeps (spec ∷ specs) t a =
      let ((xs, p), (ext, q)) = add_spec-grows spec t in
      let (m, g) = add_specs-keeps specs (add_spec parse_url known spec t) a in
      rw add_specs-cons (
        λ i. m (subst (Memᴰ a) (sym p) (Mem-left a t.pool xs i)),
        λ b e. g b (subst (λ h. get_elem? h a ≡ some b) (sym q) (get_elem-append t.heap ext a b e)),
      )

  add_specs-reuses :
      (specs : List BackendSpec) (t : ConfigProvider) (spec : BackendSpec) (a : ℕ)
      → Memᴰ spec specs
      → existing spec known t.heap ≡ some a
      → Memᴰ a (add_specs parse_url known specs t).pool
  add_specs-reuses [] t spec a m e = elim m [ ]
  add_specs-reuses (first ∷ specs) t spec a (Memᴰ.head p) e = rw add_specs-cons (
      (add_specs-keeps specs (add_spec parse_url known first t) a).0 (
        subst (Memᴰ a)
          (sym (add_spec-adds first t a (subst (λ x. existing x known t.heap ≡ some a) p e)))
          (Mem-end a t.pool)))
  add_specs-reuses (first ∷ specs) t spec a (Memᴰ.tail m) e =
      let (l, (b, g, s)) = existing-to spec known t.heap a e in
      let ((xs, p), (ext, q)) = add_spec-grows first t in
      rw add_specs-cons (
        add_specs-reuses specs (add_spec parse_url known first t) spec a m (
          existing-from spec known _ a b l
            (subst (λ h. get_elem? h a ≡ some b) (sym q) (get_elem-append t.heap ext a b g)) s))

-- Let a refresh bring a spec for which a backend of that name, URL and weight is known at `a`. Then
-- that backend itself is in the pool afterwards, wherever the spec stands among the others, and its
-- health and its counters are untouched.
pub refresh-reuses :
    (parse_url : String → Option String) (specs : List BackendSpec) (c : ConfigProvider)
    (spec : BackendSpec) (a : ℕ)
    → Memᴰ spec specs
    → existing spec c.known c.heap ≡ some a
    → Memᴰ a (refresh parse_url (some specs) c).pool
      × (get_elem? (refresh parse_url (some specs) c).heap a ≡ get_elem? c.heap a)
unfolding refresh
refresh-reuses parse_url specs c spec a m e =
    let start : ConfigProvider = record { known = []; pool = []; heap = c.heap } in
    let (_, (b, g, _)) = existing-to spec c.known c.heap a e in
    (
      add_specs-reuses parse_url c.known specs start spec a m e,
      (add_specs-keeps parse_url c.known specs start a).1 b g ∙ sym g,
    )
