-- ===== src/Buffer/Store/Areas.antt =====
-- `inc_ref` and `dec_ref` of source/buffer.cpp on a heap whose objects and areas are in order.
use ez.Base.{
  ◌+◌, ◌^◌, ◌≤◌, ◌<◌, ◌≡◌, ◌∙◌, ◌==◌, ℕ, refl, ap, inl, inr, Bool, true, false, Option, none, some,
  arith, ==_iff, Bool-cases, u32, ok, ◌-◌,
}
use mathlib.Core.Path.{subst}
use ez.Buffer.Store.{
  Impl, Area, null, made, foreign, Heap, update, mark, dec_ref, inc_ref, put, delete_area, freed,
  released, retained,
}
use ez.Buffer.Store.Counts.{
  hit, refs_of, refs_at, refs_at-put, IsTight, IsPlaced, has_area, is_made, cell_of_refs, lt_next,
}

-- Another object, or none, at an address, with the areas that go with it.
changed-IsTight :
    (h : Heap) (p : ℕ) (v : Option Impl) (areas : ℕ → Bool)
    → IsTight h
    → p < h.next
    → ((c : Impl) → v ≡ some c → (1 ≤ c.refs) × IsPlaced p c.own_data c.area)
    → areas p ≡ has_area v
    → ((q : ℕ) → (q == p) ≡ false → areas q ≡ h.areas q)
    → IsTight (record { cells = update h.cells p v; areas = areas; next = h.next })
changed-IsTight h p v areas t lt good here there = record {
  positive = λ q c e. elim (Bool-cases (q == p)) [
    | inl s ↦ (good c (rw s at e)).0
    | inr s ↦ t.positive q c (rw s at e)
  ];
  fresh = λ q le. let s : (q == p) ≡ false = ground arith in rw s (t.fresh q le);
  placed = λ q c e. elim (Bool-cases (q == p)) [
    | inl s ↦
        let same : p ≡ q = ground (arith, ==_iff q p) in
        subst (λ n. IsPlaced n c.own_data c.area) same (good c (rw s at e)).1
    | inr s ↦ t.placed q c (rw s at e)
  ];
  areas = λ q. elim (Bool-cases (q == p)) [
    | inl s ↦ let same : q ≡ p = ground (arith, ==_iff q p) in rw s (ap areas same ∙ here)
    | inr s ↦ rw s (there q s ∙ t.areas q)
  ];
}

-- Deleting an object takes its area with it if it owns one, and never one of a caller.
freed_lem :
    (h : Heap) (p : ℕ) (c : Impl)
    → IsTight h
    → h.cells p ≡ some c
    → (h' : Heap) × (freed p c h ≡ ok h') × IsTight h' × (h'.cells ≡ update h.cells p none)
unfolding freed delete_area
freed_lem h p c t e = go c.own_data c.area refl refl (t.placed p c e)
  where
    lt : p < h.next
    lt = lt_next h p c t e

    allocated : (d : Area) → c.area ≡ d → h.areas p ≡ is_made d
    allocated d q = t.areas p ∙ ap has_area e ∙ ap is_made q

    kept : (d : Area) → c.area ≡ d → is_made d ≡ false → IsTight (put h p none)
    kept d q n = changed-IsTight h p none h.areas t lt (λ x z. cc) (allocated d q ∙ n) (λ q s. refl)

    go :
        (own : Bool) (d : Area)
        → c.own_data ≡ own
        → c.area ≡ d
        → IsPlaced p own d
        → (h' : Heap) × (freed p c h ≡ ok h') × IsTight h' × (h'.cells ≡ update h.cells p none)
    go true null f g i = (put h p none, rw (f, g) refl, kept null g refl, refl)
    go true (made a) f g i =
        let there : h.areas a ≡ true = ap h.areas i ∙ allocated (made a) g in
        let self : (p == a) ≡ true = ground arith in
        (
          put (record h { areas = mark h.areas a false }) p none,
          rw (f, g, there) refl,
          changed-IsTight h p none (mark h.areas a false) t lt (λ x z. cc) (rw self refl)
              (λ q s. let other : (q == a) ≡ false = rw i s in rw other refl),
          refl,
        )
    go true (foreign a) f g i = absurd i
    go false null f g i = absurd i
    go false (made a) f g i = absurd i
    go false (foreign a) f g i = (put h p none, rw f refl, kept (foreign a) g refl, refl)

-- Another count for the object that is there.
recounted-IsTight :
    (h : Heap) (p n : ℕ) (c : Impl)
    → IsTight h
    → h.cells p ≡ some c
    → 1 ≤ n
    → IsTight (put h p (some (record c { refs = n })))
recounted-IsTight h p n c t e le =
    changed-IsTight h p (some (record c { refs = n })) h.areas t (lt_next h p c t e)
      (λ d z.
        subst (λ x. (1 ≤ x.refs) × IsPlaced p x.own_data x.area) (some_inj d z)
          (le, t.placed p c e))
      (t.areas p ∙ ap has_area e) (λ q s. refl)
  where
    some_inj : (d : Impl) → some (record c { refs = n }) ≡ some d → record c { refs = n } ≡ d
    some_inj d z = cc

-- `dec_ref` of an object that is there takes one reference off, and frees it at the last one.
pub dec_ref_lem :
    (h : Heap) (p : ℕ)
    → IsTight h
    → 1 ≤ refs_at h p
    → refs_at h p < 2 ^ 32
    → (h' : Heap) × (dec_ref p h ≡ ok h')
      × IsTight h'
      × ((q : ℕ) → refs_at h' q + hit q (some p) ≡ refs_at h q)
unfolding dec_ref released
dec_ref_lem h p t le lt =
    let (c, e) = cell_of_refs h p le in
    let r : refs_at h p ≡ c.refs = ap refs_of e in
    let n = u32 (c.refs + 2 ^ 32 - 1) in
    let down : n + 1 ≡ c.refs = omega arith in
    elim (Bool-cases (n == 0)) [
      | inl z ↦
          let (h', ed, t', cells) = freed_lem h p c t e in
          (
            h',
            rw (e, dec_ref, z) ed,
            t',
            λ q.
                ap (λ f. refs_of (f q) + hit q (some p)) cells
                ∙ ground (arith, refs_at-put h p none q, ==_iff q p),
          )
      | inr z ↦ (
        put h p (some (record c { refs = n })),
        rw (e, dec_ref, z) refl,
        recounted-IsTight h p n c t e (ground arith),
        λ q. ground (arith, refs_at-put h p (some (record c { refs = n })) q, ==_iff q p),
      )
    ]

pub inc_ref_lem :
    (h : Heap) (p : ℕ)
    → IsTight h
    → 1 ≤ refs_at h p
    → refs_at h p + 1 < 2 ^ 32
    → (h' : Heap) × (inc_ref p h ≡ ok h')
      × IsTight h'
      × ((q : ℕ) → refs_at h' q ≡ refs_at h q + hit q (some p))
unfolding inc_ref retained
inc_ref_lem h p t le lt =
    let (c, e) = cell_of_refs h p le in
    let r : refs_at h p ≡ c.refs = ap refs_of e in
    let n = u32 (c.refs + 1) in
    let up : n ≡ c.refs + 1 = omega arith in
    (
      put h p (some (record c { refs = n })),
      rw (e, inc_ref) refl,
      recounted-IsTight h p n c t e (omega arith),
      λ q. ground (arith, refs_at-put h p (some (record c { refs = n })) q, ==_iff q p),
    )
