-- ===== src/Buffer/Store/Refs.antt =====
-- What each operation of source/buffer.cpp does to the reference counts, given the handles.
use ez.Base.{
  ◌+◌, ◌^◌, ◌≤◌, ◌<◌, ◌≡◌, ◌≢◌, ◌∷◌, ◌==◌, ℕ, zero, suc, refl, ap, inl, inr, true, false, Option,
  none, some, List, [], arith, ==_iff, Bool-cases, length, get_elem?, set, All, All-get_elem?, ok,
}
use ez.Buffer.{Buffer}
use mathlib.Core.Path.{subst}
use ez.Buffer.Store.{
  Impl, Heap, World, Given, no_area, new_area, area_of, is_new, constructed, allocate, assign,
  remove,
}
use ez.Buffer.Store.Counts.{
  hit, count, refs_at, IsTight, hit-le-count, count-le-length, two_hits, IsPlaced, has_area,
}
use ez.Buffer.Store.Areas.{dec_ref_lem, inc_ref_lem}

abbrev pub HasImpl : Option ℕ → Type 0
HasImpl none = ⊥
HasImpl (some p) = Unit

-- The count at each address is the number of handles that refer to it.
pub record IsBalanced (w : World) : Type 0 where
  pub tight : IsTight w.heap
  pub counted : (q : ℕ) → refs_at w.heap q ≡ count q w.handles
  pub owners : All HasImpl w.handles

some_inj : {c d : Impl} → some c ≡ some d → c ≡ d
some_inj e = cc

constructed_lem :
    (g : Given) (p : ℕ) (b : Buffer)
    → let c = constructed g p b in
      (1 ≤ c.refs) × IsPlaced p c.own_data c.area × (is_new g ≡ has_area (some c))
unfolding constructed
constructed_lem no_area p b = (omega arith, tt, refl)
constructed_lem new_area p b = (omega arith, refl, refl)
constructed_lem (area_of a) p b = (omega arith, tt, refl)

constructed-refs : (g : Given) (p : ℕ) (b : Buffer) → (constructed g p b).refs ≡ 1
unfolding constructed
constructed-refs no_area p b = refl
constructed-refs new_area p b = refl
constructed-refs (area_of a) p b = refl

pub allocate-IsTight : (g : Given) (b : Buffer) (h : Heap) → IsTight h → IsTight (allocate g b h).1
unfolding allocate
allocate-IsTight g b h t = record {
  positive = λ q c e. elim (Bool-cases (q == h.next)) [
    | inl s ↦ subst (λ x. 1 ≤ x.refs) (some_inj (rw s at e)) (constructed_lem g h.next b).0
    | inr s ↦ t.positive q c (rw s at e)
  ];
  placed = λ q c e. elim (Bool-cases (q == h.next)) [
    | inl s ↦
        let same : h.next ≡ q = ground (arith, ==_iff q h.next) in
        subst (λ n. IsPlaced n c.own_data c.area) same
          (subst (λ x. IsPlaced h.next x.own_data x.area) (some_inj (rw s at e))
            (constructed_lem g h.next b).1)
    | inr s ↦ t.placed q c (rw s at e)
  ];
  areas = λ q. elim (Bool-cases (q == h.next)) [
    | inl s ↦ rw s (constructed_lem g h.next b).2
    | inr s ↦ rw s (t.areas q)
  ];
  fresh = λ q le. let s : (q == h.next) ≡ false = ground arith in rw s (t.fresh q (omega arith));
}

pub allocate_refs :
    (g : Given) (b : Buffer) (h : Heap)
    → IsTight h
    → (q : ℕ) → refs_at (allocate g b h).1 q ≡ refs_at h q + hit q (some (allocate g b h).0)
unfolding allocate
allocate_refs g b h t q = elim (Bool-cases (q == h.next)) [
  | inl s ↦ let z = t.fresh q (ground arith) in rw (s, z) (constructed-refs g h.next b)
  | inr s ↦ rw s (omega arith)
]

module _ (h : Heap) (hs : List (Option ℕ)) (t : IsTight h)
    (n : (q : ℕ) → refs_at h q ≡ count q hs) where
  -- A handle that is there refers to an object that is there.
  pub one_ref : (i p : ℕ) → get_elem? hs i ≡ some (some p) → 1 ≤ refs_at h p
  one_ref i p e =
      let s : (p == p) ≡ true = ground arith in
      let le = hit-le-count p i hs (some p) e in ground (arith, n p)

  pub few_refs : (p : ℕ) → length hs < 2 ^ 32 → refs_at h p < 2 ^ 32
  few_refs p lt = omega (arith, n p, count-le-length p hs)

  -- After `dec_ref` for the left object the right one is still there, even where the two share
  -- their `impl`: two handles have two references.
  pub assign_other :
      (i j l r : ℕ)
      → i ≢ j
      → get_elem? hs i ≡ some (some l)
      → get_elem? hs j ≡ some (some r)
      → length hs + 1 < 2 ^ 32
      → (h' : Heap) × (assign false (some l) (some r) h ≡ ok (some r, h'))
        × IsTight h'
        × ((q : ℕ) → refs_at h' q + hit q (some l) ≡ refs_at h q + hit q (some r))
  unfolding assign
  assign_other i j l r d ei ej lt =
      let (h1, e1, t1, n1) = dec_ref_lem h l t (one_ref i l ei) (few_refs l (omega arith)) in
      let two : hit r (some l) + hit r (some r) ≤ count r hs = two_hits r i j hs _ _ d ei ej in
      let self : hit r (some r) ≡ 1 = ground arith in
      let there : 1 ≤ refs_at h1 r = omega (arith, n r, n1 r) in
      let few : refs_at h1 r + 1 < 2 ^ 32 = omega (arith, n r, n1 r, count-le-length r hs) in
      let (h2, e2, t2, n2) = inc_ref_lem h1 r t1 there few in
      (h2, rw (e1, e2) refl, t2, λ q. omega (arith, n1 q, n2 q))

  pub assign_fresh :
      (j r : ℕ)
      → get_elem? hs j ≡ some (some r)
      → length hs + 1 < 2 ^ 32
      → (h' : Heap) × (assign false none (some r) h ≡ ok (some r, h'))
        × IsTight h'
        × ((q : ℕ) → refs_at h' q ≡ refs_at h q + hit q (some r))
  unfolding assign
  assign_fresh j r ej lt =
      let few : refs_at h r + 1 < 2 ^ 32 = omega (arith, n r, count-le-length r hs) in
      let (h2, e2, t2, n2) = inc_ref_lem h r t (one_ref j r ej) few in (h2, rw e2 refl, t2, n2)

pub owner :
    (hs : List (Option ℕ)) (i : ℕ) (x : Option ℕ)
    → All HasImpl hs
    → get_elem? hs i ≡ some x
    → (p : ℕ) × (x ≡ some p)
owner hs i none o e = absurd (All-get_elem? HasImpl hs i none o e)
owner hs i (some p) o e = (p, refl)

pub owners-set : (hs : List (Option ℕ)) (i p : ℕ) → All HasImpl hs → All HasImpl (set hs i (some p))
owners-set [] i p o = tt
owners-set (x ∷ hs) zero p (ox, o) = (tt, o)
owners-set (x ∷ hs) (suc i) p (ox, o) = (ox, owners-set hs i p o)

pub owners-remove : (hs : List (Option ℕ)) (i : ℕ) → All HasImpl hs → All HasImpl (remove i hs)
owners-remove [] i o = tt
owners-remove (x ∷ hs) zero (ox, o) = o
owners-remove (x ∷ hs) (suc i) (ox, o) = (ox, owners-remove hs i o)

pub length-remove-le : (hs : List (Option ℕ)) (i : ℕ) → length (remove i hs) ≤ length hs
length-remove-le [] i = omega arith
length-remove-le (x ∷ hs) zero = omega arith
length-remove-le (x ∷ hs) (suc i) = omega (arith, length-remove-le hs i)

pub set_same :
    (hs : List (Option ℕ)) (i : ℕ) (x : Option ℕ) → get_elem? hs i ≡ some x → set hs i x ≡ hs
set_same [] i x e = refl
set_same (y ∷ hs) zero x e = let s : x ≡ y = ground arith in rw s refl
set_same (y ∷ hs) (suc i) x e = ap (λ t. y ∷ t) (set_same hs i x e)
