-- ===== src/Buffer/Store/Balance.antt =====
-- The reference counts of source/buffer.cpp balance: however buffers are made, copied, assigned and
-- destroyed, an `impl` and the area that it owns live exactly as long as a handle refers to it.
use ez.Base.{
  ◌+◌, ◌^◌, ◌≤◌, ◌<◌, ◌≡◌, ◌∙◌, ◌∷◌, ◌==◌, ℕ, refl, ap, inl, inr, true, false, Option, none, some,
  List, [], arith, Option-cases, length, get_elem?, set, length-set, ok,
}
use native.Mathlib.Decide.{ℕ_discrete}
use ez.Buffer.{Buffer}
use ez.Buffer.Store.{
  Impl, Heap, World, Given, assign, destroy, Op, remove, step, construct, copy, assigns, destroys,
  run, start,
}
use ez.Buffer.Store.Counts.{
  count, refs_at, count-set, count-remove, refs_of, IsPlaced, is_made, has_area,
}
use ez.Buffer.Store.Areas.{dec_ref_lem}
use ez.Buffer.Store.Refs.{
  IsBalanced, allocate-IsTight, allocate_refs, one_ref, few_refs, assign_other, assign_fresh, owner,
  owners-set, owners-remove, length-remove-le, set_same,
}

-- An assignment, once the two handles and the outcome of `operator=` are known.
step_assigned :
    (w : World) (i j : ℕ) (x y p : Option ℕ) (h : Heap)
    → get_elem? w.handles i ≡ some x
    → get_elem? w.handles j ≡ some y
    → assign (i == j) x y w.heap ≡ ok (p, h)
    → step w (assigns i j) ≡ ok (record { heap = h; handles = set w.handles i p })
unfolding step
step_assigned w i j x y p h ei ej ea = rw (ei, step) (rw (ej, step) (rw ea refl))

-- What one operation has to show of the world that it leaves.
abbrev Keeps : World → Op → Type 0
Keeps w op =
    (w' : World) × (step w op ≡ ok w') × IsBalanced w' × (length w'.handles ≤ length w.handles + 1)

step_self :
    (w : World) (i j : ℕ) (x y : Option ℕ)
    → i ≡ j
    → get_elem? w.handles i ≡ some x
    → get_elem? w.handles j ≡ some y
    → step w (assigns i j) ≡ ok w
unfolding assign
step_self w i j x y s ei ej =
    let eq : (i == j) ≡ true = ground arith in
    step_assigned w i j x y x w.heap ei ej (rw eq refl)
    ∙ ap (λ t. ok (record { heap = w.heap; handles = t })) (set_same w.handles i x ei)

module _ (w : World) (b : IsBalanced w) (few : length w.handles + 1 < 2 ^ 32) where
  step_construct : (g : Given) (buf : Buffer) → Keeps w (construct g buf)
  unfolding step
  step_construct g buf = (
    _,
    refl,
    record {
      tight = allocate-IsTight g buf w.heap b.tight;
      counted = λ q. omega (arith, allocate_refs g buf w.heap b.tight q, b.counted q);
      owners = (tt, b.owners);
    },
    omega arith,
  )

  step_nothing : (op : Op) → step w op ≡ ok w → Keeps w op
  step_nothing op e = (w, e, b, omega arith)

  step_copy : (i : ℕ) (x : Option ℕ) → get_elem? w.handles i ≡ some x → Keeps w (copy i)
  unfolding step
  step_copy i x e =
      let (p, ep) = owner w.handles i x b.owners e in
      let here : get_elem? w.handles i ≡ some (some p) = cc in
      let (h', ea, t, n) = assign_fresh w.heap w.handles b.tight b.counted i p here few in
      (
        record { heap = h'; handles = some p ∷ w.handles },
        rw (here, step, ea) refl,
        record {
          tight = t;
          counted = λ q. omega (arith, n q, b.counted q);
          owners = (tt, b.owners);
        },
        omega arith,
      )

  step_destroy : (i : ℕ) (x : Option ℕ) → get_elem? w.handles i ≡ some x → Keeps w (destroys i)
  unfolding step destroy
  step_destroy i x e =
      let (p, ep) = owner w.handles i x b.owners e in
      let here : get_elem? w.handles i ≡ some (some p) = cc in
      let one = one_ref w.heap w.handles b.tight b.counted i p here in
      let lt = few_refs w.heap w.handles b.tight b.counted p (omega arith) in
      let (h', ed, t, n) = dec_ref_lem w.heap p b.tight one lt in
      (
        record { heap = h'; handles = remove i w.handles },
        rw (here, step, ed) refl,
        record {
          tight = t;
          counted = λ q. omega (arith, n q, b.counted q, count-remove q i w.handles (some p) here);
          owners = owners-remove w.handles i b.owners;
        },
        omega (arith, length-remove-le w.handles i),
      )

  step_assign :
      (i j : ℕ) (x y : Option ℕ)
      → get_elem? w.handles i ≡ some x
      → get_elem? w.handles j ≡ some y
      → Keeps w (assigns i j)
  step_assign i j x y ei ej = elim (ℕ_discrete i j) [
    | yes s ↦ step_nothing (assigns i j) (step_self w i j x y s ei ej)
    | no d ↦
        let (l, el) = owner w.handles i x b.owners ei in
        let (r, er) = owner w.handles j y b.owners ej in
        let hi : get_elem? w.handles i ≡ some (some l) = cc in
        let hj : get_elem? w.handles j ≡ some (some r) = cc in
        let neq : (i == j) ≡ false = ground arith in
        let (h', ea, t, n) = assign_other w.heap w.handles b.tight b.counted i j l r d hi hj few in
        (
          record { heap = h'; handles = set w.handles i (some r) },
          step_assigned w i j (some l) (some r) (some r) h' hi hj
              (ap (λ same. assign same (some l) (some r) w.heap) neq ∙ ea),
          record {
            tight = t;
            counted =
                λ q. omega (arith, n q, b.counted q, count-set q i w.handles (some l) (some r) hi);
            owners = owners-set w.handles i r b.owners;
          },
          omega (arith, length-set w.handles i (some r)),
        )
  ]

  step-IsBalanced : (op : Op) → Keeps w op
  step-IsBalanced (construct g buf) = step_construct g buf
  step-IsBalanced (copy i) = elim (Option-cases (get_elem? w.handles i)) [
    | inl e ↦ step_nothing (copy i) (unfold step in rw (e, step) refl)
    | inr (x, e) ↦ step_copy i x e
  ]
  step-IsBalanced (assigns i j) = elim (Option-cases (get_elem? w.handles i)) [
    | inl e ↦ step_nothing (assigns i j) (unfold step in rw (e, step) refl)
    | inr (x, e) ↦ elim (Option-cases (get_elem? w.handles j)) [
      | inl f ↦ step_nothing (assigns i j) (unfold step in rw (e, step) (rw (f, step) refl))
      | inr (y, f) ↦ step_assign i j x y e f
    ]
  ]
  step-IsBalanced (destroys i) = elim (Option-cases (get_elem? w.handles i)) [
    | inl e ↦ step_nothing (destroys i) (unfold step in rw (e, step) refl)
    | inr (x, e) ↦ step_destroy i x e
  ]

run_from :
    (w : World) (ops : List Op)
    → IsBalanced w
    → length w.handles + length ops < 2 ^ 32
    → (w' : World) × (run w ops ≡ ok w') × IsBalanced w'
unfolding run
run_from w [] b few = (w, refl, b)
run_from w (op ∷ ops) b few =
    let (w1, e1, b1, n1) = step-IsBalanced w b (omega arith) op in
    let (w2, e2, b2) = run_from w1 ops b1 (omega arith) in (w2, rw e1 e2, b2)

start-IsBalanced : IsBalanced start
unfolding start
start-IsBalanced = record {
  tight = record {
    positive = λ p c e. cc;
    fresh = λ p le. refl;
    placed = λ p c e. cc;
    areas = λ p. refl;
  };
  counted = λ q. refl;
  owners = tt;
}

-- Every sequence of fewer than 2 ^ 32 constructions (without data, with an area of `new []`, or with
-- the area of the caller that is not copied; the constructor of a string_view, which sets no
-- `m_impl`, is excepted), copies, assignments and destructions runs with no access to a freed `impl`,
-- and frees no area twice and none of a caller. After it an `impl` lives at an address exactly as
-- long as a handle refers to the address, its count is the number of those handles, and the area of
-- `new []` of that number is allocated exactly if there is such an `impl` and its data is that area.
pub run-IsBalanced :
    (ops : List Op)
    → length ops < 2 ^ 32
    → (w : World) × (run start ops ≡ ok w)
      × ((q : ℕ) → refs_at w.heap q ≡ count q w.handles)
      × ((q : ℕ) → count q w.handles ≡ 0 → (w.heap.cells q ≡ none) × (w.heap.areas q ≡ false))
      × ((q : ℕ) (c : Impl)
          → w.heap.cells q ≡ some c
          → IsPlaced q c.own_data c.area × (w.heap.areas q ≡ is_made c.area))
run-IsBalanced ops few =
    let (w, e, b) = run_from start ops start-IsBalanced (unfold start in omega arith) in
    (
      w,
      e,
      b.counted,
      λ q z. (dead w b q z, b.tight.areas q ∙ ap has_area (dead w b q z)),
      λ q c f. (b.tight.placed q c f, b.tight.areas q ∙ ap has_area f),
    )
  where
    dead : (w : World) → IsBalanced w → (q : ℕ) → count q w.handles ≡ 0 → w.heap.cells q ≡ none
    dead w b q z = elim (Option-cases (w.heap.cells q)) [
      | inl e ↦ e
      | inr (c, e) ↦
          let le = b.tight.positive q c e in absurd (omega (arith, b.counted q, ap refs_of e))
    ]
