-- ===== src/Vector/Order.antt =====
-- rstplib/vector.c: what order the compare functions give, and where they give none.
use rstp.Prelude.{ℕ, ◌+◌, ◌^◌, ◌<◌, ◌≡◌, refl, List, [], ◌∷◌, compare, Ordering, arith, ◌↔◌}
use rstp.Vector.{BridgeId, PrioVector, memcmp, compare_bridge_id, compare_cost, compare_vector}

abbrev pub swap : Ordering → Ordering
swap Ordering.lt = Ordering.gt
swap Ordering.eq = Ordering.eq
swap Ordering.gt = Ordering.lt

pub memcmp-swap : (a b : List ℕ) → memcmp b a ≡ swap (memcmp a b)
unfolding memcmp
memcmp-swap [] [] = refl
memcmp-swap [] (y ∷ ys) = refl
memcmp-swap (x ∷ xs) [] = refl
memcmp-swap (x ∷ xs) (y ∷ ys) = ground (arith, memcmp-swap xs ys)

pub memcmp_refl : (a : List ℕ) → memcmp a a ≡ Ordering.eq
unfolding memcmp
memcmp_refl [] = refl
memcmp_refl (x ∷ xs) = ground (arith, memcmp_refl xs)

pub eq_of_memcmp : (a b : List ℕ) → memcmp a b ≡ Ordering.eq → a ≡ b
unfolding memcmp
eq_of_memcmp [] [] e = refl
eq_of_memcmp [] (y ∷ ys) e = ground arith
eq_of_memcmp (x ∷ xs) [] e = ground arith
eq_of_memcmp (x ∷ xs) (y ∷ ys) e = ground (arith, eq_of_memcmp xs ys)

pub memcmp_trans :
    (a b c : List ℕ)
    → memcmp a b ≡ Ordering.lt
    → memcmp b c ≡ Ordering.lt
    → memcmp a c ≡ Ordering.lt
unfolding memcmp
memcmp_trans [] [] c p q = ground arith
memcmp_trans [] (y ∷ ys) [] p q = ground arith
memcmp_trans [] (y ∷ ys) (z ∷ zs) p q = refl
memcmp_trans (x ∷ xs) [] c p q = ground arith
memcmp_trans (x ∷ xs) (y ∷ ys) [] p q = ground arith
memcmp_trans (x ∷ xs) (y ∷ ys) (z ∷ zs) p q = ground (arith, memcmp_trans xs ys zs)

compare_bridge_id-swap : (a b : BridgeId) → compare_bridge_id b a ≡ swap (compare_bridge_id a b)
unfolding compare_bridge_id
compare_bridge_id-swap a b = ground (arith, memcmp-swap a.addr b.addr)

pub compare_bridge_id_refl : (a : BridgeId) → compare_bridge_id a a ≡ Ordering.eq
unfolding compare_bridge_id
compare_bridge_id_refl a = ground (arith, memcmp_refl a.addr)

-- Two bridge identifiers compare as equal only if they are.
pub eq_of_compare_bridge_id : (a b : BridgeId) → compare_bridge_id a b ≡ Ordering.eq → a ≡ b
unfolding compare_bridge_id
eq_of_compare_bridge_id a b e = ground (arith, eq_of_memcmp a.addr b.addr)

id_trans :
    (a b c : BridgeId)
    → compare_bridge_id a b ≡ Ordering.lt
    → compare_bridge_id b c ≡ Ordering.lt
    → compare_bridge_id a c ≡ Ordering.lt
unfolding compare_bridge_id
id_trans a b c p q = ground (arith, memcmp_trans a.addr b.addr c.addr)

-- Below 2^31 the truncated difference has the sign of the true one.
compare_cost_small : (a b : ℕ) → a < 2 ^ 31 → b < 2 ^ 31 → compare_cost a b ≡ compare a b
unfolding compare_cost
compare_cost_small a b ha hb = ground arith

-- A vector whose cost leaves the sign bit of an `int` free.
abbrev pub Small : PrioVector → Type 0
Small v = v.root_path_cost < 2 ^ 31

-- The order of 802.1D 17.6: component by component.
unfoldable pub lexicographic : PrioVector → PrioVector → Ordering
lexicographic v w = elim (compare_bridge_id v.root_bridge w.root_bridge) [
  | Ordering.lt ↦ Ordering.lt
  | Ordering.gt ↦ Ordering.gt
  | Ordering.eq ↦ elim (compare v.root_path_cost w.root_path_cost) [
    | Ordering.lt ↦ Ordering.lt
    | Ordering.gt ↦ Ordering.gt
    | Ordering.eq ↦ elim (compare_bridge_id v.design_bridge w.design_bridge) [
      | Ordering.lt ↦ Ordering.lt
      | Ordering.gt ↦ Ordering.gt
      | Ordering.eq ↦ elim (compare v.design_port w.design_port) [
        | Ordering.lt ↦ Ordering.lt
        | Ordering.gt ↦ Ordering.gt
        | Ordering.eq ↦ compare v.bridge_port w.bridge_port
      ]
    ]
  ]
]

-- With both root path costs below 2^31, `STP_VECT_compare_vector` is the lexicographic order.
pub compare_vector-lexicographic :
    (v w : PrioVector) → Small v → Small w → compare_vector v w ≡ lexicographic v w
unfolding compare_vector lexicographic
compare_vector-lexicographic v w hv hw =
    ground (arith, compare_cost_small v.root_path_cost w.root_path_cost)

pub lexicographic-swap : (v w : PrioVector) → lexicographic w v ≡ swap (lexicographic v w)
unfolding lexicographic
lexicographic-swap v w = ground (
  arith,
  compare_bridge_id-swap v.root_bridge w.root_bridge,
  compare_bridge_id-swap v.design_bridge w.design_bridge,
)

pub eq_of_lexicographic : (v w : PrioVector) → lexicographic v w ≡ Ordering.eq → v ≡ w
unfolding lexicographic
eq_of_lexicographic v w e = ground (
  arith,
  eq_of_compare_bridge_id v.root_bridge w.root_bridge,
  eq_of_compare_bridge_id v.design_bridge w.design_bridge,
)

pub lexicographic_refl : (v : PrioVector) → lexicographic v v ≡ Ordering.eq
unfolding lexicographic
lexicographic_refl v =
    ground (arith, compare_bridge_id_refl v.root_bridge, compare_bridge_id_refl v.design_bridge)

pub lexicographic_trans :
    (u v w : PrioVector)
    → lexicographic u v ≡ Ordering.lt
    → lexicographic v w ≡ Ordering.lt
    → lexicographic u w ≡ Ordering.lt
unfolding lexicographic
lexicographic_trans u v w p q = ground (
  arith,
  id_trans u.root_bridge v.root_bridge w.root_bridge,
  id_trans u.design_bridge v.design_bridge w.design_bridge,
  eq_of_compare_bridge_id u.root_bridge v.root_bridge,
  eq_of_compare_bridge_id v.root_bridge w.root_bridge,
  eq_of_compare_bridge_id u.design_bridge v.design_bridge,
  eq_of_compare_bridge_id v.design_bridge w.design_bridge,
  compare_bridge_id_refl u.root_bridge,
  compare_bridge_id_refl u.design_bridge,
)

-- With root path costs below 2^31, `STP_VECT_compare_vector` changes its sign when its arguments
-- are swapped, returns 0 exactly on equal vectors, and its "less" is transitive.
pub compare_vector_order :
    (u v w : PrioVector)
    → Small u
    → Small v
    → Small w
    → (compare_vector v u ≡ swap (compare_vector u v))
      × ((compare_vector u v ≡ Ordering.eq) ↔ (u ≡ v))
      × (compare_vector u v ≡ Ordering.lt
          → compare_vector v w ≡ Ordering.lt
          → compare_vector u w ≡ Ordering.lt)
compare_vector_order u v w hu hv hw =
    rw
      (
        compare_vector-lexicographic v u hv hu,
        compare_vector-lexicographic u v hu hv,
        compare_vector-lexicographic v w hv hw,
        compare_vector-lexicographic u w hu hw,
      )
      (
        lexicographic-swap u v,
        (eq_of_lexicographic u v, λ e. rw e (lexicographic_refl v)),
        lexicographic_trans u v w,
      )

-- The lowest and the highest byte patterns of a cost that differ by 2^31 modulo 2^32.
cost_both_less :
    (a : ℕ)
    → a < 2 ^ 31
    → (compare_cost a (a + 2 ^ 31) ≡ Ordering.lt) × (compare_cost (a + 2 ^ 31) a ≡ Ordering.lt)
unfolding compare_cost
cost_both_less a h = ground arith

-- For a vector whose root path cost is below 2^31, and the same vector with 2^31 added to that
-- cost, `STP_VECT_compare_vector` says of each that it is less than the other.
pub compare_vector_both_less :
    (v : PrioVector)
    → Small v
    → let w = record v { root_path_cost = v.root_path_cost + 2 ^ 31 } in
      (compare_vector v w ≡ Ordering.lt) × (compare_vector w v ≡ Ordering.lt)
unfolding compare_vector
compare_vector_both_less v h =
    ground (arith, compare_bridge_id_refl v.root_bridge, cost_both_less v.root_path_cost h)
