-- ===== src/Vector.antt =====
-- rstplib/vector.h and vector.c: bridge identifiers and priority vectors.
-- An `int` that a compare function returns is read by its sign only, since C fixes no more of what
-- `memcmp` returns: `lt` is a negative result, `eq` zero and `gt` a positive one.
use rstp.Prelude.{
  ℕ, ◌+◌, ◌-◌, ◌*◌, ◌/◌, ◌%◌, ◌^◌, Bool, true, false, List, [], ◌∷◌, ◌++◌, compare, Ordering, ltb,
  ◌==◌, if◌then◌else◌, take, drop,
}
use rstp.Bpdu.{BpduBody}
pub mod Order
pub mod Wire

pub record BridgeId : Type 0 where
  pub prio : ℕ  -- unsigned short
  pub addr : List ℕ  -- [6]

pub record PrioVector : Type 0 where
  pub root_bridge : BridgeId
  pub root_path_cost : ℕ  -- unsigned long, 64 bits
  pub design_bridge : BridgeId
  pub design_port : ℕ  -- unsigned short
  pub bridge_port : ℕ  -- unsigned short

-- The arrays compared have one length, so the two middle clauses are not reached.
unfoldable pub memcmp : List ℕ → List ℕ → Ordering
memcmp [] [] = Ordering.eq
memcmp [] (y ∷ ys) = Ordering.lt
memcmp (x ∷ xs) [] = Ordering.gt
memcmp (x ∷ xs) (y ∷ ys) = elim (compare x y) [
  | Ordering.lt ↦ Ordering.lt
  | Ordering.gt ↦ Ordering.gt
  | Ordering.eq ↦ memcmp xs ys
]

unfoldable pub compare_bridge_id : BridgeId → BridgeId → Ordering
unfolding memcmp
compare_bridge_id b1 b2 =
    if ltb b1.prio b2.prio
    then Ordering.lt
    else if ltb b2.prio b1.prio
    then Ordering.gt
    else memcmp b1.addr b2.addr

-- `int bridcmp = a - b` for two `unsigned long`: the difference wraps at 2^64, and the conversion
-- to `int` keeps its low 32 bits as a signed number.
pub compare_cost : ℕ → ℕ → Ordering
compare_cost a b =
    let bridcmp = (a + 2 ^ 64 - b) % 2 ^ 64 % 2 ^ 32 in
    if bridcmp == 0 then Ordering.eq else if ltb bridcmp (2 ^ 31) then Ordering.gt else Ordering.lt

-- Two `unsigned short` are subtracted as `int`, so the difference is exact.
unfoldable pub compare_vector : PrioVector → PrioVector → Ordering
unfolding compare_bridge_id compare_cost
compare_vector v1 v2 = elim (compare_bridge_id v1.root_bridge v2.root_bridge) [
  | Ordering.lt ↦ Ordering.lt
  | Ordering.gt ↦ Ordering.gt
  | Ordering.eq ↦ elim (compare_cost v1.root_path_cost v2.root_path_cost) [
    | Ordering.lt ↦ Ordering.lt
    | Ordering.gt ↦ Ordering.gt
    | Ordering.eq ↦ elim (compare_bridge_id v1.design_bridge v2.design_bridge) [
      | Ordering.lt ↦ Ordering.lt
      | Ordering.gt ↦ Ordering.gt
      | Ordering.eq ↦ elim (compare v1.design_port v2.design_port) [
        | Ordering.lt ↦ Ordering.lt
        | Ordering.gt ↦ Ordering.gt
        | Ordering.eq ↦ compare v1.bridge_port v2.bridge_port
      ]
    ]
  ]
]

abbrev pub is_negative : Ordering → Bool
is_negative Ordering.lt = true
is_negative _ = false

abbrev pub is_zero : Ordering → Bool
is_zero Ordering.eq = true
is_zero _ = false

abbrev pub is_positive : Ordering → Bool
is_positive Ordering.gt = true
is_positive _ = false

unfoldable pub create : BridgeId → ℕ → BridgeId → ℕ → ℕ → PrioVector
create root_br root_path_cost design_bridge design_port bridge_port = record {
  root_bridge = root_br;
  root_path_cost = root_path_cost;
  design_bridge = design_bridge;
  design_port = design_port;
  bridge_port = bridge_port;
}

-- `ntohs` of the two bytes at `f`: the first is the high one.
unfoldable pub get_short : List ℕ → ℕ
get_short [] = 0
get_short (hi ∷ []) = 0
get_short (hi ∷ lo ∷ rest) = hi * 256 + lo

unfoldable pub set_short : ℕ → List ℕ
set_short f = f / 256 % 256 ∷ f % 256 ∷ []

-- `ntohl` of four bytes.
unfoldable pub get_long : List ℕ → ℕ
get_long (a ∷ b ∷ c ∷ d ∷ rest) = a * 2 ^ 24 + b * 2 ^ 16 + c * 2 ^ 8 + d
get_long _ = 0

unfoldable pub set_long : ℕ → List ℕ
set_long n = n / 2 ^ 24 % 256 ∷ n / 2 ^ 16 % 256 ∷ n / 2 ^ 8 % 256 ∷ n % 256 ∷ []

unfoldable pub get_bridge_id : List ℕ → BridgeId
unfolding get_short
get_bridge_id c_br = record { prio = get_short c_br; addr = take 6 (drop 2 c_br) }

unfoldable pub set_bridge_id : BridgeId → List ℕ
unfolding set_short
set_bridge_id bridge_id = set_short bridge_id.prio ++ take 6 bridge_id.addr

-- `STP_VECT_get_vector` writes four of the five components into `v`.
unfoldable pub get_vector : BpduBody → PrioVector → PrioVector
unfolding get_bridge_id get_short get_long
get_vector b v = record v {
  root_bridge = get_bridge_id b.root_id;
  root_path_cost = get_long b.root_path_cost;
  design_bridge = get_bridge_id b.bridge_id;
  design_port = get_short b.port_id;
}

unfoldable pub set_vector : PrioVector → BpduBody → BpduBody
unfolding set_bridge_id set_short set_long
set_vector v b = record b {
  root_id = set_bridge_id v.root_bridge;
  root_path_cost = set_long v.root_path_cost;
  bridge_id = set_bridge_id v.design_bridge;
  port_id = set_short v.design_port;
}
