-- ===== src/Vector/Wire.antt =====
-- rstplib/vector.c: priority vectors in a BPDU.
use rstp.Prelude.{ℕ, ◌^◌, ◌<◌, ◌≡◌, List, length, arith, take, ◌∷◌, [], refl}
use rstp.Bpdu.{BpduBody}
use rstp.Vector.{BridgeId, PrioVector, get_vector, set_vector}

-- What the C types say of a bridge identifier: an `unsigned short` and six bytes.
pub record IsBridgeId (b : BridgeId) : Type 0 where
  pub short : b.prio < 65536
  pub six : length b.addr ≡ 6

-- A vector whose cost fits the four bytes of a BPDU.
pub record FitsBpdu (v : PrioVector) : Type 0 where
  pub root : IsBridgeId v.root_bridge
  pub cost : v.root_path_cost < 2 ^ 32
  pub design : IsBridgeId v.design_bridge
  pub port : v.design_port < 65536

take_six : (xs : List ℕ) → length xs ≡ 6 → take 6 (take 6 xs) ≡ xs
take_six [] e = ground arith
take_six (a ∷ []) e = ground arith
take_six (a ∷ b ∷ []) e = ground arith
take_six (a ∷ b ∷ c ∷ []) e = ground arith
take_six (a ∷ b ∷ c ∷ d ∷ []) e = ground arith
take_six (a ∷ b ∷ c ∷ d ∷ f ∷ []) e = ground arith
take_six (a ∷ b ∷ c ∷ d ∷ f ∷ g ∷ []) e = refl
take_six (a ∷ b ∷ c ∷ d ∷ f ∷ g ∷ h ∷ xs) e = absurd (omega arith)

-- If a vector fits a BPDU, its cost being below 2^32, its priorities and its port below 65536 and its
-- addresses six bytes long, `STP_VECT_get_vector` reads back the four components that
-- `STP_VECT_set_vector` has written, whatever the body and the vector held before; the bridge port
-- stays what it was.
pub get_vector-set_vector :
    (v w : PrioVector) (b : BpduBody)
    → FitsBpdu v
    → get_vector (set_vector v b) w ≡ record v { bridge_port = w.bridge_port }
unfolding get_vector set_vector
get_vector-set_vector v w b h =
    ground (arith, take_six v.root_bridge.addr, take_six v.design_bridge.addr)
