-- ===== src/Start/Identity.antt =====
-- rstplib/stpm.c: the identifier that a bridge takes, and that no other bridge has it.
use rstp.Prelude.{
  ℕ, ◌≡◌, ◌≢◌, ◌↔◌, refl, List, [], ◌∷◌, Ordering, Bool, true, false, arith, All, not, ◌&&◌, ◌||◌,
  any, if◌then◌else◌,
}
use rstp.Vector.{memcmp, is_negative, is_zero, compare_bridge_id}
use rstp.Vector.Order.{
  memcmp_trans, memcmp-swap, memcmp_refl, eq_of_memcmp, eq_of_compare_bridge_id,
  compare_bridge_id_refl,
}
use rstp.Port.{Port}
use rstp.Stpm.{Stpm, StpOut}
use rstp.Start.{least_mac, check_bridge_priority, is_enabled}

-- `a` comes no later than `b`.
abbrev pub NotAfter : List ℕ → List ℕ → Type 0
NotAfter a b = memcmp a b ≢ Ordering.gt

NotAfter-trans : (a b c : List ℕ) → NotAfter a b → NotAfter b c → NotAfter a c
NotAfter-trans a b c p q = ground (
  arith,
  memcmp_trans a b c,
  memcmp_trans c b a,
  memcmp-swap a b,
  memcmp-swap b c,
  memcmp-swap a c,
  eq_of_memcmp a b,
  eq_of_memcmp b c,
)

-- The address that the loop has found, from `start`, over the ports.
pub record IsLeast (out : StpOut) (start : List ℕ) (ports : List Port) (mac : List ℕ) : Type 0 where
  pub not_after_start : NotAfter mac start
  pub not_after_ports : All (λ port. NotAfter mac (out.get_port_mac port.port_index)) ports

kept_least :
    (new old : List ℕ)
    → NotAfter (if is_negative (memcmp new old) then new else old) new
      × NotAfter (if is_negative (memcmp new old) then new else old) old
kept_least new old = ground (arith, memcmp_refl new, memcmp_refl old, memcmp-swap new old)

-- The address that `STP_compute_bridge_id` takes comes no later, in the order of `memcmp`, than
-- the address it starts from and the address of any port.
pub least_mac-IsLeast :
    (out : StpOut) (old : List ℕ) (ports : List Port)
    → IsLeast out old ports (least_mac out old ports)
unfolding least_mac
least_mac-IsLeast out old [] = record {
  not_after_start = ground (arith, memcmp_refl old);
  not_after_ports = tt;
}
least_mac-IsLeast out old (port ∷ ports) =
    let new = out.get_port_mac port.port_index in
    let (fresh, before) = kept_least new old in
    let kept = if is_negative (memcmp new old) then new else old in
    let best = least_mac out kept ports in
    let rest = least_mac-IsLeast out kept ports in
    record {
      not_after_start = NotAfter-trans best kept old rest.not_after_start before;
      not_after_ports =
          (NotAfter-trans best kept new rest.not_after_start fresh, rest.not_after_ports);
    }

not_or : (a b : Bool) → (not (a || b) ≡ true → a ≡ false) × (not (a || b) ≡ true → not b ≡ true)
not_or true b = (λ e. cc, λ e. cc)
not_or false b = (λ e. refl, λ e. e)

-- The test that the loop makes of another bridge.
abbrev clashes : Stpm → Stpm → Bool
clashes this oth =
    is_enabled oth.admin_state
    && is_zero (compare_bridge_id this.bridge_identifier oth.bridge_identifier)

-- What it stands for.
abbrev pub Distinct : Stpm → Stpm → Type 0
Distinct this oth =
    is_enabled oth.admin_state ≡ true → this.bridge_identifier ≢ oth.bridge_identifier

clashes-Distinct : (this oth : Stpm) → clashes this oth ≡ false → Distinct this oth
clashes-Distinct this oth e on same =
    let equal : compare_bridge_id this.bridge_identifier oth.bridge_identifier ≡ Ordering.eq =
      rw same (compare_bridge_id_refl oth.bridge_identifier) in
    ground (arith, equal)

clashes_of_Distinct : (this oth : Stpm) → Distinct this oth → clashes this oth ≡ false
clashes_of_Distinct this oth h =
    ground (arith, h, eq_of_compare_bridge_id this.bridge_identifier oth.bridge_identifier)

-- `STP_stpm_check_bridge_priority` succeeds exactly if every other enabled bridge has another
-- identifier.
pub check_bridge_priority-Distinct :
    (this : Stpm) (bridges : List Stpm)
    → (check_bridge_priority this bridges ≡ true) ↔ All (Distinct this) bridges
unfolding check_bridge_priority
check_bridge_priority-Distinct this [] = (λ e. tt, λ h. refl)
check_bridge_priority-Distinct this (oth ∷ rest) =
    let ih = check_bridge_priority-Distinct this rest in
    let (no_clash, later) = not_or (clashes this oth) (any (clashes this) rest) in
    (
      λ e. (clashes-Distinct this oth (no_clash e), ih.0 (later e)),
      λ h. rw (clashes_of_Distinct this oth h.0) (ih.1 h.1),
    )
