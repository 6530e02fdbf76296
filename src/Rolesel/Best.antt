-- ===== src/Rolesel/Best.antt =====
-- rstplib/rolesel.c: which root priority vector `updtRootPriority` chooses.
use rstp.Prelude.{
  ◌≡◌, ◌≢◌, ◌⊎◌, inl, inr, refl, ◌∙◌, List, [], ◌∷◌, Ordering, Bool, true, arith, All, ◌&&◌, not,
}
use rstp.Vector.{PrioVector}
use rstp.Vector.Order.{
  Small, lexicographic, compare_vector-lexicographic, lexicographic_trans, lexicographic_refl,
  lexicographic-swap, eq_of_lexicographic,
}
use rstp.Port.{Port}
use rstp.Stpm.{Stpm}
use rstp.Rolesel.{root_path_prio, consider_port, updt_root_priority, is_received}

-- A port takes part in the choice if it is not excluded and holds received information.
abbrev pub eligible : Port → Bool
eligible port = not port.admin_non_stp && is_received port.info_is

-- There is such a port in the list.
abbrev pub Any : (Port → Type 0) → List Port → Type 0
Any P [] = ⊥
Any P (port ∷ ports) = P port ⊎ Any P ports

-- `v` is at least as good as `w`.
abbrev pub NotWorse : PrioVector → PrioVector → Type 0
NotWorse v w = lexicographic v w ≢ Ordering.gt

NotWorse-trans : (u v w : PrioVector) → NotWorse u v → NotWorse v w → NotWorse u w
NotWorse-trans u v w p q = ground (
  arith,
  lexicographic_trans u v w,
  lexicographic_trans w v u,
  lexicographic-swap u v,
  lexicographic-swap v w,
  lexicographic-swap u w,
  eq_of_lexicographic u v,
  eq_of_lexicographic v w,
)

NotWorse-refl : (v : PrioVector) → NotWorse v v
NotWorse-refl v = ground (arith, lexicographic_refl v)

-- One round: the vector kept is one of the two, and not worse than either.
consider_port-best :
    (stpm : Stpm) (port : Port)
    → Small stpm.root_priority
    → Small (root_path_prio port)
    → Small (consider_port stpm port).root_priority
      × NotWorse (consider_port stpm port).root_priority stpm.root_priority
      × (eligible port ≡ true
          → NotWorse (consider_port stpm port).root_priority (root_path_prio port))
      × (((consider_port stpm port).root_priority ≡ stpm.root_priority)
          ⊎ ((eligible port ≡ true)
              × ((consider_port stpm port).root_priority ≡ root_path_prio port)))
unfolding consider_port
consider_port-best stpm port hs hp = ground (
  arith,
  compare_vector-lexicographic (root_path_prio port) stpm.root_priority hp hs,
  lexicographic_refl stpm.root_priority,
  lexicographic_refl (root_path_prio port),
  lexicographic-swap (root_path_prio port) stpm.root_priority,
)

-- What the loop has found over the ports it has seen, started at `start`.
pub record IsBest (start : PrioVector) (ports : List Port) (best : PrioVector) : Type 0 where
  pub small : Small best
  pub not_worse_than_start : NotWorse best start
  pub not_worse_than_ports :
      All (λ port. eligible port ≡ true → NotWorse best (root_path_prio port)) ports
  pub chosen :
      (best ≡ start) ⊎ Any (λ port. (eligible port ≡ true) × (best ≡ root_path_prio port)) ports

-- If every cost is below 2^31, the root priority vector that `updtRootPriority` leaves is the
-- bridge's starting one or the root path vector of an eligible port, and is not worse than any of
-- these. A port is eligible if it takes part and holds received information, also where the bridge
-- itself is the designated bridge of that information.
pub updt_root_priority-IsBest :
    (ports : List Port) (stpm : Stpm)
    → Small stpm.root_priority
    → All (λ port. Small (root_path_prio port)) ports
    → IsBest stpm.root_priority ports (updt_root_priority stpm ports).root_priority
unfolding updt_root_priority
updt_root_priority-IsBest [] stpm h hs = record {
  small = h;
  not_worse_than_start = NotWorse-refl stpm.root_priority;
  not_worse_than_ports = tt;
  chosen = inl refl;
}
updt_root_priority-IsBest (port ∷ ports) stpm h hs =
    let (small, start, own, which) = consider_port-best stpm port h hs.0 in
    let rest = updt_root_priority-IsBest ports (consider_port stpm port) small hs.1 in
    record {
      small = rest.small;
      not_worse_than_start = NotWorse-trans _ _ _ rest.not_worse_than_start start;
      not_worse_than_ports =
          (λ e. NotWorse-trans _ _ _ rest.not_worse_than_start (own e), rest.not_worse_than_ports);
      chosen = elim rest.chosen [
        | inr later ↦ inr (inr later)
        | inl same ↦ elim which [
          | inl kept ↦ inl (same ∙ kept)
          | inr (e, taken) ↦ inr (inl (e, same ∙ taken))
        ]
      ];
    }
