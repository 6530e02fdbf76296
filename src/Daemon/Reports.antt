-- ===== src/Daemon/Reports.antt =====
-- brmon.c: which messages of the kernel concern a bridge, and how the tests of `dump_msg` find it out.
use rstp.Prelude.{
  ℕ, ◌≤◌, ◌<◌, ◌≡◌, ◌⊎◌, ◌↔◌, inl, inr, refl, ap, Bool, true, false, not, ◌&&◌, ◌||◌, Option, none,
  some, if◌then◌else◌, ◌==◌, ltb, List, ℤ, pos, negsuc, arith,
}
use rstp.Track.Out.{eq_ℤ}
use rstp.Daemon.{NlMsg, is_given, ignored, oper_up}

-- RTM_NEWLINK or RTM_DELLINK, of the family AF_BRIDGE, or of AF_UNSPEC without a master.
abbrev pub IsReport : NlMsg → Type 0
IsReport n =
    ((n.nlmsg_type ≡ 16) ⊎ (n.nlmsg_type ≡ 17))
    × ((n.ifi_family ≡ 7) ⊎ ((n.ifi_family ≡ 0) × (n.ifla_master ≡ none)))

-- A link that is there and whose operational state is up or unknown.
abbrev pub IsUp : NlMsg → Type 0
IsUp n =
    (n.nlmsg_type ≡ 16) × ((n.ifla_operstate ≡ some (pos 6)) ⊎ (n.ifla_operstate ≡ some (pos 0)))

-- No BPDU is handed on in the message.
abbrev pub IsBare : NlMsg → Type 0
IsBare n = n.ifi_family ≡ 7 → n.ifla_priority ≡ none

pub given : {A : Type 0} (o : Option A) → is_given o ≡ false → o ≡ none
given none e = refl
given (some a) e = cc

pub not_given : {A : Type 0} (o : Option A) → is_given o ≡ true → ¬ (o ≡ none)
not_given none e h = cc
not_given (some a) e h = cc

families :
    (family : ℕ) (type : ℕ) (m : Bool)
    → ((not (family == 7) && not (family == 0))
        || (not (type == 16) && not (type == 17))
        || (m && not (family == 7)))
      ≡ false
    → ((type ≡ 16) ⊎ (type ≡ 17)) × ((family ≡ 7) ⊎ ((family ≡ 0) × (m ≡ false)))
families family type m e = ground arith

pub ignored-IsReport : (n : NlMsg) → ignored n ≡ false → IsReport n
unfolding ignored
ignored-IsReport n e =
    let (type, family) = families n.ifi_family n.nlmsg_type (is_given n.ifla_master) e in
    (
      type,
      elim family [
        | inl bridge ↦ inl bridge
        | inr (unspec, alone) ↦ inr (unspec, given n.ifla_master alone)
      ],
    )

strangers :
    (family : ℕ) (type : ℕ) (m : Bool)
    → ((type ≡ 16) ⊎ (type ≡ 17)) × ((family ≡ 7) ⊎ ((family ≡ 0) × (m ≡ false)))
    → ((not (family == 7) && not (family == 0))
        || (not (type == 16) && not (type == 17))
        || (m && not (family == 7)))
      ≡ false
strangers family type m h = ground arith

pub ignored_lem : (n : NlMsg) → ignored n ≡ true → ¬ IsReport n
unfolding ignored
ignored_lem n e (type, family) =
    let other = strangers n.ifi_family n.nlmsg_type (is_given n.ifla_master) (
      type,
      elim family [
        | inl bridge ↦ inl bridge
        | inr (unspec, alone) ↦ inr (unspec, ap is_given alone)
      ],
    ) in
    cc

state_of :
    (o : Option ℤ)
    → (elim o [ none ↦ false | some state ↦ eq_ℤ state (pos 6) || eq_ℤ state (pos 0) ] ≡ true)
      ↔ ((o ≡ some (pos 6)) ⊎ (o ≡ some (pos 0)))
state_of none = (λ e. cc, λ h. elim h [ inl e ↦ cc | inr e ↦ cc ])
state_of (some (pos n)) = ground arith
state_of (some (negsuc n)) = ground arith

both : (a b : Bool) → (a && b ≡ true) ↔ ((a ≡ true) × (b ≡ true))
both a b = ground arith

-- The Boolean tests, as propositions.
pub equal_iff : (a b : ℕ) → (a == b ≡ true) ↔ (a ≡ b)
equal_iff a b = ground arith

pub is_equal : (a b : ℕ) → a == b ≡ true → a ≡ b
is_equal a b e = ground arith

pub is_other : (a b : ℕ) → a == b ≡ false → ¬ (a ≡ b)
is_other a b e h = ground arith

pub is_less : (a b : ℕ) → ltb a b ≡ true → a < b
is_less a b e = ground arith

pub is_enough : (a b : ℕ) → ltb a b ≡ false → b ≤ a
is_enough a b e = ground arith

pub negated : (b : Bool) → not b ≡ true → b ≡ false
negated b e = ground arith

pub affirmed : (b : Bool) → not b ≡ false → b ≡ true
affirmed b e = ground arith

-- NLMSG_DONE is no report of a link.
pub done_is_none : (n : NlMsg) → n.nlmsg_type == 3 ≡ true → ¬ IsReport n
done_is_none n e (type, family) = let three = is_equal n.nlmsg_type 3 e in omega arith

pub oper_up-IsUp : (n : NlMsg) → (oper_up n ≡ true) ↔ IsUp n
unfolding oper_up
oper_up-IsUp n =
    let state = state_of n.ifla_operstate in
    (
      λ e. let (type, up) = (both _ _).0 e in (ground arith, state.0 up),
      λ h. (both _ _).1 (ground arith, state.1 h.1),
    )

-- What `handed_bpdu` finds.
pub bare :
    (family : ℕ) (priority : Option (List ℕ))
    → (if family == 7 then priority else none) ≡ none
    → family ≡ 7
    → priority ≡ none
bare family priority e h = ground arith

pub handed :
    (family : ℕ) (priority : Option (List ℕ)) (buf : List ℕ)
    → (if family == 7 then priority else none) ≡ some buf
    → (family ≡ 7) × (priority ≡ some buf)
handed family priority buf e = ground arith
