-- ===== src/Track/Sends.antt =====
-- bridge_track.c: the calls to the kernel that the library's wishes lead to.
use rstp.Prelude.{
  ℕ, ◌≡◌, refl, Bool, true, false, Option, none, some, if◌then◌else◌, List, [], ◌∷◌, All, ℤ, pos,
  Bool-cases, inl, inr, ◌⊎◌, ◌+◌, negsuc, arith, ◌==◌,
}
use rstp.Stpm.{Effect}
use rstp.Track.{IfData}
use rstp.Track.Out.{
  KernelCall, BrState, FlashType, find_port, set_port_state, serve, flush_others, flush_lt, eq_ℤ,
}

-- The port that an effect of the library is about.
abbrev pub index_of : Effect → ℕ
index_of (Effect.set_learning port_index enable) = port_index
index_of (Effect.set_forwarding port_index enable) = port_index
index_of (Effect.tx_bpdu port_index packet bpdu_len) = port_index

eq_sound : (a b : ℤ) → eq_ℤ a b ≡ true → a ≡ b
eq_sound (pos m) (pos n) e = ground arith
eq_sound (pos m) (negsuc n) e = ground arith
eq_sound (negsuc m) (pos n) e = ground arith
eq_sound (negsuc m) (negsuc n) e = ground arith

eq_self : (a : ℤ) → eq_ℤ a a ≡ true
eq_self (pos n) = ground arith
eq_self (negsuc n) = ground arith

apart : (a b : ℤ) → eq_ℤ a b ≡ false → ¬ (a ≡ b)
apart a b e same = let self = eq_self b in cc

module _ {I : Type 0} where
  -- An interface of the list.
  abbrev pub In : IfData I → List (IfData I) → Type 0
  In p [] = ⊥
  In p (q ∷ rest) = (q ≡ p) ⊎ In p rest

  -- A call that an effect may lead to: it is about the port of that index, whose state is set only
  -- while it is up, and a frame is sent only once the daemon has been told to.
  abbrev pub IsServed : Bool → List (IfData I) → ℕ → KernelCall → Type 0
  IsServed stp_up ports port_index (KernelCall.set_state if_index state) =
      (port : IfData I) × In port ports
      × (port.port_index ≡ pos port_index)
      × (port.if_index ≡ if_index)
      × (port.up ≡ true)
  IsServed stp_up ports port_index (KernelCall.packet_send if_index packet len) =
      (port : IfData I) × In port ports
      × (port.port_index ≡ pos port_index)
      × (port.if_index ≡ if_index)
      × (stp_up ≡ true)
  IsServed stp_up ports port_index (KernelCall.flush_port name) = ⊥
  IsServed stp_up ports port_index (KernelCall.flush_bridge name) = ⊥

  -- The ports that a flush for a port is to reach: that one, or every other.
  abbrev pub IsMeant : FlashType → ℕ → IfData I → Type 0
  IsMeant FlashType.only_the_port port_index port = port.port_index ≡ pos port_index
  IsMeant FlashType.all_ports_exclude_this port_index port = ¬ (port.port_index ≡ pos port_index)

  -- A call that a flush may lead to: the whole bridge for index 0, and else a port that is meant.
  abbrev pub IsFlushed : IfData I → List (IfData I) → ℕ → FlashType → KernelCall → Type 0
  IsFlushed br ports port_index type (KernelCall.set_state if_index state) = ⊥
  IsFlushed br ports port_index type (KernelCall.packet_send if_index packet len) = ⊥
  IsFlushed br ports port_index type (KernelCall.flush_port name) =
      (port : IfData I) × In port ports
      × IsMeant type port_index port
      × (port.name ≡ name)
      × (port_index == 0 ≡ false)
  IsFlushed br ports port_index type (KernelCall.flush_bridge name) =
      (br.name ≡ name) × (port_index == 0 ≡ true)

  -- Where the first port has the index, it is found.
  found_index :
      (b : Bool) (p port : IfData I) (port_index : ℤ) (later : Option (IfData I))
      → (b ≡ true → p.port_index ≡ port_index)
      → (if b then some p else later) ≡ some port
      → (later ≡ some port → port.port_index ≡ port_index)
      → port.port_index ≡ port_index
  found_index true p port port_index later here e h = let same = here refl in cc
  found_index false p port port_index later here e h = h e

  find_port-index :
      (port_index : ℤ) (ports : List (IfData I)) (port : IfData I)
      → find_port port_index ports ≡ some port
      → port.port_index ≡ port_index
  unfolding find_port
  find_port-index port_index [] port e = cc
  find_port-index port_index (p ∷ rest) port e =
      found_index (eq_ℤ p.port_index port_index) p port port_index (find_port port_index rest)
        (eq_sound p.port_index port_index) e (find_port-index port_index rest port)

  found_step :
      (b : Bool) (p port : IfData I) (rest : List (IfData I)) (later : Option (IfData I))
      → (if b then some p else later) ≡ some port
      → (later ≡ some port → In port rest)
      → In port (p ∷ rest)
  found_step true p port rest later e h = inl cc
  found_step false p port rest later e h = inr (h e)

  find_port-In :
      (port_index : ℤ) (ports : List (IfData I)) (port : IfData I)
      → find_port port_index ports ≡ some port
      → In port ports
  unfolding find_port
  find_port-In port_index [] port e = cc
  find_port-In port_index (p ∷ rest) port e =
      found_step (eq_ℤ p.port_index port_index) p port rest (find_port port_index rest) e
        (find_port-In port_index rest port)

  -- One call or none, on the port that is found.
  served :
      (P : KernelCall → Type 0) (o : Option (IfData I)) (test : IfData I → Bool)
      (call : IfData I → KernelCall)
      → ((port : IfData I) → o ≡ some port → test port ≡ true → P (call port))
      → All P (elim o [ none ↦ [] | some port ↦ if test port then call port ∷ [] else [] ])
  served P none test call h = tt
  served P (some port) test call h = elim (Bool-cases (test port)) [
    | inl e ↦ rw e (h port refl e, tt)
    | inr e ↦ rw e tt
  ]

  set_port_state-IsServed :
      (stp_up : Bool) (ports : List (IfData I)) (port_index : ℕ) (state : BrState)
      → All (IsServed stp_up ports port_index) (set_port_state ports port_index state)
  unfolding set_port_state
  set_port_state-IsServed stp_up ports port_index state =
      served (IsServed stp_up ports port_index) (find_port (pos port_index) ports) (λ port. port.up)
        (λ port. KernelCall.set_state port.if_index state)
        (λ port e up. (
          port,
          find_port-In (pos port_index) ports port e,
          find_port-index (pos port_index) ports port e,
          refl,
          up,
        ))

  serve-calls :
      (stp_up : Bool) (ports : List (IfData I)) (effect : Effect)
      → All (IsServed stp_up ports (index_of effect)) (serve stp_up ports effect)
  unfolding serve
  serve-calls stp_up ports (Effect.set_learning port_index enable) =
      set_port_state-IsServed stp_up ports port_index _
  serve-calls stp_up ports (Effect.set_forwarding port_index enable) =
      set_port_state-IsServed stp_up ports port_index _
  serve-calls stp_up ports (Effect.tx_bpdu port_index packet bpdu_len) =
      served (IsServed stp_up ports port_index) (find_port (pos port_index) ports) (λ port. stp_up)
        (λ port. KernelCall.packet_send port.if_index packet (bpdu_len + 12 + 5))
        (λ port e up. (
          port,
          find_port-In (pos port_index) ports port e,
          find_port-index (pos port_index) ports port e,
          refl,
          up,
        ))

  -- The calls of the loop over the other ports, each about one of them.
  flush_others-calls :
      (P : KernelCall → Type 0) (port_index : ℕ) (ports : List (IfData I))
      → ((port : IfData I)
          → In port ports
          → ¬ (port.port_index ≡ pos port_index)
          → P (KernelCall.flush_port port.name))
      → All P (flush_others port_index ports)
  unfolding flush_others
  flush_others-calls P port_index [] h = tt
  flush_others-calls P port_index (p ∷ rest) h =
      let later = flush_others-calls P port_index rest (λ port i. h port (inr i)) in
      elim (Bool-cases (eq_ℤ p.port_index (pos port_index))) [
        | inl e ↦ rw e later
        | inr e ↦ rw e (h p (inl refl) (apart p.port_index (pos port_index) e), later)
      ]

  flush_lt-calls :
      (br : IfData I) (ports : List (IfData I)) (port_index : ℕ) (type : FlashType)
      → All (IsFlushed br ports port_index type) (flush_lt br ports port_index type)
  unfolding flush_lt
  flush_lt-calls br ports port_index FlashType.only_the_port = elim (Bool-cases (port_index == 0)) [
    | inl e ↦ rw e ((refl, e), tt)
    | inr e ↦ rw e (
        served (IsFlushed br ports port_index FlashType.only_the_port)
          (find_port (pos port_index) ports) (λ port. true)
          (λ port. KernelCall.flush_port port.name)
          (λ port found up. (
            port,
            find_port-In (pos port_index) ports port found,
            find_port-index (pos port_index) ports port found,
            refl,
            e,
          )))
  ]
  flush_lt-calls br ports port_index FlashType.all_ports_exclude_this =
      elim (Bool-cases (port_index == 0)) [
        | inl e ↦ rw e ((refl, e), tt)
        | inr e ↦ rw e (
            flush_others-calls (IsFlushed br ports port_index FlashType.all_ports_exclude_this)
              port_index ports (λ port i other. (port, i, other, refl, e)))
      ]

  -- What the STP_OUT functions ask of the kernel concerns ports of the current bridge. An effect of
  -- the library leads to calls about a port of its index alone; the state of a port is set only while
  -- its link is up, and no frame is sent before the first command has set the global `stp_up`.
  -- STP_OUT_flush_lt flushes the whole bridge, and only it, for index 0, and for another index, as
  -- its kind says, only a port of that index or only ports of other indices.
  pub serve-IsServed :
      (stp_up : Bool) (br : IfData I) (ports : List (IfData I)) (effect : Effect) (port_index : ℕ)
      (type : FlashType)
      → All (IsServed stp_up ports (index_of effect)) (serve stp_up ports effect)
        × All (IsFlushed br ports port_index type) (flush_lt br ports port_index type)
  serve-IsServed stp_up br ports effect port_index type =
      (serve-calls stp_up ports effect, flush_lt-calls br ports port_index type)
