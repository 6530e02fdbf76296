-- ===== src/Track/Invariant.antt =====
-- bridge_track.c: in every state that the daemon reaches it knows each interface once.
use rstp.Prelude.{
  ℕ, ◌≡◌, refl, ◌∙◌, Bool, true, false, not, ◌&&◌, Option, none, some, ◌>>=◌, if◌then◌else◌, List,
  [], ◌∷◌, map, OnSome, OnSome-trans, OnSome-bind, OnSome-if, OnSome-each, OnSome-found, if-both,
}
use rstp.Bpdu.{Bpdu}
use rstp.Stpm.{StpOut}
use rstp.Library.{StpError, is_ok}
use rstp.Library.Config.{StpCfg}
use rstp.Library.PortConfig.{PortCfg}
use rstp.Library.Create.{InitCfg}
use rstp.Track.{
  Kernel, Rstp, IfData, Tracker, find_if, br_head, update_bridge_stp_config, update_port_stp_config,
}
use rstp.Track.Stp.{write_if, init_bridge_stp, clear_bridge_stp, in_instance, out_at}
use rstp.Track.Links.{create_bridge, same}
use rstp.Track.Notify.{is_new_bridge}
use rstp.Track.Frames.{accept, rcv_on, bridge_bpdu_rcv, tick_bridges, bridge_one_second}
use rstp.Track.Commands.{
  CtlResult, check_bridge, check_bridge_port, set_do_stp, enable_bridge_rstp, left_cfg,
  set_bridge_config, set_port_config,
}
use rstp.Track.Indices.{
  indices, Keeps, write_if-Keeps, clear_bridge_stp-Keeps, init_bridge_stp-Keeps, in_instance-Keeps,
}
use rstp.Track.Known.{Distinct, of_Keeps}
use rstp.Track.Served.{create_bridge-Distinct}
use rstp.Track.Notified.{known}

module _ (rstp : Rstp) (kernel : Kernel) where
  abbrev pub KeepsAll :
      {A : Type 0} → Tracker rstp.Instance → Option (A × Tracker rstp.Instance) → Type 0
  KeepsAll {A = A} t o = OnSome (λ (r : A × Tracker rstp.Instance). Keeps rstp kernel t r.1) o

  rcv_on-Keeps :
      (ifc : IfData rstp.Instance) (master : Option ℕ) (bpdu : Bpdu) (len : ℕ)
      (t : Tracker rstp.Instance)
      → OnSome (Keeps rstp kernel t) (rcv_on rstp kernel ifc master bpdu len t)
  unfolding rcv_on
  rcv_on-Keeps ifc none bpdu len t = refl
  rcv_on-Keeps ifc (some br_index) bpdu len t =
      let rx = λ (out : StpOut) (init : InitCfg). rstp.rx_bpdu out ifc.port_index bpdu in
      OnSome-each _ (find_if br_index t.if_head) _ (λ br.
        OnSome-if (Keeps rstp kernel t) (not (accept rstp kernel br ifc bpdu len)) (some t) _ refl (
          OnSome-bind (λ (r : StpError × Tracker rstp.Instance). Keeps rstp kernel t r.1) _
            (in_instance rstp kernel br_index rx t) _ (in_instance-Keeps rstp kernel br_index rx t)
            (λ (r, t') e. e)))

  pub bpdu_rcv-Keeps :
      (if_index : ℕ) (bpdu : Bpdu) (len : ℕ) (t : Tracker rstp.Instance)
      → OnSome (Keeps rstp kernel t) (bridge_bpdu_rcv rstp kernel if_index bpdu len t)
  unfolding bridge_bpdu_rcv
  bpdu_rcv-Keeps if_index bpdu len t =
      OnSome-found (Keeps rstp kernel t) (find_if if_index t.if_head) (some t)
        (λ ifc. rcv_on rstp kernel ifc ifc.master bpdu len t) refl
        (λ ifc. rcv_on-Keeps ifc ifc.master bpdu len t)

  tick_bridges-Keeps :
      (bridges : List ℕ) (t : Tracker rstp.Instance)
      → OnSome (Keeps rstp kernel t) (tick_bridges rstp kernel bridges t)
  unfolding tick_bridges
  tick_bridges-Keeps [] t = refl
  tick_bridges-Keeps (br_index ∷ rest) t = OnSome-each _ (find_if br_index t.if_head) _ (λ br.
      OnSome-bind (Keeps rstp kernel t) _ _ _
        (OnSome-if (Keeps rstp kernel t) (not br.stp_up) (some t)
          (br.stp >>= (λ stp. rstp.one_second (out_at rstp kernel br_index t) stp >>= (λ stp'.
            some (write_if rstp kernel br_index (λ b. record b { stp = some stp' }) t))))
          refl
          (OnSome-each _ br.stp _ (λ stp.
            OnSome-each _ (rstp.one_second (out_at rstp kernel br_index t) stp) _
              (λ stp'. write_if-Keeps rstp kernel br_index _ t (λ p. refl)))))
        (λ t' e. OnSome-trans indices _ e (tick_bridges-Keeps rest t')))

  pub one_second-Keeps : (t : Tracker rstp.Instance) → KeepsAll t (bridge_one_second rstp kernel t)
  unfolding bridge_one_second
  one_second-Keeps t =
      let bridges = map (λ (br : IfData rstp.Instance). br.if_index) (br_head t.if_head) in
      OnSome-bind (Keeps rstp kernel t) _ (tick_bridges rstp kernel bridges t) _
        (tick_bridges-Keeps bridges t) (λ t' e. e)

  set_do_stp-Keeps :
      (br : IfData rstp.Instance) (enable : Bool) (t : Tracker rstp.Instance)
      → KeepsAll t (set_do_stp rstp kernel br enable t)
  unfolding set_do_stp
  set_do_stp-Keeps br enable t =
      let P = λ (r : CtlResult × Tracker rstp.Instance). Keeps rstp kernel t r.1 in
      let set = λ (b : IfData rstp.Instance). record b { do_stp = enable } in
      let t' = write_if rstp kernel br.if_index set t in
      let e = write_if-Keeps rstp kernel br.if_index set t (λ p. refl) in
      OnSome-if P (same br.do_stp enable) (some (CtlResult.done, t)) _ refl (
        OnSome-if P (not br.up) (some (CtlResult.done, t')) _ e (
          OnSome-if P enable
            (init_bridge_stp rstp kernel br.if_index t'
              >>= (λ (ok, t2). some (if ok then CtlResult.done else CtlResult.init_failed, t2)))
            (clear_bridge_stp rstp kernel br.if_index t' >>= (λ t2. some (CtlResult.done, t2)))
            (OnSome-bind (λ (r : Bool × Tracker rstp.Instance). Keeps rstp kernel t' r.1) P
              (init_bridge_stp rstp kernel br.if_index t') _
              (init_bridge_stp-Keeps rstp kernel br.if_index t') (λ (ok, t2) e2. e2 ∙ e))
            (OnSome-bind (Keeps rstp kernel t') P (clear_bridge_stp rstp kernel br.if_index t') _
              (clear_bridge_stp-Keeps rstp kernel br.if_index t') (λ t2 e2. e2 ∙ e))))

  -- A command that is refused by its check changes nothing.
  checked_Keeps :
      (t : Tracker rstp.Instance) (c : CtlResult) (o : Option (CtlResult × Tracker rstp.Instance))
      → KeepsAll t o
      → KeepsAll t (elim c [ CtlResult.done ↦ o | r ↦ some (r, t) ])
  checked_Keeps t CtlResult.done o h = h
  checked_Keeps t CtlResult.interface_not_a_bridge o h = refl
  checked_Keeps t CtlResult.bridge_rstp_not_enabled o h = refl
  checked_Keeps t CtlResult.bridge_is_down o h = refl
  checked_Keeps t CtlResult.port_does_not_belong_to_bridge o h = refl
  checked_Keeps t (CtlResult.library_error e) o h = refl
  checked_Keeps t CtlResult.init_failed o h = refl

  -- The call of a configuration command, and the configuration that is kept.
  configured_Keeps :
      (br_index if_index : ℕ)
      (call : StpOut → InitCfg → rstp.Instance → Option (StpError × rstp.Instance))
      (f : IfData rstp.Instance → IfData rstp.Instance) (t : Tracker rstp.Instance)
      → ((p : IfData rstp.Instance) → (f p).if_index ≡ p.if_index)
      → KeepsAll t (
          in_instance rstp kernel br_index call t >>= (λ (r, t'). some (
            if is_ok r
            then (CtlResult.done, write_if rstp kernel if_index f t')
            else (CtlResult.library_error r, t'))))
  configured_Keeps br_index if_index call f t keep =
      let P = λ (r : CtlResult × Tracker rstp.Instance). Keeps rstp kernel t r.1 in
      OnSome-bind (λ (r : StpError × Tracker rstp.Instance). Keeps rstp kernel t r.1) P
        (in_instance rstp kernel br_index call t) _ (in_instance-Keeps rstp kernel br_index call t)
        (λ (r, t') e.
          if-both P (is_ok r) (CtlResult.done, write_if rstp kernel if_index f t')
            (CtlResult.library_error r, t') (write_if-Keeps rstp kernel if_index f t' keep ∙ e) e)

  pub bridge_config-Keeps :
      (br_index : ℕ) (cfg : StpCfg) (t : Tracker rstp.Instance)
      → KeepsAll t (set_bridge_config rstp kernel br_index cfg t)
  unfolding set_bridge_config update_bridge_stp_config
  bridge_config-Keeps br_index cfg t = checked_Keeps t (check_bridge rstp kernel br_index t) _ (
      configured_Keeps br_index br_index (λ out init. rstp.stpm_set_cfg out init cfg)
        (update_bridge_stp_config (left_cfg cfg)) t (λ p. refl))

  pub port_config-Keeps :
      (br_index port_index : ℕ) (cfg : PortCfg) (t : Tracker rstp.Instance)
      → KeepsAll t (set_port_config rstp kernel br_index port_index cfg t)
  unfolding set_port_config update_port_stp_config
  port_config-Keeps br_index port_index cfg t =
      checked_Keeps t (check_bridge_port rstp kernel br_index port_index t) _ (
        OnSome-each _ (find_if port_index t.if_head) _ (λ port.
          configured_Keeps br_index port_index
            (λ out init. rstp.set_port_cfg out port.port_index cfg) (update_port_stp_config cfg) t
            (λ p. refl)))

  pub enable_rstp-Distinct :
      (br_index : ℕ) (enable : Bool) (t : Tracker rstp.Instance)
      → Distinct rstp kernel t
      → OnSome
          (λ (r : CtlResult × Tracker rstp.Instance). Distinct rstp kernel r.1)
          (enable_bridge_rstp rstp kernel br_index enable t)
  unfolding enable_bridge_rstp
  enable_rstp-Distinct br_index enable t d =
      let P = λ (r : CtlResult × Tracker rstp.Instance). Distinct rstp kernel r.1 in
      let new =
        not (known rstp kernel (find_if br_index t.if_head))
        && is_new_bridge rstp kernel br_index in
      let t1 = if new then create_bridge rstp kernel br_index t else t in
      let d1 =
        bridge_if br_index t (find_if br_index t.if_head) refl (is_new_bridge rstp kernel br_index)
          d in
      OnSome-found P (find_if br_index t1.if_head) (some (CtlResult.interface_not_a_bridge, t1)) _
        d1
        (λ br. OnSome-if P (not br.is_bridge) (some (CtlResult.interface_not_a_bridge, t1)) _ d1 (
          OnSome-bind (λ (r : CtlResult × Tracker rstp.Instance). Keeps rstp kernel t1 r.1) P
            (set_do_stp rstp kernel br enable t1) _ (set_do_stp-Keeps br enable t1)
            (λ (r, t2) e. of_Keeps rstp kernel t1 t2 e d1)))
    where
      bridge_if :
          (br_index : ℕ) (t : Tracker rstp.Instance) (o : Option (IfData rstp.Instance))
          → find_if br_index t.if_head ≡ o
          → (named : Bool) → Distinct rstp kernel t
          → Distinct rstp kernel (
              if not (known rstp kernel o) && named
              then create_bridge rstp kernel br_index t
              else t)
      bridge_if br_index t none e true d = create_bridge-Distinct rstp kernel br_index t d e
      bridge_if br_index t none e false d = d
      bridge_if br_index t (some br) e named d = d
