-- ===== src/Track/Stp.antt =====
-- bridge_track.c: how STP is started and stopped on a bridge, and bound to a port.
use rstp.Prelude.{
  ℕ, Bool, true, false, not, Option, none, some, ◌>>=◌, if◌then◌else◌, List, [], ◌∷◌, ◌++◌, map, ℤ,
  pos, negsuc, ltb_ℤ,
}
use rstp.Stpm.{StpOut}
use rstp.Library.{StpError, is_ok}
use rstp.Library.Create.{InitCfg}
use rstp.Track.{Kernel, Rstp, IfData, Tracker, find_if, port_list, modify}
use rstp.Track.Out.{out_of, init_of}

-- The value of a pointer that is known not to be NULL: `none` is the NULL that would be used.
module _ (rstp : Rstp) (kernel : Kernel) where
  abbrev pub If : Type 0
  If = IfData rstp.Instance

  abbrev pub T : Type 0
  T = Tracker rstp.Instance

  abbrev pub write_if : ℕ → (If → If) → T → T
  unfolding modify
  write_if if_index f t = record t { if_head = modify if_index f t.if_head }

  abbrev pub set_stp : rstp.Instance → If → If
  set_stp stp br = record br { stp = some stp }

  -- The ports of a bridge, and what the library asks of the daemon while the bridge is current.
  abbrev pub ports_at : ℕ → T → List If
  unfolding port_list
  ports_at br_index t = port_list br_index t.if_head

  abbrev pub out_at : ℕ → T → StpOut
  unfolding out_of port_list
  out_at br_index t = out_of kernel (ports_at br_index t)

  -- `instance_begin`, a call of the library, `instance_end`. Without an instance the call would use
  -- NULL, which is `none` here, as is a call that does not return.
  unfoldable pub in_instance :
      ℕ
      → (StpOut → InitCfg → rstp.Instance → Option (StpError × rstp.Instance))
      → T
      → Option (StpError × T)
  unfolding find_if port_list out_of init_of modify
  in_instance br_index call t = find_if br_index t.if_head >>= (λ br. br.stp >>= (λ stp.
      call (out_at br_index t) (init_of br (ports_at br_index t)) stp
      >>= (λ (r, stp'). some (r, write_if br_index (set_stp stp') t))))

  -- What `add_port_stp` reads of the state afterwards.
  abbrev pub update_bridge_id : ℕ → T → T
  unfolding modify
  update_bridge_id br_index t =
      write_if br_index
        (λ br. record br {
          bridge_id = elim (br.stp >>= rstp.bridge_id) [ none ↦ br.bridge_id | some id ↦ id ];
        })
        t

  abbrev pub set_port_index : ℤ → If → If
  set_port_index port_index ifc = record ifc { port_index = port_index }

  -- `add_port_stp`, for the interface of that index on the bridge `br_index`; whether it returned 0.
  unfoldable pub add_port_stp : ℕ → ℕ → T → Option (Bool × T)
  unfolding find_if modify in_instance
  add_port_stp br_index if_index t = find_if if_index t.if_head >>= (λ ifc.
      let port_index = kernel.get_bridge_portno ifc.name in
      let t' = write_if if_index (set_port_index port_index) t in
      if ltb_ℤ port_index (pos 0)
      then some (false, t')
      else in_instance br_index (λ out init. rstp.port_create out init port_index) t'
        >>= (λ (r, t2). some (is_ok r, if is_ok r then update_bridge_id br_index t2 else t2)))

  -- `remove_port_stp`; an error of the library is only logged.
  unfoldable pub remove_port_stp : ℕ → ℕ → T → Option T
  unfolding find_if modify in_instance
  remove_port_stp br_index if_index t = find_if if_index t.if_head >>= (λ ifc.
      in_instance br_index (λ out init. rstp.port_delete out init ifc.port_index) t
      >>= (λ (r, t'). some (write_if if_index (set_port_index (negsuc 0)) t')))

  -- `init_rstplib_instance`; whether it returned 0. STP_IN_instance_create is taken to succeed.
  unfoldable pub init_rstplib_instance : ℕ → T → Option (Bool × T)
  unfolding modify in_instance
  init_rstplib_instance br_index t =
      in_instance br_index rstp.stpm_create (write_if br_index (set_stp rstp.instance_create) t)
      >>= (λ (r, t'). some (is_ok r, t'))

  -- `clear_rstplib_instance`
  unfoldable pub clear_rstplib_instance : ℕ → T → T
  unfolding modify
  clear_rstplib_instance br_index t = write_if br_index (λ br. record br { stp = none }) t

  -- The first loop of `init_bridge_stp`, over the ports that are left, with those that it has added.
  unfoldable pub add_ports : ℕ → List ℕ → List ℕ → T → Option (Bool × List ℕ × T)
  unfolding add_port_stp
  add_ports br_index done [] t = some (true, done, t)
  add_ports br_index done (p ∷ rest) t = add_port_stp br_index p t >>= (λ (added, t').
      let later = add_ports br_index (done ++ (p ∷ [])) rest t' in
      if added then later else some (false, done, t'))

  -- The loops that remove ports.
  unfoldable pub remove_ports : ℕ → List ℕ → T → Option T
  unfolding remove_port_stp
  remove_ports br_index [] t = some t
  remove_ports br_index (p ∷ rest) t = remove_port_stp br_index p t >>= remove_ports br_index rest

  abbrev pub port_indices : ℕ → T → List ℕ
  unfolding port_list
  port_indices br_index t = map (λ p. p.if_index) (ports_at br_index t)

  abbrev pub set_stp_up : Bool → ℕ → T → T
  unfolding modify
  set_stp_up stp_up br_index t = write_if br_index (λ br. record br { stp_up = stp_up }) t

  -- `init_bridge_stp`, for the bridge of that index; whether it returned 0.
  unfoldable pub init_bridge_stp : ℕ → T → Option (Bool × T)
  unfolding find_if modify port_list init_rstplib_instance add_ports remove_ports
      clear_rstplib_instance
  init_bridge_stp br_index t = find_if br_index t.if_head >>= (λ br.
      if br.stp_up
      then some (true, t)
      else init_rstplib_instance br_index t >>= (λ (created, t1).
        if not created
        then some (false, t1)
        else add_ports br_index [] (port_indices br_index t1) t1 >>= (λ (all_added, done, t2).
          if all_added
          then some (true, set_stp_up true br_index t2)
          else remove_ports br_index done t2
            >>= (λ t3. some (false, clear_rstplib_instance br_index t3)))))

  -- `clear_bridge_stp`
  unfoldable pub clear_bridge_stp : ℕ → T → Option T
  unfolding find_if modify port_list remove_ports clear_rstplib_instance
  clear_bridge_stp br_index t = find_if br_index t.if_head >>= (λ br.
      if not br.stp_up
      then some t
      else remove_ports br_index (port_indices br_index t) (set_stp_up false br_index t)
        >>= (λ t'. some (clear_rstplib_instance br_index t')))
