-- ===== src/Track/Indices.antt =====
-- bridge_track.c: starting and stopping STP, and serving a call, leave the lists as they are.
use rstp.Prelude.{
  ℕ, ◌≡◌, refl, ap, ◌∙◌, Bool, true, false, not, Option, some, ◌>>=◌, ◌==◌, List, [], ◌∷◌, ◌++◌,
  map, OnSome, OnSome-trans, OnSome-bind, OnSome-if, OnSome-each, view-if, ltb_ℤ, pos,
}
use rstp.Stpm.{StpOut}
use rstp.Library.{StpError, is_ok}
use rstp.Library.Create.{InitCfg}
use rstp.Track.{Kernel, Rstp, IfData, Tracker, find_if, modify}
use rstp.Track.Out.{init_of}
use rstp.Track.Stp.{
  write_if, ports_at, out_at, in_instance, add_port_stp, remove_port_stp, init_rstplib_instance,
  clear_rstplib_instance, add_ports, remove_ports, port_indices, set_port_index, update_bridge_id,
  set_stp, init_bridge_stp, clear_bridge_stp, set_stp_up,
}
use rstp.Track.Links.{set_br_up, set_if_up, link_set, stp_enabled}

-- The indices of the interfaces that the daemon knows.
abbrev pub indices : {I : Type 0} → Tracker I → List ℕ
indices t = map (λ p. p.if_index) t.if_head

pub modify-view :
    {I : Type 0} {V : Type 0} (view : IfData I → V) (if_index : ℕ) (f : IfData I → IfData I)
    → ((p : IfData I) → view (f p) ≡ view p)
    → (ifs : List (IfData I)) → map view (modify if_index f ifs) ≡ map view ifs
unfolding modify
modify-view view if_index f keep [] = refl
modify-view view if_index f keep (p ∷ rest) =
    view-if (map view) (p.if_index == if_index) (f p ∷ rest) (p ∷ modify if_index f rest)
      (ap (λ v. v ∷ map view rest) (keep p))
      (ap (λ l. view p ∷ l) (modify-view view if_index f keep rest))

module _ (rstp : Rstp) (kernel : Kernel) where
  abbrev pub Keeps : Tracker rstp.Instance → Tracker rstp.Instance → Type 0
  Keeps t t' = indices t' ≡ indices t

  pub write_if-Keeps :
      (if_index : ℕ) (f : IfData rstp.Instance → IfData rstp.Instance) (t : Tracker rstp.Instance)
      → ((p : IfData rstp.Instance) → (f p).if_index ≡ p.if_index)
      → Keeps t (write_if rstp kernel if_index f t)
  unfolding modify
  write_if-Keeps if_index f t keep = modify-view (λ p. p.if_index) if_index f keep t.if_head

  pub in_instance-Keeps :
      (br_index : ℕ) (call : StpOut → InitCfg → rstp.Instance → Option (StpError × rstp.Instance))
      (t : Tracker rstp.Instance)
      → OnSome
          (λ (r : StpError × Tracker rstp.Instance). Keeps t r.1)
          (in_instance rstp kernel br_index call t)
  unfolding in_instance
  in_instance-Keeps br_index call t = OnSome-each _ (find_if br_index t.if_head) _ (λ br.
      OnSome-each _ br.stp _ (λ stp.
        OnSome-each _
          (call (out_at rstp kernel br_index t) (init_of br (ports_at rstp kernel br_index t)) stp)
          _ (λ (r, stp'). write_if-Keeps br_index _ t (λ p. refl))))

  pub add_port_stp-Keeps :
      (br_index if_index : ℕ) (t : Tracker rstp.Instance)
      → OnSome
          (λ (r : Bool × Tracker rstp.Instance). Keeps t r.1)
          (add_port_stp rstp kernel br_index if_index t)
  unfolding add_port_stp
  add_port_stp-Keeps br_index if_index t = OnSome-each _ (find_if if_index t.if_head) _ (λ ifc.
      let port_index = kernel.get_bridge_portno ifc.name in
      let t' = write_if rstp kernel if_index (set_port_index rstp kernel port_index) t in
      let same = write_if-Keeps if_index (set_port_index rstp kernel port_index) t (λ p. refl) in
      OnSome-if _ (ltb_ℤ port_index (pos 0)) (some (false, t')) _ same (
        OnSome-bind (λ (r : StpError × Tracker rstp.Instance). Keeps t' r.1) _
          (in_instance rstp kernel br_index (λ out init. rstp.port_create out init port_index) t') _
          (in_instance-Keeps br_index (λ out init. rstp.port_create out init port_index) t')
          (λ (r, t2) e.
            view-if indices (is_ok r) (update_bridge_id rstp kernel br_index t2) t2
              (write_if-Keeps br_index _ t2 (λ p. refl) ∙ e ∙ same) (e ∙ same))))

  pub remove_port_stp-Keeps :
      (br_index if_index : ℕ) (t : Tracker rstp.Instance)
      → OnSome (Keeps t) (remove_port_stp rstp kernel br_index if_index t)
  unfolding remove_port_stp
  remove_port_stp-Keeps br_index if_index t = OnSome-each _ (find_if if_index t.if_head) _ (λ ifc.
      OnSome-bind (λ (r : StpError × Tracker rstp.Instance). Keeps t r.1) _
        (in_instance rstp kernel br_index (λ out init. rstp.port_delete out init ifc.port_index) t)
        _ (in_instance-Keeps br_index (λ out init. rstp.port_delete out init ifc.port_index) t)
        (λ (r, t') e. write_if-Keeps if_index _ t' (λ p. refl) ∙ e))

  add_ports-Keeps :
      (br_index : ℕ) (done ports : List ℕ) (t : Tracker rstp.Instance)
      → OnSome
          (λ (r : Bool × List ℕ × Tracker rstp.Instance). Keeps t r.2)
          (add_ports rstp kernel br_index done ports t)
  unfolding add_ports
  add_ports-Keeps br_index done [] t = refl
  add_ports-Keeps br_index done (p ∷ rest) t =
      OnSome-bind (λ (r : Bool × Tracker rstp.Instance). Keeps t r.1) _
        (add_port_stp rstp kernel br_index p t) _ (add_port_stp-Keeps br_index p t)
        (λ (added, t') e.
          OnSome-if _ added (add_ports rstp kernel br_index (done ++ (p ∷ [])) rest t')
            (some (false, done, t'))
            (OnSome-trans (λ r. indices r.2) _ e
              (add_ports-Keeps br_index (done ++ (p ∷ [])) rest t'))
            e)

  remove_ports-Keeps :
      (br_index : ℕ) (ports : List ℕ) (t : Tracker rstp.Instance)
      → OnSome (Keeps t) (remove_ports rstp kernel br_index ports t)
  unfolding remove_ports
  remove_ports-Keeps br_index [] t = refl
  remove_ports-Keeps br_index (p ∷ rest) t =
      OnSome-bind (Keeps t) _ (remove_port_stp rstp kernel br_index p t) _
        (remove_port_stp-Keeps br_index p t)
        (λ t' e. OnSome-trans indices _ e (remove_ports-Keeps br_index rest t'))

  clear-Keeps :
      (br_index : ℕ) (t : Tracker rstp.Instance)
      → Keeps t (clear_rstplib_instance rstp kernel br_index t)
  unfolding clear_rstplib_instance
  clear-Keeps br_index t = write_if-Keeps br_index _ t (λ p. refl)

  create_instance-Keeps :
      (br_index : ℕ) (t : Tracker rstp.Instance)
      → OnSome
          (λ (r : Bool × Tracker rstp.Instance). Keeps t r.1)
          (init_rstplib_instance rstp kernel br_index t)
  unfolding init_rstplib_instance
  create_instance-Keeps br_index t =
      let t' = write_if rstp kernel br_index (set_stp rstp kernel rstp.instance_create) t in
      OnSome-bind (λ (r : StpError × Tracker rstp.Instance). Keeps t' r.1) _
        (in_instance rstp kernel br_index rstp.stpm_create t') _
        (in_instance-Keeps br_index rstp.stpm_create t')
        (λ (r, t2) e.
          e ∙ write_if-Keeps br_index (set_stp rstp kernel rstp.instance_create) t (λ p. refl))

  pub init_bridge_stp-Keeps :
      (br_index : ℕ) (t : Tracker rstp.Instance)
      → OnSome
          (λ (r : Bool × Tracker rstp.Instance). Keeps t r.1)
          (init_bridge_stp rstp kernel br_index t)
  unfolding init_bridge_stp
  init_bridge_stp-Keeps br_index t = OnSome-each _ (find_if br_index t.if_head) _ (λ br.
      OnSome-if _ br.stp_up (some (true, t)) _ refl (
        OnSome-bind (λ (r : Bool × Tracker rstp.Instance). Keeps t r.1) _
          (init_rstplib_instance rstp kernel br_index t) _ (create_instance-Keeps br_index t)
          (λ (created, t1) e. OnSome-if _ (not created) (some (false, t1)) _ e (
            OnSome-bind (λ (r : Bool × List ℕ × Tracker rstp.Instance). Keeps t1 r.2) _
              (add_ports rstp kernel br_index [] (port_indices rstp kernel br_index t1) t1) _
              (add_ports-Keeps br_index [] (port_indices rstp kernel br_index t1) t1)
              (λ (all_added, done, t2) e2.
                OnSome-if _ all_added (some (true, set_stp_up rstp kernel true br_index t2)) _
                  (write_if-Keeps br_index _ t2 (λ p. refl) ∙ e2 ∙ e)
                  (OnSome-bind (Keeps t2) _ (remove_ports rstp kernel br_index done t2) _
                    (remove_ports-Keeps br_index done t2)
                    (λ t3 e3. clear-Keeps br_index t3 ∙ e3 ∙ e2 ∙ e)))))))

  pub clear_bridge_stp-Keeps :
      (br_index : ℕ) (t : Tracker rstp.Instance)
      → OnSome (Keeps t) (clear_bridge_stp rstp kernel br_index t)
  unfolding clear_bridge_stp
  clear_bridge_stp-Keeps br_index t = OnSome-each _ (find_if br_index t.if_head) _ (λ br.
      OnSome-if _ (not br.stp_up) (some t) _ refl (
        let t1 = set_stp_up rstp kernel false br_index t in
        OnSome-bind (Keeps t1) _
          (remove_ports rstp kernel br_index (port_indices rstp kernel br_index t) t1) _
          (remove_ports-Keeps br_index (port_indices rstp kernel br_index t) t1)
          (λ t2 e. clear-Keeps br_index t2 ∙ e ∙ write_if-Keeps br_index _ t (λ p. refl))))

  pub set_br_up-Keeps :
      (br : IfData rstp.Instance) (up : Bool) (t : Tracker rstp.Instance)
      → OnSome (Keeps t) (set_br_up rstp kernel br up t)
  unfolding set_br_up
  set_br_up-Keeps br up t =
      let t' = write_if rstp kernel br.if_index (λ b. record b { up = up }) t in
      let same = write_if-Keeps br.if_index (λ b. record b { up = up }) t (λ p. refl) in
      OnSome-if (Keeps t) _ (some t') _ same (
        OnSome-if (Keeps t) (stp_enabled rstp kernel br)
          (init_bridge_stp rstp kernel br.if_index t' >>= (λ (r, t2). some t2))
          (clear_bridge_stp rstp kernel br.if_index t')
          (OnSome-bind (λ (r : Bool × Tracker rstp.Instance). Keeps t' r.1) _
            (init_bridge_stp rstp kernel br.if_index t') _ (init_bridge_stp-Keeps br.if_index t')
            (λ (r, t2) e. e ∙ same))
          (OnSome-trans indices _ same (clear_bridge_stp-Keeps br.if_index t')))

  link_set-index :
      (up : Bool) (ifc : IfData rstp.Instance)
      → (link_set rstp kernel up ifc).if_index ≡ ifc.if_index
  unfolding link_set
  link_set-index true ifc = refl
  link_set-index false ifc = refl

  pub set_if_up-Keeps :
      (ifc : IfData rstp.Instance) (up : Bool) (t : Tracker rstp.Instance)
      → OnSome (Keeps t) (set_if_up rstp kernel ifc up t)
  unfolding set_if_up
  set_if_up-Keeps ifc up t =
      let t' = write_if rstp kernel ifc.if_index (link_set rstp kernel up) t in
      let same = write_if-Keeps ifc.if_index (link_set rstp kernel up) t (link_set-index up) in
      OnSome-each _ ifc.master _ (λ br_index. OnSome-each _ (find_if br_index t'.if_head) _ (λ br.
        OnSome-if _ (not br.stp_up) (some t') _ same
          (OnSome-each _ br.stp _ (λ stp. write_if-Keeps br_index _ t' (λ p. refl) ∙ same))))
