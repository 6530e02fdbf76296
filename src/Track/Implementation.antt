-- ===== src/Track/Implementation.antt =====
-- rstplib: the library as the daemon uses it, for vlan 0.
use rstp.Prelude.{ℕ, some, ◌>>=◌, ℤ, pos, negsuc}
use rstp.Stpm.{StpOut}
use rstp.Library.{
  stp_port_is_absent_in_the_vlan, stp_cannot_create_instance_for_port, Library, Env, stpm_find,
}
use rstp.Library.Events.{
  in_enable_port, in_changed_port_speed, in_changed_port_duplex, in_rx_bpdu, in_one_second,
}
use rstp.Library.Manage.{in_stpm_create, in_stpm_set_cfg, instance_create}
use rstp.Library.Ports.{in_set_port_cfg, in_port_create, in_port_delete}
use rstp.Library.State.{in_stpm_get_cfg, in_stpm_get_state, in_port_get_cfg, in_port_get_state}
use rstp.Track.{Rstp}

-- The bounds of `STP_stpm_update`: of its rounds, and of each loop of `STP_change_state`.
pub record Bounds : Type 0 where
  pub rounds : ℕ
  pub fuel : ℕ

abbrev pub env_of : Bounds → StpOut → Env
env_of bounds out = record { out = out; rounds = bounds.rounds; fuel = bounds.fuel }

-- A call on a port: no port has a negative index.
abbrev pub on_index : {A : Type 0} → A → (ℕ → A) → ℤ → A
on_index absent f (pos port_index) = f port_index
on_index absent f (negsuc n) = absent

unfoldable pub rstp_of : Bounds → Rstp
unfolding instance_create in_stpm_create in_port_create in_port_delete in_changed_port_speed
    in_changed_port_duplex in_enable_port in_rx_bpdu in_one_second in_stpm_set_cfg in_set_port_cfg
    stpm_find in_stpm_get_cfg in_stpm_get_state in_port_get_cfg in_port_get_state
rstp_of bounds = record {
  Instance = Library;
  instance_create = instance_create;
  stpm_create = λ out init lib. in_stpm_create (env_of bounds out) init 0 0 lib;
  port_create = λ out init index lib.
      on_index (some (stp_cannot_create_instance_for_port, lib))
        (λ i. in_port_create (env_of bounds out) init 0 i lib) index;
  port_delete = λ out init index lib.
      on_index (some (stp_port_is_absent_in_the_vlan, lib))
        (λ i. in_port_delete (env_of bounds out) 0 i lib) index;
  changed_port_speed =
      λ index speed lib. on_index lib (λ i. in_changed_port_speed i speed lib) index;
  changed_port_duplex = λ index lib. on_index lib (λ i. in_changed_port_duplex i lib) index;
  enable_port = λ out index enable lib.
      on_index lib (λ i. in_enable_port (env_of bounds out) i enable lib) index;
  rx_bpdu = λ out index bpdu lib.
      on_index (some (stp_port_is_absent_in_the_vlan, lib))
        (λ i. in_rx_bpdu (env_of bounds out) 0 i bpdu lib) index;
  one_second = λ out lib. in_one_second (env_of bounds out) lib >>= (λ (n, lib'). some lib');
  stpm_set_cfg = λ out init cfg lib. in_stpm_set_cfg (env_of bounds out) init 0 0 cfg lib;
  set_port_cfg = λ out index cfg lib.
      on_index (some (stp_port_is_absent_in_the_vlan, lib))
        (λ i. in_set_port_cfg (env_of bounds out) 0 i cfg lib) index;
  bridge_id = λ lib. stpm_find 0 lib.bridges >>= (λ this. some this.stpm.bridge_identifier);
  stpm_get_cfg = λ uid_cfg lib. in_stpm_get_cfg 0 uid_cfg lib;
  stpm_get_state = λ entry lib. in_stpm_get_state 0 entry lib;
  port_get_cfg = λ index uid_cfg lib.
      on_index (stp_port_is_absent_in_the_vlan, uid_cfg) (λ i. in_port_get_cfg 0 i uid_cfg lib)
        index;
  port_get_state = λ entry lib.
      on_index (stp_port_is_absent_in_the_vlan, entry) (λ i. in_port_get_state 0 i entry lib)
        entry.port_no;
}
