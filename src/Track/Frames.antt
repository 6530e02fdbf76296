-- ===== src/Track/Frames.antt =====
-- bridge_track.c: the received frames and the seconds.
use rstp.Prelude.{
  ℕ, ◌+◌, ◌%◌, Bool, false, not, ◌&&◌, Option, none, some, ◌>>=◌, if◌then◌else◌, ◌==◌, ltb, leb,
  List, [], ◌∷◌, ◌++◌, map, pos,
}
use rstp.Bpdu.{Bpdu, bpdu_topo_change_type, bpdu_config_type, bpdu_rstp}
use rstp.Vector.{BridgeId, get_short, memcmp, is_zero}
use rstp.Track.{Kernel, Rstp, IfData, Tracker, find_if, br_head, port_list, modify}
use rstp.Track.Out.{eq_ℤ, out_of}
use rstp.Track.Stp.{write_if, out_at, in_instance}

-- Both bytes of the protocol are 0.
abbrev protocol_zero : List ℕ → Bool
protocol_zero (a ∷ b ∷ rest) = a == 0 && b == 0
protocol_zero _ = false

module _ (rstp : Rstp) (kernel : Kernel) where
  -- `bridge_id` as it lies in memory.
  abbrev pub id_bytes : BridgeId → List ℕ
  id_bytes id = kernel.short_bytes id.prio ++ id.addr

  -- A BPDU that the port itself has sent, by the two identifiers in it.
  unfoldable pub from_self : IfData rstp.Instance → IfData rstp.Instance → Bpdu → Bool
  unfolding memcmp get_short
  from_self br ifc bpdu =
      is_zero (memcmp bpdu.body.bridge_id (id_bytes br.bridge_id))
      && eq_ℤ (pos (get_short bpdu.body.port_id % 4096)) ifc.port_index

  -- The switch of `bridge_bpdu_rcv`: a frame that goes on to the library.
  unfoldable pub accept_type : IfData rstp.Instance → IfData rstp.Instance → Bpdu → ℕ → Bool
  unfolding from_self
  accept_type br ifc bpdu len =
      let own = not (from_self br ifc bpdu) in
      if bpdu.hdr.bpdu_type == bpdu_rstp
      then leb 36 len && own
      else if bpdu.hdr.bpdu_type == bpdu_config_type
      then leb 35 len && own
      else bpdu.hdr.bpdu_type == bpdu_topo_change_type

  -- The tests of `bridge_bpdu_rcv`; the headers are 12, 5 and 4 bytes.
  unfoldable pub accept : IfData rstp.Instance → IfData rstp.Instance → Bpdu → ℕ → Bool
  unfolding accept_type
  accept br ifc bpdu len =
      ifc.up
      && br.stp_up
      && ltb (12 + 5 + 4) len
      && protocol_zero bpdu.hdr.protocol
      && accept_type br ifc bpdu len

  -- The rest of `bridge_bpdu_rcv`, for the interface that it finds; an error of the library is only
  -- logged.
  unfoldable pub rcv_on :
      IfData rstp.Instance
      → Option ℕ
      → Bpdu
      → ℕ
      → Tracker rstp.Instance
      → Option (Tracker rstp.Instance)
  unfolding find_if accept in_instance
  rcv_on ifc none bpdu len t = some t
  rcv_on ifc (some br_index) bpdu len t = find_if br_index t.if_head >>= (λ br.
      if not (accept br ifc bpdu len)
      then some t
      else in_instance rstp kernel br_index (λ out init. rstp.rx_bpdu out ifc.port_index bpdu) t
        >>= (λ (r, t'). some t'))

  -- `bridge_bpdu_rcv`
  unfoldable pub bridge_bpdu_rcv :
      ℕ → Bpdu → ℕ → Tracker rstp.Instance → Option (Tracker rstp.Instance)
  unfolding find_if rcv_on
  bridge_bpdu_rcv if_index bpdu len t = elim (find_if if_index t.if_head) [
    | none ↦ some t
    | some ifc ↦ rcv_on ifc ifc.master bpdu len t
  ]

  -- The loop of `bridge_one_second`, over the bridges that are left.
  unfoldable pub tick_bridges : List ℕ → Tracker rstp.Instance → Option (Tracker rstp.Instance)
  unfolding find_if out_of port_list modify
  tick_bridges [] t = some t
  tick_bridges (br_index ∷ rest) t = find_if br_index t.if_head >>= (λ br.
      (if not br.stp_up
        then some t
        else br.stp >>= (λ stp.
          rstp.one_second (out_at rstp kernel br_index t) stp
          >>= (λ stp'. some (write_if rstp kernel br_index (λ b. record b { stp = some stp' }) t))))
      >>= tick_bridges rest)

  -- `bridge_one_second`, and whether the kernel is then asked for its bridges again: once a minute.
  unfoldable pub bridge_one_second : Tracker rstp.Instance → Option (Bool × Tracker rstp.Instance)
  unfolding br_head tick_bridges
  bridge_one_second t =
      tick_bridges (map (λ br. br.if_index) (br_head t.if_head)) t
      >>= (λ t'. let count = t'.count + 1 in some (count % 60 == 0, record t' { count = count }))
