-- ===== src/Mover/Ports.antt =====
-- The ports of a destination: those of its Service (internal/mover/ceph/service.go) and those that
-- its NetworkPolicy admits (internal/mover/ceph/networkpolicy.go).
pub mod Agreement
mod Tests
use Prim.Native.String.{String}
use ceph_volsync_plugin.Base.{
  ℕ, zero, suc, ◌-◌, Bool, true, false, List, [], ◌∷◌, length, replicate, ◌==◌, if◌then◌else◌,
}

pub data MoverType : Type 0 where
  mover_rbd mover_cephfs : MoverType

abbrev pub tls_port : ℕ
tls_port = 8000

abbrev pub direct_tls_port : ℕ
direct_tls_port = 8081

abbrev pub rsync_stunnel_port : ℕ
rsync_stunnel_port = 8873

pub record ServicePort : Type 0 where
  pub name : String
  pub port : ℕ
  pub protocol : String
  pub target_port : ℕ
  pub node_port : ℕ

abbrev pub no_port : ServicePort
no_port = record { name = ""; port = 0; protocol = ""; target_port = 0; node_port = 0 }

-- An element of a slice is changed in place.
unfoldable pub update_at : ℕ → (ServicePort → ServicePort) → List ServicePort → List ServicePort
update_at n f [] = []
update_at zero f (p ∷ ps) = f p ∷ ps
update_at (suc n) f (p ∷ ps) = p ∷ update_at n f ps

abbrev pub set_port : String → ℕ → ServicePort → ServicePort
set_port name port p = record p { name = name; port = port; protocol = "TCP"; target_port = port }

abbrev pub port_count : MoverType → ℕ
port_count mover_rbd = 2
port_count mover_cephfs = 3

abbrev pub rsync_server : MoverType → List ServicePort → List ServicePort
rsync_server mover_rbd ps = ps
rsync_server mover_cephfs ps = update_at 1 (set_port "rsync-server" rsync_stunnel_port) ps

-- What Reconcile makes of the ports that the Service has.
unfoldable pub reconcile_ports : MoverType → List ServicePort → List ServicePort
unfolding update_at
reconcile_ports t ps =
    let n = port_count t in
    let made = if length ps == n then ps else replicate n no_port in
    let grpc =
      update_at 0 (λ p. record (set_port "grpc-server" tls_port p) { node_port = 0 }) made in
    update_at (n - 1) (set_port "direct-tls" direct_tls_port) (rsync_server t grpc)

-- destinationPorts.
abbrev pub destination_ports : MoverType → List ℕ
destination_ports mover_rbd = tls_port ∷ direct_tls_port ∷ []
destination_ports mover_cephfs = tls_port ∷ direct_tls_port ∷ rsync_stunnel_port ∷ []
