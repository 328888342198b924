-- ===== src/Mover/Ports/Tests.antt =====
-- The ports of a Service that has one.
use ceph_volsync_plugin.Base.{◌≡◌, refl, List, [], ◌∷◌, map}
use ceph_volsync_plugin.Mover.Ports.{
  mover_cephfs, ServicePort, tls_port, rsync_stunnel_port, direct_tls_port, update_at,
  reconcile_ports,
}
use ceph_volsync_plugin.Mover.Ports.Agreement.{Agrees, reconcile_ports-Agrees}

abbrev old_ports : List ServicePort
old_ports =
    record { name = "old"; port = 22; protocol = "UDP"; target_port = 23; node_port = 30022 } ∷ []

reconcile_ports-Agrees_example : Agrees mover_cephfs (reconcile_ports mover_cephfs old_ports)
reconcile_ports-Agrees_example = reconcile_ports-Agrees mover_cephfs old_ports

three_made :
    map (λ p. p.port) (reconcile_ports mover_cephfs old_ports)
    ≡ tls_port ∷ rsync_stunnel_port ∷ direct_tls_port ∷ []
unfolding reconcile_ports update_at
three_made = refl
