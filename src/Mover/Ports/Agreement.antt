-- ===== src/Mover/Ports/Agreement.antt =====
-- The Service and the NetworkPolicy name the same ports.
use mathlib.Core.List.{Perm}
use mathlib.Core.List.Perm
use ceph_volsync_plugin.Base.{◌≡◌, refl, false, List, [], ◌∷◌, map, All, length, ◌==◌, arith}
use ceph_volsync_plugin.Mover.Ports.{
  MoverType, mover_rbd, mover_cephfs, ServicePort, no_port, update_at, reconcile_ports,
  destination_ports,
}

-- The ports of the Service are those that the policy admits, each goes to the same port of the
-- pod, and another Reconcile changes nothing.
pub record Agrees (t : MoverType) (ps : List ServicePort) : Type 0 where
  pub same_ports : Perm (map (λ p. p.port) ps) (destination_ports t)
  pub same_targets : map (λ p. p.target_port) ps ≡ map (λ p. p.port) ps
  pub tcp : All (λ p. p.protocol ≡ "TCP") ps
  pub stable : reconcile_ports t ps ≡ ps

two_ports : (a b : ServicePort) → Agrees mover_rbd (reconcile_ports mover_rbd (a ∷ b ∷ []))
unfolding reconcile_ports update_at
two_ports a b = record {
  same_ports = Perm.refl (8000 ∷ 8081 ∷ []);
  same_targets = refl;
  tcp = (refl, (refl, tt));
  stable = refl;
}

three_ports :
    (a b c : ServicePort) → Agrees mover_cephfs (reconcile_ports mover_cephfs (a ∷ b ∷ c ∷ []))
unfolding reconcile_ports update_at
three_ports a b c = record {
  same_ports = Perm.cons 8000 (Perm.swap 8081 8873 []);
  same_targets = refl;
  tcp = (refl, (refl, (refl, tt)));
  stable = refl;
}

-- Whatever ports a Service has: after Reconcile they are those that the NetworkPolicy admits, up to
-- their order, over TCP, each goes to the same port of the pod, and another Reconcile changes
-- nothing.
pub reconcile_ports-Agrees :
    (t : MoverType) (ps : List ServicePort) → Agrees t (reconcile_ports t ps)
unfolding reconcile_ports
reconcile_ports-Agrees mover_rbd [] = two_ports no_port no_port
reconcile_ports-Agrees mover_rbd (a ∷ []) = two_ports no_port no_port
reconcile_ports-Agrees mover_rbd (a ∷ b ∷ []) = two_ports a b
reconcile_ports-Agrees mover_rbd (a ∷ b ∷ c ∷ ps) =
    let e : (length (a ∷ b ∷ c ∷ ps) == 2) ≡ false = ground arith in
    rw e (two_ports no_port no_port)
reconcile_ports-Agrees mover_cephfs [] = three_ports no_port no_port no_port
reconcile_ports-Agrees mover_cephfs (a ∷ []) = three_ports no_port no_port no_port
reconcile_ports-Agrees mover_cephfs (a ∷ b ∷ []) = three_ports no_port no_port no_port
reconcile_ports-Agrees mover_cephfs (a ∷ b ∷ c ∷ []) = three_ports a b c
reconcile_ports-Agrees mover_cephfs (a ∷ b ∷ c ∷ d ∷ ps) =
    let e : (length (a ∷ b ∷ c ∷ d ∷ ps) == 3) ≡ false = ground arith in
    rw e (three_ports no_port no_port no_port)
