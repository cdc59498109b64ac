-- ===== src/Scenarios/Peers.antt =====
-- Tests of the peer lease of src/cluster/control.rs.
use siderostat.Prelude.{◌≡◌, refl, true, false, some, List, [], ◌∷◌, arith}
use siderostat.Cluster.Auth.{AuthenticatedPeer}
use siderostat.Cluster.PeerLease.{
  NodeDescriptor, ControlRole, paired_standalone, PeerLease, new_lease, peer_present, expired,
  establish, renew,
}
use siderostat.Cluster.PeerLease.Lapse.{
  Call, establishes, renews, perform, perform_all, lapsed_waits,
}

abbrev peer : AuthenticatedPeer
peer = record { node_id = 7 ∷ []; source_ip = 2; timestamp_millis = 0 }

abbrev descriptor : NodeDescriptor
descriptor = record {
  protocol_version = 1;
  node_id = 7 ∷ [];
  role = ControlRole.worker;
  generation = 3;
  mode = paired_standalone;
  deployment_id = some 1;
}

-- Paired at 100, with a lease of 50 and a required time of 40, and renewed once.
abbrev paired : PeerLease
paired =
    perform_all (new_lease 50 40)
      (establishes peer descriptor 3 true 100 ∷ renews peer 3 true 145 ∷ [])

paired_present : peer_present paired 150 ≡ true
unfolding perform_all perform new_lease establish renew peer_present expired
paired_present = refl

paired_over : expired paired 200 ≡ true
unfolding perform_all perform new_lease establish renew expired
paired_over = refl

-- It pairs again at 210 and renews, and is absent at 235.
abbrev again : List Call
again =
    renews peer 3 true 205 ∷ establishes peer descriptor 3 true 210 ∷ renews peer 3 true 230 ∷ []

paired_stability : paired.required_stability_millis ≡ 40
unfolding perform_all perform new_lease establish renew expired
paired_stability = refl

lapsed_waits_example : peer_present (perform_all paired again) 235 ≡ false
lapsed_waits_example =
    lapsed_waits paired again 200 235 paired_over (omega arith, (omega arith, (omega arith, tt)))
      (omega arith) (omega (arith, paired_stability))
