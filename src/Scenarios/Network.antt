-- ===== src/Scenarios/Network.antt =====
-- Tests of src/cluster/role.rs and src/cluster/network_snapshot.rs.
use siderostat.Prelude.{ℕ, ◌≡◌, ◌≢◌, refl, true, some, [], ◌∷◌, arith}
use siderostat.Target.{LocalRole}
use siderostat.Cluster.Network.{
  Ipv4Assignment, NetworkObservation, from_observation, assess_role, conflict,
}
use siderostat.Cluster.Network.Roles.{opposite, from_observation-opposed}

-- 10.99.0.1 and 10.99.0.2.
abbrev coordinator_ip : ℕ
coordinator_ip = 174260225

abbrev worker_ip : ℕ
worker_ip = 174260226

abbrev at_address : ℕ → Ipv4Assignment
at_address ip = record { address = ip; prefix = 30 }

abbrev observed : ℕ → ℕ → NetworkObservation
observed ip peer_ip = record {
  epoch = 7;
  expected_interface = 98 ∷ [];
  coordinator_address = coordinator_ip;
  worker_address = worker_ip;
  expected_prefix = 30;
  service =
      some
        record { enabled = true; ipv4_enabled = true; configured_addresses = at_address ip ∷ [] };
  interface = some record {
    name = 98 ∷ [];
    up = true;
    ipv4_addresses = at_address 2851995649 ∷ at_address ip ∷ [];
  };
  peer = record {
    candidate_address = some peer_ip;
    route_scoped_to_interface = true;
    authenticated = true;
  };
}

from_observation-opposed_example :
    let here = from_observation (observed coordinator_ip worker_ip) in
    let there = from_observation (observed worker_ip coordinator_ip) in
    (there.role ≡ opposite here.role)
    × (there.expected_peer_address ≡ here.local_address)
    × (here.role ≢ LocalRole.unknown)
unfolding from_observation assess_role
from_observation-opposed_example =
    from_observation-opposed (observed coordinator_ip worker_ip) (observed worker_ip coordinator_ip)
      refl refl (λ e. omega (arith, e)) refl refl

two_addresses :
    assess_role (at_address coordinator_ip ∷ at_address worker_ip ∷ []) coordinator_ip worker_ip 30
    ≡ conflict
unfolding assess_role
two_addresses = refl
