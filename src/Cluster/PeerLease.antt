-- ===== src/Cluster/PeerLease.antt =====
-- src/cluster/control.rs: the descriptor of a node, and the lease by which a node knows its peer.
pub mod Lapse
use siderostat.Prelude.{
  ℕ, Bool, true, false, not, ◌&&◌, ◌||◌, Option, none, some, List, if◌then◌else◌, ltb, leb, ◌==◌,
  same_bytes, saturating_add, u64_max,
}
use siderostat.Cluster.Auth.{AuthenticatedPeer}

pub data ControlRole : Type 0 where
  coordinator worker : ControlRole

pub data ControlMode : Type 0 where
  solo_standalone paired_standalone distributed_layer_parallel : ControlMode
  distributed_tensor_parallel transitioning : ControlMode

pub record NodeDescriptor : Type 0 where
  pub protocol_version : ℕ  -- u16
  pub node_id : List ℕ
  pub role : ControlRole
  pub generation : ℕ  -- u64
  pub mode : ControlMode
  pub deployment_id : Option ℕ

-- The errors of the lease.
pub data LeaseError : Type 0 where
  invalid_descriptor route_not_scoped peer_not_paired : LeaseError

pub record PeerLease : Type 0 where
  pub lease_millis : ℕ
  pub required_stability_millis : ℕ
  pub generation : Option ℕ
  pub descriptor : Option NodeDescriptor
  pub first_authenticated_at_millis : Option ℕ
  pub expires_at_millis : Option ℕ
  pub route_scoped : Bool

unfoldable pub new_lease : ℕ → ℕ → PeerLease
new_lease lease stability = record {
  lease_millis = lease;
  required_stability_millis = stability;
  generation = none;
  descriptor = none;
  first_authenticated_at_millis = none;
  expires_at_millis = none;
  route_scoped = false;
}

abbrev is_over : Option ℕ → ℕ → Bool
is_over none now = true
is_over (some expires_at) now = leb expires_at now

unfoldable pub expired : PeerLease → ℕ → Bool
expired l now = is_over l.expires_at_millis now

abbrev pub is_generation : Option ℕ → ℕ → Bool
is_generation none generation = false
is_generation (some g) generation = g == generation

abbrev pub is_node : Option NodeDescriptor → List ℕ → Bool
is_node none node = false
is_node (some d) node = same_bytes d.node_id node

abbrev same_membership : PeerLease → NodeDescriptor → ℕ → ℕ → Bool
same_membership l d generation now =
    is_generation l.generation generation && is_node l.descriptor d.node_id && not (expired l now)

unfoldable pub establish :
    PeerLease → AuthenticatedPeer → NodeDescriptor → ℕ → Bool → ℕ → PeerLease × Option LeaseError
establish l peer d generation scoped now =
    if not scoped
    then (l, some route_not_scoped)
    else if not (same_bytes d.node_id peer.node_id) || not (d.generation == generation)
    then (l, some invalid_descriptor)
    else (
      record l {
        first_authenticated_at_millis =
            if same_membership l d generation now
            then l.first_authenticated_at_millis
            else some now;
        generation = some generation;
        descriptor = some d;
        route_scoped = true;
        expires_at_millis = some (saturating_add u64_max now l.lease_millis);
      },
      none,
    )

unfoldable pub renew : PeerLease → AuthenticatedPeer → ℕ → Bool → ℕ → PeerLease × Option LeaseError
renew l peer generation scoped now =
    if not scoped
    then (record l { route_scoped = false }, some route_not_scoped)
    else if not (is_generation l.generation generation && is_node l.descriptor peer.node_id)
        || expired l now
    then (l, some peer_not_paired)
    else (
      record l {
        route_scoped = true;
        expires_at_millis = some (saturating_add u64_max now l.lease_millis);
      },
      none,
    )

abbrev is_stable : Option ℕ → ℕ → ℕ → Bool
is_stable none stability now = false
is_stable (some first) stability now = leb (saturating_add u64_max first stability) now

abbrev is_some : Option NodeDescriptor → Bool
is_some none = false
is_some (some _) = true

unfoldable pub peer_present : PeerLease → ℕ → Bool
peer_present l now =
    l.route_scoped
    && is_stable l.first_authenticated_at_millis l.required_stability_millis now
    && not (expired l now)
    && is_some l.descriptor

unfoldable pub invalidate_route : PeerLease → PeerLease
invalidate_route l = record l { route_scoped = false }

abbrev set_generation : Option NodeDescriptor → ℕ → Option NodeDescriptor
set_generation none generation = none
set_generation (some d) generation = some (record d { generation = generation })

abbrev replace : Option ℕ → ℕ → Option ℕ
replace none generation = none
replace (some _) generation = some generation

unfoldable pub advance_generation : PeerLease → ℕ → PeerLease
advance_generation l generation = record l {
  generation = replace l.generation generation;
  descriptor = set_generation l.descriptor generation;
}
