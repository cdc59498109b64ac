-- ===== src/Cluster/Network.antt =====
-- src/cluster/role.rs and src/cluster/network_snapshot.rs: the role of a node by its address, and what
-- is known of the network. An address is the number of its 32 bits.
pub mod Roles
use siderostat.Prelude.{
  ℕ, ◌/◌, Bool, true, false, not, ◌&&◌, ◌||◌, Option, none, some, List, [], ◌∷◌, if◌then◌else◌,
  ◌==◌, ltb, same_bytes,
}
use siderostat.Target.{LocalRole}

pub record Ipv4Assignment : Type 0 where
  pub address : ℕ
  pub prefix : ℕ

pub data RoleAssessment : Type 0 where
  missing conflict : RoleAssessment
  known : LocalRole → ℕ → RoleAssessment

-- `Ipv4Addr::is_link_local`: 169.254.0.0/16.
abbrev is_link_local : ℕ → Bool
is_link_local address = address / 65536 == 43518

abbrev pub relevant : List Ipv4Assignment → List Ipv4Assignment
relevant [] = []
relevant (a ∷ rest) = let kept = relevant rest in if is_link_local a.address then kept else a ∷ kept

abbrev pub assess_one : Ipv4Assignment → ℕ → ℕ → ℕ → RoleAssessment
assess_one a coordinator worker prefix =
    if not (a.prefix == prefix)
    then conflict
    else if a.address == coordinator
    then known LocalRole.coordinator a.address
    else if a.address == worker
    then known LocalRole.worker a.address
    else conflict

abbrev pub assess_relevant : List Ipv4Assignment → ℕ → ℕ → ℕ → RoleAssessment
assess_relevant [] coordinator worker prefix = missing
assess_relevant (a ∷ []) coordinator worker prefix = assess_one a coordinator worker prefix
assess_relevant (a ∷ b ∷ rest) coordinator worker prefix = conflict

unfoldable pub assess_role : List Ipv4Assignment → ℕ → ℕ → ℕ → RoleAssessment
assess_role addresses coordinator worker prefix =
    assess_relevant (relevant addresses) coordinator worker prefix

pub data ThunderboltIpState : Type 0 where
  service_missing service_disabled interface_unavailable address_missing address_conflict :
      ThunderboltIpState
  ready_no_peer peer_candidate_found authenticated_peer : ThunderboltIpState

pub record NetworkServiceObservation : Type 0 where
  pub enabled : Bool
  pub ipv4_enabled : Bool
  pub configured_addresses : List Ipv4Assignment

pub record InterfaceObservation : Type 0 where
  pub name : List ℕ
  pub up : Bool
  pub ipv4_addresses : List Ipv4Assignment

pub record PeerObservation : Type 0 where
  pub candidate_address : Option ℕ
  pub route_scoped_to_interface : Bool
  pub authenticated : Bool

pub record NetworkObservation : Type 0 where
  pub epoch : ℕ
  pub expected_interface : List ℕ
  pub coordinator_address : ℕ
  pub worker_address : ℕ
  pub expected_prefix : ℕ
  pub service : Option NetworkServiceObservation
  pub interface : Option InterfaceObservation
  pub peer : PeerObservation

pub record NetworkSnapshot : Type 0 where
  pub epoch : ℕ
  pub state : ThunderboltIpState
  pub role : LocalRole
  pub local_address : Option ℕ
  pub expected_peer_address : Option ℕ
  pub peer_present : Bool

abbrev pub unavailable : ℕ → ThunderboltIpState → NetworkSnapshot
unavailable epoch state = record {
  epoch = epoch;
  state = state;
  role = LocalRole.unknown;
  local_address = none;
  expected_peer_address = none;
  peer_present = false;
}

-- `NetworkSnapshot::default`.
unfoldable pub default_snapshot : NetworkSnapshot
default_snapshot = unavailable 0 ready_no_peer

abbrev pub is_known : LocalRole → ℕ → RoleAssessment → Bool
is_known LocalRole.coordinator address (known LocalRole.coordinator a) = a == address
is_known LocalRole.worker address (known LocalRole.worker a) = a == address
is_known LocalRole.unknown address (known LocalRole.unknown a) = a == address
is_known _ address _ = false

abbrev is_address : Option ℕ → ℕ → Bool
is_address none address = false
is_address (some a) address = a == address

abbrev peer_state : PeerObservation → ℕ → ThunderboltIpState
peer_state peer expected =
    let candidate_valid =
      is_address peer.candidate_address expected && peer.route_scoped_to_interface in
    if candidate_valid && peer.authenticated
    then authenticated_peer
    else if candidate_valid
    then peer_candidate_found
    else ready_no_peer

abbrev is_authenticated_peer : ThunderboltIpState → Bool
is_authenticated_peer authenticated_peer = true
is_authenticated_peer _ = false

abbrev located : NetworkObservation → LocalRole → ℕ → ℕ → NetworkSnapshot
located o role local_address expected =
    let state = peer_state o.peer expected in
    record {
      epoch = o.epoch;
      state = state;
      role = role;
      local_address = some local_address;
      expected_peer_address = some expected;
      peer_present = is_authenticated_peer state;
    }

-- The arm of an unknown role is `unreachable!`: `assess_role` does not give it.
abbrev pub located_as : NetworkObservation → LocalRole → ℕ → NetworkSnapshot
located_as o LocalRole.coordinator address =
    located o LocalRole.coordinator address o.worker_address
located_as o LocalRole.worker address = located o LocalRole.worker address o.coordinator_address
located_as o LocalRole.unknown address = unavailable o.epoch address_conflict

abbrev pub assess : NetworkObservation → List Ipv4Assignment → RoleAssessment
assess o addresses = assess_role addresses o.coordinator_address o.worker_address o.expected_prefix

abbrev pub from_assessment :
    NetworkObservation → NetworkServiceObservation → RoleAssessment → NetworkSnapshot
from_assessment o service missing = unavailable o.epoch address_missing
from_assessment o service conflict = unavailable o.epoch address_conflict
from_assessment o service (known role address) =
    if not (is_known role address (assess o service.configured_addresses))
    then unavailable o.epoch address_conflict
    else located_as o role address

abbrev pub from_interface :
    NetworkObservation → NetworkServiceObservation → Option InterfaceObservation → NetworkSnapshot
from_interface o service none = unavailable o.epoch interface_unavailable
from_interface o service (some interface) =
    if not (same_bytes interface.name o.expected_interface) || not interface.up
    then unavailable o.epoch interface_unavailable
    else from_assessment o service (assess o interface.ipv4_addresses)

abbrev pub from_service : NetworkObservation → Option NetworkServiceObservation → NetworkSnapshot
from_service o none = unavailable o.epoch service_missing
from_service o (some service) =
    if not service.enabled || not service.ipv4_enabled
    then unavailable o.epoch service_disabled
    else from_interface o service o.interface

unfoldable pub from_observation : NetworkObservation → NetworkSnapshot
from_observation o = from_service o o.service

unfoldable pub stale_relative_to : NetworkSnapshot → ℕ → Bool
stale_relative_to s newer_epoch = ltb s.epoch newer_epoch
