-- ===== src/Cluster/Control/Processor.antt =====
-- src/cluster/control.rs: `ControlProcessor`, which both nodes hold: the local descriptor, the lease
-- of the peer and the messages that were applied in this generation.
use siderostat.Prelude.{
  ℕ, Bool, true, false, not, ◌&&◌, ◌||◌, Option, none, some, List, [], ◌∷◌, if◌then◌else◌, ltb,
  ◌==◌, same_bytes, length, ◌+◌, ◌++◌,
}
use siderostat.Cluster.Auth.{AuthenticatedPeer, control_body_limit}
use siderostat.Cluster.PeerLease.{
  ControlRole, NodeDescriptor, LeaseError, PeerLease, new_lease, establish, renew, expired,
}
use siderostat.Cluster.PeerLease
use siderostat.Cluster.Control.{
  ControlCommand, ControlEndpoint, ControlMessage, ControlResponse, ControlResponseStatus,
  ControlError, ControlResult, ok, err, endpoint, same_endpoint, same_message, same_id, same_role,
  requires_matching_deployment, applied, duplicate, endpoint_mismatch, invalid_request_id,
  deployment_mismatch, invalid_descriptor, route_not_scoped, peer_not_paired, idempotency_conflict,
  generation_mismatch,
}

pub record ControlProcessor : Type 0 where
  pub local : NodeDescriptor
  pub expected_peer_role : ControlRole
  pub lease : PeerLease
  pub processed : List ControlMessage  -- a message holds its key, the generation and the request id

unfoldable pub new_processor : NodeDescriptor → ControlRole → ℕ → ℕ → ControlProcessor
new_processor local peer_role lease stability = record {
  local = local;
  expected_peer_role = peer_role;
  lease = new_lease lease stability;
  processed = [];
}

abbrev pub of_lease : LeaseError → ControlError
of_lease PeerLease.invalid_descriptor = invalid_descriptor
of_lease PeerLease.route_not_scoped = route_not_scoped
of_lease PeerLease.peer_not_paired = peer_not_paired

-- `advance_generation`.
unfoldable pub advance_generation : ControlProcessor → ℕ → ControlProcessor
advance_generation p generation = record p {
  local = record p.local { generation = generation };
  lease = PeerLease.advance_generation p.lease generation;
  processed = [];
}

unfoldable pub response : ControlProcessor → ControlResponseStatus → ControlResponse
response p status = record {
  status = status;
  generation = p.local.generation;
  descriptor = p.local;
  lease_expires_at_millis = p.lease.expires_at_millis;
}

unfoldable pub message : ControlProcessor → List ℕ → ControlCommand → ControlMessage
message p request_id command = record {
  request_id = request_id;
  generation = p.local.generation;
  deployment_id = p.local.deployment_id;
  command = command;
}

-- `candidate_generation`.
unfoldable pub candidate_generation : ControlProcessor → ℕ → ℕ
candidate_generation p peer = if ltb p.local.generation peer then peer else p.local.generation

abbrev pub is_peer : Option NodeDescriptor → List ℕ → Bool
is_peer none node = false
is_peer (some d) node = same_bytes d.node_id node

-- What is done with the lease, when it succeeds or fails.
abbrev pub answer :
    ControlProcessor
    → PeerLease × Option LeaseError
    → ControlResponseStatus
    → List ControlMessage
    → ControlProcessor × ControlResult ControlResponse
answer p (lease, some e) status kept = (record p { lease = lease }, err (of_lease e))
answer p (lease, none) status kept =
    let q = record p { lease = lease; processed = kept } in (q, ok (response q status))

abbrev described :
    ControlProcessor
    → PeerLease × Option LeaseError
    → ControlProcessor × ControlResult ControlResponse
described p (lease, some e) = (record p { lease = lease }, err (of_lease e))
described p (lease, none) = let q = record p { lease = lease } in (q, ok (response q applied))

abbrev described_known :
    Option NodeDescriptor
    → ControlProcessor
    → AuthenticatedPeer
    → ℕ
    → ControlProcessor × ControlResult ControlResponse
described_known none p peer now =
    (p, ok (record (response p applied) { lease_expires_at_millis = none }))
described_known (some d) p peer now =
    if expired p.lease now
    then if is_peer p.lease.descriptor peer.node_id
      then (p, ok (record (response p applied) { lease_expires_at_millis = none }))
      else (p, err peer_not_paired)
    else described p (renew p.lease peer p.local.generation true now)

unfoldable pub descriptor_response :
    ControlProcessor
    → AuthenticatedPeer
    → Bool
    → ℕ
    → ControlProcessor × ControlResult ControlResponse
descriptor_response p peer scoped now =
    if not scoped then (p, err route_not_scoped) else described_known p.lease.descriptor p peer now

-- `processed.get(&key)`.
unfoldable pub find_processed : ℕ → List ℕ → List ControlMessage → Option ControlMessage
find_processed generation request_id [] = none
find_processed generation request_id (m ∷ ms) =
    if m.generation == generation && same_bytes m.request_id request_id
    then some m
    else find_processed generation request_id ms

abbrev pub is_pair : ControlCommand → Bool
is_pair (ControlCommand.pair d) = true
is_pair _ = false

-- The checks of `handle_validated` behind the advance of the generation.
unfoldable pub check_message : ControlProcessor → ControlMessage → Option ControlError
check_message p m =
    if not (m.generation == p.local.generation)
    then some (generation_mismatch p.local.generation m.generation)
    else if requires_matching_deployment m.command
        && (same_id p.local.deployment_id none
            || not (same_id m.deployment_id p.local.deployment_id))
    then some deployment_mismatch
    else none

-- The last `match`: a pair establishes the lease, every other command renews it.
unfoldable pub apply_command :
    ControlProcessor
    → ControlMessage
    → ControlCommand
    → AuthenticatedPeer
    → Bool
    → ℕ
    → ControlProcessor × ControlResult ControlResponse
apply_command p m (ControlCommand.pair d) peer scoped now =
    if not (d.protocol_version == 1) || not (same_role d.role p.expected_peer_role)
    then (p, err invalid_descriptor)
    else answer p (establish p.lease peer d m.generation scoped now) applied (m ∷ p.processed)
apply_command p m command peer scoped now =
    answer p (renew p.lease peer m.generation scoped now) applied (m ∷ p.processed)

abbrev pub apply_valid :
    Option ControlError
    → ControlProcessor
    → ControlMessage
    → AuthenticatedPeer
    → Bool
    → ℕ
    → ControlProcessor × ControlResult ControlResponse
apply_valid (some e) p m peer scoped now = (p, err e)
apply_valid none p m peer scoped now = apply_command p m m.command peer scoped now

abbrev pub apply_unless_known :
    Option ControlMessage
    → ControlProcessor
    → ControlMessage
    → AuthenticatedPeer
    → Bool
    → ℕ
    → (ControlCommand → Option ControlError)
    → ControlProcessor × ControlResult ControlResponse
apply_unless_known (some previous) p m peer scoped now validate =
    if not (same_message previous m)
    then (p, err idempotency_conflict)
    else answer p (renew p.lease peer m.generation scoped now) duplicate p.processed
apply_unless_known none p m peer scoped now validate =
    apply_valid (validate m.command) p m peer scoped now

abbrev pub apply_checked :
    Option ControlError
    → ControlProcessor
    → ControlMessage
    → AuthenticatedPeer
    → Bool
    → ℕ
    → (ControlCommand → Option ControlError)
    → ControlProcessor × ControlResult ControlResponse
apply_checked (some e) p m peer scoped now validate = (p, err e)
apply_checked none p m peer scoped now validate =
    apply_unless_known (find_processed m.generation m.request_id p.processed) p m peer scoped now
      validate

abbrev pub advanced : ControlProcessor → ControlMessage → ControlProcessor
advanced p m =
    if is_pair m.command && ltb p.local.generation m.generation
    then advance_generation p m.generation
    else p

abbrev pub bad_request_id : List ℕ → Bool
bad_request_id id = length id == 0 || ltb 128 (length id)

unfoldable pub handle_validated :
    ControlProcessor
    → ControlEndpoint
    → ControlMessage
    → AuthenticatedPeer
    → Bool
    → ℕ
    → (ControlCommand → Option ControlError)
    → ControlProcessor × ControlResult ControlResponse
handle_validated p e m peer scoped now validate =
    if not (same_endpoint e (endpoint m.command))
    then (p, err endpoint_mismatch)
    else if bad_request_id m.request_id
    then (p, err invalid_request_id)
    else apply_checked (check_message (advanced p m) m) (advanced p m) m peer scoped now validate

-- `BoundedControlBody::extend`: the body so far, or none where it would be too large.
unfoldable pub extend_body : List ℕ → List ℕ → Option (List ℕ)
extend_body bytes chunk =
    if ltb control_body_limit (length bytes + length chunk) then none else some (bytes ++ chunk)
