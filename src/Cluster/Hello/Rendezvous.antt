-- ===== src/Cluster/Hello/Rendezvous.antt =====
-- The checks with which the coordinator admits a worker (`RendezvousListener`).
pub mod Accept
use siderostat.Prelude.{
  same_bytes, ℕ, ◌+◌, ◌<◌, Bool, true, false, not, ◌&&◌, ◌||◌, ◌≡◌, ◌≢◌, ◌↔◌, ◌⊎◌, Option, none,
  some, List, [], ◌∷◌, arith, ltb, ◌==◌, min, u32_max,
}
use siderostat.Target.{ClusterState, awaiting_worker_hello}
use siderostat.Cluster.Hello.{
  Ds4Hello, Result, ok, err, ◌>>=◌, ◌>>◌, fail_if, parse_hello_frame, Stream, read_hello_frame,
  timeout, wrong_state, wrong_source, wrong_bind_address, invalid_lease, generation_changed,
  deployment_mismatch, layer_mismatch, context_mismatch, model_mismatch,
}
use siderostat.Cluster.Hello.Reader.{read_hello_frame_iff}

pub record RendezvousControlSnapshot : Type 0 where
  pub state : ClusterState
  pub generation : ℕ  -- u64
  pub deployment_id : Option ℕ
  pub lease_valid : Bool

pub record WorkerHelloExpectation : Type 0 where
  pub coordinator_address : ℕ
  pub worker_address : ℕ
  pub control : RendezvousControlSnapshot
  pub layer_start : ℕ  -- u32
  pub layer_end : ℕ  -- u32
  pub has_output : Bool
  pub context_size : ℕ  -- u32
  pub model_name : List ℕ

abbrev pub is_awaiting : ClusterState → Bool
is_awaiting awaiting_worker_hello = true
is_awaiting _ = false

abbrev is_none : Option ℕ → Bool
is_none none = true
is_none (some _) = false

abbrev pub same_id : Option ℕ → Option ℕ → Bool
same_id none none = true
same_id (some a) (some b) = a == b
same_id none (some _) = false
same_id (some _) none = false

abbrev pub same_flag : Bool → Bool → Bool
same_flag true b = b
same_flag false b = not b

-- `checked_add(1) == Some(layer_count)`.
abbrev is_last : ℕ → ℕ → Bool
is_last layer_end layer_count = ltb layer_end u32_max && layer_end + 1 == layer_count

abbrev output_end_matches : Ds4Hello → WorkerHelloExpectation → Bool
output_end_matches hello e =
    e.has_output
    && e.layer_end == u32_max
    && hello.has_output
    && is_last hello.layer_end hello.layer_count

unfoldable pub validate_worker_hello : Ds4Hello → WorkerHelloExpectation → Result (Unit {0})
validate_worker_hello hello e = do
  fail_if
      (not (hello.layer_start == e.layer_start)
        || not (same_flag hello.has_output e.has_output)
        || not (output_end_matches hello e) && not (hello.layer_end == e.layer_end))
      layer_mismatch
  fail_if (not (hello.context_size == e.context_size)) context_mismatch
  fail_if (not (same_bytes hello.model_name e.model_name)) model_mismatch

unfoldable pub validate_control_snapshot : RendezvousControlSnapshot → Result (Unit {0})
validate_control_snapshot snapshot = do
  fail_if (not (is_awaiting snapshot.state)) wrong_state
  fail_if (not snapshot.lease_valid) invalid_lease
  fail_if (is_none snapshot.deployment_id) deployment_mismatch

unfoldable pub validate_rendezvous_control :
    RendezvousControlSnapshot → RendezvousControlSnapshot → Result (Unit {0})
validate_rendezvous_control expected current = do
  validate_control_snapshot current
  fail_if (not (expected.generation == current.generation)) generation_changed
  fail_if (not (same_id expected.deployment_id current.deployment_id)) deployment_mismatch

-- `RendezvousListener::bind`, up to the socket: the address asked for.
unfoldable pub bind : ℕ → WorkerHelloExpectation → Result WorkerHelloExpectation
bind address e = do
  validate_control_snapshot e.control
  fail_if (not (address == e.coordinator_address)) wrong_bind_address
  ok e

-- `accept_one`: the peer that connects in time, if one does, with its address, and the control state
-- at the moment at which the frame has been read. The timeout is in milliseconds.
unfoldable pub accept_one :
    WorkerHelloExpectation → ℕ → Option (ℕ × Stream) → RendezvousControlSnapshot → Result Ds4Hello
accept_one e limit none current = err timeout
accept_one e limit (some (source, stream)) current = do
  fail_if (not (source == e.worker_address)) wrong_source
  hello ← read_hello_frame stream (min limit 3000)
  validate_rendezvous_control e.control current
  validate_worker_hello hello e
  ok hello
