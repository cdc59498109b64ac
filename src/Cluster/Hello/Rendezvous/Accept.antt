-- ===== src/Cluster/Hello/Rendezvous/Accept.antt =====
-- Which peer the coordinator admits.
use siderostat.Prelude.{
  same_bytes_iff, ℕ, ◌+◌, ◌<◌, Bool, true, false, ◌≡◌, ◌≢◌, ◌↔◌, ◌⊎◌, Option, none, some, arith,
  min, u32_max,
}
use siderostat.Target.{ClusterState, awaiting_worker_hello}
use siderostat.Cluster.Hello.{Ds4Hello, ok, parse_hello_frame, Stream, read_hello_frame}
use siderostat.Cluster.Hello.Reader.{read_hello_frame_iff}
use siderostat.Cluster.Hello.Rendezvous.{
  RendezvousControlSnapshot, WorkerHelloExpectation, is_awaiting, same_id, same_flag,
  validate_worker_hello, validate_control_snapshot, validate_rendezvous_control, accept_one,
}

same_id_iff : (a b : Option ℕ) → (same_id a b ≡ true) ↔ (a ≡ b)
same_id_iff none none = ground arith
same_id_iff none (some b) = ground arith
same_id_iff (some a) none = ground arith
same_id_iff (some a) (some b) = ground arith

same_flag_iff : (a b : Bool) → (same_flag a b ≡ true) ↔ (a ≡ b)
same_flag_iff true true = ground arith
same_flag_iff true false = ground arith
same_flag_iff false true = ground arith
same_flag_iff false false = ground arith

is_awaiting_iff : (s : ClusterState) → (is_awaiting s ≡ true) ↔ (s ≡ awaiting_worker_hello)
is_awaiting_iff s = ground arith

-- The worker announces the slice of the model that the coordinator has planned for it. A slice that
-- is planned to the end of the model ends where the worker says that the model ends.
pub record Matches (hello : Ds4Hello) (e : WorkerHelloExpectation) : Type 0 where
  pub same_start : hello.layer_start ≡ e.layer_start
  pub same_output : hello.has_output ≡ e.has_output
  pub same_end :
      (hello.layer_end ≡ e.layer_end)
      ⊎ ((e.layer_end ≡ u32_max)
          × (hello.has_output ≡ true)
          × (hello.layer_end < u32_max)
          × (hello.layer_end + 1 ≡ hello.layer_count))
  pub same_context : hello.context_size ≡ e.context_size
  pub same_model : hello.model_name ≡ e.model_name

validate_worker_hello-Matches :
    (hello : Ds4Hello) (e : WorkerHelloExpectation)
    → validate_worker_hello hello e ≡ ok tt
    → Matches hello e
unfolding validate_worker_hello
validate_worker_hello-Matches hello e p = record {
  same_start = ground arith;
  same_output = ground (arith, same_flag_iff hello.has_output e.has_output);
  same_end = ground arith;
  same_context = ground arith;
  same_model = ground (arith, same_bytes_iff hello.model_name e.model_name);
}

Matches-validate_worker_hello :
    (hello : Ds4Hello) (e : WorkerHelloExpectation)
    → Matches hello e
    → validate_worker_hello hello e ≡ ok tt
unfolding validate_worker_hello
Matches-validate_worker_hello hello e m = ground (
  arith,
  m.same_start,
  m.same_output,
  m.same_end,
  m.same_context,
  m.same_model,
  same_bytes_iff hello.model_name e.model_name,
  same_flag_iff hello.has_output e.has_output,
)

-- The control state still is the one for which the coordinator listens.
pub record StillCurrent (expected current : RendezvousControlSnapshot) : Type 0 where
  pub awaits : current.state ≡ awaiting_worker_hello
  pub leased : current.lease_valid ≡ true
  pub deployed : current.deployment_id ≢ none
  pub same_generation : expected.generation ≡ current.generation
  pub same_deployment : expected.deployment_id ≡ current.deployment_id

validate_rendezvous_control-StillCurrent :
    (expected current : RendezvousControlSnapshot)
    → validate_rendezvous_control expected current ≡ ok tt
    → StillCurrent expected current
unfolding validate_rendezvous_control validate_control_snapshot
validate_rendezvous_control-StillCurrent expected current p = record {
  awaits = ground arith;
  leased = ground arith;
  deployed = ground arith;
  same_generation = ground arith;
  same_deployment = ground (arith, same_id_iff expected.deployment_id current.deployment_id);
}

StillCurrent-validate_rendezvous_control :
    (expected current : RendezvousControlSnapshot)
    → StillCurrent expected current
    → validate_rendezvous_control expected current ≡ ok tt
unfolding validate_rendezvous_control validate_control_snapshot
StillCurrent-validate_rendezvous_control expected current c = ground (
  arith,
  c.awaits,
  c.leased,
  c.deployed,
  c.same_generation,
  c.same_deployment,
  same_id_iff expected.deployment_id current.deployment_id,
)

accept_one-read :
    (e : WorkerHelloExpectation) (limit source : ℕ) (stream : Stream)
    (current : RendezvousControlSnapshot) (hello : Ds4Hello)
    → accept_one e limit (some (source, stream)) current ≡ ok hello
    → (source ≡ e.worker_address)
      × (read_hello_frame stream (min limit 3000) ≡ ok hello)
      × (validate_rendezvous_control e.control current ≡ ok tt)
      × (validate_worker_hello hello e ≡ ok tt)
unfolding accept_one
accept_one-read e limit source stream current hello p =
    (ground arith, ground arith, ground arith, ground arith)

accept_one_passed :
    (e : WorkerHelloExpectation) (limit source : ℕ) (stream : Stream)
    (current : RendezvousControlSnapshot) (hello : Ds4Hello)
    → source ≡ e.worker_address
    → read_hello_frame stream (min limit 3000) ≡ ok hello
    → validate_rendezvous_control e.control current ≡ ok tt
    → validate_worker_hello hello e ≡ ok tt
    → accept_one e limit (some (source, stream)) current ≡ ok hello
unfolding accept_one
accept_one_passed e limit source stream current hello hs hr hc hw = ground arith

-- The coordinator admits a peer that has connected, and returns its hello, exactly when the peer has
-- the worker's address, the time limit is not zero, the bytes are a frame from which the parser reads
-- that hello, the control state still is the one for which the coordinator listens (its state, lease,
-- deployment and generation), and the hello announces the planned layers, context and model.
pub accept_one_iff :
    (e : WorkerHelloExpectation) (limit source : ℕ) (stream : Stream)
    (current : RendezvousControlSnapshot) (hello : Ds4Hello)
    → accept_one e limit (some (source, stream)) current ≡ ok hello
      ↔ (source ≡ e.worker_address)
        × (limit ≢ 0)
        × (parse_hello_frame stream.bytes ≡ ok hello)
        × StillCurrent e.control current
        × Matches hello e
accept_one_iff e limit source stream current hello = (to, from)
  where
    reads :
        read_hello_frame stream (min limit 3000) ≡ ok hello
        ↔ (min limit 3000 ≢ 0) × (parse_hello_frame stream.bytes ≡ ok hello)
    reads = read_hello_frame_iff stream (min limit 3000) hello

    to :
        accept_one e limit (some (source, stream)) current ≡ ok hello
        → (source ≡ e.worker_address)
          × (limit ≢ 0)
          × (parse_hello_frame stream.bytes ≡ ok hello)
          × StillCurrent e.control current
          × Matches hello e
    to p =
        let q = accept_one-read e limit source stream current hello p in
        (
          q.0,
          omega (arith, (reads.0 q.1).0),
          (reads.0 q.1).1,
          validate_rendezvous_control-StillCurrent e.control current q.2,
          validate_worker_hello-Matches hello e q.3,
        )

    from :
        (source ≡ e.worker_address)
          × (limit ≢ 0)
          × (parse_hello_frame stream.bytes ≡ ok hello)
          × StillCurrent e.control current
          × Matches hello e
        → accept_one e limit (some (source, stream)) current ≡ ok hello
    from q =
        accept_one_passed e limit source stream current hello q.0
          (reads.1 (omega (arith, q.1), q.2))
          (StillCurrent-validate_rendezvous_control e.control current q.3)
          (Matches-validate_worker_hello hello e q.4)
