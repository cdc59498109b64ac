-- ===== src/Cluster/Tp.antt =====
-- src/cluster/tp.rs: what a tensor-parallel session has ready, element by element.
pub mod Complete
use siderostat.Prelude.{ℕ, Bool, true, false, ◌&&◌, Option, none, some, if◌then◌else◌, ◌==◌, not}

-- `TpSessionId` of src/cluster/operation.rs: a number of 64 bits, only compared.
abbrev pub TpSessionId : Type 0
TpSessionId = ℕ

pub record TpReadiness : Type 0 where
  pub worker_prepared : Bool
  pub coordinator_started : Bool
  pub handshake_http_ready : Bool
  pub warmup_done : Bool

pub data TpReadinessEvent : Type 0 where
  worker_prepared coordinator_started handshake_http_ready warmup_done : TpReadinessEvent

-- `TpReadiness::new`, which is the derived default.
unfoldable pub no_readiness : TpReadiness
no_readiness = record {
  worker_prepared = false;
  coordinator_started = false;
  handshake_http_ready = false;
  warmup_done = false;
}

unfoldable pub is_complete : TpReadiness → Bool
is_complete r =
    r.worker_prepared && r.coordinator_started && r.handshake_http_ready && r.warmup_done

-- `TpReadiness::with`.
unfoldable pub advance : TpReadiness → TpReadinessEvent → TpReadiness
advance r worker_prepared = record r { worker_prepared = true }
advance r coordinator_started = record r { coordinator_started = true }
advance r handshake_http_ready = record r { handshake_http_ready = true }
advance r warmup_done = record r { warmup_done = true }

pub record TpSessionState : Type 0 where
  pub session : TpSessionId
  pub readiness : TpReadiness

unfoldable pub new_session : TpSessionId → TpSessionState
new_session id = record { session = id; readiness = no_readiness }

unfoldable pub route_ready : TpSessionState → Bool
route_ready s = is_complete s.readiness

unfoldable pub apply_event : TpSessionState → TpSessionId → TpReadinessEvent → Option TpSessionState
apply_event s id e =
    if not (s.session == id)
    then none
    else some (record { session = id; readiness = advance s.readiness e })
