-- ===== src/Cluster/Tp/Complete.antt =====
-- src/cluster/tp.rs: a session's route is ready when every element was reported for it.
use siderostat.Prelude.{
  Bool, true, false, ◌&&◌, ◌||◌, ◌≡◌, List, [], ◌∷◌, Option, none, some, arith, ◌==◌,
}
use siderostat.Cluster.Tp.{
  TpSessionId, TpReadiness, TpReadinessEvent, TpSessionState, worker_prepared, coordinator_started,
  handshake_http_ready, warmup_done, advance, apply_event, is_complete, new_session, no_readiness,
  route_ready,
}

-- A report: the session that it is about, and the element.
abbrev pub Report : Type 0
Report = TpSessionId × TpReadinessEvent

-- A session that keeps its state when a report is refused.
abbrev pub or_keep : TpSessionState → Option TpSessionState → TpSessionState
or_keep s none = s
or_keep s (some t) = t

unfoldable pub deliver : TpSessionState → List Report → TpSessionState
deliver s [] = s
deliver s ((id, e) ∷ rs) = deliver (or_keep s (apply_event s id e)) rs

abbrev same_event : TpReadinessEvent → TpReadinessEvent → Bool
same_event worker_prepared worker_prepared = true
same_event coordinator_started coordinator_started = true
same_event handshake_http_ready handshake_http_ready = true
same_event warmup_done warmup_done = true
same_event _ _ = false

-- Was this element reported for this session?
unfoldable pub reported : TpSessionId → TpReadinessEvent → List Report → Bool
reported id e [] = false
reported id e ((i, d) ∷ rs) = (id == i && same_event e d) || reported id e rs

abbrev element : TpReadiness → TpReadinessEvent → Bool
element r worker_prepared = r.worker_prepared
element r coordinator_started = r.coordinator_started
element r handshake_http_ready = r.handshake_http_ready
element r warmup_done = r.warmup_done

step_element :
    (s : TpSessionState) (id : TpSessionId) (d e : TpReadinessEvent)
    → element (or_keep s (apply_event s id d)).readiness e
      ≡ (element s.readiness e || (s.session == id && same_event e d))
unfolding apply_event advance
step_element s id d e = ground arith

step_session :
    (s : TpSessionState) (id : TpSessionId) (d : TpReadinessEvent)
    → (or_keep s (apply_event s id d)).session ≡ s.session
unfolding apply_event
step_session s id d = ground arith

element-deliver :
    (s : TpSessionState) (e : TpReadinessEvent) (rs : List Report)
    → element (deliver s rs).readiness e ≡ (element s.readiness e || reported s.session e rs)
unfolding deliver reported
element-deliver s e [] = ground arith
element-deliver s e ((id, d) ∷ rs) = ground (
  arith,
  element-deliver (or_keep s (apply_event s id d)) e rs,
  step_element s id d e,
  step_session s id d,
)

-- Whatever reports arrive, in any order, repeated or about other sessions, a new session's route is
-- ready exactly when each of the four elements was reported for this session.
pub route_ready-deliver :
    (id : TpSessionId) (rs : List Report)
    → route_ready (deliver (new_session id) rs) ≡ (
        reported id worker_prepared rs
        && reported id coordinator_started rs
        && reported id handshake_http_ready rs
        && reported id warmup_done rs)
unfolding route_ready is_complete new_session no_readiness
route_ready-deliver id rs = ground (
  arith,
  element-deliver (new_session id) worker_prepared rs,
  element-deliver (new_session id) coordinator_started rs,
  element-deliver (new_session id) handshake_http_ready rs,
  element-deliver (new_session id) warmup_done rs,
)
