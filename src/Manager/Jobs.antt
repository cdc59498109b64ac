-- ===== src/Manager/Jobs.antt =====
-- src/manager/jobs.rs: the journal of the jobs. The id of a job is its kind and its number, which the
-- code writes with a dash between them; the time is an argument. The u64 counter of the ids is a
-- number without a bound.
pub mod Single
use siderostat.Prelude.{
  ℕ, ◌+◌, Bool, true, false, not, ◌&&◌, ◌||◌, Option, none, some, List, [], ◌∷◌, if◌then◌else◌,
  ◌==◌, same_bytes, min, find, insert, nat_eq,
}

pub data JobKind : Type 0 where
  fetch build download verify stage activate rollback : JobKind

pub data JobId : Type 0 where
  job_id : JobKind → ℕ → JobId

-- The place of a kind among the constructors.
abbrev place : JobKind → ℕ
place fetch = 0
place build = 1
place download = 2
place verify = 3
place stage = 4
place activate = 5
place rollback = 6

abbrev pub same_kind : JobKind → JobKind → Bool
same_kind a b = place a == place b

abbrev pub same_id : JobId → JobId → Bool
same_id (job_id a m) (job_id b n) = same_kind a b && m == n

pub data JobPhase : Type 0 where
  running succeeded failed cancelling : JobPhase

pub record ManagerJob : Type 0 where
  pub id : JobId
  pub kind : JobKind
  pub progress : ℕ  -- u8
  pub phase : JobPhase
  pub error : List ℕ
  pub created_at : ℕ
  pub updated_at : ℕ
  pub cancel : Bool

unfoldable pub new_job : JobId → JobKind → ℕ → ManagerJob
new_job id kind now = record {
  id = id;
  kind = kind;
  progress = 0;
  phase = running;
  error = [];
  created_at = now;
  updated_at = now;
  cancel = false;
}

unfoldable pub set_progress : ManagerJob → ℕ → ℕ → ManagerJob
set_progress j progress now = record j { progress = min progress 100; updated_at = now }

unfoldable pub job_succeed : ManagerJob → ℕ → ManagerJob
job_succeed j now = record j { phase = succeeded; progress = 100; updated_at = now }

unfoldable pub job_fail : ManagerJob → List ℕ → ℕ → ManagerJob
job_fail j error now = record j { phase = failed; error = error; updated_at = now }

unfoldable pub job_request_cancel : ManagerJob → ℕ → ManagerJob
job_request_cancel j now = record j { cancel = true; phase = cancelling; updated_at = now }

pub record JobJournal : Type 0 where
  pub jobs : List ManagerJob
  pub running_by_key : List (List ℕ × JobId)
  pub next_id : ℕ

unfoldable pub new_journal : JobJournal
new_journal = record { jobs = []; running_by_key = []; next_id = 0 }

unfoldable pub running_job : List ℕ → List (List ℕ × JobId) → Option JobId
running_job key [] = none
running_job key ((k, id) ∷ rest) = if same_bytes k key then some id else running_job key rest

-- `get`: the jobs are kept by their ids.
unfoldable pub get : JobId → List ManagerJob → Option ManagerJob
get id [] = none
get id (job ∷ jobs) = if same_id job.id id then some job else get id jobs

-- The job takes the place of the one with its id.
abbrev pub put : ManagerJob → List ManagerJob → List ManagerJob
put job [] = job ∷ []
put job (other ∷ jobs) =
    let rest = put job jobs in if same_id other.id job.id then job ∷ jobs else other ∷ rest

abbrev pub created : JobJournal → JobKind → List ℕ → ℕ → Option JobId → JobJournal × JobId
created j kind key now (some id) = (j, id)
created j kind key now none =
    let id = job_id kind j.next_id in
    (
      record {
        jobs = put (new_job id kind now) j.jobs;
        running_by_key = (key, id) ∷ j.running_by_key;
        next_id = j.next_id + 1;
      },
      id,
    )

-- `enqueue`, which cannot fail.
unfoldable pub enqueue : JobJournal → JobKind → List ℕ → ℕ → JobJournal × JobId
enqueue j kind key now = created j kind key now (running_job key j.running_by_key)

-- `release_key`: the entries of a job go.
unfoldable pub release_key : JobId → List (List ℕ × JobId) → List (List ℕ × JobId)
release_key id [] = []
release_key id ((k, v) ∷ rest) =
    let kept = release_key id rest in if same_id v id then kept else (k, v) ∷ kept

-- None where there is no such job (`NotFound`).
abbrev pub changed : (ManagerJob → ManagerJob) → JobJournal → Option ManagerJob → Option JobJournal
changed change j none = none
changed change j (some job) = some (record j { jobs = put (change job) j.jobs })

abbrev pub released : JobId → Option JobJournal → Option JobJournal
released id none = none
released id (some j) = some (record j { running_by_key = release_key id j.running_by_key })

-- `get_mut`, with the change that its caller makes.
unfoldable pub get_mut : JobJournal → JobId → (ManagerJob → ManagerJob) → Option JobJournal
get_mut j id change = changed change j (get id j.jobs)

unfoldable pub succeed : JobJournal → JobId → ℕ → Option JobJournal
succeed j id now = released id (changed (λ job. job_succeed job now) j (get id j.jobs))

unfoldable pub fail : JobJournal → JobId → List ℕ → ℕ → Option JobJournal
fail j id error now = released id (changed (λ job. job_fail job error now) j (get id j.jobs))

unfoldable pub request_cancel : JobJournal → JobId → ℕ → Option JobJournal
request_cancel j id now = changed (λ job. job_request_cancel job now) j (get id j.jobs)

abbrev is_open : JobPhase → Bool
is_open running = true
is_open cancelling = true
is_open _ = false

abbrev any_open : JobKind → List ManagerJob → Bool
any_open kind [] = false
any_open kind (job ∷ jobs) = same_kind job.kind kind && is_open job.phase || any_open kind jobs

unfoldable pub has_running : JobJournal → JobKind → Bool
has_running j kind = any_open kind j.jobs
