-- ===== src/Manager/Jobs/Single.antt =====
-- A payload has at most one running job.
use siderostat.Prelude.{
  ℕ, ◌≡◌, refl, ap, sym, ◌∙◌, Bool, true, false, ◌||◌, Option, none, some, List, [], ◌∷◌,
  if◌then◌else◌, same_bytes, same_bytes_iff, arith,
}
use siderostat.Manager.Jobs.{
  JobKind, JobId, job_id, same_id, ManagerJob, JobJournal, enqueue, running_job, created,
  release_key, changed, released, job_succeed, job_fail, job_request_cancel, get, get_mut, succeed,
  fail, request_cancel,
}

pub data Call : Type 0 where
  enqueues : JobKind → List ℕ → ℕ → Call
  changes : JobId → (ManagerJob → ManagerJob) → Call
  cancels succeeds : JobId → ℕ → Call
  fails : JobId → List ℕ → ℕ → Call

-- A call on a job that is not there leaves the journal as it was.
abbrev kept : JobJournal → Option JobJournal → JobJournal
kept j none = j
kept j (some k) = k

unfoldable pub perform : JobJournal → Call → JobJournal
perform j (enqueues kind key now) = (enqueue j kind key now).0
perform j (changes id change) = kept j (get_mut j id change)
perform j (cancels id now) = kept j (request_cancel j id now)
perform j (succeeds id now) = kept j (succeed j id now)
perform j (fails id error now) = kept j (fail j id error now)

unfoldable pub perform_all : JobJournal → List Call → JobJournal
perform_all j [] = j
perform_all j (c ∷ cs) = perform_all (perform j c) cs

abbrev closes : JobId → Call → Bool
closes id (succeeds other now) = same_id id other
closes id (fails other error now) = same_id id other
closes id _ = false

abbrev pub closed_by : JobId → List Call → Bool
closed_by id [] = false
closed_by id (c ∷ cs) = closes id c || closed_by id cs

abbrev IsRunning : List ℕ → JobId → JobJournal → Type 0
IsRunning key id j = running_job key j.running_by_key ≡ some id

abbrev is_job : JobId → Option JobId → Bool
is_job other none = false
is_job other (some id) = same_id id other

-- The entry of a job that is not released stays at its place.
release-first :
    (id other v : JobId) (key k : List ℕ) (rest : List (List ℕ × JobId)) (r : Bool)
    → same_id id other ≡ false
    → same_id v other ≡ r
    → same_bytes k key ≡ true
    → some v ≡ some id
    → running_job key (if r then rest else (k, v) ∷ rest) ≡ some id
unfolding running_job
release-first id other v key k rest true d hr hb e =
    ground (arith, sym hr ∙ ap (is_job other) e ∙ d)
release-first id other v key k rest false d hr hb e =
    ap (λ (b : Bool). if b then some v else running_job key rest) hb ∙ e

release-later :
    (id v : JobId) (key k : List ℕ) (rest : List (List ℕ × JobId)) (r : Bool)
    → same_bytes k key ≡ false
    → running_job key rest ≡ some id
    → running_job key (if r then rest else (k, v) ∷ rest) ≡ some id
unfolding running_job
release-later id v key k rest true hb h = h
release-later id v key k rest false hb h =
    ap (λ (b : Bool). if b then some v else running_job key rest) hb ∙ h

release-running :
    (id other : JobId) (key : List ℕ) (entries : List (List ℕ × JobId))
    → same_id id other ≡ false
    → running_job key entries ≡ some id
    → running_job key (release_key other entries) ≡ some id
unfolding running_job release_key
release-running id other key [] d h = h
release-running id other key ((k, v) ∷ rest) d h =
    found (same_bytes k key) refl h (λ e. release-running id other key rest d e)
  where
    found :
        (b : Bool)
        → same_bytes k key ≡ b
        → (if b then some v else running_job key rest) ≡ some id
        → (running_job key rest ≡ some id → running_job key (release_key other rest) ≡ some id)
        → running_job key (release_key other ((k, v) ∷ rest)) ≡ some id
    found true hb e ih =
        release-first id other v key k (release_key other rest) (same_id v other) d refl hb e
    found false hb e ih =
        release-later id v key k (release_key other rest) (same_id v other) hb (ih e)

changed-IsRunning :
    (key : List ℕ) (id : JobId) (j : JobJournal) (f : ManagerJob → ManagerJob)
    (o : Option ManagerJob)
    → IsRunning key id j
    → IsRunning key id (kept j (changed f j o))
changed-IsRunning key id j f none h = h
changed-IsRunning key id j f (some job) h = h

released-IsRunning :
    (key : List ℕ) (id other : JobId) (j : JobJournal) (f : ManagerJob → ManagerJob)
    (o : Option ManagerJob)
    → same_id id other ≡ false
    → IsRunning key id j
    → IsRunning key id (kept j (released other (changed f j o)))
released-IsRunning key id other j f none d h = h
released-IsRunning key id other j f (some job) d h =
    release-running id other key j.running_by_key d h

created-IsRunning :
    (key : List ℕ) (id : JobId) (j : JobJournal) (kind : JobKind) (other : List ℕ) (now : ℕ)
    → IsRunning key id j
    → IsRunning key id (enqueue j kind other now).0
unfolding enqueue running_job
created-IsRunning key id j kind other now h =
    found (running_job other j.running_by_key) (same_bytes other key) refl refl
  where
    found :
        (o : Option JobId) (b : Bool)
        → running_job other j.running_by_key ≡ o
        → same_bytes other key ≡ b
        → IsRunning key id (created j kind other now o).0
    found (some k) b ho hb = h
    found none true ho hb = ground (
      arith,
      sym ho ∙ ap (λ k. running_job k j.running_by_key) ((same_bytes_iff other key).0 hb) ∙ h,
    )
    found none false ho hb =
        ap
          (λ (b : Bool).
            if b then some (job_id kind j.next_id) else running_job key j.running_by_key)
          hb
        ∙ h

perform-IsRunning :
    (key : List ℕ) (id : JobId) (j : JobJournal) (c : Call)
    → closes id c ≡ false
    → IsRunning key id j
    → IsRunning key id (perform j c)
unfolding perform get_mut request_cancel succeed fail
perform-IsRunning key id j (enqueues kind other now) d h =
    created-IsRunning key id j kind other now h
perform-IsRunning key id j (changes k f) d h = changed-IsRunning key id j f (get k j.jobs) h
perform-IsRunning key id j (cancels k now) d h =
    changed-IsRunning key id j (λ job. job_request_cancel job now) (get k j.jobs) h
perform-IsRunning key id j (succeeds k now) d h =
    released-IsRunning key id k j (λ job. job_succeed job now) (get k j.jobs) d h
perform-IsRunning key id j (fails k error now) d h =
    released-IsRunning key id k j (λ job. job_fail job error now) (get k j.jobs) d h

perform_all-IsRunning :
    (key : List ℕ) (id : JobId) (j : JobJournal) (cs : List Call)
    → closed_by id cs ≡ false
    → IsRunning key id j
    → IsRunning key id (perform_all j cs)
unfolding perform_all
perform_all-IsRunning key id j [] d h = h
perform_all-IsRunning key id j (c ∷ cs) d h =
    perform_all-IsRunning key id (perform j c) cs (ground (arith, d))
      (perform-IsRunning key id j c (ground (arith, d)) h)

enqueue-IsRunning :
    (j : JobJournal) (kind : JobKind) (key : List ℕ) (now : ℕ)
    → IsRunning key (enqueue j kind key now).1 (enqueue j kind key now).0
unfolding enqueue running_job
enqueue-IsRunning j kind key now = found (running_job key j.running_by_key) refl
  where
    found :
        (o : Option JobId)
        → running_job key j.running_by_key ≡ o
        → IsRunning key (created j kind key now o).1 (created j kind key now o).0
    found (some id) h = h
    found none h =
        ap
          (λ (b : Bool).
            if b then some (job_id kind j.next_id) else running_job key j.running_by_key)
          ((same_bytes_iff key key).1 refl)

-- A payload has one job until that job is closed: whatever calls come in between, as long as none of
-- them closes the job, the payload gets the same id again and nothing is added, also when a cancel was
-- asked for, and whatever kind of work is asked for: a request of another kind for the same payload
-- gets the job of the first kind.
pub enqueue_again :
    (j : JobJournal) (kind other : JobKind) (key : List ℕ) (now later : ℕ) (cs : List Call)
    → closed_by (enqueue j kind key now).1 cs ≡ false
    → enqueue (perform_all (enqueue j kind key now).0 cs) other key later
      ≡ (perform_all (enqueue j kind key now).0 cs, (enqueue j kind key now).1)
unfolding enqueue
enqueue_again j kind other key now later cs d =
    ap (λ (o : Option JobId). created (perform_all (enqueue j kind key now).0 cs) other key later o)
      (perform_all-IsRunning key (enqueue j kind key now).1 (enqueue j kind key now).0 cs d
        (enqueue-IsRunning j kind key now))
