-- ===== src/Provisioning/Outcome.antt =====
-- A job that is run ends as ready with a binary, or as failed with a reason.
use mdmfleetmanagement.Prelude.{
  String, Bool, true, false, Option, none, some, List, [], ◌∷◌, ◌⊎◌, inl, inr, ◌≡◌, refl, sym,
  if◌then◌else◌, All, eq_iff,
}
use mdmfleetmanagement.Prelude.Rows.{find_where, update_where, find-holds}
use mdmfleetmanagement.Models.{Device, ProvisionJob}
use mdmfleetmanagement.Config.{Settings}
use mdmfleetmanagement.Session.{Session, Result, ok, err}
use mathlib.Core.Path.{subst}
use mdmfleetmanagement.Mqtt.Heartbeat.{has_id}
use mdmfleetmanagement.Provisioning.{
  Toolchain, job_by_id, set_status, fail, with_path, with_status, failed_with, compile, finish,
  build, run_for, run_found, run_job,
}

-- The job has an end: a binary that is ready, or a reason for the failure.
pub record IsEnd (j : ProvisionJob) : Type 0 where
  pub ending :
      ((j.status ≡ "ready") × (path : String) × (j.firmware_path ≡ some path))
      ⊎ ((j.status ≡ "failed") × (why : String) × (j.error ≡ some why))

-- The jobs of this id have an end.
abbrev pub HasEnd : String → ProvisionJob → Type 0
HasEnd id j = job_by_id id j ≡ true → IsEnd j

-- An update of the jobs of an id that keeps the id and leaves an end.
update_ends :
    (id : String) (f : ProvisionJob → ProvisionJob) (rows : List ProvisionJob)
    → ((j : ProvisionJob) → IsEnd (f j))
    → All (HasEnd id) (update_where (job_by_id id) f rows)
update_ends id f [] k = tt
update_ends id f (x ∷ xs) k = (go (job_by_id id x) refl, update_ends id f xs k)
  where
    go : (b : Bool) → job_by_id id x ≡ b → HasEnd id (if b then f x else x)
    go true e h = k x
    go false e h = cc

-- The end of a run: it returns, and the job has an end in what is stored.
abbrev pub Ends : String → Result (Unit {0}) × Session → Type 0
Ends id (r, s) = (r ≡ ok tt) × All (HasEnd id) s.committed.provision_jobs

fail-Ends : (id why : String) (s : Session) → Ends id (fail id why s)
unfolding fail
fail-Ends id why s = (
  refl,
  update_ends id (failed_with why) s.db.provision_jobs
      λ j. record { ending = inr (refl, why, refl) },
)

ready_end :
    (id path : String) (x : ProvisionJob) (b c : Bool)
    → job_by_id id x ≡ b
    → job_by_id id (if b then with_path path x else x) ≡ c
    → HasEnd id (
        if c
        then with_status "ready" (if b then with_path path x else x)
        else (if b then with_path path x else x))
unfolding job_by_id
ready_end id path x true true e g h = record { ending = inl (refl, path, refl) }
ready_end id path x true false e g h = cc
ready_end id path x false c e g h = absurd (go c h)
  where
    go : (c : Bool) → job_by_id id (if c then with_status "ready" x else x) ≡ true → ⊥
    go true k = cc
    go false k = cc

ready_ends :
    (id path : String) (rows : List ProvisionJob)
    → All (HasEnd id) (
        update_where
          (job_by_id id)
          (with_status "ready")
          (update_where (job_by_id id) (with_path path) rows))
ready_ends id path [] = tt
ready_ends id path (x ∷ xs) = (ready_end id path x _ _ refl refl, ready_ends id path xs)

finish-Ends :
    (tools : Toolchain) (id : String) (r : Result String) (s : Session)
    → Ends id (finish tools id r s)
unfolding finish set_status
finish-Ends tools id (ok path) s = (refl, ready_ends id path s.db.provision_jobs)
finish-Ends tools id (err e) s = fail-Ends id (tools.describe e) s

build-Ends :
    (settings : Settings) (tools : Toolchain) (id : String) (x : Device) (r : Result String)
    (s : Session)
    → Ends id (build settings tools id x r s)
unfolding build set_status
build-Ends settings tools id x (err e) s = fail-Ends id (tools.describe e) s
build-Ends settings tools id x (ok path) s =
    finish-Ends tools id (compile settings tools path x.device_id) _

run_for-Ends :
    (settings : Settings) (tools : Toolchain) (id : String) (x : Option Device) (s : Session)
    → Ends id (run_for settings tools id x s)
unfolding run_for set_status
run_for-Ends settings tools id none s = fail-Ends id "device row missing" s
run_for-Ends settings tools id (some x) s = build-Ends settings tools id x (tools.render x) _

-- A run of a job that exists returns, whatever the tools do, and stores an end of the job: it is
-- ready and has the path of its binary, or it failed and has the reason.
pub run_job-ends :
    (settings : Settings) (tools : Toolchain) (id : String) (j : ProvisionJob) (s : Session)
    → find_where (job_by_id id) s.db.provision_jobs ≡ some j
    → ((run_job settings tools id s).0 ≡ ok tt)
      × All (HasEnd id) (run_job settings tools id s).1.committed.provision_jobs
unfolding run_job run_found job_by_id
run_job-ends settings tools id j s h =
    let e = (eq_iff j.id id).0 (find-holds (job_by_id id) s.db.provision_jobs j h) in
    let x = find_where (has_id j.device_id) s.db.devices in
    rw h (
      subst (λ k. Ends id (run_for settings tools k x s)) (sym e)
        (run_for-Ends settings tools id x s))
