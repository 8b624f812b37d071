-- ===== src/Jobs/LocalQueue/Attempts.antt =====
-- How often src/infra/queue/local/local-file-queue.adapter.ts runs a job.
use file_system_spike.Base.{
  ℕ, zero, suc, ◌+◌, ◌≤◌, ◌≡◌, refl, ◌≢◌, String, str_eq_iff, false, none, some, arith,
}
use file_system_spike.Base.Dict.{lookup, lookup-set, lookup-delete}
use file_system_spike.Jobs.LocalQueue.{
  JobStatus, waiting, active, failed, JobFile, Folders, apply, apply_all, same, truthy_or,
  move_job_file, read_job_file, save_job_file,
}
use file_system_spike.Jobs.LocalQueue.Crash.{same_self}
use file_system_spike.Jobs.LocalQueue.Worker.{
  Config, recover_file, after_failure, started, start, rolled_back,
}

truthy_or_zero : (n : ℕ) → truthy_or (some n) 0 ≡ n
truthy_or_zero zero = refl
truthy_or_zero (suc n) = refl

rolled_back_lem : (n : ℕ) → rolled_back (some (n + 1)) ≡ some n
rolled_back_lem n = ground arith

move-there :
    (f : JobFile) (from to : JobStatus) (fs : Folders)
    → same from to ≡ false
    → lookup f.job.id (apply_all (move_job_file f from to) fs to) ≡ some f
unfolding apply_all move_job_file apply
move-there f from to fs d =
    ground
      (arith, same_self to, lookup-set f.job.id f.job.id f (fs to), str_eq_iff f.job.id f.job.id)

move-gone :
    (f : JobFile) (from to : JobStatus) (fs : Folders)
    → same from to ≡ false
    → lookup f.job.id (apply_all (move_job_file f from to) fs from) ≡ none
unfolding apply_all move_job_file apply
move-gone f from to fs d = ground (
  arith,
  same_self from,
  lookup-delete f.job.id f.job.id (apply (save_job_file f to) fs from),
  str_eq_iff f.job.id f.job.id,
)

-- The file that a start and a recovery give.
abbrev pub restarted : ℕ → JobFile → JobFile
restarted now f = record f {
  job = record f.job {
    status = waiting;
    processed_at = some now;
    attempts_made = some (truthy_or f.job.attempts_made 0);
  };
}

-- A start that a crash cuts off and the recovery of the restart cost no attempt: the file waits again
-- with the count it had, and is no longer active.
recover-start :
    (now : ℕ) (f : JobFile) (fs : Folders)
    → let mid = apply_all (start now f) fs in
      let end = apply_all (recover_file (read_job_file f.job.id active mid)) mid in
      (read_job_file f.job.id waiting end ≡ some (restarted now f))
      × (read_job_file f.job.id active end ≡ none)
unfolding start started recover_file read_job_file same
recover-start now f fs =
    let g = started now f in
    rw (move-there g waiting active fs refl, rolled_back_lem (truthy_or f.job.attempts_made 0))
      (
        move-there (restarted now f) active waiting (apply_all (start now f) fs) refl,
        move-gone (restarted now f) active waiting (apply_all (start now f) fs) refl,
      )

-- A file in its directory.
abbrev Placed : Type 0
Placed = JobStatus × JobFile

-- One more run that fails, unless the job has been given up.
unfoldable pub run_failing : Config → ℕ → String → Placed → Placed
run_failing cfg now message (failed, f) = (failed, f)
run_failing cfg now message (s, f) = after_failure cfg now message (started now f)

unfoldable pub runs_failing : Config → ℕ → String → ℕ → Placed → Placed
runs_failing cfg now message zero p = p
runs_failing cfg now message (suc n) p =
    run_failing cfg now message (runs_failing cfg now message n p)

abbrev pub max_attempts : Config → JobFile → ℕ
max_attempts cfg f = truthy_or f.options.attempts cfg.default_max_attempts

record Retrying (cfg : Config) (n : ℕ) (f : JobFile) (p : Placed) : Type 0 where
  going : p.0 ≢ failed
  counted : truthy_or p.1.job.attempts_made 0 ≡ n
  same_options : p.1.options ≡ f.options

run_failing-Retrying :
    (cfg : Config) (now : ℕ) (message : String) (n : ℕ) (f : JobFile) (p : Placed)
    → Retrying cfg n f p
    → suc n ≤ max_attempts cfg f
    → Retrying cfg (suc n) f (run_failing cfg now message p)
unfolding run_failing after_failure started
run_failing-Retrying cfg now message n f (s, g) r b = ground (
  arith,
  truthy_or_zero (truthy_or g.job.attempts_made 0 + 1),
  r.going,
  r.counted,
  r.same_options,
)

run_failing-last :
    (cfg : Config) (now : ℕ) (message : String) (f : JobFile) (p : Placed)
    → Retrying cfg (max_attempts cfg f) f p
    → (run_failing cfg now message p).0 ≡ failed
unfolding run_failing after_failure started
run_failing-last cfg now message f (s, g) r = ground (
  arith,
  truthy_or_zero (truthy_or g.job.attempts_made 0 + 1),
  r.going,
  r.counted,
  r.same_options,
)

runs_failing-Retrying :
    (cfg : Config) (now : ℕ) (message : String) (n : ℕ) (f : JobFile) (p : Placed)
    → Retrying cfg 0 f p
    → n ≤ max_attempts cfg f
    → Retrying cfg n f (runs_failing cfg now message n p)
unfolding runs_failing
runs_failing-Retrying cfg now message zero f p r b = r
runs_failing-Retrying cfg now message (suc n) f p r b =
    run_failing-Retrying cfg now message n f (runs_failing cfg now message n p)
      (runs_failing-Retrying cfg now message n f p r (omega (arith, b))) b

-- A fresh job whose every run fails is run once and then as often again as `attempts` says (or the
-- default, where it is missing or 0): after that many failures it is still to be retried, and the
-- next one is the last.
gives_up_after :
    (cfg : Config) (now : ℕ) (message : String) (n : ℕ) (f : JobFile)
    → f.job.attempts_made ≡ some 0
    → n ≤ max_attempts cfg f
    → ((runs_failing cfg now message n (waiting, f)).0 ≢ failed)
      × ((runs_failing cfg now message (suc (max_attempts cfg f)) (waiting, f)).0 ≡ failed)
unfolding runs_failing
gives_up_after cfg now message n f fresh b =
    let first : Retrying cfg 0 f (waiting, f) = record {
      going = λ e. cc e;
      counted = ground (arith, fresh);
      same_options = refl;
    } in
    (
      (runs_failing-Retrying cfg now message n f (waiting, f) first b).going,
      run_failing-last cfg now message f
          (runs_failing cfg now message (max_attempts cfg f) (waiting, f))
          (runs_failing-Retrying cfg now message (max_attempts cfg f) f (waiting, f) first
            (omega arith)),
    )
