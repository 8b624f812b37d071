-- ===== src/Jobs/LocalQueue/Worker.antt =====
-- The worker of src/infra/queue/local/local-file-queue.adapter.ts: recovery, delayed jobs, and the
-- processing of one poll, whose jobs run one after the other. The processor is an argument, and
-- answers with the message of the error that it throws.
use file_system_spike.Base.{
  ℕ, zero, suc, ◌+◌, ◌-◌, ◌*◌, String, Bool, true, false, Option, none, some, List, [], ◌∷◌, ◌++◌,
  ltb, leb, if◌then◌else◌,
}
use file_system_spike.Base.Text.{codes}
use file_system_spike.Jobs.LocalQueue.{
  JobStatus, waiting, active, completed, failed, delayed, Job, JobFile, Folders, Effect,
  delete_job_file, apply_all, read_job_file, list_job_files, move_job_file, truthy_or, is_true,
}

pub record Config : Type 0 where
  pub default_max_attempts : ℕ
  pub default_backoff_ms : ℕ

abbrev pub with_status : JobStatus → JobFile → JobFile
with_status s f = record f { job = record f.job { status = s } }

-- A crash is no attempt: a positive count goes down by one.
abbrev pub rolled_back : Option ℕ → Option ℕ
rolled_back none = none
rolled_back (some zero) = some zero
rolled_back (some (suc n)) = some n

unfoldable pub recover_file : Option JobFile → List Effect
recover_file none = []
recover_file (some f) =
    move_job_file
      (record f {
        job = record f.job { status = waiting; attempts_made = rolled_back f.job.attempts_made };
      })
      active waiting

-- Each file is read after what was done to those before it.
unfoldable pub recover_files : List String → Folders → List Effect
unfolding recover_file
recover_files [] fs = []
recover_files (id ∷ ids) fs =
    let es = recover_file (read_job_file id active fs) in es ++ recover_files ids (apply_all es fs)

unfoldable pub recover_queue_active_jobs : Folders → List Effect
unfolding recover_files
recover_queue_active_jobs fs = recover_files (list_job_files active fs) fs

abbrev pub due : ℕ → Option ℕ → Bool
due now none = false
due now (some zero) = false
due now (some (suc n)) = leb (suc n) now

unfoldable pub delayed_file : ℕ → Option JobFile → List Effect
delayed_file now none = []
delayed_file now (some f) =
    if due now f.scheduled_at then move_job_file (with_status waiting f) delayed waiting else []

unfoldable pub delayed_files : ℕ → List String → Folders → List Effect
unfolding delayed_file
delayed_files now [] fs = []
delayed_files now (id ∷ ids) fs =
    let es = delayed_file now (read_job_file id delayed fs) in
    es ++ delayed_files now ids (apply_all es fs)

unfoldable pub check_delayed_jobs : ℕ → Folders → List Effect
unfolding delayed_files
check_delayed_jobs now fs = delayed_files now (list_job_files delayed fs) fs

unfoldable pub started : ℕ → JobFile → JobFile
started now f = record f {
  job = record f.job {
    status = active;
    processed_at = some now;
    attempts_made = some (truthy_or f.job.attempts_made 0 + 1);
  };
}

unfoldable pub start : ℕ → JobFile → List Effect
unfolding started
start now f = move_job_file (started now f) waiting active

unfoldable pub complete : ℕ → JobFile → List Effect
complete now f =
    let done = record f { job = record f.job { status = completed; completed_at = some now } } in
    if is_true f.options.remove_on_complete
    then delete_job_file f.job.id active ∷ []
    else move_job_file done active completed

-- The directory that a failed run sends the file to, and the file.
unfoldable pub after_failure : Config → ℕ → String → JobFile → JobStatus × JobFile
after_failure cfg now message f =
    let made = truthy_or f.job.attempts_made 0 in
    let max_attempts = truthy_or f.options.attempts cfg.default_max_attempts in
    let backoff = truthy_or f.options.backoff cfg.default_backoff_ms in
    if leb made max_attempts
    then (
      delayed,
      record f {
        job = record f.job { status = waiting; failed_reason = some message };
        scheduled_at = some (now + backoff * made);
      },
    )
    else (failed, record f { job = record f.job { status = failed; failed_reason = some message } })

unfoldable pub settle : JobFile → JobStatus × JobFile → List Effect
settle f (failed, g) =
    if is_true f.options.remove_on_fail
    then delete_job_file f.job.id active ∷ []
    else move_job_file g active failed
settle f (s, g) = move_job_file g active s

unfoldable pub give_up_or_retry : Config → ℕ → String → JobFile → List Effect
unfolding after_failure settle
give_up_or_retry cfg now message f = settle f (after_failure cfg now message f)

unfoldable pub settled_run : Config → ℕ → JobFile → Option String → List Effect
settled_run cfg now f none = complete now f
settled_run cfg now f (some message) = give_up_or_retry cfg now message f

-- One job of a poll, from the file that was read to the end of its run.
unfoldable pub process_file : Config → ℕ → (Job → Option String) → Option JobFile → List Effect
unfolding settled_run
process_file cfg now processor none = []
process_file cfg now processor (some f) =
    let g = started now f in start now f ++ settled_run cfg now g (processor g.job)

unfoldable pub process_files :
    Config → ℕ → (Job → Option String) → List String → Folders → List Effect
unfolding process_file
process_files cfg now processor [] fs = []
process_files cfg now processor (id ∷ ids) fs =
    let es = process_file cfg now processor (read_job_file id waiting fs) in
    es ++ process_files cfg now processor ids (apply_all es fs)

-- `sort()` on texts.
code_leb : List ℕ → List ℕ → Bool
code_leb [] ys = true
code_leb (x ∷ xs) [] = false
code_leb (x ∷ xs) (y ∷ ys) =
    let rest = code_leb xs ys in if ltb x y then true else if ltb y x then false else rest

insert : String → List String → List String
insert x [] = x ∷ []
insert x (y ∷ ys) =
    let rest = insert x ys in if code_leb (codes x) (codes y) then x ∷ y ∷ ys else y ∷ rest

sort : List String → List String
sort [] = []
sort (x ∷ xs) = insert x (sort xs)

abbrev pub slice_to : ℕ → List String → List String
slice_to zero xs = []
slice_to (suc n) [] = []
slice_to (suc n) (x ∷ xs) = x ∷ slice_to n xs

-- The free slots come from the jobs that earlier polls still run.
unfoldable pub jobs_to_process : ℕ → ℕ → Folders → List String
unfolding code_leb insert sort
jobs_to_process concurrency active_count fs =
    slice_to (concurrency - active_count) (sort (list_job_files waiting fs))

unfoldable pub process_waiting_jobs :
    Config → ℕ → (Job → Option String) → ℕ → ℕ → Bool → Folders → List Effect
unfolding process_files jobs_to_process
process_waiting_jobs cfg now processor concurrency active_count paused fs =
    if paused
    then []
    else process_files cfg now processor (jobs_to_process concurrency active_count fs) fs

-- One round of the poll.
unfoldable pub poll : Config → ℕ → (Job → Option String) → ℕ → ℕ → Bool → Folders → List Effect
unfolding check_delayed_jobs process_waiting_jobs
poll cfg now processor concurrency active_count paused fs =
    if paused
    then []
    else let es = check_delayed_jobs now fs in
      es ++ process_waiting_jobs cfg now processor concurrency active_count paused (apply_all es fs)
