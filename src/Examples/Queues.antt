-- ===== src/Examples/Queues.antt =====
-- A queue of src/infra/queue/local/local-file-queue.adapter.ts.
use file_system_spike.Base.{◌≡◌, refl, String, true, Option, some, none, [], ◌∷◌, is_some}
use file_system_spike.Base.Dict.{lookup}
use file_system_spike.Jobs.LocalQueue.{
  Job, JobFile, waiting, active, delayed, Folders, apply_all, no_options,
}
use file_system_spike.Jobs.LocalQueue.Worker.{
  Config, process_file, recover_queue_active_jobs, check_delayed_jobs,
}
use file_system_spike.Jobs.LocalQueue.Crash.{
  Present, until_crash, crash_keeps_jobs, crash_keeps_running_job,
}

abbrev job : Job
job = record {
  id = "j";
  queue_name = "NAS_SYNC";
  data_json = "{}";
  status = waiting;
  progress = some 0;
  created_at = 1;
  processed_at = none;
  completed_at = none;
  failed_reason = none;
  attempts_made = some 0;
}

abbrev file : JobFile
file = record { job = job; options = no_options; scheduled_at = none }

abbrev folders : Folders
folders active = ("j", file) ∷ []
folders delayed = ("k", record file { job = record job { id = "k" }; scheduled_at = some 5 }) ∷ []
folders _ = []

abbrev config : Config
config = record { default_max_attempts = 3; default_backoff_ms = 5000 }

abbrev processor : Job → Option String
processor j = some "EIO"

there : is_some (lookup "j" (folders active)) ≡ true
unfolding lookup
there = refl

crash_keeps_jobs_example :
    Present "j" (apply_all (until_crash 1 (recover_queue_active_jobs folders)) folders)
    × Present "j" (apply_all (until_crash 1 (check_delayed_jobs 9 folders)) folders)
crash_keeps_jobs_example = crash_keeps_jobs 1 9 folders "j" (active, there)

crash_keeps_running_job_example :
    Present "j" (apply_all (until_crash 3 (process_file config 9 processor (some file))) folders)
crash_keeps_running_job_example =
    crash_keeps_running_job config 3 9 processor file folders "j" refl refl (active, there)
