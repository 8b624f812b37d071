-- ===== src/Jobs/LocalQueue.antt =====
-- The files of one queue in src/infra/queue/local/local-file-queue.adapter.ts, with the types of
-- src/domain/queue/ports/job-queue.port.ts. A directory is a table from a job id to the file of that
-- name. Every write and every unlink is an effect of its own, so that a crash can fall between two.
pub mod Worker
pub mod Crash
pub mod Attempts
use file_system_spike.Base.{
  ℕ, zero, suc, ◌+◌, ◌-◌, String, str_eq, Bool, true, false, Option, none, some, List, [], ◌∷◌,
  ◌++◌, map, ltb, leb, ◌==◌, if◌then◌else◌, length,
}
use file_system_spike.Base.Dict.{lookup, set, delete}

pub data JobStatus : Type 0 where
  waiting active completed failed delayed : JobStatus

-- `data` is the JSON text of the job's data.
pub record Job : Type 0 where
  pub id : String
  pub queue_name : String
  pub data_json : String
  pub status : JobStatus
  pub progress : Option ℕ
  pub created_at : ℕ
  pub processed_at : Option ℕ
  pub completed_at : Option ℕ
  pub failed_reason : Option String
  pub attempts_made : Option ℕ

pub record JobOptions : Type 0 where
  pub delay : Option ℕ
  pub attempts : Option ℕ
  pub backoff : Option ℕ
  pub priority : Option ℕ
  pub job_id : Option String
  pub remove_on_complete : Option Bool
  pub remove_on_fail : Option Bool

-- Where the options are `undefined` every one of them is.
abbrev pub no_options : JobOptions
no_options = record {
  delay = none;
  attempts = none;
  backoff = none;
  priority = none;
  job_id = none;
  remove_on_complete = none;
  remove_on_fail = none;
}

pub record JobFile : Type 0 where
  pub job : Job
  pub options : JobOptions
  pub scheduled_at : Option ℕ

rank : JobStatus → ℕ
rank waiting = 0
rank active = 1
rank completed = 2
rank failed = 3
rank delayed = 4

unfoldable pub same : JobStatus → JobStatus → Bool
unfolding rank
same s t = rank s == rank t

abbrev pub Folders : Type 0
Folders = JobStatus → List (String × JobFile)

-- `writeFile` and `unlink`; the latter does nothing where there is no file.
pub data Effect : Type 0 where
  save_job_file : JobFile → JobStatus → Effect
  delete_job_file : String → JobStatus → Effect

unfoldable pub apply : Effect → Folders → Folders
unfolding same
apply (save_job_file f s) fs t = if same s t then set f.job.id f (fs t) else fs t
apply (delete_job_file id s) fs t = if same s t then delete id (fs t) else fs t

unfoldable pub apply_all : List Effect → Folders → Folders
apply_all [] fs = fs
apply_all (e ∷ es) fs = apply_all es (apply e fs)

unfoldable pub read_job_file : String → JobStatus → Folders → Option JobFile
read_job_file id s fs = lookup id (fs s)

names : List (String × JobFile) → List String
names [] = []
names ((id, f) ∷ m) = id ∷ names m

unfoldable pub list_job_files : JobStatus → Folders → List String
unfolding names
list_job_files s fs = names (fs s)

-- Write, then delete.
unfoldable pub move_job_file : JobFile → JobStatus → JobStatus → List Effect
move_job_file f from to = save_job_file f to ∷ delete_job_file f.job.id from ∷ []

-- `a || d` on a number that may be missing.
abbrev pub truthy_or : Option ℕ → ℕ → ℕ
truthy_or none d = d
truthy_or (some zero) d = d
truthy_or (some (suc n)) d = suc n

abbrev pub truthy : Option ℕ → Bool
truthy none = false
truthy (some zero) = false
truthy (some (suc n)) = true

abbrev pub is_true : Option Bool → Bool
is_true none = false
is_true (some b) = b

text_or : Option String → String → String
text_or none d = d
text_or (some s) d = if str_eq s "" then d else s

scheduled : Option ℕ → ℕ → Option ℕ
scheduled none now = none
scheduled (some zero) now = none
scheduled (some (suc d)) now = some (now + suc d)

new_job : ℕ → String → String → String → JobStatus → Job
new_job now id queue data_json status = record {
  id = id;
  queue_name = queue;
  data_json = data_json;
  status = status;
  progress = some 0;
  created_at = now;
  processed_at = none;
  completed_at = none;
  failed_reason = none;
  attempts_made = some 0;
}

-- `fresh_id` is the id that `generateJobId` gives.
unfoldable pub add_job : ℕ → String → String → String → JobOptions → List Effect × Job
unfolding text_or scheduled new_job
add_job now fresh_id queue data_json options =
    let status = if truthy options.delay then delayed else waiting in
    let job = new_job now (text_or options.job_id fresh_id) queue data_json status in
    (
      save_job_file
            (record { job = job; options = options; scheduled_at = scheduled options.delay now })
            status
          ∷ [],
      job,
    )

-- The first directory that has the job, in the order of the source.
first_found : String → List JobStatus → Folders → Option Job
first_found id [] fs = none
first_found id (s ∷ ss) fs = elim (read_job_file id s fs) [
  | none ↦ first_found id ss fs
  | some f ↦ some f.job
]

abbrev pub statuses : List JobStatus
statuses = waiting ∷ active ∷ completed ∷ failed ∷ delayed ∷ []

unfoldable pub get_job : String → Folders → Option Job
unfolding first_found
get_job id fs = first_found id statuses fs

unfoldable pub remove_job : String → List Effect
remove_job id = map (delete_job_file id) statuses

-- `rm` of the two directories.
unfoldable pub clean_queue : Folders → Folders
clean_queue fs completed = []
clean_queue fs failed = []
clean_queue fs waiting = fs waiting
clean_queue fs active = fs active
clean_queue fs delayed = fs delayed

pub record QueueStats : Type 0 where
  pub waiting_count : ℕ
  pub active_count : ℕ
  pub completed_count : ℕ
  pub failed_count : ℕ
  pub delayed_count : ℕ

unfoldable pub get_queue_stats : Folders → QueueStats
get_queue_stats fs = record {
  waiting_count = length (list_job_files waiting fs);
  active_count = length (list_job_files active fs);
  completed_count = length (list_job_files completed fs);
  failed_count = length (list_job_files failed fs);
  delayed_count = length (list_job_files delayed fs);
}
