-- ===== src/Jobs/LocalQueue/Crash.antt =====
-- What a crash between two file operations of
-- src/infra/queue/local/local-file-queue.adapter.ts leaves behind.
use file_system_spike.Base.{
  ℕ, zero, suc, ◌≡◌, refl, ◌⊎◌, inl, inr, String, str_eq, true, false, Option, none, some, List, [],
  ◌∷◌, ◌++◌, arith, Bool-cases, is_some,
}
use file_system_spike.Base.Dict.{lookup, lookup-set, lookup-delete}
use file_system_spike.Jobs.LocalQueue.{
  JobStatus, waiting, active, completed, failed, delayed, Job, JobFile, Folders, Effect,
  save_job_file, delete_job_file, apply, apply_all, same, move_job_file, read_job_file, is_true,
  list_job_files,
}
use file_system_spike.Jobs.LocalQueue.Worker.{
  Config, recover_file, recover_files, recover_queue_active_jobs, delayed_file, delayed_files,
  check_delayed_jobs, process_file, started, start, complete, after_failure, settle, with_status,
  due, give_up_or_retry, settled_run,
}

-- Some directory has a file for the job.
abbrev pub Present : String → Folders → Type 0
Present id fs = (s : JobStatus) × (is_some (lookup id (fs s)) ≡ true)

abbrev Keeps : Folders → Folders → Type 0
Keeps fs fs' = (id : String) → Present id fs → Present id fs'

-- The first `n` effects: all that a crash lets happen.
unfoldable pub until_crash : ℕ → List Effect → List Effect
until_crash zero es = []
until_crash (suc n) [] = []
until_crash (suc n) (e ∷ es) = e ∷ until_crash n es

-- No effect of the list makes a job vanish.
Safe : List Effect → Folders → Type 0
Safe [] fs = Unit {0}
Safe (e ∷ es) fs = Keeps fs (apply e fs) × Safe es (apply e fs)

Safe-append :
    (es ds : List Effect) (fs : Folders)
    → Safe es fs
    → Safe ds (apply_all es fs)
    → Safe (es ++ ds) fs
unfolding Safe apply_all
Safe-append [] ds fs a b = b
Safe-append (e ∷ es) ds fs a b = (a.0, Safe-append es ds (apply e fs) a.1 b)

Safe-until_crash :
    (n : ℕ) (es : List Effect) (fs : Folders)
    → Safe es fs
    → Keeps fs (apply_all (until_crash n es) fs)
unfolding Safe apply_all until_crash
Safe-until_crash zero es fs a id p = p
Safe-until_crash (suc n) [] fs a id p = p
Safe-until_crash (suc n) (e ∷ es) fs a id p = Safe-until_crash n es (apply e fs) a.1 id (a.0 id p)

save-Keeps : (f : JobFile) (s : JobStatus) (fs : Folders) → Keeps fs (apply (save_job_file f s) fs)
unfolding apply
save-Keeps f s fs id (t, h) = (t, ground (arith, lookup-set f.job.id id f (fs t)))

pub same_self : (s : JobStatus) → same s s ≡ true
unfolding same
same_self s = ground arith

delete-Keeps :
    (f : JobFile) (from to : JobStatus) (fs : Folders)
    → same from to ≡ false
    → Keeps
        (apply (save_job_file f to) fs)
        (apply (delete_job_file f.job.id from) (apply (save_job_file f to) fs))
unfolding apply
delete-Keeps f from to fs d id (t, h) = elim (Bool-cases (str_eq f.job.id id)) [
  | inl own ↦ (to, ground (arith, d, own, same_self to, lookup-set f.job.id id f (fs to)))
  | inr other ↦ (
    t,
    ground (
      arith,
      h,
      other,
      lookup-set f.job.id id f (fs t),
      lookup-delete f.job.id id (fs t),
      lookup-delete f.job.id id (apply (save_job_file f to) fs t),
    ),
  )
]

move-Safe :
    (f : JobFile) (from to : JobStatus) (fs : Folders)
    → same from to ≡ false
    → Safe (move_job_file f from to) fs
unfolding Safe move_job_file
move-Safe f from to fs d = (save-Keeps f to fs, (delete-Keeps f from to fs d, tt))

recover_file-Safe : (o : Option JobFile) (fs : Folders) → Safe (recover_file o) fs
unfolding recover_file Safe same
recover_file-Safe none fs = tt
recover_file-Safe (some f) fs = move-Safe _ active waiting fs refl

recover_files-Safe : (ids : List String) (fs : Folders) → Safe (recover_files ids fs) fs
unfolding recover_files Safe
recover_files-Safe [] fs = tt
recover_files-Safe (id ∷ ids) fs =
    let es = recover_file (read_job_file id active fs) in
    Safe-append es (recover_files ids (apply_all es fs)) fs
      (recover_file-Safe (read_job_file id active fs) fs) (recover_files-Safe ids (apply_all es fs))

delayed_file-Safe : (now : ℕ) (o : Option JobFile) (fs : Folders) → Safe (delayed_file now o) fs
unfolding delayed_file Safe same
delayed_file-Safe now none fs = tt
delayed_file-Safe now (some f) fs = elim (Bool-cases (due now f.scheduled_at)) [
  | inl ready ↦ rw ready (move-Safe (with_status waiting f) delayed waiting fs refl)
  | inr early ↦ rw early tt
]

delayed_files-Safe :
    (now : ℕ) (ids : List String) (fs : Folders) → Safe (delayed_files now ids fs) fs
unfolding delayed_files Safe
delayed_files-Safe now [] fs = tt
delayed_files-Safe now (id ∷ ids) fs =
    let es = delayed_file now (read_job_file id delayed fs) in
    Safe-append es (delayed_files now ids (apply_all es fs)) fs
      (delayed_file-Safe now (read_job_file id delayed fs) fs)
      (delayed_files-Safe now ids (apply_all es fs))

-- Wherever the recovery after a restart or the round over the delayed jobs is cut short, every job
-- that had a file in some directory still has one.
pub crash_keeps_jobs :
    (n now : ℕ) (fs : Folders) (id : String)
    → Present id fs
    → Present id (apply_all (until_crash n (recover_queue_active_jobs fs)) fs)
      × Present id (apply_all (until_crash n (check_delayed_jobs now fs)) fs)
unfolding recover_queue_active_jobs check_delayed_jobs
crash_keeps_jobs n now fs id p = (
  Safe-until_crash n (recover_queue_active_jobs fs) fs
      (recover_files-Safe (list_job_files active fs) fs) id p,
  Safe-until_crash n (check_delayed_jobs now fs) fs
      (delayed_files-Safe now (list_job_files delayed fs) fs) id p,
)

complete-Safe :
    (now : ℕ) (f : JobFile) (fs : Folders)
    → is_true f.options.remove_on_complete ≡ false
    → Safe (complete now f) fs
unfolding complete Safe same
complete-Safe now f fs k = rw k (move-Safe _ active completed fs refl)

settle-Safe :
    (f : JobFile) (p : JobStatus × JobFile) (fs : Folders)
    → is_true f.options.remove_on_fail ≡ false
    → (p.0 ≡ delayed) ⊎ (p.0 ≡ failed)
    → Safe (settle f p) fs
unfolding settle Safe same
settle-Safe f (waiting, g) fs k d = absurd (elim d [ inl e ↦ cc e | inr e ↦ cc e ])
settle-Safe f (active, g) fs k d = absurd (elim d [ inl e ↦ cc e | inr e ↦ cc e ])
settle-Safe f (completed, g) fs k d = absurd (elim d [ inl e ↦ cc e | inr e ↦ cc e ])
settle-Safe f (failed, g) fs k d = rw k (move-Safe g active failed fs refl)
settle-Safe f (delayed, g) fs k d = move-Safe g active delayed fs refl

after_failure-place :
    (cfg : Config) (now : ℕ) (message : String) (f : JobFile)
    → ((after_failure cfg now message f).0 ≡ delayed)
      ⊎ ((after_failure cfg now message f).0 ≡ failed)
unfolding after_failure
after_failure-place cfg now message f = ground arith

settled_run-Safe :
    (cfg : Config) (now : ℕ) (f : JobFile) (answer : Option String) (fs : Folders)
    → is_true f.options.remove_on_complete ≡ false
    → is_true f.options.remove_on_fail ≡ false
    → Safe (settled_run cfg now f answer) fs
unfolding settled_run give_up_or_retry
settled_run-Safe cfg now f none fs c k = complete-Safe now f fs c
settled_run-Safe cfg now f (some message) fs c k =
    settle-Safe f (after_failure cfg now message f) fs k (after_failure-place cfg now message f)

-- Wherever the processing of a job is cut short, from the moment its file is read to the end of its
-- run, with success or failure, every job that had a file in some directory still has one, unless the
-- options of the job ask for its removal.
pub crash_keeps_running_job :
    (cfg : Config) (n now : ℕ) (processor : Job → Option String) (f : JobFile) (fs : Folders)
    (id : String)
    → is_true f.options.remove_on_complete ≡ false
    → is_true f.options.remove_on_fail ≡ false
    → Present id fs
    → Present id (apply_all (until_crash n (process_file cfg now processor (some f))) fs)
unfolding process_file start started same
crash_keeps_running_job cfg n now processor f fs id c k p =
    let g = started now f in
    Safe-until_crash n (process_file cfg now processor (some f)) fs
      (Safe-append (start now f) (settled_run cfg now g (processor g.job)) fs
        (move-Safe g waiting active fs refl)
        (settled_run-Safe cfg now g (processor g.job) (apply_all (start now f) fs) c k))
      id p
