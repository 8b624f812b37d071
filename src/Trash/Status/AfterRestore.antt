-- ===== src/Trash/Status/AfterRestore.antt =====
-- What `getRestoreStatus` of src/business/trash/trash.service.ts says right after `executeRestore`.
use file_system_spike.Base.{
  ℕ, ◌≡◌, refl, String, str_eq_iff, true, Option, List, [], ◌∷◌, inl, inr, Bool-cases, length, All,
  arith,
}
use file_system_spike.Base.Dict.{lookup, has, DistinctKeys}
use file_system_spike.SyncEvent.Entity.{SyncEvent, queued}
use file_system_spike.Trash.Store.{Store, Services}
use file_system_spike.Trash.Restore.{RestoreItem, execute_restore}
use file_system_spike.Trash.Restore.Counts.{EventsQueued, execute_restore-Counted}
use file_system_spike.Trash.Status.{
  Summary, find_by_ids, add_status, summarize, summary_of_none, completed, get_restore_status,
}

-- The events of some ids, where each id has one row and the events are queued, are not counted by the
-- switch.
find_by_ids-queued :
    (ids : List String) (es : List (String × SyncEvent))
    → DistinctKeys es
    → EventsQueued ids es
    → All (λ e. SyncEvent.status e ≡ queued) (find_by_ids ids es)
unfolding find_by_ids lookup
find_by_ids-queued ids [] d q = tt
find_by_ids-queued ids ((j, e) ∷ es) d q =
    let rest =
      find_by_ids-queued ids es d.1 (λ k f h l. q k f h (ground (arith, l, d.0, str_eq_iff j k))) in
    elim (Bool-cases (has ids j)) [
      | inl asked ↦ rw asked (q j e asked (ground (arith, str_eq_iff j j)), rest)
      | inr other ↦ rw other rest
    ]

summarize-queued :
    (es : List SyncEvent) (s : Summary)
    → All (λ e. SyncEvent.status e ≡ queued) es
    → summarize es s ≡ s
unfolding summarize add_status
summarize-queued [] s h = refl
summarize-queued (e ∷ es) s h = rw h.0 (summarize-queued es s h.1)

find_by_ids-nil : (es : List (String × SyncEvent)) → find_by_ids [] es ≡ []
unfolding find_by_ids has
find_by_ids-nil [] = refl
find_by_ids-nil ((j, e) ∷ es) = find_by_ids-nil es

status_of_queued :
    (ids : List String) (s : Store)
    → DistinctKeys s.events
    → EventsQueued ids s.events
    → get_restore_status ids s ≡ record {
      summary = summary_of_none (length (find_by_ids ids s.events));
      is_completed = true;
    }
unfolding get_restore_status completed
status_of_queued [] s d q = rw (find_by_ids-nil s.events)
status_of_queued (i ∷ ids) s d q = rw (
    summarize-queued (find_by_ids (i ∷ ids) s.events) _ (find_by_ids-queued (i ∷ ids) s.events d q))

module _ (v : Services) (now : ℕ) (uuid : ℕ → String) (current_user : Option String)
    (user_id : String) (items : List RestoreItem) (s : Store) where
  -- Right after an `executeRestore` whose jobs were all taken, `getRestoreStatus` says of the events of the
  -- call that all is completed, with none of them pending, in processing, done or failed: they are queued,
  -- which its switch does not count. No two events that were stored before share an id.
  pub restore_seems_completed :
      DistinctKeys s.events
      → (execute_restore v now uuid current_user user_id items s).1 ≡ true
      → let r = (execute_restore v now uuid current_user user_id items s).0 in
        get_restore_status r.sync_event_ids r.store ≡ record {
          summary = summary_of_none (length (find_by_ids r.sync_event_ids r.store.events));
          is_completed = true;
        }
  restore_seems_completed d e =
      let c = execute_restore-Counted v now uuid current_user user_id items s d e in
      status_of_queued _ _ c.keys c.waiting
