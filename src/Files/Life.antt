-- ===== src/Files/Life.antt =====
-- The life of a file and of a folder in src/domain/file/entities/file.entity.ts and
-- src/domain/folder/entities/folder.entity.ts over any calls.
use file_system_spike.Base.{
  ℕ, ◌≡◌, refl, String, Option, none, List, [], ◌∷◌, arith, ap, ◌++◌, ◌>>=◌, ok, after, ◌⊎◌, inl,
  inr,
}
use file_system_spike.Files.Item.{active, trashed, deleted, FileEntity, FolderEntity}
use file_system_spike.Files.File
use file_system_spike.Files.Folder

pub data FileCall : Type 0 where
  file_delete file_purge : ℕ → FileCall
  file_rename file_move : ℕ → String → FileCall
  file_restore : ℕ → Option String → FileCall

pub data FolderCall : Type 0 where
  folder_delete folder_purge folder_restore : ℕ → FolderCall
  folder_rename folder_move : ℕ → String → String → FolderCall

-- A call that throws leaves the file as it was.
unfoldable pub step_file : FileCall → FileEntity → FileEntity
step_file (file_delete now) f = after f (File.delete now f)
step_file (file_purge now) f = after f (File.permanent_delete now f)
step_file (file_rename now name) f = after f (File.rename now name f)
step_file (file_move now target) f = after f (File.move_to now target f)
step_file (file_restore now target) f = after f (File.restore now target f)

unfoldable pub run_file : List FileCall → FileEntity → FileEntity
run_file [] f = f
run_file (c ∷ cs) f = run_file cs (step_file c f)

unfoldable pub step_folder : FolderCall → FolderEntity → FolderEntity
step_folder (folder_delete now) f = after f (Folder.delete now f)
step_folder (folder_purge now) f = after f (Folder.permanent_delete now f)
step_folder (folder_restore now) f = after f (Folder.restore now f)
step_folder (folder_rename now name path) f = after f (Folder.rename now name path f)
step_folder (folder_move now target path) f = after f (Folder.move_to now target path f)

unfoldable pub run_folder : List FolderCall → FolderEntity → FolderEntity
run_folder [] f = f
run_folder (c ∷ cs) f = run_folder cs (step_folder c f)

step_file-deleted : (c : FileCall) (f : FileEntity) → f.state ≡ deleted → step_file c f ≡ f
unfolding step_file File.delete File.permanent_delete File.rename File.move_to File.restore
step_file-deleted (file_delete now) f e = ground arith
step_file-deleted (file_purge now) f e = ground arith
step_file-deleted (file_rename now name) f e = ground arith
step_file-deleted (file_move now target) f e = ground arith
step_file-deleted (file_restore now target) f e = ground arith

step_folder-deleted : (c : FolderCall) (f : FolderEntity) → f.state ≡ deleted → step_folder c f ≡ f
unfolding step_folder Folder.delete Folder.permanent_delete Folder.rename Folder.move_to
    Folder.restore
step_folder-deleted (folder_delete now) f e = ground arith
step_folder-deleted (folder_purge now) f e = ground arith
step_folder-deleted (folder_restore now) f e = ground arith
step_folder-deleted (folder_rename now name path) f e = ground arith
step_folder-deleted (folder_move now target path) f e = ground arith

step_file-from_active :
    (c : FileCall) (f : FileEntity)
    → f.state ≡ active
    → ((step_file c f).state ≡ active) ⊎ ((step_file c f).state ≡ trashed)
unfolding step_file File.delete File.permanent_delete File.rename File.move_to File.restore
step_file-from_active (file_delete now) f e = ground arith
step_file-from_active (file_purge now) f e = ground arith
step_file-from_active (file_rename now name) f e = ground arith
step_file-from_active (file_move now target) f e = ground arith
step_file-from_active (file_restore now target) f e = ground arith

run_file-deleted : (cs : List FileCall) (f : FileEntity) → f.state ≡ deleted → run_file cs f ≡ f
unfolding run_file
run_file-deleted [] f e = refl
run_file-deleted (c ∷ cs) f e = rw (step_file-deleted c f e) (run_file-deleted cs f e)

run_folder-deleted :
    (cs : List FolderCall) (f : FolderEntity) → f.state ≡ deleted → run_folder cs f ≡ f
unfolding run_folder
run_folder-deleted [] f e = refl
run_folder-deleted (c ∷ cs) f e = rw (step_folder-deleted c f e) (run_folder-deleted cs f e)

-- A deleted file and a deleted folder are left alone by every further sequence of calls.
deleted_is_final :
    (cs : List FileCall) (ds : List FolderCall) (f : FileEntity) (g : FolderEntity)
    → f.state ≡ deleted
    → g.state ≡ deleted
    → (run_file cs f ≡ f) × (run_folder ds g ≡ g)
deleted_is_final cs ds f g e e' = (run_file-deleted cs f e, run_folder-deleted ds g e')

-- An active file is deleted for good only through the trash: of calls that end in the deleted state,
-- some first part ends in the trash.
deleted_through_trash :
    (cs : List FileCall) (f : FileEntity)
    → f.state ≡ active
    → (run_file cs f).state ≡ deleted
    → (first : List FileCall) × (rest : List FileCall) × (cs ≡ first ++ rest)
      × ((run_file first f).state ≡ trashed)
unfolding run_file
deleted_through_trash [] f a d = cc
deleted_through_trash (c ∷ cs) f a d = elim (step_file-from_active c f a) [
  | inr t ↦ (c ∷ [], cs, refl, t)
  | inl still ↦ later still (deleted_through_trash cs (step_file c f) still d)
]
  where
    later :
        (step_file c f).state ≡ active
        → (first : List FileCall) × (rest : List FileCall) × (cs ≡ first ++ rest)
          × ((run_file first (step_file c f)).state ≡ trashed)
        → (first : List FileCall) × (rest : List FileCall) × (c ∷ cs ≡ first ++ rest)
          × ((run_file first f).state ≡ trashed)
    later still (first, rest, e, t) = (c ∷ first, rest, ap (λ l. c ∷ l) e, t)

-- Out of the trash an active file comes back as it was, in its old folder, but for the time of the
-- update, when no target is named; and an active folder does too.
restore-delete :
    (now later : ℕ) (f : FileEntity) (g : FolderEntity)
    → f.state ≡ active
    → g.state ≡ active
    → (File.delete now f >>= File.restore later none ≡ ok (record f { updated_at = later }))
      × (Folder.delete now g >>= Folder.restore later ≡ ok (record g { updated_at = later }))
unfolding File.delete File.restore Folder.delete Folder.restore
restore-delete now later f g e e' = (ground arith, ground arith)
