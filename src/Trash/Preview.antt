-- ===== src/Trash/Preview.antt =====
-- `previewRestore` of src/business/trash/trash.service.ts.
use file_system_spike.Base.{
  ℕ, suc, String, Bool, true, false, not, Option, none, some, List, [], ◌∷◌, ◌++◌, if◌then◌else◌,
}
use file_system_spike.Base.Dict.{lookup}
use file_system_spike.Files.Item.{FileEntity, FolderEntity}
use file_system_spike.Files.Folder
use file_system_spike.Trash.Store.{
  TrashMetadata, is_file, is_folder, id_or, Store, any_parent, Services, extract_parent_folder_path,
}
use file_system_spike.Trash.Restore.{target_parent, conflicts, folder_conflicts, folder_id}

pub data PathStatus : Type 0 where
  available not_found : PathStatus

pub record PreviewItem : Type 0 where
  pub trash_metadata_id : String
  pub file_id : String
  pub file_name : String
  pub mime_type : String
  pub size_bytes : ℕ
  pub deleted_at : ℕ
  pub path_status : PathStatus
  pub original_path : String
  pub original_folder_id : Option String
  pub resolve_folder_id : Option String
  pub has_conflict : Bool
  pub conflict_file_id : Option String

pub record PreviewSummary : Type 0 where
  pub available_count : ℕ
  pub not_found_count : ℕ
  pub conflict_count : ℕ

file_id_of : Option FileEntity → Option String
file_id_of none = none
file_id_of (some f) = some f.id

abbrev pub path_status_of : Option String → PathStatus
path_status_of none = not_found
path_status_of (some id) = available

unfoldable pub conflict_in : Option String → FileEntity → Store → Bool
conflict_in none f s = false
conflict_in (some id) f s = conflicts id f s

conflict_file : Services → Option String → FileEntity → Store → Option String
unfolding file_id_of
conflict_file v none f s = none
conflict_file v (some id) f s =
    if conflicts id f s then file_id_of (v.find_file id f.name f.mime_type s.files) else none

unfoldable pub folder_conflict_in : Services → Option String → FolderEntity → Store → Bool
folder_conflict_in v none f s = false
folder_conflict_in v (some parent) f s = folder_conflicts v parent f.name s

module _ (v : Services) (id : String) (t : TrashMetadata) (s : Store) where
  -- The active folder at the old path.
  unfoldable pub resolved_folder : Option String
  unfolding folder_id
  resolved_folder = folder_id (
      v.find_folder
        (record {
          parent = any_parent;
          name = none;
          path = some (extract_parent_folder_path t.original_path);
        })
        s.folders)

  unfoldable pub preview_file : Option FileEntity → Option PreviewItem
  unfolding resolved_folder conflict_in conflict_file
  preview_file none = none
  preview_file (some f) = some (record {
    trash_metadata_id = id;
    file_id = f.id;
    file_name = f.name;
    mime_type = f.mime_type;
    size_bytes = f.size_bytes;
    deleted_at = t.deleted_at;
    path_status = path_status_of resolved_folder;
    original_path = t.original_path;
    original_folder_id = t.original_folder_id;
    resolve_folder_id = resolved_folder;
    has_conflict = conflict_in resolved_folder f s;
    conflict_file_id = conflict_file v resolved_folder f s;
  })

  unfoldable pub preview_folder : Option FolderEntity → Option PreviewItem
  unfolding folder_conflict_in
  preview_folder none = none
  preview_folder (some f) =
      if not (Folder.is_trashed f)
      then none
      else some (record {
        trash_metadata_id = id;
        file_id = f.id;
        file_name = f.name;
        mime_type = "folder";
        size_bytes = 0;
        deleted_at = t.deleted_at;
        path_status = path_status_of (target_parent v t s);
        original_path = t.original_path;
        original_folder_id = some (id_or t.original_parent_id "");
        resolve_folder_id = target_parent v t s;
        has_conflict = folder_conflict_in v (target_parent v t s) f s;
        conflict_file_id = none;
      })

  unfoldable pub preview_metadata : Option PreviewItem
  unfolding preview_file preview_folder
  preview_metadata =
      if is_file t
      then preview_file (lookup (id_or t.file_id "") s.files)
      else if is_folder t
      then preview_folder (lookup (id_or t.folder_id "") s.folders)
      else none

unfoldable pub preview_found : Services → String → Option TrashMetadata → Store → Option PreviewItem
unfolding preview_metadata
preview_found v id none s = none
preview_found v id (some t) s = preview_metadata v id t s

-- The body of the loop: `none` is `continue`.
unfoldable pub preview_item : Services → String → Store → Option PreviewItem
unfolding preview_found
preview_item v id s = preview_found v id (lookup id s.trash) s

add_item : PathStatus → Bool → PreviewSummary → PreviewSummary
add_item available true c = record c {
  available_count = suc c.available_count;
  conflict_count = suc c.conflict_count;
}
add_item available false c = record c { available_count = suc c.available_count }
add_item not_found b c = record c { not_found_count = suc c.not_found_count }

add_preview :
    Option PreviewItem → PreviewSummary × List PreviewItem → PreviewSummary × List PreviewItem
unfolding add_item
add_preview none acc = acc
add_preview (some p) (c, items) = (add_item p.path_status p.has_conflict c, items ++ p ∷ [])

unfoldable pub preview_items :
    Services
    → List String
    → Store
    → PreviewSummary × List PreviewItem
    → PreviewSummary × List PreviewItem
unfolding add_preview
preview_items v [] s acc = acc
preview_items v (id ∷ ids) s acc = preview_items v ids s (add_preview (preview_item v id s) acc)

unfoldable pub preview_restore : Services → List String → Store → PreviewSummary × List PreviewItem
preview_restore v ids s =
    preview_items v ids s
      (record { available_count = 0; not_found_count = 0; conflict_count = 0 }, [])
