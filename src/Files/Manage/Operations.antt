-- ===== src/Files/Manage/Operations.antt =====
-- The operations of src/business/file/file-manage.service.ts as one type.
use file_system_spike.Base.{ℕ, ◌≡◌, refl, String, Option, Result}
use file_system_spike.Files.Manage.Checks.{Tables, CheckError, Services, Plan}
use file_system_spike.Files.Manage.Plans.{rename_plan, move_plan, delete_plan}
use file_system_spike.Files.Manage.{Managed, ManageError, Call, carry_out, rename, move, delete}

-- One of the three operations.
pub data Operation : Type 0 where
  rename_to : Option String → Operation
  move_into : String → Operation
  delete_it : Operation

module _ (v : Services) (now : ℕ) (c : Call) where
  unfoldable pub plan_of : Operation → Tables → Result CheckError Plan
  plan_of (rename_to name) t =
      rename_plan v now c.uuid c.trash_id c.current_user c.user_id c.file_id name t
  plan_of (move_into target) t =
      move_plan v now c.uuid c.trash_id c.current_user c.user_id c.file_id target t
  plan_of delete_it t = delete_plan v now c.uuid c.trash_id c.current_user c.user_id c.file_id t

  unfoldable pub run : Operation → Tables → Tables × Result ManageError Managed
  run (rename_to name) t = rename v now c name t
  run (move_into target) t = move v now c target t
  run delete_it t = delete v now c t

  pub run-carry_out :
      (op : Operation) (t : Tables) → run op t ≡ carry_out v now c.file_id (plan_of op t) t
  unfolding run plan_of rename move delete
  run-carry_out (rename_to name) t = refl
  run-carry_out (move_into target) t = refl
  run-carry_out delete_it t = refl
