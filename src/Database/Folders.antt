-- ===== src/Database/Folders.antt =====
-- testbench/database.py: `clear`, and the methods of `Database` on folders, uploads and rewrites.
use storage_testbench.Base.{
  Bool, not, ◌&&◌, List, [], ◌∷◌, ◌++◌, Text, Dict, lookup, contains, insert, erase, starts_with,
  codes, if◌then◌else◌,
}
use storage_testbench.Errors.{
  Context, py, type_error, pure, gets, modify, raise_if, or_raise, ◌>>=◌, ◌>>◌, notfound,
}
use storage_testbench.Database.State.{
  Upload, Rewrite, Folder, cleared, folder_inserted, folder_deleted, folder_renamed, upload_deleted,
  rewrite_deleted,
}
use storage_testbench.Database.Access.{Action, notify, read}

-- `clear` keeps the list of supported methods.
unfoldable pub clear : Action Unit
clear = do
  modify (λ s. record s {
    buckets = [];
    objects = [];
    live_generations = [];
    soft_deleted_objects = [];
    folders = [];
  })
  notify cleared
  modify (λ s. record s { uploads = [] })
  modify (λ s. record s { rewrites = [] })
  modify (λ s. record s { retry_tests = [] })

-- `already_exists` is called with a message and a context, and takes a context alone: Python raises
-- `TypeError`.
unfoldable pub insert_folder : Text → Folder → Context → Action Folder
insert_folder folder_name folder context = do
  raise_if (← gets (λ s. contains folder_name s.folders)) (py type_error)
  modify (λ s. record s { folders = insert folder_name folder s.folders })
  notify (folder_inserted folder_name folder)
  pure folder

unfoldable pub get_folder : Text → Context → Action Folder
get_folder folder_name context = do
  or_raise (← gets (λ s. lookup folder_name s.folders)) (notfound context)

unfoldable pub delete_folder : Text → Context → Action Unit
delete_folder folder_name context = do
  raise_if (not (← gets (λ s. contains folder_name s.folders))) (notfound context)
  modify (λ s. record s { folders = erase folder_name s.folders })
  notify (folder_deleted folder_name)

-- `not prefix or folder_name.startswith(f"{bucket_name}/{prefix}")`, and the filter by bucket
unfoldable pub is_listed : Text → Text → Text → Bool
is_listed bucket_name [] folder_name = starts_with folder_name bucket_name
is_listed bucket_name (c ∷ prefix) folder_name =
    starts_with folder_name bucket_name
    && starts_with folder_name (bucket_name ++ codes "/" ++ c ∷ prefix)

unfoldable pub select_folders : Text → Text → Dict Folder → List Folder
select_folders bucket_name prefix [] = []
select_folders bucket_name prefix ((folder_name, folder) ∷ d) =
    let rest = select_folders bucket_name prefix d in
    if is_listed bucket_name prefix folder_name then folder ∷ rest else rest

unfoldable pub list_folders : Text → Text → Action (List Folder)
unfolding select_folders
list_folders bucket_name prefix = gets (λ s. select_folders bucket_name prefix s.folders)

unfoldable pub rename_folder : Text → Text → Context → Action Folder
rename_folder src_folder_name dst_folder_name context = do
  raise_if (not (← gets (λ s. contains src_folder_name s.folders))) (notfound context)
  raise_if (← gets (λ s. contains dst_folder_name s.folders)) (py type_error)
  folder ← read (λ s. s.folders) src_folder_name
  modify (λ s. record s { folders = erase src_folder_name s.folders })
  modify (λ s. record s { folders = insert dst_folder_name folder s.folders })
  notify (folder_renamed src_folder_name dst_folder_name folder)
  pure folder

unfoldable pub get_upload : Text → Context → Action Upload
get_upload upload_id context = do
  or_raise (← gets (λ s. lookup upload_id s.uploads)) (notfound context)

unfoldable pub insert_upload : Upload → Action Unit
insert_upload upload = modify (λ s. record s { uploads = insert upload.upload_id upload s.uploads })

unfoldable pub delete_upload : Text → Context → Action Unit
unfolding get_upload
delete_upload upload_id context = do
  upload ← get_upload upload_id context
  modify (λ s. record s { uploads = erase upload_id s.uploads })
  notify (upload_deleted upload.bucket_name upload_id)

unfoldable pub get_rewrite : Text → Context → Action Rewrite
get_rewrite token context = do or_raise (← gets (λ s. lookup token s.rewrites)) (notfound context)

unfoldable pub insert_rewrite : Rewrite → Action Unit
insert_rewrite rewrite =
    modify (λ s. record s { rewrites = insert rewrite.token rewrite s.rewrites })

unfoldable pub delete_rewrite : Text → Context → Action Unit
unfolding get_rewrite
delete_rewrite token context = do
  rewrite ← get_rewrite token context
  modify (λ s. record s { rewrites = erase token s.rewrites })
  notify (rewrite_deleted rewrite.dst_bucket_name token)
