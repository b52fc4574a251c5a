-- ===== src/Database/WellFormed/Folders.antt =====
-- The methods of `Database` on folders keep the index well formed.
use storage_testbench.Base.{Text, arith}
use storage_testbench.Errors.{Context}
use storage_testbench.Database.State.{Database, Folder}
use storage_testbench.Database.Folders.{insert_folder, delete_folder, rename_folder}
use storage_testbench.Database.WellFormed.{IsWellFormed}
use storage_testbench.Database.WellFormed.Updates.{folders-IsWellFormed, events-IsWellFormed}

module _ (n : Text) (f : Folder) (context : Context) {s : Database} (w : IsWellFormed s) where
  pub insert_folder-IsWellFormed : IsWellFormed (insert_folder n f context s).1
  unfolding insert_folder
  insert_folder-IsWellFormed = grind (arith, folders-IsWellFormed, events-IsWellFormed, w)

module _ (n : Text) (context : Context) {s : Database} (w : IsWellFormed s) where
  pub delete_folder-IsWellFormed : IsWellFormed (delete_folder n context s).1
  unfolding delete_folder
  delete_folder-IsWellFormed = grind (arith, folders-IsWellFormed, events-IsWellFormed, w)

module _ (src dst : Text) (context : Context) {s : Database} (w : IsWellFormed s) where
  pub rename_folder-IsWellFormed : IsWellFormed (rename_folder src dst context s).1
  unfolding rename_folder
  rename_folder-IsWellFormed = grind (arith, folders-IsWellFormed, events-IsWellFormed, w)
