-- ===== src/Vfs/Messages.antt =====
-- The texts of the errors of internal/vfs. The verb %q of package fmt is a parameter.
use honeypot_go.Base.{Bool, true, false, ◌++◌, Bytes, codes, decimal}
use honeypot_go.Vfs.State.{
  FsError, no_such_file, no_such_directory, not_a_directory, is_a_directory, invalid_path,
  invalid_mode, not_permitted, directory_not_empty, permission_denied, read_only_directory,
  read_only_file, directory_exists, cannot_overwrite, cannot_overwrite_file, exceeds_max_size,
  node_limit_reached, capacity_limit_reached, max_file_size, max_total_nodes, max_total_bytes,
}

unfoldable pub error_text : (Bytes → Bytes) → FsError → Bytes
unfolding decimal
error_text quote no_such_file = codes "no such file or directory"
error_text quote no_such_directory = codes "no such directory"
error_text quote not_a_directory = codes "not a directory"
error_text quote is_a_directory = codes "is a directory"
error_text quote invalid_path = codes "invalid path"
error_text quote invalid_mode = codes "invalid mode"
error_text quote not_permitted = codes "Operation not permitted"
error_text quote directory_not_empty = codes "directory not empty"
error_text quote permission_denied = codes "permission denied"
error_text quote (read_only_directory name) =
    codes "permission denied: directory " ++ (quote name ++ codes " is read-only")
error_text quote (read_only_file path) =
    codes "permission denied: file " ++ (quote path ++ codes " is read-only")
error_text quote (directory_exists name) =
    codes "cannot create directory " ++ (quote name ++ codes ": File exists")
error_text quote cannot_overwrite = codes "cannot overwrite existing file or directory"
error_text quote cannot_overwrite_file = codes "cannot overwrite existing file"
error_text quote (exceeds_max_size path) =
    codes "file " ++ (quote path ++ (codes " exceeds max size " ++ decimal max_file_size))
error_text quote node_limit_reached =
    codes "filesystem node limit reached (" ++ (decimal max_total_nodes ++ codes ")")
error_text quote capacity_limit_reached =
    codes "filesystem capacity limit reached (" ++ (decimal max_total_bytes ++ codes " bytes)")

-- errors.Is(err, vfs.ErrNotPermitted)
abbrev pub is_not_permitted : FsError → Bool
is_not_permitted not_permitted = true
is_not_permitted _ = false
