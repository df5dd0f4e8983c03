-- ===== src/Fs/Error.antt =====
-- kernel/src/fs/error.rs: the failures of filesystem operations.
pub data Error : Type 0 where
  not_found already_exists not_directory illegal_seek is_directory not_tty interrupted : Error
  not_empty cross_device symlink_loop name_too_long invalid_argument unsupported busy : Error
  would_block no_space file_too_large permission_denied read_only bad_file_descriptor : Error
  out_of_memory io : Error
