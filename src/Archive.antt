-- ===== src/Archive.antt =====
-- file.go, and the copies of docker.go: archives of files, and how they get into a container.
-- The tar and gzip writers, the file system and the paths are parameters.
use testcontainers_go.Base.{
  ℕ, String, ◌<>◌, Bool, true, false, List, [], ◌∷◌, if◌then◌else◌, Bytes, length, M, Option,
}
use testcontainers_go.Errors.{Error, new, wrap, Result, ok}
use testcontainers_go.Errors.Flow.{
  Try, and_then, ◌>>=◌, ◌>>◌, done, fail, wrapped, mapped_error, finally, checked,
}

-- What the code sets of `tar.Header`.
pub record Header : Type 0 where
  pub name : String
  pub mode : ℕ
  pub size : ℕ

-- A call of the function that `filepath.Walk` is given; `I` is the type of what is known of a file.
pub data Visit (I : Type 0) : Type 0 where
  visited : String → I → Visit I
  failed_visit : String → Error → Visit I

-- The writers hold their buffer in the world: `new_writers` empties it, `buffer` reads it.
pub record Writers (W : Type 0) : Type 0 where
  pub new_writers : W → W
  pub write_header : Header → M W (Option Error)
  pub write : Bytes → M W (Option Error)
  pub close_tar : M W (Option Error)
  pub close_gzip : M W (Option Error)
  pub buffer : Try W Bytes

-- `F` is the type of open files, and `copy` copies one to the tar writer.
pub record FileSystem (F I W : Type 0) : Type 0 where
  pub open_file : String → Try W F
  pub close : F → W → W
  pub stat : F → Try W I
  pub is_dir : I → Bool
  pub is_symlink : I → Bool
  pub size_of : I → ℕ
  pub header_of : I → String → Result Header
  pub copy : F → M W (Option Error)
  pub walk : String → M W (List (Visit I))
  pub printf : String → W → W

-- `path_from n p` is `p[n:]`.
pub record Paths : Type 0 where
  pub abs : String → Result String
  pub dir : String → String
  pub base : String → String
  pub last_index : String → String → ℕ
  pub path_from : ℕ → String → String
  pub to_slash : String → String

module _ {F I W : Type 0} (S : FileSystem F I W) (T : Writers W) (P : Paths) where
  unfoldable pub log_line : String → Try W Unit
  log_line t w = done tt (S.printf t w)

  -- `isDir`
  unfoldable pub is_dir : String → Try W Bool
  unfolding ◌>>=◌ and_then finally
  is_dir path = do
    file ← S.open_file path
    finally (S.close file) (do info ← S.stat file; done (S.is_dir info))

  -- The end of both archives.
  unfoldable pub close_archive : Try W Bytes
  unfolding ◌>>◌ and_then wrapped mapped_error checked
  close_archive = do
    wrapped (wrap "error closing tar file") (checked T.close_tar)
    wrapped (wrap "error closing gzip file") (checked T.close_gzip)
    T.buffer

  unfoldable pub add_content : String → Bool → Try W Unit
  unfolding ◌>>=◌ and_then wrapped mapped_error checked finally
  add_content file true = done tt
  add_content file false = do
    opened ← wrapped (wrap "error opening file") (S.open_file file)
    finally (S.close opened) (wrapped (wrap "error compressing file") (checked (S.copy opened)))

  unfoldable pub add_file : ℕ → ℕ → String → I → Try W Unit
  unfolding ◌>>=◌ ◌>>◌ and_then wrapped mapped_error checked add_content
  add_file mode index file info = do
    header ← wrapped (wrap "error getting file info header") (λ w. (S.header_of info file, w))
    wrapped (wrap "error writing header") (
        checked (
          T.write_header
            (record header { name = P.to_slash (P.path_from index file); mode = mode })))
    add_content file (S.is_dir info)

  -- The function that `filepath.Walk` calls.
  unfoldable pub add_visit : ℕ → ℕ → Visit I → Try W Unit
  unfolding log_line add_file
  add_visit mode index (failed_visit file e) = fail (wrap "error traversing the file system" e)
  add_visit mode index (visited file info) =
      if S.is_symlink info
      then log_line (">> skipping symlink: " <> file <> "\n")
      else add_file mode index file info

  -- `filepath.Walk` stops at the first error.
  unfoldable pub add_visits : ℕ → ℕ → List (Visit I) → Try W Unit
  unfolding ◌>>◌ and_then add_visit
  add_visits mode index [] = done tt
  add_visits mode index (v ∷ vs) = do add_visit mode index v; add_visits mode index vs

  unfoldable pub listed : {A : Type 0} → M W A → Try W A
  listed m w = let (a, v) = m w in (ok a, v)

  unfoldable pub new_archive : Try W Unit
  new_archive w = done tt (T.new_writers w)

  -- `tarDir`
  unfoldable pub tar_dir : String → ℕ → Try W Bytes
  unfolding ◌>>=◌ ◌>>◌ and_then wrapped mapped_error log_line listed new_archive add_visits
      close_archive
  tar_dir path mode = do
    src ← wrapped (wrap "error getting absolute path") (λ w. (P.abs path, w))
    log_line (">> creating TAR file from directory: " <> src <> "\n")
    new_archive
    visits ← listed (S.walk src)
    add_visits mode (P.last_index src (P.base src)) visits
    close_archive

  -- `tarFile`
  unfoldable pub tar_file : String → M W (Option Error) → ℕ → ℕ → Try W Bytes
  unfolding ◌>>◌ and_then checked new_archive close_archive
  tar_file base_path file_content size mode = do
    new_archive
    checked (T.write_header (record { name = base_path; mode = mode; size = size }))
    checked file_content
    close_archive

-- `copy_to` is the client's CopyToContainer, and `close` the provider's Close.
module _ {Ctx F I W : Type 0} (S : FileSystem F I W) (T : Writers W) (P : Paths)
    (copy_to : Ctx → String → String → Bytes → M W (Option Error)) (close : W → W)
    (id : String) where
  unfoldable pub send_archive : Ctx → String → Bytes → Try W Unit
  unfolding ◌>>◌ and_then checked
  send_archive ctx path archive = do checked (copy_to ctx id path archive); λ w. done tt (close w)

  -- `copyToContainer`
  unfoldable pub copy_content_to_container : Ctx → M W (Option Error) → ℕ → String → ℕ → Try W Unit
  unfolding ◌>>=◌ and_then tar_file send_archive
  copy_content_to_container ctx content size path mode = do
    archive ← tar_file S T P path content size mode
    send_archive ctx "/" archive

  unfoldable pub copy_to_container : Ctx → Bytes → String → ℕ → Try W Unit
  unfolding copy_content_to_container
  copy_to_container ctx content path mode =
      copy_content_to_container ctx (T.write content) (length content) path mode

  unfoldable pub copy_directory : Ctx → String → String → ℕ → Bool → Try W Unit
  unfolding ◌>>=◌ and_then tar_dir send_archive
  copy_directory ctx host_path parent_path mode false =
      fail (new ("path " <> host_path <> " is not a directory"))
  copy_directory ctx host_path parent_path mode true = do
    archive ← tar_dir S T P host_path mode
    send_archive ctx (P.dir parent_path) archive

  unfoldable pub copy_dir_to_container : Ctx → String → String → ℕ → Try W Unit
  unfolding ◌>>=◌ and_then is_dir copy_directory
  copy_dir_to_container ctx host_path parent_path mode = do
    dir ← is_dir S T P host_path
    copy_directory ctx host_path parent_path mode dir

  unfoldable pub copy_opened : Ctx → F → String → ℕ → Try W Unit
  unfolding ◌>>=◌ and_then copy_content_to_container
  copy_opened ctx file path mode = do
    info ← S.stat file
    copy_content_to_container ctx (S.copy file) (S.size_of info) path mode

  unfoldable pub copy_by_kind : Ctx → String → String → ℕ → Bool → Try W Unit
  unfolding ◌>>=◌ and_then finally copy_dir_to_container copy_opened
  copy_by_kind ctx host_path path mode true = copy_dir_to_container ctx host_path path mode
  copy_by_kind ctx host_path path mode false = do
    file ← S.open_file host_path
    finally (S.close file) (copy_opened ctx file path mode)

  unfoldable pub copy_file_to_container : Ctx → String → String → ℕ → Try W Unit
  unfolding ◌>>=◌ and_then is_dir copy_by_kind
  copy_file_to_container ctx host_path path mode = do
    dir ← is_dir S T P host_path
    copy_by_kind ctx host_path path mode dir
