-- ===== src/Build.antt =====
-- container.go: how the image of a request is built: its Dockerfile, its context and its options.
-- The absolute context that GetContext writes back to the request names the same directory, and is
-- not kept.
pub mod Retries
pub mod Options
use testcontainers_go.Base.{
  ℕ, zero, suc, String, ◌<>◌, ◌=s◌, Bool, true, false, Option, none, some, List, [], ◌∷◌, ◌++◌, map,
  if◌then◌else◌, Bytes, M,
}
use testcontainers_go.Errors.{Error, new, wrap, Result, ok, err}
use testcontainers_go.Errors.Flow.{
  Try, and_then, ◌>>=◌, ◌>>◌, done, fail, wrapped, mapped_error, finally, checked, result_of,
}
use testcontainers_go.Dockerfile.{extract_images}
use testcontainers_go.Request.{FromDockerfile}

-- The files and archives of a build. `F` is the type of open files, `A` that of archives, and
-- `Reader` that of contexts. `lines` is what the scanner gives, and `text` a text of its bytes.
-- An archive is read from where it stands: `tar_headers` are the names of its entries up to its end,
-- or to an error, and `tar_next` is the world after so many calls of Next.
pub record Files (A F Reader W : Type 0) : Type 0 where
  pub abs : String → Try W String
  pub join_path : String → String → String
  pub open_file : String → Try W F
  pub close : F → W → W
  pub lines : F → Try W (List Bytes)
  pub text : Bytes → String
  pub ignore_patterns : F → Try W (List String)
  pub tar_with_options : String → List String → List String → Try W Reader
  pub archive_context : A → Reader
  pub tar_headers : A → W → List String × Option Error
  pub tar_next : A → ℕ → W → W
  pub tar_lines : A → Try W (List Bytes)
  pub seek_start : A → M W (Option Error)
  pub new_uuid : M W String
  pub to_lower : String → String

abbrev pub BuildArgs : Type 0
BuildArgs = List (Bytes × Option Bytes)

unfoldable pub get_dockerfile : {A : Type 0} → FromDockerfile A → String
get_dockerfile c = if c.dockerfile =s "" then "Dockerfile" else c.dockerfile

abbrev pub not_in_archive : String → Error
not_in_archive dockerfile = new ("Dockerfile \"" <> dockerfile <> "\" not found in context archive")

abbrev pub extract_failed : Error → Error
extract_failed e = wrap "extract images from Dockerfile" e

unfoldable pub archive_ended : String → Option Error → Error
archive_ended dockerfile none = not_in_archive dockerfile
archive_ended dockerfile (some e) = wrap "reading tar archive" e

unfoldable pub patterns_or_error : Result (List String) → Result (Bool × List String)
patterns_or_error (err e) = err (wrap "error reading .dockerignore" e)
patterns_or_error (ok ps) = ok (true, ps)

unfoldable pub included : String → Bool → List String
included dockerfile ignores =
    (if ignores then "." ∷ ".dockerignore" ∷ [] else "." ∷ []) ++ dockerfile ∷ []

module _ {A F Reader W : Type 0} (B : Files A F Reader W) where
  unfoldable pub label_or_uuid : String → M W String
  label_or_uuid s w = if s =s "" then B.new_uuid w else (B.to_lower s, w)

  unfoldable pub get_repo : FromDockerfile A → M W String
  unfolding label_or_uuid
  get_repo c = label_or_uuid c.repo

  unfoldable pub get_tag : FromDockerfile A → M W String
  unfolding label_or_uuid
  get_tag c = label_or_uuid c.tag

  unfoldable pub images_of : BuildArgs → List Bytes → List String
  unfolding extract_images
  images_of args lines = map B.text (extract_images args lines)

  -- `ExtractImagesFromDockerfile`
  unfoldable pub extract_images_from_dockerfile : BuildArgs → String → Try W (List String)
  unfolding ◌>>=◌ and_then finally images_of
  extract_images_from_dockerfile args path = do
    file ← B.open_file path
    finally (B.close file) (do lines ← B.lines file; done (images_of args lines))

  -- The end of the loop over an archive, where its Dockerfile was found.
  unfoldable pub images_in_archive : BuildArgs → A → Try W (List String)
  unfolding ◌>>=◌ ◌>>◌ and_then wrapped mapped_error checked images_of
  images_in_archive args a = do
    lines ← wrapped extract_failed (B.tar_lines a)
    wrapped (wrap "seek context archive to start") (checked (B.seek_start a))
    done (images_of args lines)

  -- The loop over an archive, after so many entries.
  unfoldable pub in_archive :
      BuildArgs → A → String → Option Error → List String → ℕ → Try W (List String)
  unfolding images_in_archive archive_ended
  in_archive args a dockerfile ending [] n w =
      (err (archive_ended dockerfile ending), B.tar_next a (suc n) w)
  in_archive args a dockerfile ending (name ∷ names) n w =
      let rest = in_archive args a dockerfile ending names (suc n) w in
      if name =s dockerfile then images_in_archive args a (B.tar_next a (suc n) w) else rest

  unfoldable pub images_of_source : BuildArgs → String → String → Option A → Try W (List String)
  unfolding wrapped mapped_error extract_images_from_dockerfile in_archive
  images_of_source args context dockerfile none w =
      wrapped extract_failed (extract_images_from_dockerfile args (B.join_path context dockerfile))
        w
  images_of_source args context dockerfile (some a) w =
      let (names, ending) = B.tar_headers a w in in_archive args a dockerfile ending names zero w

  -- `dockerFileImages`
  unfoldable pub docker_file_images : BuildArgs → FromDockerfile A → Try W (List String)
  unfolding images_of_source get_dockerfile
  docker_file_images args c = images_of_source args c.context (get_dockerfile c) c.context_archive

  unfoldable pub patterns_of : Result F × W → Result (Bool × List String) × W
  unfolding patterns_or_error
  patterns_of (err e, w) = (ok (false, []), w)
  patterns_of (ok f, w) = let (r, v) = B.ignore_patterns f w in (patterns_or_error r, B.close f v)

  -- `parseDockerIgnore`
  unfoldable pub parse_docker_ignore : String → Try W (Bool × List String)
  unfolding patterns_of
  parse_docker_ignore target w = patterns_of (B.open_file (B.join_path target ".dockerignore") w)

  unfoldable pub context_of_directory : String → String → Try W Reader
  unfolding ◌>>=◌ and_then wrapped mapped_error parse_docker_ignore included
  context_of_directory context dockerfile = do
    path ← wrapped (wrap "error getting absolute path") (B.abs context)
    (ignores, excluded) ← parse_docker_ignore path
    B.tar_with_options path excluded (included dockerfile ignores)

  unfoldable pub context_or_directory : String → String → Option A → Try W Reader
  unfolding context_of_directory
  context_or_directory context dockerfile (some a) = done (B.archive_context a)
  context_or_directory context dockerfile none = context_of_directory context dockerfile

  -- `GetContext`
  unfoldable pub get_context : FromDockerfile A → Try W Reader
  unfolding context_or_directory get_dockerfile
  get_context c = context_or_directory c.context (get_dockerfile c) c.context_archive
