-- ===== src/Build/Retries.antt =====
-- What a second attempt of a build makes of a context that is an archive.
use testcontainers_go.Base.Dict.{Dict}
