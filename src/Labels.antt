-- ===== src/Labels.antt =====
-- internal/core/labels.go: the labels of what the library makes.
use testcontainers_go.Base.{String, ◌<>◌, [], ◌∷◌}
use testcontainers_go.Base.Dict.{Dict}

abbrev pub label_base : String
label_base = "org.testcontainers"

abbrev pub label_lang : String
label_lang = label_base <> ".lang"

abbrev pub label_reaper : String
label_reaper = label_base <> ".reaper"

abbrev pub label_ryuk : String
label_ryuk = label_base <> ".ryuk"

abbrev pub label_session_id : String
label_session_id = label_base <> ".sessionId"

abbrev pub label_version : String
label_version = label_base <> ".version"

-- `internal.Version`
abbrev pub version : String
version = "0.34.0"

unfoldable pub default_labels : String → Dict String
default_labels session_id =
    (label_base, "true")
    ∷ (label_lang, "go")
    ∷ (label_session_id, session_id)
    ∷ (label_version, version)
    ∷ []
