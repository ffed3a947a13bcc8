-- ===== src/Config.antt =====
-- internal/config/config.go: the configuration, from a properties file and the environment.
pub mod Laws
use testcontainers_go.Base.{
  ℕ, ◌*◌, String, ◌=s◌, mem_text, Bool, true, false, not, Option, none, some, List, [], ◌∷◌,
  if◌then◌else◌,
}
use testcontainers_go.Errors.{Error, Result, ok, err}

pub record Config : Type 0 where
  pub host : String
  pub tls_verify : ℕ
  pub cert_path : String
  pub hub_image_name_prefix : String
  pub ryuk_disabled : Bool
  pub ryuk_privileged : Bool
  pub ryuk_reconnection_timeout : ℕ
  pub ryuk_connection_timeout : ℕ
  pub ryuk_verbose : Bool
  pub testcontainers_host : String

-- `Config{}`
abbrev pub empty_config : Config
empty_config = record {
  host = "";
  tls_verify = 0;
  cert_path = "";
  hub_image_name_prefix = "";
  ryuk_disabled = false;
  ryuk_privileged = false;
  ryuk_reconnection_timeout = 0;
  ryuk_connection_timeout = 0;
  ryuk_verbose = false;
  testcontainers_host = "";
}

-- `strconv.ParseBool` accepts these texts, and no others.
abbrev pub true_texts : List String
true_texts = "1" ∷ "t" ∷ "T" ∷ "TRUE" ∷ "true" ∷ "True" ∷ []

abbrev pub false_texts : List String
false_texts = "0" ∷ "f" ∷ "F" ∷ "FALSE" ∷ "false" ∷ "False" ∷ []

-- `parseBool`: whether the text is a Boolean.
unfoldable pub parse_bool : String → Bool
parse_bool s = if mem_text s true_texts then true else mem_text s false_texts

-- `if parseBool(s) { field = s == "true" }`
unfoldable pub bool_env : String → Bool → Bool
unfolding parse_bool
bool_env s old = if parse_bool s then s =s "true" else old

-- `if timeout, err := time.ParseDuration(s); err == nil { field = timeout }`
unfoldable pub or_old : Option ℕ → ℕ → ℕ
or_old none old = old
or_old (some d) old = d

-- What the program reads of its surroundings: `os.Getenv`, `time.ParseDuration`, the home folder,
-- the properties file of a folder, and what decoding it over a configuration leaves, with whether
-- that succeeded.
pub record Surroundings (File : Type 0) : Type 0 where
  pub get_env : String → String
  pub parse_duration : String → Option ℕ
  pub user_home_dir : Result String
  pub load_file : String → Result File
  pub decode : File → Config → Config × Bool

module _ {File : Type 0} (S : Surroundings File) where
  unfoldable pub apply_environment_configuration : Config → Config
  unfolding bool_env or_old
  apply_environment_configuration c = record c {
    ryuk_disabled = bool_env (S.get_env "TESTCONTAINERS_RYUK_DISABLED") c.ryuk_disabled;
    hub_image_name_prefix =
        let prefix = S.get_env "TESTCONTAINERS_HUB_IMAGE_NAME_PREFIX" in
        if prefix =s "" then c.hub_image_name_prefix else prefix;
    ryuk_privileged =
        bool_env (S.get_env "TESTCONTAINERS_RYUK_CONTAINER_PRIVILEGED") c.ryuk_privileged;
    ryuk_verbose = bool_env (S.get_env "TESTCONTAINERS_RYUK_VERBOSE") c.ryuk_verbose;
    ryuk_reconnection_timeout =
        or_old (S.parse_duration (S.get_env "TESTCONTAINERS_RYUK_RECONNECTION_TIMEOUT"))
          c.ryuk_reconnection_timeout;
    ryuk_connection_timeout =
        or_old (S.parse_duration (S.get_env "TESTCONTAINERS_RYUK_CONNECTION_TIMEOUT"))
          c.ryuk_connection_timeout;
  }

  -- A file that does not decode is reported, and what was decoded so far is kept.
  unfoldable pub loaded : Result File → Config
  loaded (err e) = empty_config
  loaded (ok file) = (S.decode file empty_config).0

  -- `join` is `filepath.Join`.
  unfoldable pub file_config : (String → String → String) → Result String → Config
  unfolding loaded
  file_config join (err e) = empty_config
  file_config join (ok home) = loaded (S.load_file (join home ".testcontainers.properties"))

  unfoldable pub read : (String → String → String) → Config
  unfolding apply_environment_configuration file_config
  read join = apply_environment_configuration (file_config join S.user_home_dir)
