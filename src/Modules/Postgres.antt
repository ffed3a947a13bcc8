-- ===== src/Modules/Postgres.antt =====
-- modules/postgres: a container of PostgreSQL, its options, and the snapshots of its database.
-- `none` is a panic.
pub mod Snapshots
pub mod Server
pub mod Laws
use testcontainers_go.Base.{
  ℕ, String, ◌<>◌, ◌=s◌, Bool, true, Option, none, some, List, [], ◌∷◌, ◌++◌, map, if◌then◌else◌, M,
}
use testcontainers_go.Base.Dict.{Dict, lookup, insert}
use testcontainers_go.Errors.{Error, Result, ok, err}
use testcontainers_go.Errors.Flow.{Try, and_then, ◌>>=◌, done}

abbrev pub default_user : String
default_user = "postgres"

abbrev pub default_password : String
default_password = "postgres"

pub record PostgresContainer : Type 0 where
  pub db_name : String
  pub user : String
  pub password : String
  pub snapshot_name : String
  pub sql_driver_name : String

-- `ContainerFile`, without a reader.
pub record ScriptFile : Type 0 where
  pub host_file_path : String
  pub container_file_path : String
  pub file_mode : ℕ

-- The request, as far as the module sets it.
pub record PostgresRequest : Type 0 where
  pub image : String
  pub env : Dict String
  pub exposed_ports : List String
  pub cmd : List String
  pub files : List ScriptFile
  pub started : Bool

-- An option of the module, or one of the request.
pub data Customizer : Type 0 where
  option : (String → String) → Customizer
  request_option : (PostgresRequest → Result PostgresRequest) → Customizer

-- The settings are the name of the driver.
unfoldable pub with_sql_driver : String → Customizer
with_sql_driver driver = option (λ name. driver)

unfoldable pub with_config_file : String → PostgresRequest → Result PostgresRequest
with_config_file cfg req = ok (record req {
  files =
      req.files
      ++ record {
        host_file_path = cfg;
        container_file_path = "/etc/postgresql.conf";
        file_mode = 493;
      }
        ∷ [];
  cmd = req.cmd ++ "-c" ∷ "config_file=/etc/postgresql.conf" ∷ [];
})

unfoldable pub with_database : String → PostgresRequest → Result PostgresRequest
unfolding insert
with_database name req = ok (record req { env = insert "POSTGRES_DB" name req.env })

-- `base` is `filepath.Base`.
unfoldable pub with_init_scripts :
    (String → String) → List String → PostgresRequest → Result PostgresRequest
with_init_scripts base scripts req = ok (record req {
  files =
      req.files
      ++ map
          (λ script. record {
            host_file_path = script;
            container_file_path = "/docker-entrypoint-initdb.d/" <> base script;
            file_mode = 493;
          })
          scripts;
})

unfoldable pub with_password : String → PostgresRequest → Result PostgresRequest
unfolding insert
with_password password req = ok (record req { env = insert "POSTGRES_PASSWORD" password req.env })

unfoldable pub with_username : String → PostgresRequest → Result PostgresRequest
unfolding insert
with_username user req = ok (record req {
  env = insert "POSTGRES_USER" (if user =s "" then default_user else user) req.env;
})

unfoldable pub default_request : String → PostgresRequest
default_request img = record {
  image = img;
  env =
      ("POSTGRES_USER", default_user)
      ∷ ("POSTGRES_PASSWORD", default_password)
      ∷ ("POSTGRES_DB", default_user)
      ∷ [];
  exposed_ports = "5432/tcp" ∷ [];
  cmd = "postgres" ∷ "-c" ∷ "fsync=off" ∷ [];
  files = [];
  started = true;
}

unfoldable pub request_or_error :
    Result PostgresRequest
    → (PostgresRequest → Result (PostgresRequest × String))
    → Result (PostgresRequest × String)
request_or_error (err e) rest = err e
request_or_error (ok req) rest = rest req

-- The loop over the options; an option of the module leaves the request alone.
unfoldable pub customized :
    List Customizer → PostgresRequest → String → Result (PostgresRequest × String)
unfolding request_or_error
customized [] req driver = ok (req, driver)
customized (option f ∷ opts) req driver = customized opts req (f driver)
customized (request_option f ∷ opts) req driver =
    request_or_error (f req) (λ req'. customized opts req' driver)

-- `m[k]`, the empty text where the key is missing.
unfoldable pub text_at : Option String → String
text_at none = ""
text_at (some v) = v

-- The container of a request: an option that gives the request another map of variables, instead of
-- writing into its own, is not modelled.
unfoldable pub container_of_request : PostgresRequest → String → PostgresContainer
unfolding text_at lookup
container_of_request req driver = record {
  db_name = text_at (lookup "POSTGRES_DB" req.env);
  user = text_at (lookup "POSTGRES_USER" req.env);
  password = text_at (lookup "POSTGRES_PASSWORD" req.env);
  snapshot_name = "";
  sql_driver_name = driver;
}

unfoldable pub run_customized :
    {W : Type 0}
    → (PostgresRequest → Try W Unit)
    → Result (PostgresRequest × String)
    → Try W PostgresContainer
unfolding ◌>>=◌ and_then container_of_request
run_customized generic_container (err e) w = (err e, w)
run_customized generic_container (ok (req, driver)) w =
    (do u ← generic_container req; done (container_of_request req driver)) w

-- `Run`
unfoldable pub run :
    {W : Type 0}
    → (PostgresRequest → Try W Unit)
    → String
    → List Customizer
    → Try W PostgresContainer
unfolding run_customized customized default_request
run generic_container img opts =
    run_customized generic_container (customized opts (default_request img) "postgres")
