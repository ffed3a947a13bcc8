-- ===== src/Config/Laws.antt =====
-- Which source decides each setting.
use testcontainers_go.Base.{◌≡◌, ◌≢◌, String, =s_iff, mem_text, true, false, none, arith}
use testcontainers_go.Config.{
  Surroundings, read, file_config, parse_bool, true_texts, apply_environment_configuration,
}

module _ {File : Type 0} (S : Surroundings File) (join : String → String → String) where
  -- A truth value other than "true" in TESTCONTAINERS_RYUK_DISABLED, as "1" or "TRUE", leaves the
  -- reaper enabled, whatever the properties file says.
  pub read-truthy_disables_nothing :
      (s : String)
      → S.get_env "TESTCONTAINERS_RYUK_DISABLED" ≡ s
      → mem_text s true_texts ≡ true
      → s ≢ "true"
      → (read S join).ryuk_disabled ≡ false
  unfolding read
  read-truthy_disables_nothing s e t ne = rw e (ground (arith, =s_iff s "true"))

  -- An environment that sets no prefix, no Boolean and no duration leaves the configuration of the
  -- properties file as it is.
  pub read-silent :
      S.get_env "TESTCONTAINERS_HUB_IMAGE_NAME_PREFIX" ≡ ""
      → parse_bool (S.get_env "TESTCONTAINERS_RYUK_DISABLED") ≡ false
      → parse_bool (S.get_env "TESTCONTAINERS_RYUK_CONTAINER_PRIVILEGED") ≡ false
      → parse_bool (S.get_env "TESTCONTAINERS_RYUK_VERBOSE") ≡ false
      → S.parse_duration (S.get_env "TESTCONTAINERS_RYUK_RECONNECTION_TIMEOUT") ≡ none
      → S.parse_duration (S.get_env "TESTCONTAINERS_RYUK_CONNECTION_TIMEOUT") ≡ none
      → read S join ≡ file_config S join S.user_home_dir
  unfolding apply_environment_configuration
  read-silent a b c d e f = unfold read in rw (a, b, c, d, e, f)

-- The daemon's address, TLS verification, certificate path and Testcontainers' host come from the
-- properties file alone: under another environment they are the same.
pub read-file_only :
    {File : Type 0} (S : Surroundings File) (get_env : String → String)
    (join : String → String → String)
    → let here = read S join in
      let there = read (record S { get_env = get_env }) join in
      (here.host ≡ there.host)
      × (here.tls_verify ≡ there.tls_verify)
      × (here.cert_path ≡ there.cert_path)
      × (here.testcontainers_host ≡ there.testcontainers_host)
unfolding read
read-file_only S get_env join = ground arith
