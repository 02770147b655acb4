-- ===== src/LoadTest/Settings.antt =====
-- cmd/loadtest/main.go: the settings that main reads from the environment.
pub mod Keys
use microchat_ai.Prelude.{
  ℕ, none, some, Option, Bytes, bytes, List, [], ◌∷◌, ◌++◌, Bool, true, false, ◌&&◌, ◌||◌, not,
  has_prefix, if◌then◌else◌, ite, Bytes_discrete,
}
use microchat_ai.Net.{split, trim_space}
use microchat_ai.LoadTest.{LoadTestConfig}

-- os.Getenv (an unset variable is empty), whether os.Stat finds a file, and filepath.Abs, which
-- may fail.
pub record Machine : Type 0 where
  pub getenv : Bytes → Bytes
  pub exists : Bytes → Bool
  pub absolute : Bytes → Option Bytes

-- strings.Contains
unfoldable pub contains : Bytes → Bytes → Bool
contains [] part = has_prefix [] part
contains (c ∷ s) part = has_prefix (c ∷ s) part || contains s part

abbrev or_else : Bytes → Bytes → Bytes
or_else default [] = default
or_else default (c ∷ s) = c ∷ s

abbrev pub default_paths : List Bytes
default_paths = bytes "../../certs/ca.crt" ∷ bytes "certs/ca.crt" ∷ bytes "./ca.crt" ∷ []

abbrev pub is_empty : Bytes → Bool
is_empty [] = true
is_empty (c ∷ s) = false

-- Not empty, and without ":admin" in it.
unfoldable pub is_taken : Bytes → Bool
unfolding contains
is_taken key = not (contains key (bytes ":admin")) && not (is_empty key)

-- The first such key of the list.
unfoldable pub first_key : List Bytes → Option Bytes
unfolding is_taken
first_key [] = none
first_key (entry ∷ more) =
    let rest = first_key more in
    if is_taken (trim_space entry) then some (trim_space entry) else rest

-- `none` where log.Fatal ends the program.
unfoldable pub get_api_key : Bytes → Option Bytes
unfolding first_key
get_api_key [] = none
get_api_key (c ∷ s) = first_key (split b',' (c ∷ s))

module _ (m : Machine) where
  unfoldable pub get_server_address : Bytes
  get_server_address =
      or_else (bytes "localhost") (m.getenv (bytes "SERVER_NAME"))
      ++ bytes ":"
      ++ or_else (bytes "4000") (m.getenv (bytes "PORT"))

  abbrev or_next : Bool → Option Bytes → Bytes → Bytes
  or_next true (some path) rest = path
  or_next true none rest = rest
  or_next false path rest = rest

  -- The loop over the default locations.
  unfoldable pub find_ca : List Bytes → Bytes
  find_ca [] = []
  find_ca (path ∷ more) = or_next (m.exists path) (m.absolute path) (find_ca more)

  abbrev or_found : Bytes → Bytes
  or_found [] = find_ca default_paths
  or_found (c ∷ s) = c ∷ s

  unfoldable pub get_ca_cert_path : Bytes
  unfolding find_ca
  get_ca_cert_path = or_found (m.getenv (bytes "CA_CERT_PATH"))

  abbrev is_true : Bytes → Bool
  is_true text = ite (Bytes_discrete text (bytes "true")) true false

  abbrev with_key : Option Bytes → Option LoadTestConfig
  with_key none = none
  with_key (some key) = some (record {
    server_address = get_server_address;
    concurrent_users = 5;
    messages_per_user = 3;
    test_duration = 30000000000;
    skip_tls_verify = is_empty get_ca_cert_path && is_true (m.getenv (bytes "SKIP_TLS_VERIFY"));
    ca_cert_path = get_ca_cert_path;
    api_key = key;
  })

  -- The config of main.
  unfoldable pub main_config : Option LoadTestConfig
  unfolding get_server_address get_ca_cert_path get_api_key
  main_config = with_key (get_api_key (m.getenv (bytes "API_KEYS")))
