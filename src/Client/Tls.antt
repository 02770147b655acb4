-- ===== src/Client/Tls.antt =====
-- cmd/client/main.go: attemptConnect, with the choice of the certificates.
pub mod Roots
use microchat_ai.Prelude.{
  ℕ, Bool, true, false, none, some, Option, Bytes, bytes, [], ◌∷◌, ◌++◌, OrError, value, error,
  if◌then◌else◌,
}
use microchat_ai.Net.{split_host_port}
use microchat_ai.Client.Chat.{is_production_server, connect}

-- The name that the server's certificate must have, and the roots that it is checked against: a
-- PEM text, or those of the system.
pub record Tls : Type 0 where
  pub server_name : Bytes
  pub roots : Option Bytes

-- os.Getenv (an unset variable is empty), whether os.Stat finds a file, os.ReadFile (the bytes that
-- it read, and its error), the path of a file beside the executable (if os.Executable finds that),
-- AppendCertsFromPEM, and the error of grpc.NewClient.
pub record Machine : Type 0 where
  pub getenv : Bytes → Bytes
  pub exists : Bytes → Bool
  pub read_file : Bytes → Bytes × Option Bytes
  pub beside_executable : Bytes → Option Bytes
  pub append_certs : Bytes → Bool
  pub new_client : Bytes → Tls → Option Bytes

abbrev or_this : Bytes → Bytes → Bytes
or_this default [] = default
or_this default (c ∷ s) = c ∷ s

module _ (m : Machine) where
  -- The connection, with the settings that it uses.
  abbrev dialled : Tls → Option Bytes → OrError Tls
  dialled tls none = value tls
  dialled tls (some e) = error e

  abbrev pub dial : Bytes → Tls → OrError Tls
  dial addr tls = dialled tls (m.new_client addr tls)

  -- A path, and what the read of it leaves in caCert.
  abbrev pub read_at : Bytes → Bytes × Bytes
  read_at path = (path, (m.read_file path).0)

  -- The read beside the executable, if that is known; otherwise the last read stands.
  abbrev pub read_beside : Bytes → Option Bytes → Bytes × Bytes
  read_beside last none = read_at last
  read_beside last (some path) = read_at path

  -- From the error of the read from the root of the project on.
  abbrev pub read_root : Bytes → Option Bytes → Bytes × Bytes
  read_root ca_path none = read_at (bytes "../../" ++ ca_path)
  read_root ca_path (some e) = read_beside (bytes "../../" ++ ca_path) (m.beside_executable ca_path)

  -- fullCaPath and caCert.
  unfoldable pub read_certificate : Bytes → Bytes × Bytes
  read_certificate ca_path =
      if m.exists ca_path
      then read_at ca_path
      else read_root ca_path (m.read_file (bytes "../../" ++ ca_path)).1

  abbrev pub server_name : Bytes
  server_name = or_this (bytes "localhost") (m.getenv (bytes "SERVER_NAME"))

  abbrev pub ca_path : Bytes
  ca_path = or_this (bytes "certs/ca.crt") (m.getenv (bytes "CA_CERT_FILE"))

  -- From the test of `err` on. The reads assign the `err` of the if statement around them, so the
  -- one that is tested here is nil.
  abbrev pub with_certificate : Bytes → Option Bytes → Bytes × Bytes → OrError Tls
  with_certificate addr (some e) (path, cert) =
      error (bytes "failed to read CA certificate from " ++ path ++ bytes ": " ++ e)
  with_certificate addr none (path, cert) =
      if m.append_certs cert
      then dial addr (record { server_name = server_name; roots = some cert })
      else error (bytes "failed to append CA certificate")

  abbrev pub production : Bytes → Option (Bytes × Bytes) → OrError Tls
  production addr none = error (bytes "failed to parse server address")
  production addr (some (host, port)) = dial addr (record { server_name = host; roots = none })

  unfoldable pub attempt_connect : Bytes → OrError Tls
  unfolding read_certificate
  attempt_connect addr =
      if is_production_server addr
      then production addr (split_host_port addr)
      else with_certificate addr none (read_certificate ca_path)
