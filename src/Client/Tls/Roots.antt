-- ===== src/Client/Tls/Roots.antt =====
-- How the server's certificate is checked.
use microchat_ai.Prelude.{
  Option-cases, true, false, none, some, Option, Bytes, bytes, ◌++◌, OrError, value, error, ◌≡◌,
  refl, inl, inr, Bool-cases, ◌⊎◌, arith, sym, ap, ◌∙◌,
}
use microchat_ai.Net.{split_host_port}
use microchat_ai.Client.Chat.{is_production_server}
use microchat_ai.Client.Tls.{
  Machine, Tls, attempt_connect, read_certificate, dial, with_certificate, production, ca_path,
  server_name, read_root, read_beside,
}

module _ (m : Machine) where
  -- The places of the certificate: the path itself, the root of the project, and the directory of
  -- the executable.
  abbrev pub IsPlace : Bytes → Bytes → Type 0
  IsPlace ca_path path =
      (path ≡ ca_path)
      ⊎ ((path ≡ bytes "../../" ++ ca_path) ⊎ (m.beside_executable ca_path ≡ some path))

  -- A text that was read from one of the places.
  abbrev pub IsRead : Bytes × Bytes → Type 0
  IsRead (path, cert) = IsPlace (ca_path m) path × (cert ≡ (m.read_file path).0)

  -- A connection to a production server checks its host against the roots of the system; any other
  -- checks the configured name against certificates that were parsed from a file.
  abbrev pub IsVerified : Bytes → Tls → Type 0
  IsVerified addr tls =
      ((is_production_server addr ≡ true)
        × (tls.roots ≡ none)
        × ((port : Bytes) × (split_host_port addr ≡ some (tls.server_name, port))))
      ⊎ ((is_production_server addr ≡ false)
          × (tls.server_name ≡ server_name m)
          × ((path : Bytes) × (cert : Bytes) × IsRead (path, cert)
              × (tls.roots ≡ some cert)
              × (m.append_certs cert ≡ true)))

  read_beside-IsRead :
      (o : Option Bytes)
      → m.beside_executable (ca_path m) ≡ o
      → IsRead (read_beside m (bytes "../../" ++ ca_path m) o)
  read_beside-IsRead none e = (inr (inl refl), refl)
  read_beside-IsRead (some path) e = (inr (inr e), refl)

  read_root-IsRead : (o : Option Bytes) → IsRead (read_root m (ca_path m) o)
  read_root-IsRead none = (inr (inl refl), refl)
  read_root-IsRead (some e) = read_beside-IsRead (m.beside_executable (ca_path m)) refl

  read_certificate-IsRead : IsRead (read_certificate m (ca_path m))
  unfolding read_certificate
  read_certificate-IsRead = elim (Bool-cases (m.exists (ca_path m))) [
    | inl found ↦ rw (found, IsRead) (inl refl, refl)
    | inr missing ↦
        rw (missing, IsRead) (read_root-IsRead (m.read_file (bytes "../../" ++ ca_path m)).1)
  ]

  dial-value : (addr : Bytes) (tls tls' : Tls) → dial m addr tls ≡ value tls' → tls ≡ tls'
  dial-value addr tls tls' h = elim (Option-cases (m.new_client addr tls)) [
    | inl ok ↦ ground arith
    | inr (e, failed) ↦ ground arith
  ]

  production-IsVerified :
      (addr : Bytes) (tls : Tls) (o : Option (Bytes × Bytes))
      → is_production_server addr ≡ true
      → split_host_port addr ≡ o
      → production m addr o ≡ value tls
      → IsVerified addr tls
  production-IsVerified addr tls none p s h = cc
  production-IsVerified addr tls (some (host, port)) p s h =
      let same = dial-value addr (record { server_name = host; roots = none }) tls h in
      inl (p, sym (ap (λ t. t.roots) same), (port, s ∙ ap (λ t. some (t.server_name, port)) same))

  certificate-IsVerified :
      (addr : Bytes) (tls : Tls) (read : Bytes × Bytes)
      → is_production_server addr ≡ false
      → IsRead read
      → with_certificate m addr none read ≡ value tls
      → IsVerified addr tls
  certificate-IsVerified addr tls (path, cert) p r h = elim (Bool-cases (m.append_certs cert)) [
    | inl parsed ↦
        let same =
          dial-value addr (record { server_name = server_name m; roots = some cert }) tls
            (rw parsed at h) in
        inr (
          p,
          sym (ap (λ t. t.server_name) same),
          (path, cert, r, sym (ap (λ t. t.roots) same), parsed),
        )
    | inr unparsed ↦ ground arith
  ]

  -- If attemptConnect gets a connection, the certificate of the server is checked: to a production
  -- server against its host and the roots of the system, and to any other server against the
  -- configured name and certificates that were parsed from what a read gave of a file at one of the
  -- three places.
  pub attempt_connect-IsVerified :
      (addr : Bytes) (tls : Tls) → attempt_connect m addr ≡ value tls → IsVerified addr tls
  unfolding attempt_connect
  attempt_connect-IsVerified addr tls h = elim (Bool-cases (is_production_server addr)) [
    | inl p ↦ production-IsVerified addr tls (split_host_port addr) p refl (rw p at h)
    | inr p ↦
        certificate-IsVerified addr tls (read_certificate m (ca_path m)) p read_certificate-IsRead
          (rw p at h)
  ]

  -- Why attemptConnect fails.
  abbrev pub FailsBy : Bytes → Bytes → Type 0
  FailsBy addr e =
      ((is_production_server addr ≡ true)
        × (split_host_port addr ≡ none)
        × (e ≡ bytes "failed to parse server address"))
      ⊎ (((is_production_server addr ≡ false)
            × (m.append_certs (read_certificate m (ca_path m)).1 ≡ false)
            × (e ≡ bytes "failed to append CA certificate"))
          ⊎ ((tls : Tls) × (m.new_client addr tls ≡ some e)))

  error_inj : {d e : Bytes} → ◌≡◌ {A = OrError Tls} (error d) (error e) → d ≡ e
  error_inj h = cc

  dial-error :
      (addr e : Bytes) (tls : Tls) → dial m addr tls ≡ error e → m.new_client addr tls ≡ some e
  dial-error addr e tls h = elim (Option-cases (m.new_client addr tls)) [
    | inl ok ↦ ground arith
    | inr (e', failed) ↦ ground arith
  ]

  production-error :
      (addr e : Bytes) (o : Option (Bytes × Bytes))
      → is_production_server addr ≡ true
      → split_host_port addr ≡ o
      → production m addr o ≡ error e
      → FailsBy addr e
  production-error addr e none p s h = inl (p, s, sym (error_inj h))
  production-error addr e (some (host, port)) p s h =
      inr (inr (_, dial-error addr e (record { server_name = host; roots = none }) h))

  certificate-error :
      (addr e : Bytes) (read : Bytes × Bytes)
      → is_production_server addr ≡ false
      → read_certificate m (ca_path m) ≡ read
      → with_certificate m addr none read ≡ error e
      → FailsBy addr e
  certificate-error addr e (path, cert) p r h = elim (Bool-cases (m.append_certs cert)) [
    | inl parsed ↦ inr (
        inr (
          _,
          dial-error addr e (record { server_name = server_name m; roots = some cert })
              (rw parsed at h),
        ))
    | inr unparsed ↦
        inr (inl (p, ap (λ q. m.append_certs q.1) r ∙ unparsed, sym (error_inj (rw unparsed at h))))
  ]

  -- If attemptConnect reports an error: the address of a production server does not parse; or, for
  -- another server, no certificate was parsed from what was read, whatever the errors of the reads,
  -- and the report is that it could not be appended; or the error is that of grpc.NewClient. So
  -- none of its reports is that a certificate could not be read.
  pub attempt_connect-error : (addr e : Bytes) → attempt_connect m addr ≡ error e → FailsBy addr e
  unfolding attempt_connect
  attempt_connect-error addr e h = elim (Bool-cases (is_production_server addr)) [
    | inl p ↦ production-error addr e (split_host_port addr) p refl (rw p at h)
    | inr p ↦ certificate-error addr e (read_certificate m (ca_path m)) p refl (rw p at h)
  ]
