-- ===== src/Tests/Client.antt =====
-- Runs of the client.
use microchat_ai.Prelude.{
  ◌++◌, decimal, value, Bytes_discrete, none, false, ite, some, refl, true, [], bytes, ◌≡◌, pos,
  ◌∷◌,
}
use microchat_ai.Client.Metrics.Sums.{apply_all, clears, transfers, apply_all-sum, exchanges}
use microchat_ai.Net.{split_host_port}
use microchat_ai.Client.Chat.{is_production_server}
use microchat_ai.Client.Metrics.{Metrics, zeros, out_payload}
use microchat_ai.Client.Tls.{Machine, attempt_connect}
use microchat_ai.Client.Tls.Roots.{
  IsVerified, attempt_connect-IsVerified, attempt_connect-error, FailsBy,
}
use microchat_ai.Config.{signed_64}
use microchat_ai.Client.Display.{display}
use microchat_ai.Client.Main.{default_flags}
use microchat_ai.Client.Metrics.Format.{format_bytes}

apply_all-sum_example :
    let m =
      apply_all
        (record { session = zeros; lifetime = zeros; msg = zeros })
        (exchanges (some 10) (some 20) ∷ clears ∷ transfers (out_payload 5) ∷ []) in
    (m.lifetime ≡ record {
      payload_bytes_in = 20;
      payload_bytes_out = 10;
      wire_bytes_in = 0;
      wire_bytes_out = 5;
    })
    × (m.session ≡ record zeros { wire_bytes_out = 5 })
apply_all-sum_example =
    apply_all-sum (exchanges (some 10) (some 20) ∷ clears ∷ transfers (out_payload 5) ∷ [])

-- A machine that has the certificate in its directory.
abbrev machine : Machine
machine = record {
  getenv = λ name. [];
  exists = λ path. true;
  read_file = λ path. (bytes "pem", none);
  beside_executable = λ path. none;
  append_certs = λ pem. ite (Bytes_discrete pem []) false true;
  new_client = λ addr tls. none;
}

-- A machine without one.
abbrev bare : Machine
bare = record machine { exists = λ path. false; read_file = λ path. ([], some (bytes "missing")) }

attempt_connect-IsVerified_example :
    IsVerified machine
      (bytes "localhost:4000")
      (record { server_name = bytes "localhost"; roots = some (bytes "pem") })
unfolding attempt_connect Bytes_discrete is_production_server split_host_port
attempt_connect-IsVerified_example =
    attempt_connect-IsVerified machine (bytes "localhost:4000")
      (record { server_name = bytes "localhost"; roots = some (bytes "pem") }) connects
  where
    connects :
        attempt_connect machine (bytes "localhost:4000")
        ≡ value (record { server_name = bytes "localhost"; roots = some (bytes "pem") })
    connects = refl

attempt_connect-error_example :
    FailsBy bare (bytes "localhost:4000") (bytes "failed to append CA certificate")
unfolding attempt_connect Bytes_discrete is_production_server split_host_port
attempt_connect-error_example =
    attempt_connect-error bare (bytes "localhost:4000") (bytes "failed to append CA certificate")
      refl

-- 1.5 KB, and a half that is rounded to an even digit.
format_half : format_bytes (pos 1536) ≡ bytes "1.5 KB"
unfolding format_bytes decimal
format_half = refl

format_even : format_bytes (pos 1280) ≡ bytes "1.2 KB"
unfolding format_bytes decimal
format_even = refl

format_small : format_bytes (pos 1023) ≡ bytes "1023 B"
unfolding format_bytes decimal
format_small = refl

abbrev counted : Metrics
counted = record {
  session = record zeros { wire_bytes_out = 5; wire_bytes_in = 2048 };
  lifetime = zeros;
  msg = record zeros { wire_bytes_out = 5 };
}

-- With -metrics alone, one line; the counters of the message are reset.
compact_display : display (record default_flags { metrics = true }) counted ≡ (
  record counted { msg = zeros },
  (bytes "[" ++ (226 ∷ 134 ∷ 145 ∷ bytes "5 B ") ++ (226 ∷ 134 ∷ 147 ∷ bytes "2.0 KB]")) ∷ [],
)
unfolding display format_bytes decimal signed_64
compact_display = refl
