-- ===== src/Config/Size.antt =====
-- MAX_SESSION_SIZE_KB, from loadConfig to the first message of a session.
use microchat_ai.Prelude.{Bytes, bytes}
use microchat_ai.Config.{Config, Environment, or_default}

-- The value of MAX_SESSION_SIZE_KB, or its default.
abbrev pub size_text : {Float : Type 0} → Environment Float → Bytes
size_text e = or_default (bytes "100") (e.getenv (bytes "MAX_SESSION_SIZE_KB"))
