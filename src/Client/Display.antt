-- ===== src/Client/Display.antt =====
-- cmd/client/main.go: displayMetrics, with the lines that it prints, in UTF-8.
use microchat_ai.Prelude.{
  arith, ℕ, Bytes, bytes, List, [], ◌∷◌, ◌++◌, Bool, true, false, not, ◌&&◌, ◌||◌, if◌then◌else◌,
  ◌≡◌,
}
use microchat_ai.Config.{signed_64}
use microchat_ai.Client.Metrics.{
  Metrics, Totals, get_message_totals_and_reset, get_session_totals, get_lifetime_totals,
}
use microchat_ai.Client.Metrics.Format.{format_bytes}
use microchat_ai.Client.Chat.{Client, display_metrics}
use microchat_ai.Client.Main.{Flags}

-- "↑" and "↓".
abbrev up : Bytes
up = 226 ∷ 134 ∷ 145 ∷ []

abbrev down : Bytes
down = 226 ∷ 134 ∷ 147 ∷ []

-- The counters are int64.
abbrev pub out_and_in : ℕ → ℕ → Bytes
out_and_in sent received =
    up ++ format_bytes (signed_64 sent) ++ bytes " " ++ down ++ format_bytes (signed_64 received)

abbrev pub detail_line : Bytes → Totals → Bytes
detail_line name t =
    name
    ++ bytes ": [Payload: "
    ++ out_and_in t.payload_bytes_out t.payload_bytes_in
    ++ bytes "] [Wire (gzip): "
    ++ out_and_in t.wire_bytes_out t.wire_bytes_in
    ++ bytes "]"

abbrev lifetime_line : Bool → Totals → List Bytes
lifetime_line true t = detail_line (bytes "Lifetime") t ∷ []
lifetime_line false t = []

abbrev compact_line : Bool → Totals → Totals → Bytes
compact_line true session lifetime =
    bytes "[Session: "
    ++ out_and_in session.wire_bytes_out session.wire_bytes_in
    ++ bytes "] [Total: "
    ++ out_and_in lifetime.wire_bytes_out lifetime.wire_bytes_in
    ++ bytes "]"
compact_line false session lifetime =
    bytes "[" ++ out_and_in session.wire_bytes_out session.wire_bytes_in ++ bytes "]"

unfoldable pub display : Flags → Metrics → Metrics × List Bytes
unfolding get_message_totals_and_reset get_session_totals get_lifetime_totals
display flags m =
    let (m', msg) = get_message_totals_and_reset m in
    if not flags.metrics && not flags.metrics_detail && not flags.metrics_total
    then (m, [])
    else if flags.metrics_detail
    then (
      m',
      []
            ∷ detail_line (bytes "Message") msg
            ∷ detail_line (bytes "Session") (get_session_totals m')
            ∷ lifetime_line flags.metrics_total (get_lifetime_totals m')
          ++ [] ∷ [],
    )
    else if flags.metrics || flags.metrics_total
    then (m', compact_line flags.metrics_total (get_session_totals m) (get_lifetime_totals m) ∷ [])
    else (m, [])

-- The counters of the client after a display are those that the loop over the lines goes on with.
metrics-display :
    (flags : Flags) (c : Client)
    → c.displays ≡ flags.metrics || flags.metrics_detail || flags.metrics_total
    → (display flags c.metrics).0 ≡ (display_metrics c).metrics
unfolding display get_message_totals_and_reset
metrics-display flags c h = ground arith
