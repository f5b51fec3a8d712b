-- ===== src/Cli/Run.antt =====
-- apps/true-tick-cli/src/main.rs: the run of a request, and the exchange of the client in
-- crates/tick-ipc/src/lib.rs. The pipe, the files and the clock are calls of the operating system:
-- an interface. Two functions of the program are parameters of it and are not translated: the start
-- of the engine, run_daemon, and the texts of the errors of Ipc.
use true_tick.Base.{
  ℕ, ◌-◌, if◌then◌else◌, Bool, Option, none, some, List, [], ◌∷◌, ◌++◌, Result, ok, err, length,
  drop,
}
use true_tick.Base.Bytes.{to_le_bytes}
use true_tick.Base.Words.{lines}
use true_tick.Base.Text.{Text, codes, show, reverse, skip_while, one_of}
use true_tick.Ipc.{CommandVerb, IpcError}
use true_tick.Ipc.Token.{from_hex}
use true_tick.Ipc.Frame.{new, serialize}
use true_tick.Ipc.Response.{
  decode_response, IpcResponse, encode_interval_payload, encode_schedule_payload,
}
use true_tick.Cli.{
  CliRequest, CliParseError, Parsed, describe_parse_error, extract_root, parse_args,
}
use true_tick.Cli.Json.{status_json}

pub data RunError : Type 0 where
  failure unreachable : (message : Text) → RunError

abbrev pub exit_ok : ℕ
exit_ok = 0

abbrev pub exit_failure : ℕ
exit_failure = 1

abbrev pub exit_unreachable : ℕ
exit_unreachable = 2

unfoldable pub exit_code : RunError → ℕ
exit_code (failure message) = exit_failure
exit_code (unreachable message) = exit_unreachable

-- What a run prints on its two streams, and the code it ends with.
pub record Outcome : Type 0 where
  pub out : Text
  pub errors : Text
  pub code : ℕ

abbrev pub printed : Text → Outcome
printed text = record { out = text ++ codes "\n"; errors = []; code = exit_ok }

abbrev pub failed : Text → ℕ → Outcome
failed text n = record { out = []; errors = text ++ codes "\n"; code = n }

-- `connect` opens the pipe, and `call` writes one message to it and reads one reply.
pub record Machine (W : Type 0) : Type 0 where
  pub connect : W → Result (Unit {0}) Text × W
  pub call : List ℕ → W → Result (List ℕ) IpcError × W
  pub join : Text → Text → Text
  pub read_to_string : Text → W → Result Text Text
  pub run_daemon : Text → W → Outcome × W
  pub utc_date_today : W → Text
  pub executable_directory : Text
  pub usage : Text
  pub show_ipc : IpcError → Text

abbrev pub pipe_name : Text
pipe_name = codes "\\\\.\\pipe\\TrueTick-Ipc-v1"

-- `trim_end_matches` of returns and line feeds.
abbrev pub without_line_ends : Text → Text
without_line_ends s = reverse (skip_while (one_of (codes "\r\n")) (reverse s))

abbrev pub version : Text
version = codes "0.1.0"

unfoldable pub tail_lines : Text → ℕ → List Text
tail_lines text count = let found = lines text in drop (length found - count) found

unfoldable pub report_error : RunError → Outcome
report_error (unreachable message) =
    failed (codes "unreachable: " ++ message) (exit_code (unreachable message))
report_error (failure message) = failed (codes "error: " ++ message) (exit_code (failure message))

module _ {W : Type 0} (machine : Machine W) where
  unfoldable pub report_response : IpcResponse → Outcome
  report_response (IpcResponse.status text) = printed text
  report_response (IpcResponse.acquired effective_hns) =
      printed (codes "acquired effective_hns=" ++ show effective_hns)
  report_response IpcResponse.released = printed (codes "released")
  report_response (IpcResponse.scheduled action_id) =
      printed (codes "scheduled action_id=" ++ show action_id)
  report_response IpcResponse.cancelled = printed (codes "cancelled")
  report_response (IpcResponse.error e) =
      failed (codes "error: " ++ machine.show_ipc e) exit_failure

  unfoldable pub acquire_payload : Option ℕ → Result (List ℕ) RunError
  acquire_payload none = ok []
  acquire_payload (some hns) = elim (encode_interval_payload hns) [
    | ok payload ↦ ok payload
    | err e ↦ err (
        failure (codes "invalid --interval value " ++ show hns ++ codes ": " ++ machine.show_ipc e))
  ]

  abbrev pub report : Result IpcResponse RunError → Outcome
  report (ok response) = report_response response
  report (err e) = report_error e

  unfoldable pub report_status : Bool → Result IpcResponse RunError → Outcome
  report_status json (ok (IpcResponse.status text)) =
      printed (if json then status_json text else text)
  report_status json (ok (IpcResponse.acquired n)) = report_response (IpcResponse.acquired n)
  report_status json (ok IpcResponse.released) = report_response IpcResponse.released
  report_status json (ok (IpcResponse.scheduled n)) = report_response (IpcResponse.scheduled n)
  report_status json (ok IpcResponse.cancelled) = report_response IpcResponse.cancelled
  report_status json (ok (IpcResponse.error e)) = report_response (IpcResponse.error e)
  report_status json (err e) = report_error e

  abbrev pub token_path : Text → Text
  token_path root =
      machine.join (machine.join (machine.join root (codes "Data")) (codes "state"))
        (codes "ipc-token")

  unfoldable pub read_token_file : Text → W → Result (List ℕ) Text
  read_token_file file w = elim (machine.read_to_string file w) [
    | err e ↦ err e
    | ok text ↦ elim (from_hex (without_line_ends text)) [
      | ok token ↦ ok token
      | err e ↦ err (machine.show_ipc e)
    ]
  ]

  abbrev pub replied : Result (List ℕ) IpcError → Result IpcResponse IpcError
  replied (ok bytes) = decode_response bytes
  replied (err e) = err e

  -- `IpcClient::exchange`.
  unfoldable pub client_exchange :
      List ℕ → CommandVerb → List ℕ → W → Result IpcResponse IpcError × W
  client_exchange token verb payload w = elim (new token verb payload) [
    | err e ↦ (err e, w)
    | ok frame ↦ let (answer, v) = machine.call (serialize frame) w in (replied answer, v)
  ]

  abbrev pub or_failed : Result IpcResponse IpcError → Result IpcResponse RunError
  or_failed (ok response) = ok response
  or_failed (err e) = err (failure (codes "ipc exchange failed: " ++ machine.show_ipc e))

  abbrev pub when_connected :
      List ℕ → CommandVerb → List ℕ → Result (Unit {0}) Text × W → Result IpcResponse RunError × W
  when_connected token verb payload (ok u, w) =
      let (answer, v) = client_exchange token verb payload w in (or_failed answer, v)
  when_connected token verb payload (err e, w) =
      (err (unreachable (codes "cannot reach true-tick at " ++ pipe_name ++ codes ": " ++ e)), w)

  abbrev pub with_token :
      Text → CommandVerb → List ℕ → Result (List ℕ) Text → W → Result IpcResponse RunError × W
  with_token file verb payload (ok token) w = when_connected token verb payload (machine.connect w)
  with_token file verb payload (err e) w =
      (err (unreachable (codes "cannot read session token at " ++ file ++ codes ": " ++ e)), w)

  unfoldable pub exchange : Text → CommandVerb → List ℕ → W → Result IpcResponse RunError × W
  exchange root verb payload w =
      let file = token_path root in with_token file verb payload (read_token_file file w) w

  -- One exchange, and its report.
  abbrev pub exchanged :
      (Result IpcResponse RunError → Outcome) → Text → CommandVerb → List ℕ → W → Outcome × W
  exchanged told root verb payload w =
      let (answer, v) = exchange root verb payload w in (told answer, v)

  abbrev pub cancel_payload : Option ℕ → List ℕ
  cancel_payload none = []
  cancel_payload (some id) = to_le_bytes 4 id

  abbrev pub lined : List Text → Text
  lined [] = []
  lined (line ∷ more) = line ++ codes "\n" ++ lined more

  abbrev pub log_directory : Text → Text
  log_directory root = machine.join (machine.join root (codes "Data")) (codes "logs")

  abbrev pub daily_log_path : Text → Text → Text
  daily_log_path root date =
      machine.join (log_directory root) (codes "true-tick-" ++ date ++ codes ".csv")

  abbrev pub date_or_today : Option Text → W → Text
  date_or_today none w = machine.utc_date_today w
  date_or_today (some date) w = date

  unfoldable pub run_logs : Text → ℕ → Option Text → W → Outcome
  run_logs root tail date w =
      let file = daily_log_path root (date_or_today date w) in
      elim (machine.read_to_string file w) [
        | err message ↦
            failed (codes "error: cannot read log file " ++ file ++ codes ": " ++ message)
              exit_failure
        | ok text ↦ record { out = lined (tail_lines text tail); errors = []; code = exit_ok }
      ]

  unfoldable pub run_request : Text → CliRequest → W → Outcome × W
  run_request root CliRequest.help w =
      (record { out = machine.usage; errors = []; code = exit_ok }, w)
  run_request root CliRequest.version w = (printed version, w)
  run_request root (CliRequest.logs tail date) w = (run_logs root tail date w, w)
  run_request root CliRequest.daemon w = machine.run_daemon root w
  run_request root (CliRequest.status json) w =
      exchanged (report_status json) root CommandVerb.query_status [] w
  run_request root (CliRequest.start interval_hns) w = elim (acquire_payload interval_hns) [
    | ok payload ↦ exchanged report root CommandVerb.request_acquire payload w
    | err e ↦ (report_error e, w)
  ]
  run_request root CliRequest.stop w = exchanged report root CommandVerb.request_release [] w
  run_request root (CliRequest.schedule kind seconds) w =
      exchanged report root CommandVerb.schedule_action (encode_schedule_payload kind seconds) w
  run_request root (CliRequest.cancel action_id) w =
      exchanged report root CommandVerb.cancel_schedule (cancel_payload action_id) w

  unfoldable pub resolve_root : Option Text → Text
  resolve_root (some root) = root
  resolve_root none = machine.executable_directory

  abbrev pub refused : CliParseError → Outcome
  refused CliParseError.missing_subcommand = record {
    out = [];
    errors = machine.usage;
    code = exit_failure;
  }
  refused e =
      failed (codes "error: " ++ describe_parse_error e ++ codes "\ntry `true-tick-cli help`")
        exit_failure

  unfoldable pub run_parsed : Text → Parsed CliRequest → W → Outcome × W
  run_parsed root (err e) w = (refused e, w)
  run_parsed root (ok request) w = run_request root request w

  unfoldable pub run_extracted : Parsed (Option Text × List Text) → W → Outcome × W
  run_extracted (err e) w = (failed (codes "error: " ++ describe_parse_error e) exit_failure, w)
  run_extracted (ok (root_override, rest)) w =
      run_parsed (resolve_root root_override) (parse_args rest) w

  unfoldable pub run : List Text → W → Outcome × W
  run args w = run_extracted (extract_root args) w
