-- ===== src/Cli.antt =====
-- apps/true-tick-cli/src/main.rs: the command line client. Here the requests and the parsing of its
-- arguments, which are UTF-8 texts.
pub mod Json
pub mod Run
pub mod Printed
pub mod Ends
use true_tick.Base.{
  ℕ, zero, suc, ◌==◌, if◌then◌else◌, Bool, true, false, ◌&&◌, ◌||◌, Option, none, some, List, [],
  ◌∷◌, ◌++◌, Result, ok, err, length,
}
use true_tick.Base.Try.{◌>>=◌, ◌>>◌, ensure, ok_or}
use true_tick.Base.Bytes.{bytes_eq}
use true_tick.Base.Text.{Text, codes, all, is_ascii_digit, parse_unsigned}
use true_tick.Ipc.Response.{ScheduleActionKind}

pub data CliRequest : Type 0 where
  status : (json : Bool) → CliRequest
  start : (interval_hns : Option ℕ) → CliRequest
  stop : CliRequest
  schedule : (kind : ScheduleActionKind) (seconds : ℕ) → CliRequest
  cancel : (action_id : Option ℕ) → CliRequest
  daemon : CliRequest
  logs : (tail : ℕ) (date : Option Text) → CliRequest
  help version : CliRequest

pub data CliParseError : Type 0 where
  missing_subcommand : CliParseError
  unknown_subcommand missing_argument invalid_argument : Text → CliParseError

unfoldable pub describe_parse_error : CliParseError → Text
describe_parse_error missing_subcommand = codes "missing subcommand"
describe_parse_error (unknown_subcommand name) = codes "unknown subcommand `" ++ name ++ codes "`"
describe_parse_error (missing_argument what) = codes "missing argument " ++ what
describe_parse_error (invalid_argument what) = codes "invalid argument " ++ what

abbrev pub Parsed : Type 0 → Type 0
Parsed A = Result A CliParseError

abbrev pub default_log_tail : ℕ
default_log_tail = 20

-- The last `--root` is the root; the other arguments stay in order.
unfoldable pub extract_from : Option Text → List Text → Parsed (Option Text × List Text)
extract_from root [] = ok (root, [])
extract_from root (arg ∷ []) =
    if bytes_eq arg (codes "--root")
    then err (missing_argument (codes "--root <path>"))
    else ok (root, arg ∷ [])
extract_from root (arg ∷ value ∷ more) = elim (bytes_eq arg (codes "--root")) [
  | true ↦ extract_from (some value) more
  | false ↦ extract_from root (value ∷ more) >>= λ found. ok (found.0, arg ∷ found.1)
]

unfoldable pub extract_root : List Text → Parsed (Option Text × List Text)
extract_root args = extract_from none args

unfoldable pub expect_no_args : List Text → CliRequest → Parsed CliRequest
expect_no_args [] request = ok request
expect_no_args (extra ∷ more) request = err (invalid_argument extra)

unfoldable pub parse_schedule_action : Text → Option ScheduleActionKind
parse_schedule_action name =
    if bytes_eq name (codes "start-in")
    then some ScheduleActionKind.start
    else (if bytes_eq name (codes "stop-in")
        then some ScheduleActionKind.stop
        else (if bytes_eq name (codes "pause") then some ScheduleActionKind.pause else none))

-- The arguments 4 and 7 are the positions of the dashes.
abbrev log_date_from : ℕ → Text → Bool
log_date_from i [] = true
log_date_from i (b ∷ s) = (i == 4 || i == 7 || is_ascii_digit b) && log_date_from (suc i) s

abbrev byte_at : ℕ → Text → ℕ
byte_at i [] = 0
byte_at zero (b ∷ s) = b
byte_at (suc i) (b ∷ s) = byte_at i s

unfoldable pub valid_log_date : Text → Bool
valid_log_date value =
    length value == 10 && byte_at 4 value == 45 && byte_at 7 value == 45 && log_date_from 0 value

abbrev pub quoted : Text → Text → Text
quoted name value = name ++ codes " `" ++ value ++ codes "`"

unfoldable pub parse_status : Bool → List Text → Parsed CliRequest
parse_status json [] = ok (status json)
parse_status json (arg ∷ rest) = elim (bytes_eq arg (codes "--json")) [
  | true ↦ parse_status true rest
  | false ↦ err (invalid_argument arg)
]

abbrev pub parse_number : ℕ → Text → Text → Parsed ℕ
parse_number bits name value =
    ok_or (parse_unsigned bits value) (invalid_argument (quoted name value))

unfoldable pub parse_start : Option ℕ → List Text → Parsed CliRequest
parse_start interval_hns [] = ok (start interval_hns)
parse_start interval_hns (arg ∷ []) =
    if bytes_eq arg (codes "--interval")
    then err (missing_argument (codes "--interval <hns>"))
    else err (invalid_argument arg)
parse_start interval_hns (arg ∷ value ∷ rest) = elim (bytes_eq arg (codes "--interval")) [
  | true ↦ parse_number 64 (codes "--interval") value >>= λ parsed. parse_start (some parsed) rest
  | false ↦ err (invalid_argument arg)
]

unfoldable pub parse_cancel : List Text → Parsed CliRequest
parse_cancel [] = ok (cancel none)
parse_cancel (id_text ∷ []) =
    parse_number 32 (codes "cancel action id") id_text >>= λ id. ok (cancel (some id))
parse_cancel (id_text ∷ extra ∷ more) = err (invalid_argument extra)

abbrev pub no_more : List Text → CliRequest → Parsed CliRequest
no_more [] request = ok request
no_more (extra ∷ more) request = err (invalid_argument extra)

unfoldable pub parse_seconds : ScheduleActionKind → List Text → Parsed CliRequest
parse_seconds kind [] = err (missing_argument (codes "schedule <seconds>"))
parse_seconds kind (seconds_text ∷ more) =
    parse_number 32 (codes "schedule seconds") seconds_text >>= λ seconds.
    no_more more (schedule kind seconds)

unfoldable pub parse_schedule : List Text → Parsed CliRequest
parse_schedule [] = err (missing_argument (codes "schedule <start-in|stop-in|pause> <seconds>"))
parse_schedule (action ∷ rest) =
    ok_or (parse_schedule_action action)
      (invalid_argument (quoted (codes "schedule action") action))
    >>= λ kind. parse_seconds kind rest

unfoldable pub parse_logs : ℕ → Option Text → List Text → Parsed CliRequest
parse_logs tail date [] = ok (logs tail date)
parse_logs tail date (arg ∷ []) =
    if bytes_eq arg (codes "--tail")
    then err (missing_argument (codes "--tail <n>"))
    else (if bytes_eq arg (codes "--date")
        then err (missing_argument (codes "--date <yyyy-mm-dd>"))
        else err (invalid_argument arg))
parse_logs tail date (arg ∷ value ∷ rest) = elim (bytes_eq arg (codes "--tail")) [
  | true ↦ parse_number 64 (codes "--tail") value >>= λ n. parse_logs n date rest
  | false ↦ elim (bytes_eq arg (codes "--date")) [
    | true ↦
        ensure (valid_log_date value) (invalid_argument (quoted (codes "--date") value))
        >> parse_logs tail (some value) rest
    | false ↦ err (invalid_argument arg)
  ]
]

unfoldable pub parse_subcommand : Text → List Text → Parsed CliRequest
parse_subcommand subcommand rest =
    if bytes_eq subcommand (codes "status")
    then parse_status false rest
    else (if bytes_eq subcommand (codes "start")
        then parse_start none rest
        else (if bytes_eq subcommand (codes "stop")
            then expect_no_args rest stop
            else (if bytes_eq subcommand (codes "cancel")
                then parse_cancel rest
                else (if bytes_eq subcommand (codes "daemon")
                    then expect_no_args rest daemon
                    else (if bytes_eq subcommand (codes "schedule")
                        then parse_schedule rest
                        else (if bytes_eq subcommand (codes "logs")
                            then parse_logs default_log_tail none rest
                            else (if bytes_eq subcommand (codes "help")
                                then expect_no_args rest help
                                else (if bytes_eq subcommand (codes "version")
                                    then expect_no_args rest version
                                    else err (unknown_subcommand subcommand)))))))))

unfoldable pub parse_args : List Text → Parsed CliRequest
parse_args [] = err missing_subcommand
parse_args (subcommand ∷ rest) = parse_subcommand subcommand rest
