-- ===== src/Cli/Printed.antt =====
-- Every request of the command line client of apps/true-tick-cli/src/main.rs can be written as
-- arguments, and the root can stand anywhere among them.
use true_tick.Base.{
  ℕ, ◌<◌, ◌^◌, ◌≡◌, refl, true, false, Option, none, some, List, [], ◌∷◌, ◌++◌, Result, ok, All,
  arith, ap, subst, ◌∙◌, length, Bool-cases, inl, inr,
}
use true_tick.Base.Try.{◌>>=◌}
use true_tick.Base.Bytes.{bytes_eq, eq_of_bytes_eq}
use true_tick.Base.Text.{Text, codes, show, parse_unsigned}
use true_tick.Base.Decimal.{parse-show, IsDigit, All-show, show-some}
use true_tick.Ipc.Response.{ScheduleActionKind}
use true_tick.Cli.{
  CliRequest, CliParseError, extract_root, extract_from, expect_no_args, parse_schedule_action,
  valid_log_date, parse_status, parse_start, parse_cancel, parse_seconds, parse_schedule,
  parse_logs, parse_subcommand, parse_args,
}

-- The arguments of a request, as the usage text tells them.
abbrev action_name : ScheduleActionKind → Text
action_name ScheduleActionKind.start = codes "start-in"
action_name ScheduleActionKind.stop = codes "stop-in"
action_name ScheduleActionKind.pause = codes "pause"

abbrev date_arguments : Option Text → List Text
date_arguments none = []
date_arguments (some date) = codes "--date" ∷ date ∷ []

abbrev pub arguments : CliRequest → List Text
arguments (CliRequest.status false) = codes "status" ∷ []
arguments (CliRequest.status true) = codes "status" ∷ codes "--json" ∷ []
arguments (CliRequest.start none) = codes "start" ∷ []
arguments (CliRequest.start (some hns)) = codes "start" ∷ codes "--interval" ∷ show hns ∷ []
arguments CliRequest.stop = codes "stop" ∷ []
arguments (CliRequest.schedule kind seconds) =
    codes "schedule" ∷ action_name kind ∷ show seconds ∷ []
arguments (CliRequest.cancel none) = codes "cancel" ∷ []
arguments (CliRequest.cancel (some id)) = codes "cancel" ∷ show id ∷ []
arguments CliRequest.daemon = codes "daemon" ∷ []
arguments (CliRequest.logs tail date) =
    codes "logs" ∷ codes "--tail" ∷ show tail ∷ date_arguments date
arguments CliRequest.help = codes "help" ∷ []
arguments CliRequest.version = codes "version" ∷ []

abbrev IsDate : Option Text → Type 0
IsDate none = Unit {0}
IsDate (some date) = valid_log_date date ≡ true

-- The numbers fit their words, and the date has the shape of a date.
abbrev pub IsExpressible : CliRequest → Type 0
IsExpressible (CliRequest.status json) = Unit {0}
IsExpressible (CliRequest.start none) = Unit {0}
IsExpressible (CliRequest.start (some hns)) = hns < 2 ^ 64
IsExpressible CliRequest.stop = Unit {0}
IsExpressible (CliRequest.schedule kind seconds) = seconds < 2 ^ 32
IsExpressible (CliRequest.cancel none) = Unit {0}
IsExpressible (CliRequest.cancel (some id)) = id < 2 ^ 32
IsExpressible CliRequest.daemon = Unit {0}
IsExpressible (CliRequest.logs tail date) = (tail < 2 ^ 64) × IsDate date
IsExpressible CliRequest.help = Unit {0}
IsExpressible CliRequest.version = Unit {0}

parsed_u64 : (n : ℕ) → n < 2 ^ 64 → parse_unsigned 64 (show n) ≡ some n
parsed_u64 n h = parse-show 64 n h (omega arith)

parsed_u32 : (n : ℕ) → n < 2 ^ 32 → parse_unsigned 32 (show n) ≡ some n
parsed_u32 n h = parse-show 32 n h (omega arith)

action_known : (kind : ScheduleActionKind) → parse_schedule_action (action_name kind) ≡ some kind
unfolding parse_schedule_action bytes_eq
action_known ScheduleActionKind.start = refl
action_known ScheduleActionKind.stop = refl
action_known ScheduleActionKind.pause = refl

dated :
    (tail : ℕ) (date : Option Text)
    → IsDate date
    → parse_logs tail none (date_arguments date) ≡ ok (CliRequest.logs tail date)
unfolding parse_logs bytes_eq
dated tail none h = refl
dated tail (some date) h = rw h refl

-- The arguments of a request are parsed as that request.
pub parse_args-arguments :
    (request : CliRequest) → IsExpressible request → parse_args (arguments request) ≡ ok request
unfolding parse_args parse_subcommand parse_status parse_start parse_cancel parse_seconds
    parse_schedule parse_logs expect_no_args bytes_eq
parse_args-arguments (CliRequest.status false) h = refl
parse_args-arguments (CliRequest.status true) h = refl
parse_args-arguments (CliRequest.start none) h = refl
parse_args-arguments (CliRequest.start (some hns)) h = rw (parsed_u64 hns h) refl
parse_args-arguments CliRequest.stop h = refl
parse_args-arguments (CliRequest.schedule kind seconds) h =
    rw (action_known kind, parsed_u32 seconds h) refl
parse_args-arguments (CliRequest.cancel none) h = refl
parse_args-arguments (CliRequest.cancel (some id)) h = rw (parsed_u32 id h) refl
parse_args-arguments CliRequest.daemon h = refl
parse_args-arguments (CliRequest.logs tail date) (h, d) = rw (parsed_u64 tail h) (dated tail date d)
parse_args-arguments CliRequest.help h = refl
parse_args-arguments CliRequest.version h = refl

-- The arguments without an option for the root.
abbrev pub NoRoot : List Text → Type 0
NoRoot = All (λ arg. bytes_eq arg (codes "--root") ≡ false)

abbrev before :
    Text
    → Result (Option Text × List Text) CliParseError
    → Result (Option Text × List Text) CliParseError
before arg r = r >>= λ found. ok (found.0, arg ∷ found.1)

extract_from-plain :
    (root : Option Text) (arg : Text) (args : List Text)
    → bytes_eq arg (codes "--root") ≡ false
    → extract_from root (arg ∷ args) ≡ before arg (extract_from root args)
unfolding extract_from
extract_from-plain root arg [] h = rw h refl
extract_from-plain root arg (value ∷ more) h = rw (extract_from, h) refl

extract_from-rest :
    (root : Option Text) (args : List Text) → NoRoot args → extract_from root args ≡ ok (root, args)
unfolding extract_from
extract_from-rest root [] h = refl
extract_from-rest root (arg ∷ args) (h, hs) =
    extract_from-plain root arg args h ∙ ap (before arg) (extract_from-rest root args hs)

extract_from-at :
    (root : Option Text) (first rest : List Text) (value : Text)
    → NoRoot first
    → NoRoot rest
    → extract_from root (first ++ (codes "--root" ∷ value ∷ rest)) ≡ ok (some value, first ++ rest)
unfolding extract_from bytes_eq
extract_from-at root [] rest value h k = extract_from-rest (some value) rest k
extract_from-at root (arg ∷ first) rest value (h, hs) k =
    extract_from-plain root arg (first ++ (codes "--root" ∷ value ∷ rest)) h
    ∙ ap (before arg) (extract_from-at root first rest value hs k)

-- The option for the root is found between arguments without one, which stay in order.
pub extract_root-at :
    (first rest : List Text) (value : Text)
    → NoRoot first
    → NoRoot rest
    → extract_root (first ++ (codes "--root" ∷ value ∷ rest)) ≡ ok (some value, first ++ rest)
unfolding extract_root
extract_root-at first rest value h k = extract_from-at none first rest value h k

pub extract_root-none : (args : List Text) → NoRoot args → extract_root args ≡ ok (none, args)
unfolding extract_root
extract_root-none args h = extract_from-rest none args h

digits-no_root : (s : Text) → All IsDigit s → 0 < length s → bytes_eq s (codes "--root") ≡ false
unfolding bytes_eq
digits-no_root [] h k = refl
digits-no_root (b ∷ s) (h, hs) k = ground (arith, h)

show-no_root : (n : ℕ) → bytes_eq (show n) (codes "--root") ≡ false
show-no_root n = digits-no_root (show n) (All-show n) (show-some n)

date-no_root : (date : Text) → valid_log_date date ≡ true → bytes_eq date (codes "--root") ≡ false
unfolding valid_log_date
date-no_root date h = elim (Bool-cases (bytes_eq date (codes "--root"))) [
  | inl e ↦
      let same : date ≡ codes "--root" = eq_of_bytes_eq date (codes "--root") e in
      absurd (not_root (subst (λ d. valid_log_date d ≡ true) same h))
  | inr e ↦ e
]
  where
    not_root : valid_log_date (codes "--root") ≡ true → ⊥
    not_root k = ground (arith, k)

action-no_root : (kind : ScheduleActionKind) → bytes_eq (action_name kind) (codes "--root") ≡ false
unfolding bytes_eq
action-no_root ScheduleActionKind.start = refl
action-no_root ScheduleActionKind.stop = refl
action-no_root ScheduleActionKind.pause = refl

dates-NoRoot : (date : Option Text) → IsDate date → NoRoot (date_arguments date)
unfolding bytes_eq
dates-NoRoot none h = tt
dates-NoRoot (some date) h = (refl, (date-no_root date h, tt))

-- No argument of a request is the option for the root.
pub arguments-NoRoot : (request : CliRequest) → IsExpressible request → NoRoot (arguments request)
unfolding bytes_eq
arguments-NoRoot (CliRequest.status false) h = (refl, tt)
arguments-NoRoot (CliRequest.status true) h = (refl, (refl, tt))
arguments-NoRoot (CliRequest.start none) h = (refl, tt)
arguments-NoRoot (CliRequest.start (some hns)) h = (refl, (refl, (show-no_root hns, tt)))
arguments-NoRoot CliRequest.stop h = (refl, tt)
arguments-NoRoot (CliRequest.schedule kind seconds) h =
    (refl, (action-no_root kind, (show-no_root seconds, tt)))
arguments-NoRoot (CliRequest.cancel none) h = (refl, tt)
arguments-NoRoot (CliRequest.cancel (some id)) h = (refl, (show-no_root id, tt))
arguments-NoRoot CliRequest.daemon h = (refl, tt)
arguments-NoRoot (CliRequest.logs tail date) (h, d) =
    (refl, (refl, (show-no_root tail, dates-NoRoot date d)))
arguments-NoRoot CliRequest.help h = (refl, tt)
arguments-NoRoot CliRequest.version h = (refl, tt)
