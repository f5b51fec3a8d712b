-- ===== src/Config.antt =====
-- apps/true-tick/src/config.rs: the text of the configuration, read and written. The error of a read
-- is its reason.
pub mod Bounds
pub mod Files
pub mod Loaded
use true_tick.Base.{
  ℕ, zero, suc, ◌+◌, ltb, leb, ◌==◌, if◌then◌else◌, Bool, true, false, not, ◌&&◌, ◌||◌, Option,
  none, some, List, [], ◌∷◌, ◌++◌, Result, ok, err, length, is_empty, option_map,
}
use true_tick.Base.Try.{◌>>=◌, ◌>>◌, ensure, ok_or}
use true_tick.Base.Bytes.{bytes_eq}
use true_tick.Base.Text.{Text, codes, any, parse_unsigned, show, split, split_once, trim}
use true_tick.Base.Words.{lines}
use true_tick.Diagnostics.{truncate_utf8}
use true_tick.Pause.{min_preset_seconds, max_preset_seconds, max_presets}

abbrev pub max_config_file_bytes : ℕ
max_config_file_bytes = 65536

abbrev pub max_config_line_bytes : ℕ
max_config_line_bytes = 4096

abbrev pub max_config_key_bytes : ℕ
max_config_key_bytes = 64

abbrev pub max_config_value_bytes : ℕ
max_config_value_bytes = 1024

abbrev pub max_config_error_bytes : ℕ
max_config_error_bytes = 256

abbrev pub automatic_request_interval : ℕ
automatic_request_interval = 0

abbrev pub legacy_one_millisecond_request_interval : ℕ
legacy_one_millisecond_request_interval = 10000

abbrev pub factory_schedule_presets_seconds : List ℕ
factory_schedule_presets_seconds = 60 ∷ 300 ∷ 900 ∷ 1800 ∷ 3600 ∷ []

pub record Config : Type 0 where
  pub automatic : Bool
  pub startup_enabled : Bool
  pub auto_resume_on_ac : Bool
  pub battery_lockout : Bool
  pub request_interval : ℕ
  pub schedule_presets_seconds : List ℕ

abbrev pub default_config : Config
default_config = record {
  automatic = false;
  startup_enabled = true;
  auto_resume_on_ac = true;
  battery_lockout = false;
  request_interval = automatic_request_interval;
  schedule_presets_seconds = factory_schedule_presets_seconds;
}

-- A reason why a text is no configuration.
abbrev pub Reason : Type 0
Reason = Text

unfoldable pub invalid_reason : Text → Reason
invalid_reason reason = truncate_utf8 reason max_config_error_bytes

-- `strip_prefix('[')` and `strip_suffix(']')`.
abbrev pub without_close : Text → Option Text
without_close [] = none
without_close (b ∷ []) = if b == 93 then some [] else none
without_close (b ∷ c ∷ s) = option_map (λ t. b ∷ t) (without_close (c ∷ s))

abbrev pub within_brackets : Text → Option Text
within_brackets [] = none
within_brackets (b ∷ s) = if b == 91 then without_close s else none

abbrev pub line_reason : ℕ → Text → Reason
line_reason line_number reason =
    invalid_reason (codes "line " ++ show line_number ++ codes ": " ++ reason)

unfoldable pub parse_preset : ℕ → List ℕ → Text → Result (List ℕ) Reason
parse_preset line_number presets element = do
  seconds ←
      ok_or (parse_unsigned 32 element)
        (line_reason line_number (codes "schedule preset must be an integer"))
  ensure (leb min_preset_seconds seconds && leb seconds max_preset_seconds)
      (line_reason line_number (codes "schedule preset out of bounds"))
  ensure (ltb (length presets) max_presets)
      (line_reason line_number (codes "schedule presets exceed maximum count"))
  ok (presets ++ seconds ∷ [])

-- Empty elements are passed over.
unfoldable pub parse_elements : ℕ → List ℕ → List Text → Result (List ℕ) Reason
parse_elements line_number presets [] = ok presets
parse_elements line_number presets (element ∷ more) = elim (is_empty (trim element)) [
  | true ↦ parse_elements line_number presets more
  | false ↦ parse_preset line_number presets (trim element) >>= λ longer.
      parse_elements line_number longer more
]

unfoldable pub parse_schedule_presets : Text → ℕ → Result (List ℕ) Reason
parse_schedule_presets value line_number = do
  inner ←
      ok_or (within_brackets value)
        (line_reason line_number (codes "schedule_presets_seconds must be an integer array"))
  presets ← parse_elements line_number [] (split (λ b. b == 44) inner)
  ensure (not (is_empty presets))
      (line_reason line_number (codes "schedule_presets_seconds must not be empty"))
  ok presets

unfoldable pub parse_bool : Text → Text → Result Bool Reason
parse_bool key value =
    if bytes_eq value (codes "true")
    then ok true
    else (if bytes_eq value (codes "false")
        then ok false
        else err (invalid_reason (codes "invalid " ++ key ++ codes " value " ++ value)))

-- The configuration so far, and whether the legacy interval was replaced.
abbrev pub Parsed : Type 0
Parsed = Result (Config × Bool) Reason

unfoldable pub parse_interval : Text → ℕ → Config × Bool → Parsed
parse_interval value line_number (config, migrated) = do
  interval ←
      ok_or (parse_unsigned 64 value)
        (invalid_reason (codes "invalid request interval on line " ++ show line_number))
  ok (
      if interval == legacy_one_millisecond_request_interval
      then (record config { request_interval = automatic_request_interval }, true)
      else (record config { request_interval = interval }, migrated))

unfoldable pub apply_key : Text → Text → ℕ → Config × Bool → Parsed
apply_key key value line_number (config, migrated) =
    if bytes_eq key (codes "automatic")
    then (parse_bool key value >>= λ b. ok (record config { automatic = b }, migrated))
    else (if bytes_eq key (codes "startup_enabled")
        then (parse_bool key value >>= λ b. ok (record config { startup_enabled = b }, migrated))
        else (if bytes_eq key (codes "auto_resume_on_ac")
            then (parse_bool key value >>= λ b.
                ok (record config { auto_resume_on_ac = b }, migrated))
            else (if bytes_eq key (codes "battery_lockout")
                then (parse_bool key value >>= λ b.
                    ok (record config { battery_lockout = b }, migrated))
                else (if bytes_eq key (codes "request_interval_hns")
                    then parse_interval value line_number (config, migrated)
                    else (if bytes_eq key (codes "schedule_presets_seconds")
                        then (parse_schedule_presets value line_number >>= λ presets.
                            ok (record config { schedule_presets_seconds = presets }, migrated))
                        else err (invalid_reason (codes "unknown configuration key " ++ key)))))))

abbrev pub line_error : ℕ → Text → Reason
line_error line_number what = invalid_reason (codes "line " ++ show line_number ++ what)

-- The keys seen so far, and what they have set.
abbrev pub Reading : Type 0
Reading = List Text × (Config × Bool)

unfoldable pub parse_entry : Text → ℕ → Reading → Result Reading Reason
parse_entry line line_number (seen_keys, so_far) = do
  (raw_key, raw_value) ←
      ok_or (split_once 61 line) (line_error line_number (codes " needs key = value"))
  let key = trim raw_key
  let value = trim raw_value
  ensure (leb (length key) max_config_key_bytes)
      (line_error line_number (codes " key exceeds maximum size"))
  ensure (leb (length value) max_config_value_bytes)
      (line_error line_number (codes " value exceeds maximum size"))
  ensure (not (any (bytes_eq key) seen_keys))
      (invalid_reason (codes "duplicate configuration key " ++ key))
  next ← apply_key key value line_number so_far
  ok (key ∷ seen_keys, next)

-- What stands before a comment.
abbrev pub first_of : List Text → Text
first_of [] = []
first_of (s ∷ more) = s

unfoldable pub parse_line : Text → ℕ → Reading → Result Reading Reason
parse_line raw line_number reading =
    let line = trim (first_of (split (λ b. b == 35) raw)) in
    ensure (leb (length raw) max_config_line_bytes)
      (line_error line_number (codes " exceeds maximum size"))
    >> (if is_empty line then ok reading else parse_entry line line_number reading)

unfoldable pub parse_lines : ℕ → List Text → Reading → Result Reading Reason
parse_lines line_number [] reading = ok reading
parse_lines line_number (raw ∷ more) reading =
    parse_line raw line_number reading >>= λ next. parse_lines (suc line_number) more next

unfoldable pub parse_with_migration : Text → Parsed
parse_with_migration text =
    ensure (leb (length text) max_config_file_bytes)
      (invalid_reason (codes "configuration file exceeds maximum size"))
    >> (parse_lines 1 (lines text) ([], (default_config, false)) >>= λ reading. ok reading.1)

abbrev pub show_bool : Bool → Text
show_bool true = codes "true"
show_bool false = codes "false"

-- `join(", ")` of the decimal forms.
abbrev pub joined : List ℕ → Text
joined [] = []
joined (n ∷ []) = show n
joined (n ∷ m ∷ ns) = show n ++ codes ", " ++ joined (m ∷ ns)

-- The text that `save_atomic` writes.
unfoldable pub config_text : Config → Text
config_text c =
    codes "automatic = "
    ++ show_bool c.automatic
    ++ codes "\nstartup_enabled = "
    ++ show_bool c.startup_enabled
    ++ codes "\nauto_resume_on_ac = "
    ++ show_bool c.auto_resume_on_ac
    ++ codes "\nbattery_lockout = "
    ++ show_bool c.battery_lockout
    ++ codes "\nrequest_interval_hns = "
    ++ show c.request_interval
    ++ codes "\nschedule_presets_seconds = ["
    ++ joined c.schedule_presets_seconds
    ++ codes "]\n"
