-- ===== src/Tests/Command.antt =====
-- The command line client at concrete inputs.
use true_tick.Base.{◌↔◌, ok, ◌≡◌, ◌<◌, ◌^◌, refl, true, some, [], ◌∷◌, ◌++◌, err, arith}
use true_tick.Base.Text.{codes}
use true_tick.Cli.{CliRequest, valid_log_date}
use true_tick.Cli.Printed.{arguments}
use true_tick.Cli.Json.{json_string}
use true_tick.Cli.Json.Read.{read_string, read_string-json_string}
use true_tick.Cli.Run.{Machine, run, run_request}
use true_tick.Cli.Ends.{EndsUnreachable, run-unreachable, run-arguments}

-- A machine without a running engine.
abbrev stopped : Machine (Unit {0})
stopped = record {
  connect = λ w. (err (codes "no pipe"), w);
  call = λ bytes w. (ok [], w);
  join = λ s t. s ++ codes "/" ++ t;
  read_to_string = λ path w. err (codes "no log");
  run_daemon = λ root w. (record { out = []; errors = []; code = 0 }, w);
  utc_date_today = λ w. codes "2026-01-02";
  executable_directory = codes "/b";
  usage = codes "usage";
  show_ipc = λ e. [];
}

run-unreachable_example :
    (((run stopped (codes "--root" ∷ codes "/c" ∷ arguments CliRequest.stop) tt).0.code ≡ 2)
      ↔ EndsUnreachable stopped (codes "/c") CliRequest.stop tt)
    × (((run stopped (arguments CliRequest.stop) tt).0.code ≡ 2)
        ↔ EndsUnreachable stopped (codes "/b") CliRequest.stop tt)
run-unreachable_example = run-unreachable stopped CliRequest.stop (codes "/c") tt tt

abbrev some_logs : CliRequest
some_logs = CliRequest.logs 5 (some (codes "2026-01-02"))

dated_logs : (5 < 2 ^ 64) × (valid_log_date (codes "2026-01-02") ≡ true)
unfolding valid_log_date
dated_logs = (omega arith, refl)

run-arguments_example :
    (run stopped (arguments some_logs) tt ≡ run_request stopped (codes "/b") some_logs tt)
    × (run stopped (codes "--root" ∷ codes "/c" ∷ arguments some_logs) tt
        ≡ run_request stopped (codes "/c") some_logs tt)
    × (run stopped (arguments some_logs ++ (codes "--root" ∷ codes "/c" ∷ [])) tt
        ≡ run_request stopped (codes "/c") some_logs tt)
run-arguments_example = run-arguments stopped some_logs (codes "/c") tt dated_logs

read_string-json_string_example :
    read_string (json_string (34 ∷ 7 ∷ []) ++ codes "}") ≡ some (34 ∷ 7 ∷ [], codes "}")
read_string-json_string_example = read_string-json_string (34 ∷ 7 ∷ []) (codes "}")
