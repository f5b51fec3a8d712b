-- ===== src/Cli/Ends.antt =====
-- How the runs of apps/true-tick-cli/src/main.rs end.
use mathlib.Core.List.{append-nil}
use true_tick.Base.{
  ℕ, ◌↔◌, ◌≡◌, ◌⊎◌, inl, inr, refl, Bool, Option, none, some, List, [], ◌∷◌, ◌++◌, Result, ok, err,
  arith,
}
use true_tick.Base.Try.{Result-cases}
use true_tick.Base.Text.{Text, codes, show}
use true_tick.Ipc.{CommandVerb, IpcError}
use true_tick.Ipc.Response.{IpcResponse, encode_interval_payload}
use true_tick.Cli.{CliRequest}
use true_tick.Cli.Printed.{
  arguments, IsExpressible, arguments-NoRoot, extract_root-none, parse_args-arguments,
  extract_root-at,
}
use true_tick.Cli.Run.{
  with_token, when_connected, or_failed, client_exchange, exchange, token_path, read_token_file,
  RunError, failure, unreachable, exit_code, Machine, report_error, report_response, report_status,
  report, acquire_payload, run_logs, run_request, resolve_root, run, run_parsed, run_extracted,
  date_or_today, daily_log_path,
}

module _ {W : Type 0} (machine : Machine W) where
  abbrev pub IsUnreachable : Result IpcResponse RunError → Type 0
  IsUnreachable r = (message : Text) × (r ≡ err (unreachable message))

  response-code : (r : IpcResponse) → (report_response machine r).code ≡ 2 → ⊥
  unfolding report_response
  response-code (IpcResponse.status text) h = omega arith
  response-code (IpcResponse.acquired n) h = omega arith
  response-code IpcResponse.released h = omega arith
  response-code (IpcResponse.scheduled n) h = omega arith
  response-code IpcResponse.cancelled h = omega arith
  response-code (IpcResponse.error e) h = omega arith

  error-code : (e : RunError) → (report_error e).code ≡ 2 → IsUnreachable (err e)
  unfolding report_error exit_code
  error-code (failure message) h = absurd (omega arith)
  error-code (unreachable message) h = (message, refl)

  report-code : (r : Result IpcResponse RunError) → (report machine r).code ≡ 2 → IsUnreachable r
  report-code (ok response) h = absurd (response-code response h)
  report-code (err e) h = error-code e h

  status-code :
      (json : Bool) (r : Result IpcResponse RunError)
      → (report_status machine json r).code ≡ 2
      → IsUnreachable r
  unfolding report_status
  status-code json (ok (IpcResponse.status text)) h = absurd (omega arith)
  status-code json (ok (IpcResponse.acquired n)) h =
      absurd (response-code (IpcResponse.acquired n) h)
  status-code json (ok IpcResponse.released) h = absurd (response-code IpcResponse.released h)
  status-code json (ok (IpcResponse.scheduled n)) h =
      absurd (response-code (IpcResponse.scheduled n) h)
  status-code json (ok IpcResponse.cancelled) h = absurd (response-code IpcResponse.cancelled h)
  status-code json (ok (IpcResponse.error e)) h = absurd (response-code (IpcResponse.error e) h)
  status-code json (err e) h = error-code e h

  -- The session token under the root cannot be read, or else the pipe cannot be opened.
  abbrev pub CannotReach : Text → W → Type 0
  CannotReach root w =
      let file =
        machine.join (machine.join (machine.join root (codes "Data")) (codes "state"))
          (codes "ipc-token") in
      ((e : Text) × (read_token_file machine file w ≡ err e))
      ⊎ ((token : List ℕ) × (read_token_file machine file w ≡ ok token)
          × (e : Text) × ((machine.connect w).0 ≡ err e))

  -- The requests that are sent to the engine.
  abbrev pub IsSent : CliRequest → Type 0
  IsSent (CliRequest.status json) = Unit {0}
  IsSent (CliRequest.start none) = Unit {0}
  IsSent (CliRequest.start (some hns)) =
      (payload : List ℕ) × (encode_interval_payload hns ≡ ok payload)
  IsSent CliRequest.stop = Unit {0}
  IsSent (CliRequest.schedule kind seconds) = Unit {0}
  IsSent (CliRequest.cancel action_id) = Unit {0}
  IsSent CliRequest.daemon = ⊥
  IsSent (CliRequest.logs tail date) = ⊥
  IsSent CliRequest.help = ⊥
  IsSent CliRequest.version = ⊥

  -- The request is sent and cannot reach the engine, or starts the engine and ends with 2.
  abbrev pub EndsUnreachable : Text → CliRequest → W → Type 0
  EndsUnreachable root request w =
      (IsSent request × CannotReach root w)
      ⊎ ((request ≡ CliRequest.daemon) × ((machine.run_daemon root w).0.code ≡ 2))

  answered : (r : Result IpcResponse IpcError) → IsUnreachable (or_failed machine r) → ⊥
  answered (ok response) (message, h) = cc
  answered (err e) (message, h) = cc

  connected :
      (token : List ℕ) (verb : CommandVerb) (payload : List ℕ) (r : Result (Unit {0}) Text × W)
      → IsUnreachable (when_connected machine token verb payload r).0
      → (e : Text) × (r.0 ≡ err e)
  connected token verb payload (ok u, w) h =
      absurd (answered (client_exchange machine token verb payload w).0 h)
  connected token verb payload (err e, w) h = (e, refl)

  refused_connection :
      (token : List ℕ) (verb : CommandVerb) (payload : List ℕ) (r : Result (Unit {0}) Text × W)
      (e : Text)
      → r.0 ≡ err e
      → IsUnreachable (when_connected machine token verb payload r).0
  refused_connection token verb payload (ok u, w) e h = cc
  refused_connection token verb payload (err x, w) e h = (_, refl)

  -- An exchange is unreachable exactly when the token or the pipe fails.
  exchange-CannotReach :
      (root : Text) (verb : CommandVerb) (payload : List ℕ) (w : W)
      → IsUnreachable (exchange machine root verb payload w).0
      → CannotReach root w
  unfolding exchange
  exchange-CannotReach root verb payload w h =
      split (read_token_file machine (token_path machine root) w) refl h
    where
      split :
          (r : Result (List ℕ) Text)
          → read_token_file machine (token_path machine root) w ≡ r
          → IsUnreachable (with_token machine (token_path machine root) verb payload r w).0
          → CannotReach root w
      split (ok token) k h =
          let (e, c) = connected token verb payload (machine.connect w) h in inr (token, k, e, c)
      split (err e) k h = inl (e, k)

  CannotReach-exchange :
      (root : Text) (verb : CommandVerb) (payload : List ℕ) (w : W)
      → CannotReach root w
      → IsUnreachable (exchange machine root verb payload w).0
  unfolding exchange
  CannotReach-exchange root verb payload w (inl (e, k)) = rw k (_, refl)
  CannotReach-exchange root verb payload w (inr (token, k, e, c)) =
      rw k (refused_connection token verb payload (machine.connect w) e c)

  logs-code :
      (root : Text) (tail : ℕ) (date : Option Text) (w : W)
      → (run_logs machine root tail date w).code ≡ 2
      → ⊥
  unfolding run_logs
  logs-code root tail date w h =
      elim (Result-cases
        (machine.read_to_string (daily_log_path machine root (date_or_today machine date w)) w)) [
          | inl (text, e) ↦ ground (arith, h, e)
          | inr (message, e) ↦ ground (arith, h, e)
        ]

  -- An interval that cannot be encoded is no exchange.
  payload-code :
      (interval_hns : Option ℕ) (e : RunError)
      → acquire_payload machine interval_hns ≡ err e
      → (report_error e).code ≡ 2
      → ⊥
  unfolding acquire_payload report_error exit_code
  payload-code interval_hns (failure message) h k = omega arith
  payload-code none (unreachable message) h k = ground (arith, h)
  payload-code (some hns) (unreachable message) h k =
      elim (Result-cases (encode_interval_payload hns)) [
        | inl (payload, j) ↦ ground (arith, h, j)
        | inr (x, j) ↦ ground (arith, h, j)
      ]

  -- A report of what an exchange returned has the code 2 exactly when it is unreachable.
  unreachable-code :
      (r : Result IpcResponse RunError) → IsUnreachable r → (report machine r).code ≡ 2
  unfolding report_error exit_code
  unreachable-code r (message, h) = rw h refl

  unreachable-status :
      (json : Bool) (r : Result IpcResponse RunError)
      → IsUnreachable r
      → (report_status machine json r).code ≡ 2
  unfolding report_status report_error exit_code
  unreachable-status json r (message, h) = rw h refl

  start_payload :
      (interval_hns : Option ℕ)
      → (IsSent (CliRequest.start interval_hns)
          × (payload : List ℕ) × (acquire_payload machine interval_hns ≡ ok payload))
        ⊎ ((IsSent (CliRequest.start interval_hns) → ⊥)
            × (e : RunError) × (acquire_payload machine interval_hns ≡ err e))
  unfolding acquire_payload
  start_payload none = inl (tt, [], refl)
  start_payload (some hns) = elim (Result-cases (encode_interval_payload hns)) [
    | inl (payload, k) ↦ inl ((payload, k), payload, rw (acquire_payload, k) refl)
    | inr (e, k) ↦
        let message =
          codes "invalid --interval value " ++ show hns ++ codes ": " ++ machine.show_ipc e in
        inr (λ sent. ground (arith, sent.1, k), failure message, rw (acquire_payload, k) refl)
  ]

  -- The code of a request is 2 exactly when it ends unreachable.
  request-code :
      (root : Text) (request : CliRequest) (w : W)
      → (run_request machine root request w).0.code ≡ 2
      → EndsUnreachable root request w
  unfolding run_request report_error exit_code
  request-code root CliRequest.help w h = absurd (omega arith)
  request-code root CliRequest.version w h = absurd (omega arith)
  request-code root (CliRequest.logs tail date) w h = absurd (logs-code root tail date w h)
  request-code root CliRequest.daemon w h = inr (refl, h)
  request-code root (CliRequest.status json) w h =
      inl (tt, exchange-CannotReach root _ _ w (status-code json _ h))
  request-code root (CliRequest.start interval_hns) w h = elim (start_payload interval_hns) [
    | inl (sent, payload, k) ↦ inl (
      sent,
      exchange-CannotReach root CommandVerb.request_acquire payload w (
          report-code (exchange machine root CommandVerb.request_acquire payload w).0
            (ground (arith, h, k))),
    )
    | inr (unsent, e, k) ↦ absurd (payload-code interval_hns e k (ground (arith, h, k)))
  ]
  request-code root CliRequest.stop w h =
      inl (tt, exchange-CannotReach root _ _ w (report-code _ h))
  request-code root (CliRequest.schedule kind seconds) w h =
      inl (tt, exchange-CannotReach root _ _ w (report-code _ h))
  request-code root (CliRequest.cancel action_id) w h =
      inl (tt, exchange-CannotReach root _ _ w (report-code _ h))

  ends-code :
      (root : Text) (request : CliRequest) (w : W)
      → EndsUnreachable root request w
      → (run_request machine root request w).0.code ≡ 2
  unfolding run_request
  ends-code root request w (inr (starts, h)) = rw starts h
  ends-code root (CliRequest.status json) w (inl (sent, h)) =
      unreachable-status json _ (CannotReach-exchange root _ _ w h)
  ends-code root (CliRequest.start interval_hns) w (inl (sent, h)) =
      elim (start_payload interval_hns) [
        | inl (_, payload, k) ↦
            rw (run_request, k)
              (unreachable-code _
                (CannotReach-exchange root CommandVerb.request_acquire payload w h))
        | inr (unsent, e, k) ↦ absurd (unsent sent)
      ]
  ends-code root CliRequest.stop w (inl (sent, h)) =
      unreachable-code _ (CannotReach-exchange root _ _ w h)
  ends-code root (CliRequest.schedule kind seconds) w (inl (sent, h)) =
      unreachable-code _ (CannotReach-exchange root _ _ w h)
  ends-code root (CliRequest.cancel action_id) w (inl (sent, h)) =
      unreachable-code _ (CannotReach-exchange root _ _ w h)
  ends-code root CliRequest.daemon w (inl (sent, h)) = absurd sent
  ends-code root (CliRequest.logs tail date) w (inl (sent, h)) = absurd sent
  ends-code root CliRequest.help w (inl (sent, h)) = absurd sent
  ends-code root CliRequest.version w (inl (sent, h)) = absurd sent

  -- The arguments of a request, whose numbers fit their words and whose date has the shape of a
  -- date, run that request at the root beside the executable, and with the option for a root
  -- before or behind them at that root.
  pub run-arguments :
      (request : CliRequest) (root : Text) (w : W)
      → IsExpressible request
      → (run machine (arguments request) w
          ≡ run_request machine machine.executable_directory request w)
        × (run machine (codes "--root" ∷ root ∷ arguments request) w
            ≡ run_request machine root request w)
        × (run machine (arguments request ++ (codes "--root" ∷ root ∷ [])) w
            ≡ run_request machine root request w)
  unfolding run run_extracted run_parsed resolve_root
  run-arguments request root w h =
      let plain = arguments-NoRoot request h in
      let parsed = parse_args-arguments request h in
      (
        rw (extract_root-none (arguments request) plain, parsed) refl,
        rw (extract_root-at [] (arguments request) root tt plain, parsed) refl,
        rw
            (
              extract_root-at (arguments request) [] root plain tt,
              append-nil (arguments request),
              parsed,
            )
            refl,
      )

  -- The arguments of a request, whose numbers fit their words and whose date has the shape of a
  -- date, with the option for a root before them, end with the code 2 exactly when the request is
  -- sent to the engine, an interval that is given being valid, and under that root the session
  -- token cannot be read or else the pipe cannot be opened, or when the start of the engine at
  -- that root ends with the code 2; and so without the option, at the root beside the executable.
  pub run-unreachable :
      (request : CliRequest) (root : Text) (w : W)
      → IsExpressible request
      → (((run machine (codes "--root" ∷ root ∷ arguments request) w).0.code ≡ 2)
          ↔ EndsUnreachable root request w)
        × (((run machine (arguments request) w).0.code ≡ 2)
            ↔ EndsUnreachable machine.executable_directory request w)
  run-unreachable request root w h =
      let (beside, before, behind) = run-arguments request root w h in
      (
        rw before (request-code root request w, ends-code root request w),
        rw beside (
          request-code machine.executable_directory request w,
          ends-code machine.executable_directory request w,
        ),
      )
