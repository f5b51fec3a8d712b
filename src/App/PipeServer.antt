-- ===== src/App/PipeServer.antt =====
-- One connection to the pipe server of apps/true-tick/src/tray/ipc.rs, from the rate limit to the
-- reply, over what the pipe, the clock, the UI thread and the window message yield. The handler
-- works on the limiter and the queue that all connections share.
pub mod Authorized
pub mod Posting
use true_tick.Base.{
  ℕ, ◌+◌, ◌-◌, Bool, true, false, not, ◌&&◌, List, [], ◌∷◌, Option, none, some, Result, ok, err,
  ◌==◌, if◌then◌else◌, length, is_empty,
}
use true_tick.Base.Int.{pos, negsuc}
use true_tick.Base.Bytes.{from_le_bytes, slice, bytes_eq}
use true_tick.Ipc.{
  CommandVerb, query_status, request_acquire, request_release, schedule_action, cancel_schedule,
  IpcError, payload_truncated, transport_io, unauthorized_token, validate_interval_hns, verb_to_u32,
}
use true_tick.Ipc.Frame.{IpcFrame, deserialize}
use true_tick.Ipc.Token.{matches}
use true_tick.Ipc.Response.{IpcResponse, status, acquired, scheduled, error}
use true_tick.Ipc.RateLimit.{Instant, PidRateLimiter, check_and_record}
use true_tick.App.CommandQueue.{push}

-- The request without its responder, which only carries the reply back.
pub record IpcCommandRequest : Type 0 where
  pub verb : CommandVerb
  pub payload : List ℕ

pub data Reply : Type 0 where
  answered : IpcResponse → Reply
  timed_out disconnected : Reply

-- What a connection meets: whether the client connected, its process id, whether the limiter's
-- mutex is poisoned, the clock, the bytes that the pipe yields, the text of the status, the teardown
-- flag, whether the window message was posted, and what comes back from the UI thread.
pub record Connection : Type 0 where
  pub connected : Bool
  pub client_pid : Option ℕ
  pub poisoned : Bool
  pub now : Instant
  pub bytes_read : Result (List ℕ) IpcError
  pub status_text : List ℕ
  pub teardown : Bool
  pub posted : Bool
  pub reply : Reply

pub record Server : Type 0 where
  pub limiter : PidRateLimiter
  pub queue : List IpcCommandRequest

abbrev wait_timeout_error : IpcError
wait_timeout_error = transport_io (pos 258)

unfoldable pub handle_request_acquire : List ℕ → IpcResponse
handle_request_acquire payload =
    if is_empty payload
    then acquired 0
    else if not (length payload == 8)
    then error payload_truncated
    else elim (validate_interval_hns (from_le_bytes payload)) [
      | ok hns ↦ acquired hns
      | err e ↦ error e
    ]

unfoldable pub handle_schedule_action : List ℕ → IpcResponse
handle_schedule_action payload =
    if not (length payload == 5)
    then error payload_truncated
    else scheduled (from_le_bytes (slice 1 5 payload))

abbrev pub same_request : IpcCommandRequest → IpcCommandRequest → Bool
same_request r q = verb_to_u32 r.verb == verb_to_u32 q.verb && bytes_eq r.payload q.payload

-- The loop that takes the request out again, with those before it.
unfoldable pub pop_until : IpcCommandRequest → List IpcCommandRequest → List IpcCommandRequest
pop_until request [] = []
pop_until request (r ∷ queue) = if same_request r request then queue else pop_until request queue

unfoldable pub reply_of : Reply → IpcResponse
reply_of (answered response) = response
reply_of timed_out = error wait_timeout_error
reply_of disconnected = error (transport_io (negsuc 0))

unfoldable pub forward_to_ui_thread :
    IpcCommandRequest → Connection → List IpcCommandRequest → IpcResponse × List IpcCommandRequest
forward_to_ui_thread request c queue =
    if c.teardown
    then (error wait_timeout_error, queue)
    else (let (enqueued, queue') = push request queue in
        if not enqueued
        then (error wait_timeout_error, queue')
        else if not c.posted
        then (error (transport_io (negsuc 0)), pop_until request queue')
        else (reply_of c.reply, queue'))

-- The early validation, then the UI thread.
unfoldable pub forward_valid :
    IpcResponse
    → IpcCommandRequest
    → Connection
    → List IpcCommandRequest
    → IpcResponse × List IpcCommandRequest
forward_valid (error e) request c queue = (error e, queue)
forward_valid (status text) request c queue = forward_to_ui_thread request c queue
forward_valid (acquired effective_hns) request c queue = forward_to_ui_thread request c queue
forward_valid IpcResponse.released request c queue = forward_to_ui_thread request c queue
forward_valid (scheduled action_id) request c queue = forward_to_ui_thread request c queue
forward_valid IpcResponse.cancelled request c queue = forward_to_ui_thread request c queue

unfoldable pub dispatch_verb :
    CommandVerb
    → List ℕ
    → Connection
    → List IpcCommandRequest
    → IpcResponse × List IpcCommandRequest
dispatch_verb query_status payload c queue = (status c.status_text, queue)
dispatch_verb request_acquire payload c queue =
    forward_valid (handle_request_acquire payload)
      (record { verb = request_acquire; payload = payload }) c queue
dispatch_verb request_release payload c queue =
    forward_to_ui_thread (record { verb = request_release; payload = payload }) c queue
dispatch_verb schedule_action payload c queue =
    forward_valid (handle_schedule_action payload)
      (record { verb = schedule_action; payload = payload }) c queue
dispatch_verb cancel_schedule payload c queue =
    forward_to_ui_thread (record { verb = cancel_schedule; payload = payload }) c queue

unfoldable pub read_frame : Connection → Result IpcFrame IpcError
read_frame c = elim c.bytes_read [ ok bytes ↦ deserialize bytes | err e ↦ err e ]

-- What follows the read.
unfoldable pub serve_frame :
    List ℕ → Connection → Server → Result IpcFrame IpcError → Option IpcResponse × Server
serve_frame session_token c server (err e) = (some (error e), server)
serve_frame session_token c server (ok frame) =
    if not (matches frame.token session_token)
    then (some (error unauthorized_token), server)
    else (let (response, queue) = dispatch_verb frame.verb frame.payload c server.queue in
        (some response, record { limiter = server.limiter; queue = queue }))

-- What follows the rate limit.
unfoldable pub serve_admitted :
    List ℕ → Connection → Server → Result (Unit {0}) IpcError → Option IpcResponse × Server
serve_admitted session_token c server (err e) = (some (error e), server)
serve_admitted session_token c server (ok u) = serve_frame session_token c server (read_frame c)

unfoldable pub serve_client : List ℕ → Connection → Server → Option ℕ → Option IpcResponse × Server
serve_client session_token c server none = (some (error unauthorized_token), server)
serve_client session_token c server (some pid) =
    if c.poisoned
    then (some (error (transport_io (pos 13))), server)
    else (let (result, limiter) = check_and_record pid c.now server.limiter in
        serve_admitted session_token c (record { limiter = limiter; queue = server.queue }) result)

unfoldable pub handle_pipe_connection : List ℕ → Connection → Server → Option IpcResponse × Server
handle_pipe_connection session_token c server =
    if not c.connected then (none, server) else serve_client session_token c server c.client_pid
