-- ===== src/Tests/Shell.antt =====
-- The shutdown gate, the quit decision, the command queue and the power observation.
use true_tick.Base.{ℕ, ◌≡◌, ◌⊎◌, ◌≤◌, refl, true, false, ok, arith, List, [], ◌∷◌, ◌++◌, length}
use true_tick.App.Quit.{stopped}
use true_tick.App.CommandQueue.{
  push, pop, Served, idle, accepted, popped, Served-in_order, max_pending_ipc_commands,
}
use true_tick.Observation.{NativePower}
use true_tick.Base.Bytes.{IsByte}
use true_tick.Base.{some, All}
use true_tick.Ipc.{CommandVerb, request_release, cancel_schedule, verb_to_u32}
use true_tick.Ipc.Token.Matching.{IsToken}
use true_tick.Ipc.Frame.{IpcFrame, serialize, frame_body}
use true_tick.App.PipeServer.{
  Connection, Server, IpcCommandRequest, timed_out, handle_pipe_connection, same_request,
  forward_to_ui_thread,
}
use true_tick.App.PipeServer.Authorized.{
  IsRefusal, IsAuthorized, AreBytes, handle_pipe_connection-IsAuthorized,
}
use true_tick.App.PipeServer.Posting.{forward_to_ui_thread_drops}
use true_tick.Base.{Option, none}
use true_tick.App.Power.{
  wait_for_handoff, new_tracker, handoff_max_polls, completed, wait_for_handoff_bounded,
}
use true_tick.App.Power.HandoffProgress.{timed_out}

abbrev waiting : List ℕ
waiting = 7 ∷ []

abbrev taken : List ℕ
taken = 8 ∷ []

served : Served ℕ waiting taken waiting taken
unfolding push pop
served = accepted {q' = 7 ∷ 8 ∷ []} 8 refl (popped {q' = 8 ∷ []} 7 refl idle)

Served-in_order_example :
    (waiting ++ taken ≡ waiting ++ taken) × (length taken ≤ max_pending_ipc_commands)
Served-in_order_example = Served-in_order served (omega arith)

abbrev plugged_in : NativePower
plugged_in = ok (record { ac_line_status = 1; system_status_flag = 0 })

-- An authenticated release, on a server that has not seen the client.
abbrev session : List ℕ
session =
    1 ∷ 2 ∷ 3 ∷ 4 ∷ 5 ∷ 6 ∷ 7 ∷ 8 ∷ 9 ∷ 10 ∷ 11 ∷ 12 ∷ 13 ∷ 14 ∷ 15 ∷ 16 ∷ 17 ∷ 18 ∷ 19 ∷ 20 ∷ 21
    ∷ 22 ∷ 23 ∷ 24 ∷ 25 ∷ 26 ∷ 27 ∷ 28 ∷ 29 ∷ 30 ∷ 31 ∷ 32 ∷ []

session-IsToken : IsToken session
session-IsToken = record { size = refl; bytes_in_range = omega arith }

abbrev release_frame : IpcFrame
release_frame = record { token = session; verb = request_release; payload = [] }

abbrev client : Connection
client = record {
  connected = true;
  client_pid = some 7;
  poisoned = false;
  now = 3000000000;
  bytes_read = ok (serialize release_frame);
  status_text = [];
  teardown = false;
  posted = false;
  reply = timed_out;
}

client-AreBytes : AreBytes client
client-AreBytes bytes h =
    let same : serialize release_frame ≡ bytes = cc in rw same at serialize-IsByte
  where
    serialize-IsByte : All IsByte (serialize release_frame)
    serialize-IsByte = unfold serialize frame_body in omega arith

abbrev fresh_server : Server
fresh_server = record { limiter = record { records = [] }; queue = [] }

handle_pipe_connection-IsAuthorized_example :
    ((IsRefusal (handle_pipe_connection session client fresh_server).0)
      × ((handle_pipe_connection session client fresh_server).1.queue ≡ []))
    ⊎ IsAuthorized session client fresh_server
handle_pipe_connection-IsAuthorized_example =
    handle_pipe_connection-IsAuthorized session session-IsToken client client-AreBytes fresh_server

abbrev asked : CommandVerb → IpcCommandRequest
asked verb = record { verb = verb; payload = [] }

differs : All (λ r. same_request r (asked request_release) ≡ false) (asked cancel_schedule ∷ [])
unfolding verb_to_u32
differs = (refl, tt)

forward_to_ui_thread_drops_example :
    (forward_to_ui_thread (asked request_release) client (asked cancel_schedule ∷ [])).1 ≡ []
forward_to_ui_thread_drops_example =
    forward_to_ui_thread_drops (asked request_release) client (asked cancel_schedule ∷ []) refl refl
      (omega arith) differs

abbrev readings : List (Option ℕ)
readings = some 5000 ∷ none ∷ some 156250 ∷ []

wait_for_handoff_bounded_example :
    ((wait_for_handoff readings (new_tracker 10000 stopped)).1 ≤ handoff_max_polls)
    × (handoff_max_polls ≤ length readings
        → ((wait_for_handoff readings (new_tracker 10000 stopped)).0 ≡ completed)
          ⊎ ((wait_for_handoff readings (new_tracker 10000 stopped)).0 ≡ timed_out))
wait_for_handoff_bounded_example = wait_for_handoff_bounded readings 10000 stopped
