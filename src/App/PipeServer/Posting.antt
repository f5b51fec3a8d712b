-- ===== src/App/PipeServer/Posting.antt =====
-- `forward_to_ui_thread` of apps/true-tick/src/tray/ipc.rs where the window message is not posted.
use true_tick.Base.{◌<◌, ◌≡◌, true, false, List, [], ◌∷◌, ◌++◌, arith, length, All, leb}
use true_tick.Base.Bytes.{bytes_eq_self}
use true_tick.App.CommandQueue.{push, max_pending_ipc_commands}
use true_tick.App.PipeServer.{
  Connection, IpcCommandRequest, same_request, pop_until, forward_to_ui_thread,
}

same_request_self : (r : IpcCommandRequest) → same_request r r ≡ true
same_request_self r = rw (bytes_eq_self r.payload) (ground arith)

pop_until-append :
    (request : IpcCommandRequest) (queue : List IpcCommandRequest)
    → All (λ r. same_request r request ≡ false) queue
    → pop_until request (queue ++ request ∷ []) ≡ []
unfolding pop_until
pop_until-append request [] h = rw (same_request_self request)
pop_until-append request (r ∷ queue) h = rw h.0 (pop_until-append request queue h.1)

-- Outside a teardown, where the queue has room, no request that waits in it has the verb and the
-- payload of the new one, and the window message cannot be posted, the requests that wait are
-- dropped with the one just pushed: the queue is left empty.
pub forward_to_ui_thread_drops :
    (request : IpcCommandRequest) (c : Connection) (queue : List IpcCommandRequest)
    → c.teardown ≡ false
    → c.posted ≡ false
    → length queue < max_pending_ipc_commands
    → All (λ r. same_request r request ≡ false) queue
    → (forward_to_ui_thread request c queue).1 ≡ []
unfolding forward_to_ui_thread push
forward_to_ui_thread_drops request c queue t p room others =
    let free : leb max_pending_ipc_commands (length queue) ≡ false = ground (arith, room) in
    rw (t, p, free) (pop_until-append request queue others)
