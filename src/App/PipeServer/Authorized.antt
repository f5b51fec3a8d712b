-- ===== src/App/PipeServer/Authorized.antt =====
-- What apps/true-tick/src/tray/ipc.rs does for whom.
use true_tick.Base.{
  ℕ, ◌≡◌, ◌∙◌, ◌⊎◌, inl, inr, refl, ap, true, false, not, List, Option, none, some, Result, ok, err,
  if◌then◌else◌, Bool-cases, All, Option-cases,
}
use true_tick.Base.Bytes.{IsByte}
use true_tick.Base.Int.{pos}
use true_tick.Ipc.{IpcError, transport_io}
use true_tick.Ipc.Frame.{IpcFrame, deserialize}
use true_tick.Ipc.Frame.Canonical.{serialize-deserialize}
use true_tick.Ipc.Token.{matches}
use true_tick.Ipc.Token.Matching.{IsToken, matches_iff}
use true_tick.Ipc.Response.{IpcResponse, error}
use true_tick.Ipc.RateLimit.{check_and_record}
use true_tick.App.PipeServer.{
  Connection, Server, read_frame, serve_frame, serve_admitted, serve_client, handle_pipe_connection,
}

-- A refusal: no reply, or an error.
abbrev pub IsRefusal : Option IpcResponse → Type 0
IsRefusal reply = (reply ≡ none) ⊎ ((e : IpcError) × (reply ≡ some (error e)))

-- The client has its request admitted and sent a frame with the session token.
unfoldable pub IsAuthorized : List ℕ → Connection → Server → Type 0
IsAuthorized session_token c server =
    (pid : ℕ) × (bytes : List ℕ) × (frame : IpcFrame) × (c.connected ≡ true)
    × (c.client_pid ≡ some pid)
    × ((check_and_record pid c.now server.limiter).0 ≡ ok tt)
    × (c.bytes_read ≡ ok bytes)
    × (deserialize bytes ≡ ok frame)
    × (frame.token ≡ session_token)

HasRead : List ℕ → Connection → Type 0
HasRead session_token c =
    (bytes : List ℕ) × (frame : IpcFrame) × (c.bytes_read ≡ ok bytes)
    × (deserialize bytes ≡ ok frame)
    × (frame.token ≡ session_token)

-- The bytes of the pipe are bytes.
abbrev pub AreBytes : Connection → Type 0
AreBytes c = (bytes : List ℕ) → c.bytes_read ≡ ok bytes → All IsByte bytes

Result-cases {ℓ κ} :
    {A : Type ℓ} {E : Type κ} (r : Result A E) → ((a : A) × (r ≡ ok a)) ⊎ ((e : E) × (r ≡ err e))
Result-cases (ok a) = inl (a, refl)
Result-cases (err e) = inr (e, refl)

frame-IsToken :
    (bytes : List ℕ) (frame : IpcFrame)
    → All IsByte bytes
    → deserialize bytes ≡ ok frame
    → IsToken frame.token
frame-IsToken bytes frame all h =
    let (_, formed) = serialize-deserialize bytes frame all h in
    record { size = formed.token_length; bytes_in_range = formed.token_bytes }

module _ (session_token : List ℕ) (is_token : IsToken session_token) (c : Connection)
    (all : AreBytes c) where
  serve_frame-HasRead :
      (server : Server)
      → ((IsRefusal (serve_frame session_token c server (read_frame c)).0)
          × ((serve_frame session_token c server (read_frame c)).1.queue ≡ server.queue))
        ⊎ HasRead session_token c
  unfolding read_frame serve_frame HasRead
  serve_frame-HasRead server = elim (Result-cases c.bytes_read) [
    | inr (e, q) ↦ inl (rw q (inr (e, refl), refl))
    | inl (bytes, q) ↦ elim (Result-cases (deserialize bytes)) [
      | inr (e, d) ↦ inl (rw (q, d) (inr (e, refl), refl))
      | inl (frame, d) ↦ elim (Bool-cases (matches frame.token session_token)) [
        | inr m ↦ inl (rw (q, d, m) (inr (_, refl), refl))
        | inl m ↦
            let token = frame-IsToken bytes frame (all bytes q) d in
            inr (bytes, frame, q, d, (matches_iff frame.token session_token token is_token).0 m)
      ]
    ]
  ]

  -- The server once the limiter has admitted the request.
  abbrev admitted : ℕ → Server → Server
  admitted pid server = record {
    limiter = (check_and_record pid c.now server.limiter).1;
    queue = server.queue;
  }

  handle-admitted :
      (server : Server) (pid : ℕ)
      → c.connected ≡ true
      → c.client_pid ≡ some pid
      → c.poisoned ≡ false
      → (check_and_record pid c.now server.limiter).0 ≡ ok tt
      → handle_pipe_connection session_token c server
        ≡ serve_frame session_token c (admitted pid server) (read_frame c)
  unfolding handle_pipe_connection serve_client serve_admitted
  handle-admitted server pid e p z k =
      ap (λ b. if not b then (none, server) else serve_client session_token c server c.client_pid) e
      ∙ ap (λ o. serve_client session_token c server o) p
      ∙ ap
          (λ b.
            if b
            then (some (error (transport_io (pos 13))), server)
            else serve_admitted session_token c (admitted pid server)
                (check_and_record pid c.now server.limiter).0)
          z
      ∙ ap (λ r. serve_admitted session_token c (admitted pid server) r) k

  to_frame :
      (server : Server) (pid : ℕ)
      → c.connected ≡ true
      → c.client_pid ≡ some pid
      → c.poisoned ≡ false
      → (check_and_record pid c.now server.limiter).0 ≡ ok tt
      → IsRefusal (serve_frame session_token c (admitted pid server) (read_frame c)).0
        × ((serve_frame session_token c (admitted pid server) (read_frame c)).1.queue
            ≡ server.queue)
      → IsRefusal (handle_pipe_connection session_token c server).0
        × ((handle_pipe_connection session_token c server).1.queue ≡ server.queue)
  to_frame server pid e p z k refused = rw (handle-admitted server pid e p z k) refused

  -- Where the session token has 32 bytes and the pipe yields bytes, a connection is refused
  -- without a change of the queue, by no reply or an error, or else its client connected, is known
  -- and was admitted by the limiter, and the bytes it sent are a frame with exactly the session
  -- token.
  pub handle_pipe_connection-IsAuthorized :
      (server : Server)
      → ((IsRefusal (handle_pipe_connection session_token c server).0)
          × ((handle_pipe_connection session_token c server).1.queue ≡ server.queue))
        ⊎ IsAuthorized session_token c server
  unfolding handle_pipe_connection serve_client serve_admitted IsAuthorized HasRead
  handle_pipe_connection-IsAuthorized server = elim (Bool-cases c.connected) [
    | inr e ↦ inl (rw e (inl refl, refl))
    | inl e ↦ elim (Option-cases c.client_pid) [
      | inl p ↦ inl (rw (e, p) (inr (_, refl), refl))
      | inr (pid, p) ↦ elim (Bool-cases c.poisoned) [
        | inl z ↦ inl (rw (e, p, z) (inr (_, refl), refl))
        | inr z ↦ elim (Result-cases (check_and_record pid c.now server.limiter).0) [
          | inr (x, k) ↦ inl (rw (e, p, z, k) (inr (x, refl), refl))
          | inl (u, k) ↦
              elim (serve_frame-HasRead (record {
                limiter = (check_and_record pid c.now server.limiter).1;
                queue = server.queue;
              })) [
                | inl refused ↦ inl (to_frame server pid e p z k refused)
                | inr (bytes, frame, q, d, t) ↦ inr (pid, bytes, frame, e, p, k, q, d, t)
              ]
        ]
      ]
    ]
  ]
