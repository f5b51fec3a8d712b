-- ===== src/App/CommandQueue.antt =====
-- `IpcCommandQueue` of apps/true-tick/src/tray/ipc_queue.rs. The mutex makes each operation one
-- step, so that any interleaving of the two threads is a sequence of operations.
use mathlib.Core.List.{append_assoc, append-nil}
use true_tick.Base.{
  ℕ, ◌≤◌, ◌≡◌, Bool, true, false, List, [], ◌∷◌, ◌++◌, Option, none, some, leb, if◌then◌else◌,
  arith, length, length-append, Bool-cases, inl, inr, leb-false, ap, sym, ◌∙◌,
}

abbrev pub max_pending_ipc_commands : ℕ
max_pending_ipc_commands = 64

module _ {ℓ} {Request : Type ℓ} where
  unfoldable pub push : Request → List Request → Bool × List Request
  push request queue =
      if leb max_pending_ipc_commands (length queue)
      then (false, queue)
      else (true, queue ++ request ∷ [])

  unfoldable pub pop : List Request → Option Request × List Request
  pop [] = (none, [])
  pop (r ∷ queue) = (some r, queue)

-- From one queue to another, with the requests accepted and those popped, in their order.
pub data Served {ℓ} (Request : Type ℓ)
    : List Request → List Request → List Request → List Request → Type ℓ where
  idle : {queue : List Request} → Served Request queue [] [] queue
  accepted :
      {queue q' taken given end : List Request} (r : Request)
      → push r queue ≡ (true, q')
      → Served Request q' taken given end
      → Served Request queue (r ∷ taken) given end
  rejected :
      {queue q' taken given end : List Request} (r : Request)
      → push r queue ≡ (false, q')
      → Served Request q' taken given end
      → Served Request queue taken given end
  popped :
      {queue q' taken given end : List Request} (r : Request)
      → pop queue ≡ (some r, q')
      → Served Request q' taken given end
      → Served Request queue taken (r ∷ given) end
  found_empty :
      {queue q' taken given end : List Request}
      → pop queue ≡ (none, q')
      → Served Request q' taken given end
      → Served Request queue taken given end

module _ {ℓ} {Request : Type ℓ} where
  push-accepted :
      (r : Request) (queue q' : List Request)
      → push r queue ≡ (true, q')
      → (q' ≡ queue ++ r ∷ []) × (length q' ≤ 64)
  unfolding push
  push-accepted r queue q' h = elim (Bool-cases (leb max_pending_ipc_commands (length queue))) [
    | inl e ↦ ground (arith, e, h)
    | inr e ↦
        let same : q' ≡ queue ++ r ∷ [] = ground (arith, e, h) in
        let room = leb-false max_pending_ipc_commands (length queue) e in
        (same, omega (arith, ap length same, length-append queue (r ∷ [])))
  ]

  push-rejected : (r : Request) (queue q' : List Request) → push r queue ≡ (false, q') → q' ≡ queue
  unfolding push
  push-rejected r queue q' h = ground (arith, h)

  pop-some : (r : Request) (queue q' : List Request) → pop queue ≡ (some r, q') → queue ≡ r ∷ q'
  unfolding pop
  pop-some r [] q' h = ground (arith, h)
  pop-some r (x ∷ queue) q' h = ground (arith, h)

  pop-none : (queue q' : List Request) → pop queue ≡ (none, q') → queue ≡ q'
  unfolding pop
  pop-none [] q' h = ground (arith, h)
  pop-none (x ∷ queue) q' h = ground (arith, h)

  -- Over any interleaving of pushes and pops, on a queue of at most 64 requests, the requests
  -- waiting and then accepted are those popped and then left, in order, and at most 64 are left.
  pub Served-in_order :
      {queue taken given end : List Request}
      → Served Request queue taken given end
      → length queue ≤ max_pending_ipc_commands
      → (queue ++ taken ≡ given ++ end) × (length end ≤ max_pending_ipc_commands)
  Served-in_order idle h = (append-nil _, h)
  Served-in_order (accepted {queue = queue} {q' = q'} {taken = taken} r pushed rest) h =
      let (same, room) = push-accepted r queue q' pushed in
      let (order, bound) = Served-in_order rest room in
      (sym (append_assoc queue (r ∷ []) taken) ∙ ap (λ q. q ++ taken) (sym same) ∙ order, bound)
  Served-in_order (rejected {queue = queue} {q' = q'} r pushed rest) h =
      let same = push-rejected r queue q' pushed in rw same at (Served-in_order rest (rw same h))
  Served-in_order (popped {queue = queue} {q' = q'} r taken_out rest) h =
      let same = pop-some r queue q' taken_out in
      let (order, bound) = Served-in_order rest (omega (arith, ap length same)) in
      (rw same (ap (λ t. r ∷ t) order), bound)
  Served-in_order (found_empty {queue = queue} {q' = q'} nothing rest) h =
      let same = pop-none queue q' nothing in
      let (order, bound) = Served-in_order rest (rw (← same) h) in (rw same order, bound)
