-- ===== src/Launcher/Run.antt =====
-- apps/launcher/src/main.rs: the run of the launcher. The start of a process is a call of the
-- operating system, and so is the message box, which only shows the error that a run returns.
use true_tick.Base.{
  ℕ, ◌≡◌, ap, sym, ◌∙◌, List, [], ◌∷◌, ◌++◌, Result, ok, err, Method, done, ◌>>=◌, ◌>>◌, method_inv,
  ◌⊎◌, arith,
}
use true_tick.Base.Try.{ok_inj}
use true_tick.Base.Text.{Text, codes}
use true_tick.Launcher.{Slot, slot_name, RelPath, Host, describe}
use true_tick.Launcher.Slots.{executable_path}
use true_tick.Launcher.Launched.{IsSigned, IsListed}
use true_tick.Launcher.Selection.{select}
use true_tick.Launcher.Selected.{select-IsLaunchable}

-- The root of the package as a text, and the start of a program with arguments.
pub record Shell (W : Type 0) : Type 0 where
  pub host : Host W
  pub root : Text
  pub spawn : RelPath → List Text → Method W (Unit {0}) Text

module _ {W : Type 0} (shell : Shell W) where
  unfoldable pub repair_reason : Text → Text
  repair_reason cause =
      codes "True"
      ++ 226 ∷ 132 ∷ 162 ∷ []
      ++ codes " Tick launcher repair required: "
      ++ cause
      ++ codes "\n\nPackage root: "
      ++ shell.root

  abbrev pub Running {ℓ} : Type ℓ → Type ℓ
  Running A = Method W A Text

  -- The error of a call, as the reason of a repair.
  abbrev pub repairing {ℓ κ} : {A : Type ℓ} {E : Type κ} → (E → Text) → Method W A E → Running A
  repairing cause m w =
      let (r, v) = m w in elim r [ ok a ↦ (ok a, v) | err e ↦ (err (repair_reason (cause e)), v) ]

  abbrev pub not_launched : Slot → Text → Text
  not_launched slot e =
      codes "selected slot " ++ slot_name slot ++ codes " could not be launched: " ++ e

  unfoldable pub launch : List Text → Slot × RelPath → Running ℕ
  launch arguments (slot, executable) =
      repairing (not_launched slot) (shell.spawn executable arguments) >> done (ok 0)

  unfoldable pub run : List Text → Running ℕ
  run arguments = repairing (describe shell.host) (select shell.host) >>= launch arguments

  unfoldable pub exit_code : Result ℕ Text → ℕ
  exit_code (ok code) = code
  exit_code (err e) = 1

  repaired :
      {A E : Type 0} (cause : E → Text) (m : Method W A E) (w v : W) (a : A)
      → repairing cause m w ≡ (ok a, v)
      → m w ≡ (ok a, v)
  repaired cause m w v a h = told (m w) h
    where
      told :
          (r : Result _ _ × W)
          → ◌≡◌ {A = Result _ Text × W}
              (elim r.0 [ ok b ↦ (ok b, r.1) | err e ↦ (err (repair_reason (cause e)), r.1) ])
              (ok a, v)
          → r ≡ (ok a, v)
      told (ok b, t) e = cc
      told (err x, t) e = ground (arith, ap (λ r. r.0) e)

  -- A run of the launcher that ends without an error has started, with its own arguments, the
  -- executable of a slot that was verified: with the files as they stood at some moment either a
  -- signed manifest, verified with the trust anchor and not older than the release seen, has the
  -- digest of its bytes, or there is no signed manifest and the list of checksums has it; the code
  -- is 0.
  pub run-started :
      (arguments : List Text) (w v : W) (code : ℕ)
      → run arguments w ≡ (ok code, v)
      → (slot : Slot) × (exe : RelPath) × (t : W) × (u : W) × (exe ≡ executable_path slot)
        × (IsSigned shell.host slot t ⊎ IsListed shell.host slot t)
        × (shell.spawn exe arguments u ≡ (ok tt, v))
        × (code ≡ 0)
  unfolding run launch
  run-started arguments w v code h =
      let ((slot, exe), u, chosen, h1) =
        method_inv (repairing (describe shell.host) (select shell.host)) (launch arguments) w h in
      let (path, t, verified) =
        select-IsLaunchable shell.host w u slot exe
          (repaired _ (select shell.host) w u (slot, exe) chosen) in
      let (a, s, started, h2) =
        method_inv (repairing (not_launched slot) (shell.spawn exe arguments)) (λ x. done (ok 0)) u
          h1 in
      let same : s ≡ v = ap (λ r. r.1) h2 in
      let finished : 0 ≡ code = ok_inj (ap (λ r. r.0) h2) in
      let spawned = repaired (not_launched slot) (shell.spawn exe arguments) u s tt started in
      (slot, exe, t, u, path, verified, spawned ∙ ap (λ w. (ok tt, w)) same, sym finished)
