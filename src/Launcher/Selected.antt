-- ===== src/Launcher/Selected.antt =====
-- Every slot that the selection of apps/launcher/src/main.rs returns has been verified.
use true_tick.Base.{
  ℕ, ◌≡◌, refl, Option, Result, ok, err, inl, inr, ap, method_inv, done, ◌>>=◌, ◌>>◌, Bool-cases,
  sym, ◌∙◌, subst, ◌⊎◌,
}
use true_tick.Base.Try.{ok_inj, Result-cases}
use true_tick.Launcher.{
  Slot, slot_a, slot_b, alternate, RelPath, SelectionError, Host, map_err, metadata_read,
  both_slots_corrupted, describe,
}
use true_tick.Launcher.Slots.{executable_path, verify_slot_executable}
use true_tick.Launcher.Launched.{
  IsLaunchable, IsSigned, IsListed, verify_slot_executable-IsVerified,
  verify_and_check-IsLaunchable,
}
use true_tick.Launcher.Selection.{
  Launch, reading, clear_slot_health, commit_release_counter, increment_slot_health,
  record_rollback_decision, record_golden_master_restoration, write_active_slot,
  restore_from_golden_master, or_corrupted, select, select_active, select_standby,
  select_golden_master, verify_and_check_slot, active_slot, active_slot_path, is_health_failure,
  install_golden_master, finish_restoration, commit_slot,
}

module _ {W : Type 0} (host : Host W) where
  restored-IsLaunchable :
      (w v : W) (exe : RelPath) (pending : Option ℕ)
      → restore_from_golden_master host w ≡ (ok (exe, pending), v)
      → IsLaunchable host slot_a exe
  unfolding restore_from_golden_master finish_restoration
  restored-IsLaunchable w v exe pending h =
      let verify = reading host (verify_slot_executable host slot_a) in
      let (a, u, installed, h1) =
        method_inv (install_golden_master host) (λ _. verify >>= finish_restoration host) w h in
      let ((found, p), t, verified, h2) = method_inv verify (finish_restoration host) u h1 in
      let (same, by) =
        verify_slot_executable-IsVerified host slot_a u found p (ap (λ r. r.0) verified) in
      let last : Launch host (RelPath × Option ℕ) = done (ok (executable_path slot_a, p)) in
      let (b, t1, recorded, h3) =
        method_inv (record_golden_master_restoration host slot_a)
          (λ _. write_active_slot host slot_a >> last) t h2 in
      let (c, t2, written, h4) = method_inv (write_active_slot host slot_a) (λ _. last) t1 h3 in
      let path : executable_path slot_a ≡ exe = ap (λ r. r.0) (ok_inj (ap (λ r. r.0) h4)) in
      (sym path, u, by)

  done-same :
      (slot chosen : Slot) (found exe : RelPath) (w v : W)
      → ◌≡◌ {A = Result (Slot × RelPath) SelectionError × W}
          (ok (slot, found), w)
          (ok (chosen, exe), v)
      → (chosen ≡ slot) × (exe ≡ found)
  done-same slot chosen found exe w v h =
      let same = ok_inj (ap (λ r. r.0) h) in (sym (ap (λ p. p.0) same), sym (ap (λ p. p.1) same))

  commit_slot-same :
      (slot chosen : Slot) (found exe : RelPath) (pending : Option ℕ) (w v : W)
      → commit_slot host slot (found, pending) w ≡ (ok (chosen, exe), v)
      → (chosen ≡ slot) × (exe ≡ found)
  unfolding commit_slot
  commit_slot-same slot chosen found exe pending w v h =
      let last : Launch host (Slot × RelPath) = done (ok (slot, found)) in
      let (a, u, cleared, h1) =
        method_inv (clear_slot_health host slot) (λ _. commit_release_counter host pending >> last)
          w h in
      let (b, t, committed, h2) =
        method_inv (commit_release_counter host pending) (λ _. last) u h1 in
      done-same slot chosen found exe t v h2

  -- What a slot and an executable have, another slot and executable equal to them have.
  moved :
      (slot chosen : Slot) (found exe : RelPath)
      → (chosen ≡ slot) × (exe ≡ found)
      → IsLaunchable host slot found
      → IsLaunchable host chosen exe
  moved slot chosen found exe (same, path) h =
      subst (λ s. IsLaunchable host s exe) (sym same) (subst (IsLaunchable host slot) (sym path) h)

  or_corrupted-inv :
      (active standby : SelectionError) (m : Launch host (RelPath × Option ℕ)) (w u : W)
      (r : RelPath × Option ℕ)
      → or_corrupted host active standby m w ≡ (ok r, u)
      → (v : W) × (m w ≡ (ok r, v))
  or_corrupted-inv active standby m w u r h = go (m w) refl h
    where
      go :
          (p : Result (RelPath × Option ℕ) SelectionError × W)
          → m w ≡ p
          → ◌≡◌ {A = Result (RelPath × Option ℕ) SelectionError × W}
              (
                map_err
                    (λ _. both_slots_corrupted (describe host active) (describe host standby))
                    p.0,
                p.1,
              )
              (ok r, u)
          → (v : W) × (m w ≡ (ok r, v))
      go (ok a, v) e same = (v, e ∙ ap (λ x. (ok x, v)) (ok_inj (ap (λ q. q.0) same)))
      go (err x, v) e same = cc

  golden-IsLaunchable :
      (active standby : SelectionError) (w v : W) (chosen : Slot) (exe : RelPath)
      → select_golden_master host active standby w ≡ (ok (chosen, exe), v)
      → IsLaunchable host chosen exe
  unfolding select_golden_master
  golden-IsLaunchable active standby w v chosen exe h =
      let last = λ (r : RelPath × Option ℕ). done {S = W} {E = SelectionError} (ok (slot_a, r.0)) in
      let counted = λ (r : RelPath × Option ℕ). commit_release_counter host r.1 >> last r in
      let cleared = λ (r : RelPath × Option ℕ). clear_slot_health host slot_b >> counted r in
      let (r, u, restored, h1) =
        method_inv (or_corrupted host active standby (restore_from_golden_master host))
          (λ r. clear_slot_health host slot_a >> cleared r) w h in
      let (u1, given) =
        or_corrupted-inv active standby (restore_from_golden_master host) w u r restored in
      let (a, t1, c1, h2) = method_inv (clear_slot_health host slot_a) (λ _. cleared r) u h1 in
      let (b, t2, c2, h3) = method_inv (clear_slot_health host slot_b) (λ _. counted r) t1 h2 in
      let (c, t3, c3, h4) = method_inv (commit_release_counter host r.1) (λ _. last r) t2 h3 in
      moved slot_a chosen r.0 exe (done-same slot_a chosen r.0 exe t3 v h4)
        (restored-IsLaunchable w u1 r.0 r.1 given)

  standby-IsLaunchable :
      (slot : Slot) (active : SelectionError) (w v : W) (chosen : Slot) (exe : RelPath)
      → select_standby host slot active w ≡ (ok (chosen, exe), v)
      → IsLaunchable host chosen exe
  unfolding select_standby
  standby-IsLaunchable slot active w v chosen exe h =
      let other = alternate slot in
      elim (Result-cases (verify_and_check_slot host other w)) [
        | inl ((found, p), e) ↦
            let commit = commit_slot host other (found, p) in
            let (a, u, recorded, h1) =
              method_inv (record_rollback_decision host slot other active)
                (λ _. write_active_slot host other >> commit) w (rw (select_standby, e) at h) in
            let (b, t, written, h2) =
              method_inv (write_active_slot host other) (λ _. commit) u h1 in
            moved other chosen found exe (commit_slot-same other chosen found exe p t v h2)
              (verify_and_check-IsLaunchable host other w found p e)
        | inr (x, e) ↦ elim (Bool-cases (is_health_failure host x)) [
          | inl f ↦ let refused = rw (select_standby, e, f) at h in cc
          | inr f ↦
              let (a, u, counted, h1) =
                method_inv (increment_slot_health host other)
                  (λ _. select_golden_master host active x) w (rw (select_standby, e, f) at h) in
              golden-IsLaunchable active x u v chosen exe h1
        ]
      ]

  active-IsLaunchable :
      (slot : Slot) (w v : W) (chosen : Slot) (exe : RelPath)
      → select_active host slot w ≡ (ok (chosen, exe), v)
      → IsLaunchable host chosen exe
  unfolding select_active
  active-IsLaunchable slot w v chosen exe h =
      elim (Result-cases (verify_and_check_slot host slot w)) [
        | inl ((found, p), e) ↦
            moved slot chosen found exe
              (commit_slot-same slot chosen found exe p w v (rw (select_active, e) at h))
              (verify_and_check-IsLaunchable host slot w found p e)
        | inr (x, e) ↦ elim (Bool-cases (is_health_failure host x)) [
          | inl f ↦ let refused = rw (select_active, e, f) at h in cc
          | inr f ↦
              let (a, u, counted, h1) =
                method_inv (increment_slot_health host slot) (λ _. select_standby host slot x) w
                  (rw (select_active, e, f) at h) in
              standby-IsLaunchable slot x u v chosen exe h1
        ]
      ]

  -- An executable that the selection returns is that of the slot chosen, and with the files as
  -- they stood at some moment either a signed manifest, verified with the trust anchor and not
  -- older than the release seen, has the digest of its bytes, or there is no signed manifest and
  -- the list of checksums has it.
  pub select-IsLaunchable :
      (w v : W) (slot : Slot) (exe : RelPath)
      → select host w ≡ (ok (slot, exe), v)
      → (exe ≡ executable_path slot) × (u : W) × (IsSigned host slot u ⊎ IsListed host slot u)
  unfolding select
  select-IsLaunchable w v slot exe h =
      let read =
        reading host (λ w. map_err metadata_read (host.files.read_to_string active_slot_path w)) in
      let (raw, u, got, h1) =
        method_inv read (λ raw. reading host (active_slot host raw) >>= select_active host) w h in
      let (s, t, chosen, h2) =
        method_inv (reading host (active_slot host raw)) (select_active host) u h1 in
      active-IsLaunchable s t v slot exe h2
