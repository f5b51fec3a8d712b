-- ===== src/Platform/Windows/Token.antt =====
-- `WindowsTimerPlatform` keeps the laws of the token, over any kernel whose calls do what ntdll
-- documents of them.
use true_tick.Base.{
  ℕ, zero, suc, ◌≡◌, ◌++◌, [], ◌∷◌, refl, Bool, true, false, List, ok, err, arith, ◌∙◌,
}
use true_tick.Base.Int.{ℤ, is_zero}
use true_tick.Core.{Hns}
use true_tick.Platform.Sampling.{collect_samples, sample_interval_median}
use true_tick.Platform.Windows.{
  Kernel, WindowsTimerPlatform, query, preflight, request, release, verify_request,
  attempt_kernel_settle_probe, windows_platform,
}
use true_tick.Platform.Token.{TokenLaws, Requested, Released, IsFor}

-- A query moves nothing. A call that succeeds sets or drops the request of the process, and one
-- that fails leaves it.
pub record KernelLaws {ℓ} {K : Type ℓ} (nt : Kernel K) (held : K → Bool) : Type ℓ where
  pub query_keeps : (k : K) → held (nt.nt_query k).1 ≡ held k
  pub set_success :
      (desired : ℕ) (set : Bool) (k : K)
      → is_zero (nt.nt_set desired set k).0.0 ≡ true
      → held (nt.nt_set desired set k).1 ≡ set
  pub set_failure :
      (desired : ℕ) (set : Bool) (k : K)
      → is_zero (nt.nt_set desired set k).0.0 ≡ false
      → held (nt.nt_set desired set k).1 ≡ held k

-- Whether the process holds a resolution request, seen from the adapter.
abbrev pub holds {ℓ} : {K : Type ℓ} → (K → Bool) → WindowsTimerPlatform K → Bool
holds held p = held p.kernel

module _ {ℓ} {K : Type ℓ} (nt : Kernel K) (held : K → Bool) (laws : KernelLaws nt held) where
  abbrev W : Type ℓ
  W = WindowsTimerPlatform K

  query-holds : (i : Hns) (p : W) → holds held (query nt i p).1 ≡ holds held p
  unfolding query
  query-holds i p = ground (arith, laws.query_keeps p.kernel)

  resolve-holds :
      (i : Hns) (p : W) → holds held ((windows_platform nt).resolve i p).1 ≡ holds held p
  unfolding windows_platform
  resolve-holds i p = ground (arith, query-holds i p)

  preflight-holds : (i : Hns) (p : W) → holds held (preflight nt i p).1 ≡ holds held p
  unfolding preflight
  preflight-holds i p = ground (arith, laws.query_keeps p.kernel)

  collect_samples-holds :
      (n : ℕ) (i : Hns) (samples : List ℕ) (p : W)
      → holds held (collect_samples (query nt) n i samples p).1 ≡ holds held p
  unfolding collect_samples
  collect_samples-holds zero i samples p = refl
  collect_samples-holds (suc n) i samples p =
      collect_samples-holds n i
        (elim (query nt i p).0 [ ok q ↦ samples ++ q.reported_current ∷ [] | err e ↦ samples ])
        (query nt i p).1
      ∙ query-holds i p

  verify_request-Requested :
      (i : Hns) (desired : ℕ) (status : ℤ) (current : ℕ) (p : W)
      → holds held p ≡ true
      → Requested
          (verify_request nt i desired status current p).0
          false
          (holds held (verify_request nt i desired status current p).1)
  unfolding verify_request sample_interval_median
  verify_request-Requested i desired status current p h =
      ground (arith, collect_samples-holds 3 i [] p)

  verify_request-IsFor :
      (i : Hns) (desired : ℕ) (status : ℤ) (current : ℕ) (p : W)
      → IsFor i (verify_request nt i desired status current p).0
  unfolding verify_request
  verify_request-IsFor i desired status current p = ground arith

  request-Requested :
      (i : Hns) (p : W)
      → Requested (request nt i p).0 (holds held p) (holds held (request nt i p).1)
  unfolding request sample_interval_median
  request-Requested i p =
      let asked : W = (preflight nt i p).1 in
      let made : W = record asked { kernel = (nt.nt_set i true asked.kernel).1 } in
      ground (
        arith,
        preflight-holds i p,
        laws.set_success i true asked.kernel,
        laws.set_failure i true asked.kernel,
        collect_samples-holds 3 i [] made,
      )

  request-IsFor : (i : Hns) (p : W) → IsFor i (request nt i p).0
  unfolding request
  request-IsFor i p = ground arith

  release-Released :
      (i : Hns) (p : W) → Released (release nt i p).0 (holds held p) (holds held (release nt i p).1)
  unfolding release
  release-Released i p =
      ground (arith, laws.set_success i false p.kernel, laws.set_failure i false p.kernel)

  probe-holds :
      (i : Hns) (p : W)
      → holds held p ≡ false
      → holds held (attempt_kernel_settle_probe nt i p).1 ≡ false
  unfolding attempt_kernel_settle_probe
  probe-holds i p h =
      let k = (nt.nt_query p.kernel).1 in
      ground (
        arith,
        laws.query_keeps p.kernel,
        laws.set_success i false k,
        laws.set_failure i false k,
        laws.query_keeps (nt.nt_set i false k).1,
      )

  -- WindowsTimerPlatform, over native calls that do what ntdll documents, keeps the laws that the
  -- controller relies on: queries keep the request held, an accepted request holds it and is
  -- verified within tolerance, a release that succeeds drops it, and a refused call leaves it.
  pub windows_platform-TokenLaws : TokenLaws (windows_platform nt) (holds held)
  unfolding windows_platform
  windows_platform-TokenLaws = record {
    query_keeps = query-holds;
    resolve_keeps = resolve-holds;
    preflight_keeps = preflight-holds;
    request_moves = request-Requested;
    request_for = request-IsFor;
    release_moves = release-Released;
    probe_frees = probe-holds;
  }
