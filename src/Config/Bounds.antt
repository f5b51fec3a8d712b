-- ===== src/Config/Bounds.antt =====
-- A configuration that apps/true-tick/src/config.rs has parsed is within its bounds.
use true_tick.Base.{
  ℕ, suc, ◌≤◌, ◌<◌, ◌≡◌, ◌≢◌, refl, subst, leb, ltb, ◌==◌, if◌then◌else◌, Bool, true, false, not,
  ◌&&◌, List, [], ◌∷◌, ◌++◌, Result, ok, err, arith, length, is_empty, length-append, All,
  All-append, inl, inr, Bool-cases, and-true, leb-true,
}
use true_tick.Base.Try.{◌>>=◌, ensure, ok_or, bind_inv, ensure_inv, ok_inj}
use true_tick.Base.Bytes.{bytes_eq}
use true_tick.Base.Text.{Text, codes, split, trim, parse_unsigned, split_once, any}
use true_tick.Base.Words.{lines}
use true_tick.Config.{
  Config, Reason, Reading, parse_preset, parse_elements, parse_schedule_presets, parse_interval,
  parse_bool, apply_key, parse_entry, parse_line, parse_lines, parse_with_migration,
  within_brackets, first_of, default_config, invalid_reason,
}

abbrev pub IsPreset : ℕ → Type 0
IsPreset seconds = (10 ≤ seconds) × (seconds ≤ 86400)

abbrev pub ArePresets : List ℕ → Type 0
ArePresets presets = (0 < length presets) × (length presets ≤ 12) × All IsPreset presets

-- The bounds of a configuration: the legacy interval is none that it keeps.
abbrev pub IsBounded : Config → Type 0
IsBounded c = (c.request_interval ≢ 10000) × ArePresets c.schedule_presets_seconds

abbrev AreSome : List ℕ → Type 0
AreSome presets = (length presets ≤ 12) × All IsPreset presets

parse_preset-AreSome :
    (line_number : ℕ) (presets longer : List ℕ) (element : Text)
    → AreSome presets
    → parse_preset line_number presets element ≡ ok longer
    → AreSome longer
unfolding parse_preset
parse_preset-AreSome line_number presets longer element (few, all) h =
    let (seconds, parsed, h1) = bind_inv (ok_or (parse_unsigned 32 element) _) _ h in
    let (u, bounded, h2) = bind_inv (ensure (leb 10 seconds && leb seconds 86400) _) _ h1 in
    let (v, room, h3) = bind_inv (ensure (ltb (length presets) 12) _) _ h2 in
    let inside = ensure_inv (leb 10 seconds && leb seconds 86400) _ bounded in
    let below = ensure_inv (ltb (length presets) 12) _ room in
    let low = and-true (leb 10 seconds) (leb seconds 86400) inside in
    subst AreSome (ok_inj h3) (
      ground (arith, below, length-append presets (seconds ∷ [])),
      All-append IsPreset presets (seconds ∷ []) all
          ((leb-true 10 seconds low.0, leb-true seconds 86400 low.1), tt),
    )

parse_elements-AreSome :
    (line_number : ℕ) (elements : List Text) (presets found : List ℕ)
    → AreSome presets
    → parse_elements line_number presets elements ≡ ok found
    → AreSome found
unfolding parse_elements
parse_elements-AreSome line_number [] presets found some_so_far h =
    subst AreSome (ok_inj h) some_so_far
parse_elements-AreSome line_number (element ∷ more) presets found some_so_far h =
    elim (Bool-cases (is_empty (trim element))) [
      | inl blank ↦
          parse_elements-AreSome line_number more presets found some_so_far
            (ground (arith, h, blank))
      | inr full ↦
          let (longer, parsed, rest) =
            bind_inv (parse_preset line_number presets (trim element))
              (λ longer. parse_elements line_number longer more) (ground (arith, h, full)) in
          parse_elements-AreSome line_number more longer found
            (parse_preset-AreSome line_number presets longer (trim element) some_so_far parsed) rest
    ]

parse_schedule_presets-ArePresets :
    (value : Text) (line_number : ℕ) (presets : List ℕ)
    → parse_schedule_presets value line_number ≡ ok presets
    → ArePresets presets
unfolding parse_schedule_presets
parse_schedule_presets-ArePresets value line_number presets h =
    let (inner, bracketed, h1) = bind_inv (ok_or (within_brackets value) _) _ h in
    let (found, parsed, h2) =
      bind_inv (parse_elements line_number [] (split (λ b. b == 44) inner)) _ h1 in
    let (u, full, h3) = bind_inv (ensure (not (is_empty found)) _) _ h2 in
    let (few, all) =
      parse_elements-AreSome line_number (split (λ b. b == 44) inner) [] found (omega arith, tt)
        parsed in
    subst ArePresets (ok_inj h3)
      (some_length found (ensure_inv (not (is_empty found)) _ full), few, all)
  where
    some_length : (ns : List ℕ) → not (is_empty ns) ≡ true → 0 < length ns
    some_length [] e = ground (arith, e)
    some_length (n ∷ ns) e = omega arith

abbrev Keeps : Result (Config × Bool) Reason → Type 0
Keeps r = (d : Config × Bool) → r ≡ ok d → IsBounded d.0

parse_interval-Keeps :
    (value : Text) (line_number : ℕ) (c : Config) (migrated : Bool)
    → IsBounded c
    → Keeps (parse_interval value line_number (c, migrated))
unfolding parse_interval
parse_interval-Keeps value line_number c migrated (other, presets) d h =
    let (interval, parsed, h1) = bind_inv (ok_or (parse_unsigned 64 value) _) _ h in
    subst (λ e. IsBounded e.0) (ok_inj h1) (choice interval (interval == 10000) refl)
  where
    choice :
        (interval : ℕ) (same : Bool)
        → (interval == 10000) ≡ same
        → IsBounded
            (if◌then◌else◌ {A = Config × Bool} same
              (record c { request_interval = 0 }, true)
              (record c { request_interval = interval }, migrated)).0
    choice interval true e = (λ k. omega arith, presets)
    choice interval false e = (λ k. ground (arith, e, k), presets)

err-Keeps : (e : Reason) → Keeps (err e)
err-Keeps e d h = cc

-- A key other than that of the interval and of the presets keeps both.
set-Keeps :
    (r : Result Bool Reason) (set : Bool → Config) (migrated : Bool)
    → ((b : Bool) → IsBounded (set b))
    → Keeps (r >>= λ b. ok (set b, migrated))
set-Keeps (ok b) set migrated kept d h = subst (λ e. IsBounded e.0) (ok_inj h) (kept b)
set-Keeps (err e) set migrated kept d h = cc

presets-Keeps :
    (value : Text) (line_number : ℕ) (c : Config) (migrated : Bool)
    → IsBounded c
    → Keeps (
        parse_schedule_presets value line_number >>= λ presets.
        ok (record c { schedule_presets_seconds = presets }, migrated))
presets-Keeps value line_number c migrated (other, old) d h =
    let (presets, parsed, h1) = bind_inv (parse_schedule_presets value line_number) _ h in
    subst (λ e. IsBounded e.0) (ok_inj h1)
      (other, parse_schedule_presets-ArePresets value line_number presets parsed)

of_if :
    (b : Bool) (r s : Result (Config × Bool) Reason)
    → Keeps r
    → Keeps s
    → Keeps (if b then r else s)
of_if true r s k l = k
of_if false r s k l = l

apply_key-Keeps :
    (key value : Text) (line_number : ℕ) (c : Config) (migrated : Bool)
    → IsBounded c
    → Keeps (apply_key key value line_number (c, migrated))
unfolding apply_key
apply_key-Keeps key value line_number c migrated bounded =
    of_if (bytes_eq key (codes "automatic")) _ _
      (set-Keeps (parse_bool key value) (λ b. record c { automatic = b }) migrated (λ b. bounded))
      (of_if (bytes_eq key (codes "startup_enabled")) _ _
        (set-Keeps (parse_bool key value) (λ b. record c { startup_enabled = b }) migrated
          (λ b. bounded))
        (of_if (bytes_eq key (codes "auto_resume_on_ac")) _ _
          (set-Keeps (parse_bool key value) (λ b. record c { auto_resume_on_ac = b }) migrated
            (λ b. bounded))
          (of_if (bytes_eq key (codes "battery_lockout")) _ _
            (set-Keeps (parse_bool key value) (λ b. record c { battery_lockout = b }) migrated
              (λ b. bounded))
            (of_if (bytes_eq key (codes "request_interval_hns")) _ _
              (parse_interval-Keeps value line_number c migrated bounded)
              (of_if (bytes_eq key (codes "schedule_presets_seconds")) _ _
                (presets-Keeps value line_number c migrated bounded)
                (err-Keeps (invalid_reason (codes "unknown configuration key " ++ key))))))))

parse_entry-Keeps :
    (line : Text) (line_number : ℕ) (seen : List Text) (c : Config) (migrated : Bool)
    (next : Reading)
    → IsBounded c
    → parse_entry line line_number (seen, (c, migrated)) ≡ ok next
    → IsBounded next.1.0
unfolding parse_entry
parse_entry-Keeps line line_number seen c migrated next bounded h =
    let (parts, found, h1) = bind_inv (ok_or (split_once 61 line) _) _ h in
    let key = trim parts.0 in
    let value = trim parts.1 in
    let (u, short, h2) = bind_inv (ensure (leb (length key) 64) _) _ h1 in
    let (v, brief, h3) = bind_inv (ensure (leb (length value) 1024) _) _ h2 in
    let (x, new, h4) = bind_inv (ensure (not (any (bytes_eq key) seen)) _) _ h3 in
    let (d, applied, h5) = bind_inv (apply_key key value line_number (c, migrated)) _ h4 in
    subst (λ r. IsBounded r.1.0) (ok_inj h5)
      (apply_key-Keeps key value line_number c migrated bounded d applied)

parse_line-Keeps :
    (raw : Text) (line_number : ℕ) (r next : Reading)
    → IsBounded r.1.0
    → parse_line raw line_number r ≡ ok next
    → IsBounded next.1.0
unfolding parse_line
parse_line-Keeps raw line_number (seen, (c, migrated)) next bounded h =
    let (u, fits, h1) = bind_inv (ensure (leb (length raw) 4096) _) _ h in
    choice (is_empty (trim (first_of (split (λ b. b == 35) raw)))) h1
  where
    line : Text
    line = trim (first_of (split (λ b. b == 35) raw))

    choice :
        (blank : Bool)
        → (if blank
            then ok (seen, (c, migrated))
            else parse_entry line line_number (seen, (c, migrated)))
          ≡ ok next
        → IsBounded next.1.0
    choice true e = subst (λ r. IsBounded r.1.0) (ok_inj e) bounded
    choice false e = parse_entry-Keeps line line_number seen c migrated next bounded e

parse_lines-Keeps :
    (line_number : ℕ) (found : List Text) (r next : Reading)
    → IsBounded r.1.0
    → parse_lines line_number found r ≡ ok next
    → IsBounded next.1.0
unfolding parse_lines
parse_lines-Keeps line_number [] r next bounded h = subst (λ r. IsBounded r.1.0) (ok_inj h) bounded
parse_lines-Keeps line_number (raw ∷ more) r next bounded h =
    let (t, first, rest) =
      bind_inv (parse_line raw line_number r) (λ t. parse_lines (suc line_number) more t) h in
    parse_lines-Keeps (suc line_number) more t next
      (parse_line-Keeps raw line_number r t bounded first) rest

pub default-IsBounded : IsBounded default_config
default-IsBounded = ground arith

-- A configuration that is parsed is bounded.
pub parse_with_migration-IsBounded :
    (text : Text) (c : Config) (migrated : Bool)
    → parse_with_migration text ≡ ok (c, migrated)
    → IsBounded c
unfolding parse_with_migration
parse_with_migration-IsBounded text c migrated h =
    let (u, fits, h1) = bind_inv (ensure (leb (length text) 65536) _) _ h in
    let (r, parsed, h2) =
      bind_inv (parse_lines 1 (lines text) ([], (default_config, false))) _ h1 in
    subst (λ d. IsBounded d.0) (ok_inj h2)
      (parse_lines-Keeps 1 (lines text) ([], (default_config, false)) r default-IsBounded parsed)
