-- ===== src/Pause/Presets.antt =====
-- The presets of apps/true-tick/src/pause.rs stay in order, distinct and within their bounds.
use true_tick.Base.{
  ℕ, ◌≤◌, ◌<◌, ◌≡◌, ◌⊎◌, inl, inr, refl, false, List, [], ◌∷◌, ok, err, arith, length, take, All,
  All-take, Bool-cases, leb, length-take, ltb, is_empty, leb-false,
}
use true_tick.Pause.{
  PresetError, too_short, too_long, contains, sort, dedup, PresetsManager, add, remove,
  reset_defaults, to_seconds_list, from_seconds_list, new_preset, valid_presets, keep_ok,
  default_presets, new_presets, max_presets, min_preset_seconds, max_preset_seconds,
}
use true_tick.Pause.Ordering.{
  IsAscending, All-insert, All-sort, length-insert, sort-IsSorted, dedup-IsAscending, All-dedup,
  take-IsAscending, sort_id, dedup_id, take_id, insert-IsAscending, sort-append, All-remove_at,
  remove_at-IsAscending, length-remove_at,
}

abbrev pub IsPreset : ℕ → Type 0
IsPreset s = (min_preset_seconds ≤ s) × (s ≤ max_preset_seconds)

-- In ascending order without repetition, from one to twelve, each within its bounds.
pub record IsPresets (m : PresetsManager) : Type 0 where
  pub ascending : IsAscending m.presets
  pub each : All IsPreset m.presets
  pub some_left : 0 < length m.presets
  pub bound : length m.presets ≤ max_presets

new_preset-cases :
    (s : ℕ) → ((new_preset s ≡ ok s) × IsPreset s) ⊎ ((e : PresetError) × (new_preset s ≡ err e))
unfolding new_preset
new_preset-cases s = elim (Bool-cases (ltb s min_preset_seconds)) [
  | inl e ↦ inr (too_short, rw e)
  | inr e ↦ elim (Bool-cases (ltb max_preset_seconds s)) [
    | inl f ↦ inr (too_long, rw (e, f))
    | inr f ↦ inl (rw (e, f), ground (arith, e, f))
  ]
]

new_preset-ok : (s : ℕ) → IsPreset s → new_preset s ≡ ok s
unfolding new_preset
new_preset-ok s h = ground arith

valid_presets-IsPreset : (list : List ℕ) → All IsPreset (valid_presets list)
unfolding valid_presets keep_ok
valid_presets-IsPreset [] = tt
valid_presets-IsPreset (s ∷ list) = elim (new_preset-cases s) [
  | inl (e, h) ↦ rw e (h, valid_presets-IsPreset list)
  | inr (_, e) ↦ rw e (valid_presets-IsPreset list)
]

valid_presets_id : (ps : List ℕ) → All IsPreset ps → valid_presets ps ≡ ps
unfolding valid_presets keep_ok
valid_presets_id [] h = refl
valid_presets_id (p ∷ ps) h = rw (new_preset-ok p h.0, valid_presets_id ps h.1)

is_empty-false : (ps : List ℕ) → is_empty ps ≡ false → 0 < length ps
is_empty-false [] h = cc
is_empty-false (p ∷ ps) h = omega arith

is_empty_some : (ps : List ℕ) → 0 < length ps → is_empty ps ≡ false
is_empty_some [] h = absurd (omega arith)
is_empty_some (p ∷ ps) h = refl

pub defaults-IsPresets : IsPresets (record { presets = default_presets })
unfolding default_presets IsAscending valid_presets keep_ok new_preset
defaults-IsPresets = record {
  ascending = omega arith;
  each = omega arith;
  some_left = omega arith;
  bound = omega arith;
}

add-IsPresets : (p : ℕ) (m : PresetsManager) → IsPreset p → IsPresets m → IsPresets (add p m).1
unfolding add
add-IsPresets p m good h = elim (Bool-cases (contains p m.presets)) [
  | inl e ↦ rw e (id_presets m h)
  | inr e ↦ elim (Bool-cases (leb max_presets (length m.presets))) [
    | inl f ↦ rw (e, f) (id_presets m h)
    | inr f ↦
        let room = leb-false max_presets (length m.presets) f in
        let placed = sort-append m.presets p e h.ascending in
        rw (e, f)
          (record {
            ascending = rw placed (insert-IsAscending p m.presets e h.ascending);
            each = rw placed (All-insert IsPreset p m.presets good h.each);
            some_left = rw placed (omega (arith, length-insert p m.presets));
            bound = rw placed (omega (arith, length-insert p m.presets));
          })
  ]
]
  where
    id_presets : (n : PresetsManager) → IsPresets n → IsPresets (record { presets = n.presets })
    id_presets n k = k

remove-IsPresets : (index : ℕ) (m : PresetsManager) → IsPresets m → IsPresets (remove index m).1
unfolding remove
remove-IsPresets index m h = elim (Bool-cases (leb (length m.presets) index)) [
  | inl e ↦ rw e h
  | inr e ↦ elim (Bool-cases (leb (length m.presets) 1)) [
    | inl f ↦ rw (e, f) h
    | inr f ↦
        let inside = leb-false (length m.presets) index e in
        let more = leb-false (length m.presets) 1 f in
        let shorter = length-remove_at index m.presets inside in
        rw (e, f)
          (record {
            ascending = remove_at-IsAscending index m.presets h.ascending;
            each = All-remove_at IsPreset index m.presets h.each;
            some_left = omega (arith, shorter);
            bound = omega (arith, shorter, h.bound);
          })
  ]
]

from_seconds_list-IsPresets : (list : List ℕ) → IsPresets (from_seconds_list list)
unfolding from_seconds_list
from_seconds_list-IsPresets list =
    let sorted = sort (valid_presets list) in
    let kept = take max_presets (dedup sorted) in
    elim (Bool-cases (is_empty kept)) [
      | inl e ↦ rw e defaults-IsPresets
      | inr e ↦ rw e (record {
        ascending =
            take-IsAscending max_presets (dedup sorted)
              (dedup-IsAscending sorted (sort-IsSorted (valid_presets list)));
        each = All-take IsPreset max_presets (dedup sorted) (
            All-dedup IsPreset sorted
              (All-sort IsPreset (valid_presets list) (valid_presets-IsPreset list)));
        some_left = is_empty-false kept e;
        bound = omega (arith, length-take max_presets (dedup sorted));
      })
    ]

-- The presets of a manager that is ascending, distinct and within its bounds are read back from
-- the list of seconds it writes.
pub from-to_seconds_list :
    (m : PresetsManager) → IsPresets m → from_seconds_list (to_seconds_list m) ≡ m
unfolding from_seconds_list to_seconds_list
from-to_seconds_list m h =
    let kept : take max_presets (dedup (sort (valid_presets m.presets))) ≡ m.presets =
      rw
        (
          valid_presets_id m.presets h.each,
          sort_id m.presets h.ascending,
          dedup_id m.presets h.ascending,
        )
        (take_id max_presets m.presets h.bound) in
    rw (kept, is_empty_some m.presets h.some_left)

-- The managers that the program makes and changes.
pub data Reached : PresetsManager → Type 0 where
  created : Reached new_presets
  loaded : (list : List ℕ) → Reached (from_seconds_list list)
  added :
      {m : PresetsManager} (seconds p : ℕ)
      → new_preset seconds ≡ ok p
      → Reached m
      → Reached (add p m).1
  removed : {m : PresetsManager} (index : ℕ) → Reached m → Reached (remove index m).1
  reset : {m : PresetsManager} → Reached m → Reached (reset_defaults m)

new_preset-IsPreset : (s p : ℕ) → new_preset s ≡ ok p → IsPreset p
unfolding new_preset
new_preset-IsPreset s p h = ground arith

-- After loading any list and any additions, removals and resets, the presets are ascending without
-- repetition, each between 10 seconds and a day, at least one and at most twelve.
pub Reached-IsPresets : {m : PresetsManager} → Reached m → IsPresets m
unfolding new_presets reset_defaults
Reached-IsPresets created = defaults-IsPresets
Reached-IsPresets (loaded list) = from_seconds_list-IsPresets list
Reached-IsPresets (added s p e r) =
    add-IsPresets p _ (new_preset-IsPreset s p e) (Reached-IsPresets r)
Reached-IsPresets (removed index r) = remove-IsPresets index _ (Reached-IsPresets r)
Reached-IsPresets (reset r) = defaults-IsPresets
