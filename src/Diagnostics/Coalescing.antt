-- ===== src/Diagnostics/Coalescing.antt =====
-- crates/tick-diagnostics/src/lib.rs: a repeated layout error is counted in the last event.
use true_tick.Base.{
  ℕ, suc, if◌then◌else◌, Bool, false, ◌&&◌, Option, none, some, List, [], ◌∷◌, ◌++◌, length, drop,
  min, option_map,
}
use true_tick.Base.Bytes.{bytes_eq}
use true_tick.Base.Text.{Text, codes, show, parse_unsigned, starts_with}
use true_tick.Diagnostics.{DiagnosticEvent, truncate_utf8, max_field_length}
use true_tick.Diagnostics.State.{StoreState}

-- `rsplit_once(" repeat_count=")`: at its last occurrence.
abbrev repeat_mark : Text
repeat_mark = codes " repeat_count="

abbrev pub rsplit_repeat : Text → Option (Text × Text)
rsplit_repeat [] = none
rsplit_repeat (b ∷ s) = elim (rsplit_repeat s) [
  | some (base, count) ↦ some (b ∷ base, count)
  | none ↦
      if starts_with repeat_mark (b ∷ s) then some ([], drop (length repeat_mark) (b ∷ s)) else none
]

abbrev pub parsed_count : Text → ℕ
parsed_count count = elim (parse_unsigned 32 count) [ none ↦ 1 | some n ↦ n ]

abbrev pub is_marker : Option Text → Text → Bool
is_marker none existing = false
is_marker (some marker) existing = bytes_eq marker existing

abbrev pub repeated_details : Text → ℕ → Text
repeated_details base count =
    truncate_utf8 (base ++ repeat_mark ++ show (min (min (suc count) 4294967295) 999999))
      max_field_length

-- The details of an event that repeats one with these details: `none` where it is a fresh event.
unfoldable pub coalesced : Option Text → Text → Text → Option Text
coalesced marker existing details = elim (rsplit_repeat existing) [
  | none ↦ if bytes_eq existing details then some (repeated_details existing 1) else none
  | some (base, count) ↦
      if bytes_eq base details && is_marker marker existing
      then some (repeated_details base (parsed_count count))
      else none
]

-- `coalesce_repeated_layout_event`, on the events: the last one is changed.
unfoldable pub coalesce_events :
    Option Text → Text → Text → List DiagnosticEvent → Option (Text × List DiagnosticEvent)
coalesce_events marker name details [] = none
coalesce_events marker name details (e ∷ []) =
    option_map (λ next. (next, record e { details = next } ∷ []))
      (if bytes_eq e.name name then coalesced marker e.details details else none)
coalesce_events marker name details (e ∷ f ∷ es) =
    option_map (λ (next, changed). (next, e ∷ changed))
      (coalesce_events marker name details (f ∷ es))

unfoldable pub coalesce_repeated_layout_event : Text → Text → StoreState → Option StoreState
coalesce_repeated_layout_event name details s =
    option_map (λ (next, changed). record s { events = changed; coalesced_details = some next })
      (coalesce_events s.coalesced_details name details s.events)
