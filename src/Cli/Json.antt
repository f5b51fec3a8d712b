-- ===== src/Cli/Json.antt =====
-- apps/true-tick-cli/src/main.rs: the status as a JSON object. The escapes are those of bytes, since
-- every other character is copied with all its bytes.
pub mod Read
use true_tick.Base.{
  ℕ, zero, suc, ◌+◌, ◌-◌, ◌*◌, ◌/◌, ◌%◌, ◌<◌, ◌≤◌, ◌≡◌, ltb, ◌==◌, ◌&&◌, if◌then◌else◌, Bool, true,
  false, not, Option, none, some, List, [], ◌∷◌, ◌++◌, arith, option_map, All, refl, inl, inr,
  Bool-cases, ap, ◌∙◌, subst, sym,
}
use true_tick.Base.Bytes.{bytes_eq}
use true_tick.Base.Words.{split_whitespace}
use true_tick.Base.Text.{Text, codes, parse_unsigned, show, split_once}

-- A digit of `{:04x}`.
abbrev pub lower_hex : ℕ → ℕ
lower_hex d = if ltb d 10 then 48 + d else 87 + d

abbrev pub escaped : ℕ → Text
escaped b =
    if b == 34
    then codes "\\\""
    else (if b == 92
        then codes "\\\\"
        else (if b == 10
            then codes "\\n"
            else (if b == 13
                then codes "\\r"
                else (if b == 9
                    then codes "\\t"
                    else (if ltb b 32
                        then codes "\\u00" ++ lower_hex (b / 16) ∷ lower_hex (b % 16) ∷ []
                        else b ∷ [])))))

unfoldable pub json_escape : Text → Text
json_escape [] = []
json_escape (b ∷ s) = escaped b ++ json_escape s

abbrev pub json_string : Text → Text
json_string s = 34 ∷ (json_escape s ++ 34 ∷ [])

abbrev pub json_value : Text → Text
json_value value = elim (parse_unsigned 64 value) [
  | some number ↦ show number
  | none ↦ json_string value
]

abbrev pub json_member : Text → Text → Text
json_member key value = json_string key ++ 58 ∷ json_value value

-- The members of the body, each but the first behind a comma.
unfoldable pub json_body : Bool → List Text → Text
json_body first [] = []
json_body first (token ∷ tokens) = elim (split_once 61 token) [
  | none ↦ json_body first tokens
  | some (key, value) ↦ elim (bytes_eq value (codes "unknown")) [
    | true ↦ json_body first tokens
    | false ↦ (if first then [] else codes ",") ++ json_member key value ++ json_body false tokens
  ]
]

unfoldable pub status_json : Text → Text
status_json text = codes "{" ++ json_body true (split_whitespace text) ++ codes "}"
