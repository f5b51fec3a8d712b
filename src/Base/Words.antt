-- ===== src/Base/Words.antt =====
-- `split_whitespace` and `lines` of the language's standard library.
use true_tick.Base.{◌==◌, if◌then◌else◌, Bool, true, false, List, [], ◌∷◌, ◌++◌}
use true_tick.Base.Text.{Text, chars, is_whitespace, split}

-- The words of a line, between runs of white space, from its characters.
abbrev word_step : Bool → Text → List Text → List Text
word_step true c [] = [] ∷ []
word_step true c ([] ∷ ws) = [] ∷ ws
word_step true c ((b ∷ w) ∷ ws) = [] ∷ (b ∷ w) ∷ ws
word_step false c [] = c ∷ []
word_step false c (w ∷ ws) = (c ++ w) ∷ ws

abbrev open_words : List Text → List Text
open_words [] = []
open_words (c ∷ cs) = word_step (is_whitespace c) c (open_words cs)

abbrev without_empty : List Text → List Text
without_empty [] = []
without_empty ([] ∷ ws) = without_empty ws
without_empty ((b ∷ w) ∷ ws) = (b ∷ w) ∷ without_empty ws

abbrev pub split_whitespace : Text → List Text
split_whitespace line = without_empty (open_words (chars line))

-- `strip_suffix('\r')`.
abbrev pub without_return : Text → Text
without_return [] = []
without_return (b ∷ []) = if b == 13 then [] else b ∷ []
without_return (b ∷ c ∷ s) = b ∷ without_return (c ∷ s)

-- A last piece that is empty is no line; one that is not keeps its bytes, since no line feed ends it.
abbrev lines_of : List Text → List Text
lines_of [] = []
lines_of ([] ∷ []) = []
lines_of ((b ∷ s) ∷ []) = (b ∷ s) ∷ []
lines_of (s ∷ t ∷ ts) = without_return s ∷ lines_of (t ∷ ts)

abbrev pub lines : Text → List Text
lines s = lines_of (split (λ b. b == 10) s)
