-- ===== src/Prelude/Texts.antt =====
-- The str methods that the program uses, over sequences of code points.
use Prim.Native.Nat.{ℕ, zero, suc, ◌-◌}
use mathlib.Core.Bool.{Bool, true, false, ◌&&◌, ◌||◌}
use mathlib.Core.List.{List, [], ◌∷◌, ◌++◌}
use mathlib.Core.Option.{Option, none, some}
use asystem_awex.Prelude.Tests.{◌==◌, if◌then◌else◌}
use asystem_awex.Prelude.Lists.{length, drop}
use asystem_awex.Prelude.Equality.{Text}

-- s.startswith(prefix)
abbrev pub starts_with : Text → Text → Bool
starts_with [] s = true
starts_with (p ∷ ps) [] = false
starts_with (p ∷ ps) (c ∷ s) = p == c && starts_with ps s

-- needle in s
abbrev pub contains : Text → Text → Bool
contains needle [] = starts_with needle []
contains needle (c ∷ s) = starts_with needle (c ∷ s) || contains needle s

-- s.replace(old, new), for a non-empty `old`: the first argument counts the characters of a match
-- that are still to be dropped.
abbrev pub replace_from : ℕ → Text → Text → Text → Text
replace_from n old new [] = []
replace_from (suc n) old new (c ∷ s) = replace_from n old new s
replace_from zero old new (c ∷ s) = elim (starts_with old (c ∷ s)) [
  | true ↦ new ++ replace_from (length old - 1) old new s
  | false ↦ c ∷ replace_from 0 old new s
]

abbrev pub replace : Text → Text → Text → Text
replace old new s = replace_from 0 old new s

-- s.split(sep), for a separator of one character
abbrev pub join_head : ℕ → List Text → List Text
join_head c [] = (c ∷ []) ∷ []
join_head c (w ∷ ws) = (c ∷ w) ∷ ws

abbrev pub split : ℕ → Text → List Text
split sep [] = [] ∷ []
split sep (c ∷ s) = let rest = split sep s in if c == sep then [] ∷ rest else join_head c rest

-- s.find(needle): the text before the first match and the text behind it
abbrev pub break_on : Text → Text → Option (Text × Text)
break_on needle [] = if starts_with needle [] then some ([], []) else none
break_on needle (c ∷ s) =
    let later = break_on needle s in
    if starts_with needle (c ∷ s)
    then some ([], drop (length needle) (c ∷ s))
    else elim later [ none ↦ none | some (a, b) ↦ some (c ∷ a, b) ]

-- parts[-1], parts[-2]
abbrev pub last_two : List Text → Option Text × Option Text
last_two [] = (none, none)
last_two (w ∷ []) = (none, some w)
last_two (w ∷ v ∷ []) = (some w, some v)
last_two (w ∷ v ∷ u ∷ ws) = last_two (v ∷ u ∷ ws)
