-- ===== src/Prelude/Text.antt =====
-- Texts as the code uses them: `"/" in s`, `s.split("/", 1)` and `s.partition("/")`.
use Prim.Native.Char.{code}
use Prim.Native.String.{String, ◌++◌}
use text.Mathlib.Text.{◌==◌ as str_eq}
use mathlib.Core.List.{List, [], ◌∷◌}
use mathlib.Core.Path.{◌≡◌, refl}
use mathlib.Core.Bool.{Bool}
use mathlib.Core.Option.{Option, none, some}
use crypto_arb_engine.Prelude.Tests.{◌==◌, if◌then◌else◌, is_some}

-- What stands before and behind the first `/`, if there is one.
unfoldable pub split_slash : String → Option (String × String)
split_slash String.[] = none
split_slash (String.◌∷◌ c s) =
    let rest = split_slash s in
    if code c == b'/'
    then some (String.[], s)
    else (elim rest [ none ↦ none | some (a, b) ↦ some (String.◌∷◌ c a, b) ])

-- `"/" in s`
unfoldable pub has_slash : String → Bool
has_slash s = is_some (split_slash s)

-- `s.partition("/")`, without the separator.
unfoldable pub partition_slash : String → String × String
partition_slash s = elim (split_slash s) [ none ↦ (s, "") | some p ↦ p ]

-- `s.partition(":")`, without the separator.
unfoldable pub partition_colon : String → String × String
partition_colon String.[] = ("", "")
partition_colon (String.◌∷◌ c s) =
    let rest = partition_colon s in
    if code c == b':' then ("", s) else (String.◌∷◌ c rest.0, rest.1)

-- What stands behind a prefix, if the text has it.
unfoldable pub strip_prefix : String → String → Option String
strip_prefix String.[] s = some s
strip_prefix (String.◌∷◌ c p) String.[] = none
strip_prefix (String.◌∷◌ c p) (String.◌∷◌ d s) =
    let rest = strip_prefix p s in if code c == code d then rest else none

-- `s.endswith(suffix)` and `s.removesuffix(suffix)`: what stands before the suffix, if it is there.
unfoldable pub strip_suffix : String → String → Option String
strip_suffix suffix String.[] = if str_eq String.[] suffix then some String.[] else none
strip_suffix suffix (String.◌∷◌ c s) =
    let rest = strip_suffix suffix s in
    if str_eq (String.◌∷◌ c s) suffix
    then some String.[]
    else (elim rest [ none ↦ none | some t ↦ some (String.◌∷◌ c t) ])

-- `s.rsplit(":", 1)[-1]`: what stands behind the last colon, the whole text if there is none.
unfoldable pub after_colon : String → Option String
after_colon String.[] = none
after_colon (String.◌∷◌ c s) =
    let rest = after_colon s in
    elim rest [ some t ↦ some t | none ↦ if code c == b':' then some s else none ]

unfoldable pub last_part : String → String
unfolding after_colon
last_part s = elim (after_colon s) [ none ↦ s | some t ↦ t ]

-- `sep.join(parts)`
unfoldable pub join : String → List String → String
join sep [] = ""
join sep (x ∷ xs) = elim xs [ [] ↦ x | ◌∷◌ _ _ ↦ x ++ (sep ++ join sep xs) ]

split_runs : split_slash "BTC/USDT" ≡ some ("BTC", "USDT")
unfolding split_slash
split_runs = refl

strip_runs : strip_suffix "-PERP" "BTC/USDT-PERP" ≡ some "BTC/USDT"
unfolding strip_suffix
strip_runs = refl

join_runs : join "-" ("A" ∷ "B" ∷ "C" ∷ []) ≡ "A-B-C"
unfolding join
join_runs = refl
