-- ===== src/Common/Text.antt =====
-- What the program does with texts: `in`, `startswith`, `strip`, truth of a text.
use Prim.Native.Nat.{ℕ}
use Prim.Native.Char.{Char, code}
use Prim.Native.String.{String, [], ◌∷◌}
use mathlib.Core.Bool.{Bool, true, false, ◌&&◌, ◌||◌}
use mathlib.Core.List.{List, [] as nil, ◌∷◌ as cons}
use mathlib.Core.Option.{Option, none, some}
use text.Mathlib.Text.{starts_with}
use atlas_sql.Common.Tests.{leb, nat_eq, string_eq, ◌==◌, if◌then◌else◌}

-- `s` as a condition: a text is true if it is not empty.
abbrev pub is_blank : String → Bool
is_blank [] = true
is_blank (c ∷ s) = false

-- needle in s
unfoldable pub contains_text : String → String → Bool
contains_text needle [] = is_blank needle
contains_text needle (c ∷ s) = starts_with (c ∷ s) needle || contains_text needle s

-- str.isspace of one character
unfoldable pub is_space : Char → Bool
is_space ch =
    let c = code ch in
    (leb 9 c && leb c 13)
    || (leb 28 c && leb c 32)
    || c == 133
    || c == 160
    || c == 5760
    || (leb 8192 c && leb c 8202)
    || c == 8232
    || c == 8233
    || c == 8239
    || c == 8287
    || c == 12288

unfoldable pub lstrip : String → String
unfolding is_space
lstrip [] = []
lstrip (c ∷ s) = let rest = lstrip s in if is_space c then rest else c ∷ s

rstrip : String → String
unfolding is_space
rstrip [] = []
rstrip (c ∷ s) = let rest = rstrip s in if is_blank rest && is_space c then [] else c ∷ rest

-- s.strip()
unfoldable pub strip : String → String
unfolding lstrip rstrip
strip s = rstrip (lstrip s)

-- The character stands in front of the first part.
abbrev before_first : Char → List String → List String
before_first c nil = nil
before_first c (cons part parts) = cons (c ∷ part) parts

-- s.split(",")
unfoldable pub split_commas : String → List String
split_commas [] = cons "" nil
split_commas (c ∷ s) =
    let parts = split_commas s in if code c == 44 then cons "" parts else before_first c parts

-- s.split(sep, 1), at a separator of that code: what stands before the first one, and what after it
-- if there is one.
unfoldable pub before : ℕ → String → String
before sep [] = []
before sep (c ∷ s) = let rest = before sep s in if code c == sep then [] else c ∷ rest

unfoldable pub after : ℕ → String → Option String
after sep [] = none
after sep (c ∷ s) = let rest = after sep s in if code c == sep then some s else rest
