-- ===== src/Common/Text.antt =====
-- Texts: the operations of `str` that the program uses.
use Prim.Native.Nat.{ℕ, ◌+◌}
use Prim.Native.Char.{Char, code}
use Prim.Native.String.{String, [] as ε, ◌∷◌ as ◌▹◌}
use mathlib.Core.Bool.{Bool, true, false, ◌&&◌, ◌||◌}
use mathlib.Core.List.{List, [], ◌∷◌, map}
use text.Mathlib.TextBridge.{of_list}
use blackbag.Common.Lists.{take}
use blackbag.Common.Tests.{leb, ◌==◌, if◌then◌else◌}

-- The characters of a text.
abbrev to_list : String → List Char
to_list ε = []
to_list (c ▹ s) = c ∷ to_list s

abbrev pub codes : String → List ℕ
codes s = map code (to_list s)

-- `to_ascii_lowercase`
abbrev lower : ℕ → ℕ
lower c = if leb b'A' c && leb c b'Z' then c + 32 else c

abbrev pub lower_codes : String → List ℕ
lower_codes s = map lower (codes s)

abbrev pub codes_eq : List ℕ → List ℕ → Bool
codes_eq [] [] = true
codes_eq [] (d ∷ ds) = false
codes_eq (c ∷ cs) [] = false
codes_eq (c ∷ cs) (d ∷ ds) = c == d && codes_eq cs ds

abbrev starts_with : List ℕ → List ℕ → Bool
starts_with [] text = true
starts_with (c ∷ cs) [] = false
starts_with (c ∷ cs) (d ∷ ds) = c == d && starts_with cs ds

-- `contains`, the needle first.
abbrev pub contains : List ℕ → List ℕ → Bool
contains needle [] = starts_with needle []
contains needle (c ∷ cs) = starts_with needle (c ∷ cs) || contains needle cs

-- `char::is_whitespace`
abbrev is_whitespace : ℕ → Bool
is_whitespace c =
    (leb 9 c && leb c 13)
    || c == 32
    || c == 133
    || c == 160
    || c == 5760
    || (leb 8192 c && leb c 8202)
    || c == 8232
    || c == 8233
    || c == 8239
    || c == 8287
    || c == 12288

abbrev trim_start : List Char → List Char
trim_start [] = []
trim_start (c ∷ cs) = let rest = trim_start cs in if is_whitespace (code c) then rest else c ∷ cs

abbrev push_trimmed : Char → List Char → List Char
push_trimmed c [] = if is_whitespace (code c) then [] else c ∷ []
push_trimmed c (d ∷ ds) = c ∷ d ∷ ds

abbrev trim_end : List Char → List Char
trim_end [] = []
trim_end (c ∷ cs) = push_trimmed c (trim_end cs)

unfoldable pub trim : String → String
trim s = of_list (trim_end (trim_start (to_list s)))

abbrev lower_in : List Char → List Char → Char → Char
lower_in (u ∷ us) (l ∷ ls) c = let rest = lower_in us ls c in if code c == code u then l else rest
lower_in _ _ c = c

abbrev lower_char : Char → Char
lower_char c =
    lower_in (to_list "ABCDEFGHIJKLMNOPQRSTUVWXYZ") (to_list "abcdefghijklmnopqrstuvwxyz") c

unfoldable pub to_ascii_lowercase : String → String
to_ascii_lowercase s = of_list (map lower_char (to_list s))

abbrev push_undotted : Char → List Char → List Char
push_undotted c [] = if code c == b'.' then [] else c ∷ []
push_undotted c (d ∷ ds) = c ∷ d ∷ ds

abbrev undotted : List Char → List Char
undotted [] = []
undotted (c ∷ cs) = push_undotted c (undotted cs)

-- `trim_end_matches('.')`
unfoldable pub trim_dots : String → String
trim_dots s = of_list (undotted (to_list s))

-- The first `n` characters.
unfoldable pub prefix : ℕ → String → String
prefix n s = of_list (take n (to_list s))
