-- ===== src/Text.antt =====
-- JavaScript's strings as the program uses them: `trim`, `length`, and the order of `<`.
-- A text is a sequence of code points; `length` and `<` go by UTF-16 code units, as in JavaScript.
use Prim.Native.Char.{code}
use Prim.Native.String
use processing_catalog.Prelude.{
  ℕ, ◌+◌, ◌-◌, ◌/◌, ◌%◌, String, ◌==◌, Bool, true, false, ◌&&◌, ◌||◌, List, [], ◌∷◌, ◌++◌, length,
  leb, ltb, nat_eq, if◌then◌else◌,
}

-- The characters that `trim` removes: WhiteSpace and LineTerminator of the language.
unfoldable pub is_space : ℕ → Bool
is_space c =
    (leb 9 c && leb c 13)
    || nat_eq c 32
    || nat_eq c 160
    || nat_eq c 0x1680
    || (leb 0x2000 c && leb c 0x200a)
    || nat_eq c 0x2028
    || nat_eq c 0x2029
    || nat_eq c 0x202f
    || nat_eq c 0x205f
    || nat_eq c 0x3000
    || nat_eq c 0xfeff

-- s.trimStart()
unfoldable pub trim_start : String → String
trim_start String.[] = String.[]
trim_start (String.◌∷◌ c s) =
    let rest = trim_start s in if is_space (code c) then rest else String.◌∷◌ c s

-- s.trim().length === 0
unfoldable pub is_blank : String → Bool
unfolding is_space
is_blank String.[] = true
is_blank (String.◌∷◌ c s) = is_space (code c) && is_blank s

-- s.trimEnd(): what is left of a blank tail is nothing
unfoldable pub trim_end : String → String
trim_end String.[] = String.[]
trim_end (String.◌∷◌ c s) =
    let rest = trim_end s in
    if is_space (code c) && is_blank s then String.[] else String.◌∷◌ c rest

unfoldable pub trim : String → String
unfolding trim_start trim_end is_blank is_space
trim s = trim_end (trim_start s)

-- The UTF-16 code units of a code point.
abbrev pub code_units : ℕ → List ℕ
code_units c =
    if ltb c 0x10000
    then c ∷ []
    else (0xd800 + (c - 0x10000) / 1024) ∷ (0xdc00 + (c - 0x10000) % 1024) ∷ []

unfoldable pub utf16 : String → List ℕ
utf16 String.[] = []
utf16 (String.◌∷◌ c s) = code_units (code c) ++ utf16 s

-- s.length
unfoldable pub text_length : String → ℕ
unfolding utf16
text_length s = length (utf16 s)

-- !s || s.trim().length === 0
unfoldable pub is_missing : String → Bool
unfolding trim text_length
is_missing s = s == "" || nat_eq (text_length (trim s)) 0

-- The order of `a < b` on texts: by code units.
unfoldable pub units_lt : List ℕ → List ℕ → Bool
units_lt [] [] = false
units_lt [] (y ∷ ys) = true
units_lt (x ∷ xs) [] = false
units_lt (x ∷ xs) (y ∷ ys) = if ltb x y then true else (if ltb y x then false else units_lt xs ys)

unfoldable pub text_lt : String → String → Bool
unfolding units_lt utf16
text_lt s t = units_lt (utf16 s) (utf16 t)

-- a + b on texts, and the templates that the messages use
infixr 65 ◌<>◌
abbrev pub ◌<>◌ : String → String → String
s <> t = String.◌++◌ s t
