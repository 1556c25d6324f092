-- ===== src/Text.antt =====
-- Go strings as the lists of their code points (the text is taken to be valid UTF-8), and the
-- functions of package strings that the sources call. A table says what case mapping does to the
-- code points from 128 on; below 128 it is written out.
pub mod Laws
pub mod Base64
use Prim.Native.Char.{code}
use Prim.Native.String
use mathlib.Core.List.{reverse}
use goravel_authkit.Base.{
  ℕ, ◌+◌, ◌-◌, String, Bool, true, false, not, ◌&&◌, ◌||◌, List, [], ◌∷◌, ◌++◌, map, Option, none,
  some, ltb, leb, ◌==◌, if◌then◌else◌,
}

abbrev pub Str : Type 0
Str = List ℕ

-- The code points of a literal of the sources.
abbrev pub lit : String → Str
lit String.[] = []
lit (String.◌∷◌ c s) = code c ∷ lit s

unfoldable pub str_eq : Str → Str → Bool
str_eq [] [] = true
str_eq (a ∷ s) (b ∷ t) = a == b && str_eq s t
str_eq [] (b ∷ t) = false
str_eq (a ∷ s) [] = false

-- The White_Space code points.
unfoldable pub is_space : ℕ → Bool
is_space c =
    (leb 9 c && leb c 13)
    || c == 32
    || c == 0x85
    || c == 0xa0
    || c == 0x1680
    || (leb 0x2000 c && leb c 0x200a)
    || c == 0x2028
    || c == 0x2029
    || c == 0x202f
    || c == 0x205f
    || c == 0x3000

unfoldable pub trim_left : Str → Str
unfolding is_space
trim_left [] = []
trim_left (c ∷ s) = if is_space c then trim_left s else c ∷ s

unfoldable pub trim_space : Str → Str
unfolding trim_left
trim_space s = reverse (trim_left (reverse (trim_left s)))

-- The bytes of a code point in UTF-8, and of a string.
unfoldable pub rune_len : ℕ → ℕ
rune_len c = if ltb c 0x80 then 1 else if ltb c 0x800 then 2 else if ltb c 0x10000 then 3 else 4

unfoldable pub byte_len : Str → ℕ
unfolding rune_len
byte_len [] = 0
byte_len (c ∷ s) = rune_len c + byte_len s

unfoldable pub lower_rune : (ℕ → ℕ) → ℕ → ℕ
lower_rune table c = if ltb c 128 then (if leb b'A' c && leb c b'Z' then c + 32 else c) else table c

unfoldable pub upper_rune : (ℕ → ℕ) → ℕ → ℕ
upper_rune table c = if ltb c 128 then (if leb b'a' c && leb c b'z' then c - 32 else c) else table c

abbrev pub to_lower : (ℕ → ℕ) → Str → Str
to_lower table = map (lower_rune table)

abbrev pub to_upper : (ℕ → ℕ) → Str → Str
to_upper table = map (upper_rune table)

-- Equality under case folding, by the table of simple foldings.
abbrev pub equal_fold : (ℕ → ℕ) → Str → Str → Bool
equal_fold table s t = str_eq (to_lower table s) (to_lower table t)

unfoldable pub has_prefix : Str → Str → Bool
has_prefix s [] = true
has_prefix [] (p ∷ ps) = false
has_prefix (c ∷ s) (p ∷ ps) = c == p && has_prefix s ps

unfoldable pub drop_prefix : Str → Str → Str
drop_prefix s [] = s
drop_prefix [] (p ∷ ps) = []
drop_prefix (c ∷ s) (p ∷ ps) = drop_prefix s ps

unfoldable pub trim_prefix : Str → Str → Str
unfolding has_prefix drop_prefix
trim_prefix s p = if has_prefix s p then drop_prefix s p else s

-- Removes one final `c`.
unfoldable pub trim_suffix_rune : Str → ℕ → Str
trim_suffix_rune [] c = []
trim_suffix_rune (a ∷ []) c = if a == c then [] else a ∷ []
trim_suffix_rune (a ∷ b ∷ s) c = a ∷ trim_suffix_rune (b ∷ s) c

unfoldable pub contains_rune : Str → ℕ → Bool
contains_rune [] c = false
contains_rune (a ∷ s) c = a == c || contains_rune s c

unfoldable pub contains : Str → Str → Bool
unfolding has_prefix
contains [] p = has_prefix [] p
contains (a ∷ s) p = has_prefix (a ∷ s) p || contains s p

abbrev push_before : ℕ → Option (Str × Str) → Option (Str × Str)
push_before a none = none
push_before a (some (before, after)) = some (a ∷ before, after)

-- `strings.Cut` at a separator of one code point.
unfoldable pub cut : Str → ℕ → Option (Str × Str)
cut [] sep = none
cut (a ∷ s) sep = if a == sep then some ([], s) else push_before a (cut s sep)

-- `slices.Contains` on strings.
unfoldable pub mem_str : List Str → Str → Bool
mem_str [] s = false
mem_str (t ∷ ts) s = str_eq t s || mem_str ts s
