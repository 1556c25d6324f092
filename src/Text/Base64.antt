-- ===== src/Text/Base64.antt =====
-- base64.RawURLEncoding: the alphabet of URLs without padding. A decoder skips line breaks and
-- does not look at the bits that the last character has too many.
use goravel_authkit.Base.{
  ℕ, ◌+◌, ◌-◌, ◌*◌, ◌/◌, ◌%◌, ◌≡◌, ◌<◌, refl, false, ◌&&◌, ◌||◌, List, [], ◌∷◌, Option, none, some,
  arith, ltb, leb, ◌==◌, if◌then◌else◌, All, keep, not, map, ◌⊎◌,
}
use goravel_authkit.Text.{Str, lit, str_eq, contains_rune}

unfoldable pub char_of : ℕ → ℕ
char_of n =
    if ltb n 26
    then n + 65
    else if ltb n 52
    then n + 71
    else if ltb n 62
    then n - 4
    else if n == 62
    then b'-'
    else b'_'

unfoldable pub value_of : ℕ → Option ℕ
value_of c =
    if leb b'A' c && leb c b'Z'
    then some (c - 65)
    else if leb b'a' c && leb c b'z'
    then some (c - 71)
    else if leb b'0' c && leb c b'9'
    then some (c + 4)
    else if c == b'-'
    then some 62
    else if c == b'_'
    then some 63
    else none

unfoldable pub encode : List ℕ → Str
unfolding char_of
encode [] = []
encode (a ∷ []) = char_of (a / 4) ∷ char_of (a % 4 * 16) ∷ []
encode (a ∷ b ∷ []) = char_of (a / 4) ∷ char_of (a % 4 * 16 + b / 16) ∷ char_of (b % 16 * 4) ∷ []
encode (a ∷ b ∷ c ∷ r) =
    char_of (a / 4)
    ∷ char_of (a % 4 * 16 + b / 16)
    ∷ char_of (b % 16 * 4 + c / 64)
    ∷ char_of (c % 64)
    ∷ encode r

unfoldable pub values : Str → Option (List ℕ)
unfolding value_of
values [] = some []
values (c ∷ s) = elim (value_of c) [
  | none ↦ none
  | some v ↦ elim (values s) [ none ↦ none | some vs ↦ some (v ∷ vs) ]
]

unfoldable pub join_bits : List ℕ → Option (List ℕ)
join_bits [] = some []
join_bits (p ∷ []) = none
join_bits (p ∷ q ∷ []) = some ((p * 4 + q / 16) ∷ [])
join_bits (p ∷ q ∷ r ∷ []) = some ((p * 4 + q / 16) ∷ (q % 16 * 16 + r / 4) ∷ [])
join_bits (p ∷ q ∷ r ∷ t ∷ vs) = elim (join_bits vs) [
  | none ↦ none
  | some bs ↦ some ((p * 4 + q / 16) ∷ (q % 16 * 16 + r / 4) ∷ (r % 4 * 64 + t) ∷ bs)
]

unfoldable pub decode : Str → Option (List ℕ)
unfolding values join_bits
decode s = elim (values (keep (λ c. not (c == 10 || c == 13)) s)) [
  | none ↦ none
  | some vs ↦ join_bits vs
]

abbrev pub Bytes : List ℕ → Type 0
Bytes = All (λ b. b < 256)

value_of-char_of : (n : ℕ) → n < 64 → value_of (char_of n) ≡ some n
unfolding value_of char_of
value_of-char_of n h = ground arith

-- The characters of the encoding.
abbrev sextets : List ℕ → List ℕ
sextets [] = []
sextets (a ∷ []) = a / 4 ∷ (a % 4 * 16) ∷ []
sextets (a ∷ b ∷ []) = a / 4 ∷ (a % 4 * 16 + b / 16) ∷ (b % 16 * 4) ∷ []
sextets (a ∷ b ∷ c ∷ r) = a / 4 ∷ (a % 4 * 16 + b / 16) ∷ (b % 16 * 4 + c / 64) ∷ c % 64 ∷ sextets r

encode-sextets : (bs : List ℕ) → encode bs ≡ map char_of (sextets bs)
unfolding encode
encode-sextets [] = refl
encode-sextets (a ∷ []) = refl
encode-sextets (a ∷ b ∷ []) = refl
encode-sextets (a ∷ b ∷ c ∷ r) = rw (encode-sextets r)

sextets-lt : (bs : List ℕ) → Bytes bs → All (λ v. v < 64) (sextets bs)
sextets-lt [] h = tt
sextets-lt (a ∷ []) h = omega arith
sextets-lt (a ∷ b ∷ []) h = omega arith
sextets-lt (a ∷ b ∷ c ∷ r) h =
    let rest = sextets-lt r h.1.1.1 in
    (omega arith, (omega arith, (omega arith, (omega arith, rest))))

keep-chars :
    (vs : List ℕ)
    → All (λ v. v < 64) vs
    → keep (λ c. not (c == 10 || c == 13)) (map char_of vs) ≡ map char_of vs
unfolding char_of
keep-chars [] h = refl
keep-chars (v ∷ vs) h = ground (arith, keep-chars vs h.1)

values-chars : (vs : List ℕ) → All (λ v. v < 64) vs → values (map char_of vs) ≡ some vs
unfolding values
values-chars [] h = refl
values-chars (v ∷ vs) h = rw (value_of-char_of v h.0, values, values-chars vs h.1)

join_bits-sextets : (bs : List ℕ) → Bytes bs → join_bits (sextets bs) ≡ some bs
unfolding join_bits
join_bits-sextets [] h = refl
join_bits-sextets (a ∷ []) h = ground arith
join_bits-sextets (a ∷ b ∷ []) h = ground arith
join_bits-sextets (a ∷ b ∷ c ∷ r) h = ground (arith, join_bits-sextets r h.1.1.1)

-- Decoding gives back the bytes that were encoded.
pub decode-encode : (bs : List ℕ) → Bytes bs → decode (encode bs) ≡ some bs
unfolding decode
decode-encode bs h =
    rw
      (
        encode-sextets bs,
        keep-chars (sextets bs) (sextets-lt bs h),
        values-chars (sextets bs) (sextets-lt bs h),
        decode,
      )
      (join_bits-sextets bs h)

char_of-plain : (n sep : ℕ) → n < 64 → (sep ≡ b':') ⊎ (sep ≡ b'.') → (char_of n == sep) ≡ false
unfolding char_of
char_of-plain n sep h s = ground arith

chars-plain :
    (vs : List ℕ) (sep : ℕ)
    → All (λ v. v < 64) vs
    → (sep ≡ b':') ⊎ (sep ≡ b'.')
    → contains_rune (map char_of vs) sep ≡ false
unfolding contains_rune
chars-plain [] sep h s = refl
chars-plain (v ∷ vs) sep h s = rw (char_of-plain v sep h.0 s) (chars-plain vs sep h.1 s)

-- Neither ":" nor "." is in an encoding.
pub encode-plain :
    (bs : List ℕ) (sep : ℕ)
    → Bytes bs
    → (sep ≡ b':') ⊎ (sep ≡ b'.')
    → contains_rune (encode bs) sep ≡ false
encode-plain bs sep h s = rw (encode-sextets bs) (chars-plain (sextets bs) sep (sextets-lt bs h) s)

pub encode-nonempty : (b : ℕ) (bs : List ℕ) → str_eq (encode (b ∷ bs)) (lit "") ≡ false
unfolding encode str_eq
encode-nonempty b [] = refl
encode-nonempty b (c ∷ []) = refl
encode-nonempty b (c ∷ d ∷ bs) = refl
