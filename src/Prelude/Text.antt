-- ===== src/Prelude/Text.antt =====
-- Texts as Go's standard library reads them: `strings.TrimSpace` and `strconv.Atoi`.
use Prim.Native.Char.{code}
use Prim.Native.String.{String, [], ◌∷◌, ◌++◌ as append}
use Prim.Native.Nat.{ℕ, zero, suc, ◌+◌, ◌-◌, ◌*◌, ◌^◌}
use mathlib.Core.Bool.{Bool, true, ◌&&◌, ◌||◌}
use mathlib.Core.Option.{Option, none, some}
use digital_store.Prelude.Tests.{leb, ltb, ◌==◌, str_eq, if◌then◌else◌}
use digital_store.Prelude.Int.{ℤ, pos, negsuc}

-- `unicode.IsSpace`
abbrev pub is_space : ℕ → Bool
is_space c =
    (leb 9 c && leb c 13)
    || (c == 32)
    || (c == 0x85)
    || (c == 0xa0)
    || (c == 0x1680)
    || (leb 0x2000 c && leb c 0x200a)
    || (c == 0x2028)
    || (c == 0x2029)
    || (c == 0x202f)
    || (c == 0x205f)
    || (c == 0x3000)

unfoldable trim_left : String → String
trim_left [] = ""
trim_left (c ∷ s) = let rest = trim_left s in if is_space (code c) then rest else c ∷ s

unfoldable trim_right : String → String
trim_right [] = ""
trim_right (c ∷ s) =
    let rest = trim_right s in if is_space (code c) && str_eq rest "" then "" else c ∷ rest

-- `strings.TrimSpace`
unfoldable pub trim_space : String → String
unfolding trim_left trim_right
trim_space s = trim_right (trim_left s)

-- `strings.TrimRight` of slashes
unfoldable pub trim_slashes : String → String
trim_slashes [] = ""
trim_slashes (c ∷ s) =
    let rest = trim_slashes s in if code c == 47 && str_eq rest "" then "" else c ∷ rest

-- Whether there is nothing but spaces in a text.
unfoldable is_blank : String → Bool
is_blank [] = true
is_blank (c ∷ s) = let rest = is_blank s in (code c == 32) && rest

-- Whether a column of type CHAR(n) takes a text: what goes past n characters must be spaces.
unfoldable pub fits_char : ℕ → String → Bool
unfolding is_blank
fits_char zero s = is_blank s
fits_char (suc n) [] = true
fits_char (suc n) (c ∷ s) = fits_char n s

-- What a column of type CHAR(n) makes of a text that fits: exactly n characters.
unfoldable pub char_of : ℕ → String → String
char_of zero s = ""
char_of (suc n) [] = append " " (char_of n [])
char_of (suc n) (c ∷ s) = c ∷ char_of n s

-- The number that the digits add to `n`.
unfoldable digits_from : ℕ → String → Option ℕ
digits_from n [] = some n
digits_from n (c ∷ s) =
    let rest = digits_from (n * 10 + (code c - 48)) s in
    if leb 48 (code c) && leb (code c) 57 then rest else none

-- An unsigned number, which has a digit.
unfoldable digits : String → Option ℕ
unfolding digits_from
digits s = if str_eq s "" then none else digits_from 0 s

-- int64 from a sign and a magnitude, with no value out of range
abbrev up_to : ℕ → ℕ → Option ℤ
up_to bound n = if ltb n bound then some (pos n) else none

abbrev negative : ℕ → Option ℤ
negative n = if n == 0 then some (pos 0) else if leb n (2 ^ 63) then some (negsuc (n - 1)) else none

abbrev and_then : {A B : Type 0} → Option A → (A → Option B) → Option B
and_then none f = none
and_then (some a) f = f a

-- `strconv.Atoi`
unfoldable pub atoi : String → Option ℤ
unfolding digits
atoi [] = none
atoi (c ∷ s) =
    if code c == 45
    then and_then (digits s) negative
    else if code c == 43
    then and_then (digits s) (up_to (2 ^ 63))
    else and_then (digits (c ∷ s)) (up_to (2 ^ 63))
