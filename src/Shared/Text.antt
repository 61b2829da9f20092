-- ===== src/Shared/Text.antt =====
-- The operations of Python's `str` that the modelled code uses, over ASCII: `strip`, `lower`, the
-- decimal text of a number with leading zeros, and the parts of a text around a character.
use Prim.Native.Nat.{◌/◌, ◌%◌}
use Prim.Native.Char.{Char, code}
use Prim.Native.String.{◌++◌ as append, count}
use unknown_file_threat_agen.Prelude.{
  ℕ, zero, suc, ◌+◌, ◌-◌, String, Bool, true, false, ◌&&◌, ◌||◌, ltb, leb, eqb, if◌then◌else◌,
}

is_space : ℕ → Bool
is_space c = eqb c b' ' || (leb 9 c && leb c 13) || (leb 28 c && leb c 31)

unfoldable pub is_empty : String → Bool
is_empty String.[] = true
is_empty (String.◌∷◌ c s) = false

strip_left : String → String
unfolding is_space
strip_left String.[] = ""
strip_left (String.◌∷◌ c s) =
    let rest = strip_left s in if is_space (code c) then rest else String.◌∷◌ c s

strip_right : String → String
unfolding is_space is_empty
strip_right String.[] = ""
strip_right (String.◌∷◌ c s) =
    let rest = strip_right s in if is_space (code c) && is_empty rest then "" else String.◌∷◌ c rest

-- `s.strip()`
unfoldable pub strip : String → String
unfolding strip_left strip_right
strip s = strip_right (strip_left s)

-- the character that stands in the second text where `c` stands in the first
exchange : String → String → Char → Char
exchange (String.◌∷◌ u us) (String.◌∷◌ l ls) c =
    let rest = exchange us ls c in if eqb (code c) (code u) then l else rest
exchange _ _ c = c

-- `s.lower()`
unfoldable pub lower : String → String
unfolding exchange
lower String.[] = ""
lower (String.◌∷◌ c s) =
    String.◌∷◌ (exchange "ABCDEFGHIJKLMNOPQRSTUVWXYZ" "abcdefghijklmnopqrstuvwxyz" c) (lower s)

digit : ℕ → String
digit zero = "0"
digit (suc zero) = "1"
digit (suc (suc zero)) = "2"
digit (suc (suc (suc zero))) = "3"
digit (suc (suc (suc (suc zero)))) = "4"
digit (suc (suc (suc (suc (suc zero))))) = "5"
digit (suc (suc (suc (suc (suc (suc zero)))))) = "6"
digit (suc (suc (suc (suc (suc (suc (suc zero))))))) = "7"
digit (suc (suc (suc (suc (suc (suc (suc (suc zero)))))))) = "8"
digit _ = "9"

-- the digits of a number in front of a text; a number has fewer digits than its value plus one
decimal_from : ℕ → ℕ → String → String
unfolding digit
decimal_from zero n text = text
decimal_from (suc fuel) n text =
    let here = append (digit (n % 10)) text in
    let rest = decimal_from fuel (n / 10) here in if ltb n 10 then here else rest

zeros : ℕ → String → String
zeros zero text = text
zeros (suc n) text = append "0" (zeros n text)

-- `f"{n:0{width}d}"`
unfoldable pub padded : ℕ → ℕ → String
unfolding decimal_from zeros
padded width n = let text = decimal_from (n + 1) n "" in zeros (width - count text) text

-- `s.partition(c)[0]`, which is `s.split(c)[0]`
unfoldable pub before_char : ℕ → String → String
before_char c String.[] = ""
before_char c (String.◌∷◌ d s) =
    let rest = before_char c s in if eqb c (code d) then "" else String.◌∷◌ d rest

-- `s.partition(c)[2]`
unfoldable pub after_char : ℕ → String → String
after_char c String.[] = ""
after_char c (String.◌∷◌ d s) = let rest = after_char c s in if eqb c (code d) then s else rest

-- `s.startswith(prefix)`
unfoldable pub starts_with : String → String → Bool
starts_with String.[] s = true
starts_with (String.◌∷◌ c prefix) String.[] = false
starts_with (String.◌∷◌ c prefix) (String.◌∷◌ d s) = eqb (code c) (code d) && starts_with prefix s

-- `part in s`
unfoldable pub contains : String → String → Bool
unfolding starts_with
contains part String.[] = starts_with part ""
contains part (String.◌∷◌ d s) =
    let rest = contains part s in starts_with part (String.◌∷◌ d s) || rest
