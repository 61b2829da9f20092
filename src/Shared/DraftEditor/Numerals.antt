-- ===== src/Shared/DraftEditor/Numerals.antt =====
-- Python's reading of numerals, over ASCII: `s.lstrip("-").isdigit()` and `int(s)`, which allows
-- spaces around, a sign, and single underscores between digits.
use mathlib.Core.Option
use Prim.Native.Char.{code}
use Prim.Native.String.{String}
use unknown_file_threat_agen.Prelude.Int.{ℤ, pos, negsuc}
use unknown_file_threat_agen.Prelude.{
  ℕ, zero, suc, ◌+◌, ◌-◌, ◌*◌, String, Bool, true, false, not, ◌&&◌, ◌||◌, Option, none, some, List,
  [], ◌∷◌, leb, eqb, if◌then◌else◌, all, is_nil,
}

codes : String → List ℕ
codes String.[] = []
codes (String.◌∷◌ c s) = code c ∷ codes s

is_digit : ℕ → Bool
is_digit c = leb b'0' c && leb c b'9'

strip_dashes : List ℕ → List ℕ
strip_dashes [] = []
strip_dashes (c ∷ cs) = let rest = strip_dashes cs in if eqb c b'-' then rest else c ∷ cs

unfoldable pub is_numeral : String → Bool
unfolding codes is_digit strip_dashes
is_numeral s = let cs = strip_dashes (codes s) in not (is_nil cs) && all is_digit cs

is_space : ℕ → Bool
is_space c = eqb c b' ' || (leb 9 c && leb c 13) || (leb 28 c && leb c 31)

strip_left : List ℕ → List ℕ
strip_left [] = []
strip_left (c ∷ cs) = let rest = strip_left cs in if is_space c then rest else c ∷ cs

strip_right : List ℕ → List ℕ
strip_right [] = []
strip_right (c ∷ cs) =
    let rest = strip_right cs in if is_space c && is_nil rest then [] else c ∷ rest

-- digits with single underscores between them; the flag says that the last one was a digit
digits : ℕ → Bool → List ℕ → Option ℕ
digits n after_digit [] = if after_digit then some n else none
digits n after_digit (c ∷ cs) = elim (is_digit c) [
  | true ↦ digits (n * 10 + (c - b'0')) true cs
  | false ↦ elim (after_digit && eqb c b'_') [ true ↦ digits n false cs | false ↦ none ]
]

negate : ℕ → ℤ
negate zero = pos 0
negate (suc n) = negsuc n

signed : List ℕ → Option ℤ
signed [] = none
signed (c ∷ cs) =
    if eqb c b'-'
    then Option.map negate (digits 0 false cs)
    else if eqb c b'+'
    then Option.map pos (digits 0 false cs)
    else Option.map pos (digits 0 false (c ∷ cs))

unfoldable pub to_int : String → Option ℤ
unfolding codes is_digit is_space strip_left strip_right digits negate signed
to_int s = signed (strip_left (strip_right (codes s)))
