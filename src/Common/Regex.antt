-- ===== src/Common/Regex.antt =====
-- The regular expressions that the program uses, as `re` matches them: by backtracking, with word
-- boundaries. The matcher passes on the code before the position, if there is one, and the rest.
use Prim.Native.Char.{code}
use rrpp_agent_bridge.Common.{
  ℕ, zero, suc, ◌-◌, String, Bool, true, false, not, ◌&&◌, ◌||◌, Option, none, some, leb, eqb,
}
use rrpp_agent_bridge.Common.Text.{text_length, is_empty}

pub data Regex : Type 0 where
  nothing : Regex
  -- A code between two codes.
  range : ℕ → ℕ → Regex
  seq : Regex → Regex → Regex
  alt : Regex → Regex → Regex
  -- (?:r)*
  star : Regex → Regex
  -- \b
  boundary : Regex

infixr 40 ◌then◌
infixr 30 ◌or◌
abbrev pub ◌then◌ : Regex → Regex → Regex
◌then◌ = seq

abbrev pub ◌or◌ : Regex → Regex → Regex
◌or◌ = alt

-- (?:r)?
abbrev pub opt : Regex → Regex
opt r = alt r nothing

-- A literal text.
unfoldable pub lit : String → Regex
lit String.[] = nothing
lit (String.◌∷◌ c s) = seq (range (code c) (code c)) (lit s)

-- (?:r){0,n}
unfoldable pub up_to : ℕ → Regex → Regex
up_to zero r = nothing
up_to (suc n) r = opt (seq r (up_to n r))

-- (?:r){n}
unfoldable pub times : ℕ → Regex → Regex
times zero r = nothing
times (suc n) r = seq r (times n r)

-- (?:r){low,high}
unfoldable pub between : ℕ → ℕ → Regex → Regex
unfolding times up_to
between low high r = seq (times low r) (up_to (high - low) r)

unfoldable pub is_word : ℕ → Bool
is_word c =
    (leb b'a' c && leb c b'z')
    || (leb b'A' c && leb c b'Z')
    || (leb b'0' c && leb c b'9')
    || eqb c b'_'

abbrev pub word_before : Option ℕ → Bool
word_before none = false
word_before (some c) = is_word c

abbrev pub word_after : String → Bool
word_after String.[] = false
word_after (String.◌∷◌ c s) = is_word (code c)

abbrev pub differ : Bool → Bool → Bool
differ true b = not b
differ false b = b

abbrev pub Next : Type 0
Next = Option ℕ → String → Bool

unfoldable pub step_range : ℕ → ℕ → Next → String → Bool
step_range low high next String.[] = false
step_range low high next (String.◌∷◌ c s) = elim (leb low (code c) && leb (code c) high) [
  | true ↦ next (some (code c)) s
  | false ↦ false
]

-- A further round of a repetition is tried while the rest gets shorter.
unfoldable pub repeat : (Next → Next) → ℕ → Next → Next
repeat m zero next before s = next before s
repeat m (suc n) next before s = elim (m (repeat m n next) before s) [
  | true ↦ true
  | false ↦ next before s
]

unfoldable pub match_from : Regex → Next → Next
unfolding step_range repeat is_word text_length
match_from nothing next before s = next before s
match_from (range low high) next before s = step_range low high next s
match_from (seq r q) next before s = match_from r (match_from q next) before s
match_from (alt r q) next before s = elim (match_from r next before s) [
  | true ↦ true
  | false ↦ match_from q next before s
]
match_from (star r) next before s = repeat (match_from r) (text_length s) next before s
match_from boundary next before s = elim (differ (word_before before) (word_after s)) [
  | true ↦ next before s
  | false ↦ false
]

unfoldable pub search_from : Regex → Option ℕ → String → Bool
unfolding match_from
search_from r before String.[] = match_from r (λ _ _. true) before String.[]
search_from r before (String.◌∷◌ c s) = elim (match_from r (λ _ _. true) before (String.◌∷◌ c s)) [
  | true ↦ true
  | false ↦ search_from r (some (code c)) s
]

-- bool(pattern.search(value))
unfoldable pub matches_in : Regex → String → Bool
unfolding search_from
matches_in r s = search_from r none s

-- bool(pattern.fullmatch(value))
unfoldable pub full_match : Regex → String → Bool
unfolding match_from is_empty
full_match r s = match_from r (λ _ rest. is_empty rest) none s
