-- ===== src/Common/Text.antt =====
-- Python's operations on texts that the program calls: `str.strip`, `len`, slices and tests on
-- characters. A text is a sequence of code points. What rests on the tables of the Unicode database
-- (`str.casefold`, the decomposition of `unicodedata.normalize`, the class `\d` of `re`) is a
-- parameter, `Python`.
use Prim.Native.Char.{Char, code}
use rrpp_agent_bridge.Common.Json.{Value, text}
use rrpp_agent_bridge.Common.{
  ℕ, zero, suc, String, List, [], ◌∷◌, Bool, true, false, ◌&&◌, ◌||◌, leb, eqb, if◌then◌else◌,
}

pub record Python : Type 0 where
  -- value.casefold()
  pub casefold : String → String
  -- The letters and marks of `unicodedata.normalize("NFKD", value)` whose category is not "Mn".
  pub without_marks : String → String
  -- The codes that `\d` matches.
  pub is_decimal : ℕ → Bool
  -- str(value), for a value that is no text.
  pub show : Value → String

-- str(value)
abbrev pub to_text : Python → Value → String
to_text python (text s) = s
to_text python v = python.show v

-- The code points that `str.isspace` accepts.
unfoldable pub is_space : ℕ → Bool
is_space c =
    (leb 9 c && leb c 13)
    || (leb 28 c && leb c 32)
    || eqb c 133
    || eqb c 160
    || eqb c 5760
    || (leb 8192 c && leb c 8202)
    || eqb c 8232
    || eqb c 8233
    || eqb c 8239
    || eqb c 8287
    || eqb c 12288

unfoldable pub is_empty : String → Bool
is_empty String.[] = true
is_empty (String.◌∷◌ c s) = false

-- len(value)
unfoldable pub text_length : String → ℕ
text_length String.[] = 0
text_length (String.◌∷◌ c s) = suc (text_length s)

unfoldable pub lstrip : String → String
unfolding is_space
lstrip String.[] = String.[]
lstrip (String.◌∷◌ c s) = let rest = lstrip s in if is_space (code c) then rest else String.◌∷◌ c s

-- A trailing white space is dropped from the right end.
unfoldable pub rstrip : String → String
unfolding is_space is_empty
rstrip String.[] = String.[]
rstrip (String.◌∷◌ c s) =
    let rest = rstrip s in
    if is_space (code c) && is_empty rest then String.[] else String.◌∷◌ c rest

-- value.strip()
unfoldable pub strip : String → String
unfolding lstrip rstrip
strip s = rstrip (lstrip s)

-- value[:limit]
unfoldable pub prefix : ℕ → String → String
prefix zero s = String.[]
prefix (suc n) String.[] = String.[]
prefix (suc n) (String.◌∷◌ c s) = String.◌∷◌ c (prefix n s)

-- value[n:]
unfoldable pub drop_chars : ℕ → String → String
drop_chars zero s = s
drop_chars (suc n) String.[] = String.[]
drop_chars (suc n) (String.◌∷◌ c s) = drop_chars n s

-- any(test(ord(character)) for character in value)
unfoldable pub any_char : (ℕ → Bool) → String → Bool
any_char p String.[] = false
any_char p (String.◌∷◌ c s) = p (code c) || any_char p s

infixr 65 ◌⧺◌
unfoldable pub ◌⧺◌ : String → String → String
String.[] ⧺ t = t
String.◌∷◌ c s ⧺ t = String.◌∷◌ c (s ⧺ t)

-- The number of characters of a kind.
unfoldable pub count_chars : (ℕ → Bool) → String → ℕ
count_chars p String.[] = 0
count_chars p (String.◌∷◌ c s) = let rest = count_chars p s in if p (code c) then suc rest else rest

abbrev pub is_alnum : ℕ → Bool
is_alnum c = (leb b'a' c && leb c b'z') || (leb b'0' c && leb c b'9')

abbrev pub begins_run : String → Bool
begins_run String.[] = false
begins_run (String.◌∷◌ c s) = is_alnum (code c)

abbrev pub join_run : Char → Bool → List String → List String
join_run c true (w ∷ ws) = String.◌∷◌ c w ∷ ws
join_run c _ ws = String.◌∷◌ c String.[] ∷ ws

-- re.findall(r"[a-z0-9]+", value)
unfoldable pub alnum_runs : String → List String
alnum_runs String.[] = []
alnum_runs (String.◌∷◌ c s) =
    let rest = alnum_runs s in if is_alnum (code c) then join_run c (begins_run s) rest else rest

-- " ".join(values)
unfoldable pub join_words : List String → String
unfolding ◌⧺◌
join_words [] = ""
join_words (w ∷ []) = w
join_words (w ∷ v ∷ ws) = w ⧺ " " ⧺ join_words (v ∷ ws)

unfoldable pub is_prefix : String → String → Bool
is_prefix String.[] t = true
is_prefix (String.◌∷◌ c s) String.[] = false
is_prefix (String.◌∷◌ c s) (String.◌∷◌ d t) = eqb (code c) (code d) && is_prefix s t

-- part in value
unfoldable pub contains : String → String → Bool
unfolding is_prefix
contains part String.[] = is_prefix part String.[]
contains part (String.◌∷◌ c s) = is_prefix part (String.◌∷◌ c s) || contains part s
