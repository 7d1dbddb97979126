-- ===== src/OpenClaw/Diagnostics.antt =====
-- What the diagnostic of `_parse_response` of rrpp_bridge/openclaw_client.py shows of an answer.
use Prim.Native.Char.{code}
use rrpp_agent_bridge.Common.{
  ℕ, String, Bool, true, false, not, ◌&&◌, ◌||◌, List, [], ◌∷◌, map, ◌≡◌, refl, arith, eqb, leb,
  all_where, select_where, if◌then◌else◌, if-both,
}
use rrpp_agent_bridge.Common.Json.{Fields, keys, member}
use rrpp_agent_bridge.Common.Text.{any_char, is_empty, text_length, ◌⧺◌}
use rrpp_agent_bridge.OpenClaw.Decision.{
  expected_fields, fields_diagnostic, insert_name, is_safe_char, join_commas, or_none, safe_field,
  sorted_names,
}
use rrpp_agent_bridge.OpenClaw.Fences.{any_char-append}

-- A character other than a letter or digit of ASCII, `_`, `-`, `=`, `;` and `,`.
abbrev pub is_unsafe : ℕ → Bool
is_unsafe c = not (is_safe_char c || eqb c b'=' || eqb c b';' || eqb c b',')

abbrev is_clean : String → Bool
is_clean s = not (any_char is_unsafe s)

any_char-le :
    (p q : ℕ → Bool) (s : String)
    → ((c : ℕ) → p c ≡ false → q c ≡ false)
    → any_char p s ≡ false
    → any_char q s ≡ false
unfolding any_char
any_char-le p q String.[] le h = refl
any_char-le p q (String.◌∷◌ c s) le h = ground (arith, h, le (code c), any_char-le p q s le)

literals :
    (is_clean "invalid" ≡ true)
    × (is_clean "none" ≡ true)
    × (is_clean "," ≡ true)
    × (is_clean "missing=" ≡ true)
    × (is_clean ";extra=" ≡ true)
    × (is_clean "" ≡ true)
unfolding any_char is_safe_char
literals = (refl, refl, refl, refl, refl, refl)

clean-append : (s t : String) → is_clean s ≡ true → is_clean t ≡ true → is_clean (s ⧺ t) ≡ true
clean-append s t hs ht = ground (arith, any_char-append is_unsafe s t, hs, ht)

safe_field-clean : (name : String) → is_clean (safe_field name) ≡ true
unfolding safe_field
safe_field-clean name =
    shown (any_char (λ c. not (is_safe_char c)) name) (leb 1 (text_length name))
      (leb (text_length name) 40) clean
  where
    clean : any_char (λ c. not (is_safe_char c)) name ≡ false → is_clean name ≡ true
    clean h =
        ground (
          arith,
          any_char-le (λ c. not (is_safe_char c)) is_unsafe name (λ c e. ground (arith, e)) h,
        )

    shown :
        (odd a b : Bool)
        → (odd ≡ false → is_clean name ≡ true)
        → is_clean (if a && b && not odd then name else "invalid") ≡ true
    shown odd a b h = ground (arith, h, literals.0)

module _ (p : String → Bool) where
  select-all :
      (q : String → Bool) (l : List String)
      → all_where p l ≡ true
      → all_where p (select_where q l) ≡ true
  unfolding all_where select_where
  select-all q [] h = h
  select-all q (s ∷ l) h = ground (arith, h, select-all q l)

  insert-all :
      (s : String) (l : List String)
      → p s ≡ true
      → all_where p l ≡ true
      → all_where p (insert_name s l) ≡ true
  unfolding all_where insert_name
  insert-all s [] hs h = ground (arith, hs)
  insert-all s (t ∷ l) hs h = ground (arith, hs, h, insert-all s l)

  sorted-all : (l : List String) → all_where p l ≡ true → all_where p (sorted_names l) ≡ true
  unfolding all_where sorted_names
  sorted-all [] h = h
  sorted-all (s ∷ l) h =
      insert-all s (sorted_names l) (ground (arith, h)) (sorted-all l (ground (arith, h)))

safe-all : (l : List String) → all_where is_clean (map safe_field l) ≡ true
unfolding all_where
safe-all [] = refl
safe-all (s ∷ l) = ground (arith, safe_field-clean s, safe-all l)

expected-all : all_where is_clean expected_fields ≡ true
unfolding all_where any_char is_safe_char
expected-all = refl

join-clean : (l : List String) → all_where is_clean l ≡ true → is_clean (join_commas l) ≡ true
unfolding all_where join_commas
join-clean [] h = literals.5
join-clean (s ∷ []) h = ground (arith, h)
join-clean (s ∷ t ∷ l) h =
    clean-append s _ (ground (arith, h))
      (clean-append "," _ literals.2 (join-clean (t ∷ l) (ground (arith, h))))

or_none-clean : (s : String) → is_clean s ≡ true → is_clean (or_none s) ≡ true
or_none-clean s h = if-both (λ t. is_clean t ≡ true) (is_empty s) "none" s literals.1 h

-- Whatever object the agent gives in place of a decision, the diagnostic that is made of the names of
-- its fields has only letters and digits of ASCII and the marks `_`, `-`, `=`, `;` and `,`.
pub fields_diagnostic-safe :
    (arguments : Fields) → any_char is_unsafe (fields_diagnostic arguments) ≡ false
unfolding fields_diagnostic
fields_diagnostic-safe arguments =
    let safe = map safe_field (keys arguments) in
    let missing =
      join-clean (select_where (λ name. not (member name safe)) expected_fields)
        (select-all is_clean _ expected_fields expected-all) in
    let extra =
      join-clean (sorted_names (select_where (λ name. not (member name expected_fields)) safe))
        (sorted-all is_clean _ (select-all is_clean _ safe (safe-all (keys arguments)))) in
    not-false _ (
      clean-append "missing=" _ literals.3 (
        clean-append _ _ (or_none-clean _ missing)
          (clean-append ";extra=" _ literals.4 (or_none-clean _ extra))))
  where
    not-false : (b : Bool) → not b ≡ true → b ≡ false
    not-false b h = ground (arith, h)
