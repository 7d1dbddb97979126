-- ===== src/OpenClaw/Fences.antt =====
-- What `_parse_response` of rrpp_bridge/openclaw_client.py finds between two fences.
use Prim.Native.Char.{Char, code}
use rrpp_agent_bridge.Common.{
  ℕ, ◌+◌, ◌-◌, ◌≤◌, String, Bool, true, false, ◌&&◌, ◌||◌, some, ◌≡◌, refl, sym, ap, ◌∙◌, arith,
  ==-refl, inl, inr, Bool-cases, if◌then◌else◌,
}
use rrpp_agent_bridge.Common.Text.{
  any_char, drop_chars, is_empty, is_prefix, is_space, lstrip, prefix, rstrip, strip, text_length,
  ◌⧺◌,
}
use rrpp_agent_bridge.OpenClaw.Client.{after_json, inside_fences, unfenced}

append_assoc : (s t u : String) → (s ⧺ t) ⧺ u ≡ s ⧺ (t ⧺ u)
unfolding ◌⧺◌
append_assoc String.[] t u = refl
append_assoc (String.◌∷◌ c s) t u = ap (String.◌∷◌ c) (append_assoc s t u)

pub length-append : (s t : String) → text_length (s ⧺ t) ≡ text_length s + text_length t
unfolding ◌⧺◌ text_length
length-append String.[] t = omega arith
length-append (String.◌∷◌ c s) t = omega (arith, length-append s t)

drop-append : (s t : String) → drop_chars (text_length s) (s ⧺ t) ≡ t
unfolding ◌⧺◌ text_length drop_chars
drop-append String.[] t = refl
drop-append (String.◌∷◌ c s) t = drop-append s t

prefix-append : (s t : String) → prefix (text_length s) (s ⧺ t) ≡ s
unfolding ◌⧺◌ text_length prefix
prefix-append String.[] t = refl
prefix-append (String.◌∷◌ c s) t = ap (String.◌∷◌ c) (prefix-append s t)

pub any_char-append :
    (p : ℕ → Bool) (s t : String) → any_char p (s ⧺ t) ≡ (any_char p s || any_char p t)
unfolding ◌⧺◌ any_char
any_char-append p String.[] t = refl
any_char-append p (String.◌∷◌ c s) t = ground (arith, any_char-append p s t)

empty-append : (s t : String) → is_empty t ≡ false → is_empty (s ⧺ t) ≡ false
unfolding ◌⧺◌ is_empty
empty-append String.[] t h = h
empty-append (String.◌∷◌ c s) t h = refl

rstrip-append : (s t : String) → is_empty (rstrip t) ≡ false → rstrip (s ⧺ t) ≡ s ⧺ rstrip t
unfolding ◌⧺◌ rstrip
rstrip-append String.[] t h = refl
rstrip-append (String.◌∷◌ c s) t h =
    rw (rstrip-append s t h, empty-append s (rstrip t) h) (kept (is_space (code c)))
  where
    kept :
        (b : Bool)
        → (if b && false then String.[] else String.◌∷◌ c (s ⧺ rstrip t))
          ≡ String.◌∷◌ c (s ⧺ rstrip t)
    kept true = refl
    kept false = refl

rstrip-newline : (s : String) → rstrip (s ⧺ "\n") ≡ rstrip s
unfolding ◌⧺◌ rstrip
rstrip-newline String.[] = refl
rstrip-newline (String.◌∷◌ c s) = rw (rstrip-newline s) refl

length-lstrip : (s : String) → text_length (lstrip s) ≤ text_length s
unfolding lstrip text_length
length-lstrip String.[] = omega arith
length-lstrip (String.◌∷◌ c s) = ground (arith, length-lstrip s)

-- A text that begins with white space is longer than what is left of it.
solid :
    (c : Char) (s : String) → lstrip (String.◌∷◌ c s) ≡ String.◌∷◌ c s → is_space (code c) ≡ false
unfolding lstrip text_length
solid c s h = elim (Bool-cases (is_space (code c))) [
  | inl space ↦ absurd (longer (h' space))
  | inr other ↦ other
]
  where
    h' : is_space (code c) ≡ true → lstrip s ≡ String.◌∷◌ c s
    h' space = sym (rw space refl) ∙ h

    longer : lstrip s ≡ String.◌∷◌ c s → ⊥
    longer e = omega (arith, length-lstrip s, ap text_length e)

lstrip-append : (s t : String) → lstrip s ≡ s → is_empty s ≡ false → lstrip (s ⧺ t) ≡ s ⧺ t
unfolding ◌⧺◌ lstrip is_empty
lstrip-append String.[] t h e = cc e
lstrip-append (String.◌∷◌ c s) t h e = rw (solid c s h) refl

-- A text without white space at its ends.
pub record IsTrimmed (s : String) : Type 0 where
  pub left : lstrip s ≡ s
  pub right : rstrip s ≡ s
  pub nonempty : is_empty s ≡ false

pub strip-trimmed : (s : String) → IsTrimmed s → strip s ≡ s
unfolding strip
strip-trimmed s h = rw h.left h.right

-- ```json, a new line, the text, a new line and ```.
abbrev pub fenced : String → String
fenced s = "```json\n" ⧺ s ⧺ "\n```"

nonempty-append : (s t : String) → is_empty s ≡ false → is_empty (s ⧺ t) ≡ false
unfolding ◌⧺◌ is_empty
nonempty-append String.[] t h = cc h
nonempty-append (String.◌∷◌ c s) t h = refl

lstrip-newline : (s : String) → lstrip ("\n" ⧺ s) ≡ lstrip s
unfolding lstrip ◌⧺◌ is_space
lstrip-newline s = refl

strip-inner : (s : String) → IsTrimmed s → strip ("\n" ⧺ s ⧺ "\n") ≡ s
unfolding strip
strip-inner s h =
    ap rstrip (lstrip-newline (s ⧺ "\n") ∙ lstrip-append s "\n" h.left h.nonempty)
    ∙ rstrip-newline s
    ∙ h.right

lstrip-fenced : (s : String) → lstrip (fenced s) ≡ fenced s
unfolding lstrip ◌⧺◌ is_space
lstrip-fenced s = refl

rstrip-fence : (rstrip "\n```" ≡ "\n```") × (is_empty "\n```" ≡ false)
unfolding rstrip is_space is_empty
rstrip-fence = (refl, refl)

rstrip-tail : (s : String) → rstrip (s ⧺ "\n```") ≡ s ⧺ "\n```"
rstrip-tail s =
    rstrip-append s "\n```" (ap is_empty rstrip-fence.0 ∙ rstrip-fence.1)
    ∙ ap (λ t. s ⧺ t) rstrip-fence.0

pub strip-fenced : (s : String) → strip (fenced s) ≡ fenced s
unfolding strip
strip-fenced s =
    ap rstrip (lstrip-fenced s)
    ∙ ap rstrip (sym (append_assoc "```json\n" s "\n```"))
    ∙ rstrip-tail ("```json\n" ⧺ s)
    ∙ append_assoc "```json\n" s "\n```"

length-fenced : (s : String) → text_length (fenced s) ≡ text_length s + 12
unfolding text_length ◌⧺◌
length-fenced s = omega (arith, length-append s "\n```")

opened : (s : String) → fenced s ≡ ("```json\n" ⧺ s ⧺ "\n") ⧺ "```"
unfolding ◌⧺◌
opened s = ap (λ t. "```json\n" ⧺ t) (sym (append_assoc s "\n" "```"))

length-opened : (s : String) → text_length ("```json\n" ⧺ s ⧺ "\n") ≡ text_length (fenced s) - 3
unfolding text_length ◌⧺◌
length-opened s = omega (arith, length-append s "\n", length-append s "\n```")

fence-ends : (s : String) → drop_chars (text_length (fenced s) - 3) (fenced s) ≡ "```"
fence-ends s = rw (← length-opened s, opened s) (drop-append ("```json\n" ⧺ s ⧺ "\n") "```")

fence-starts :
    (s : String) → prefix (text_length (fenced s) - 3) (fenced s) ≡ "```json\n" ⧺ s ⧺ "\n"
fence-starts s = rw (← length-opened s, opened s) (prefix-append ("```json\n" ⧺ s ⧺ "\n") "```")

is_prefix-fenced : (s : String) → is_prefix "```" (fenced s) ≡ true
unfolding is_prefix ◌⧺◌
is_prefix-fenced s = refl

after-fence :
    (s : String)
    → (drop_chars 3 ("```json\n" ⧺ s ⧺ "\n") ≡ "json\n" ⧺ s ⧺ "\n")
      × (after_json ("json\n" ⧺ s ⧺ "\n") ≡ "\n" ⧺ s ⧺ "\n")
unfolding drop_chars ◌⧺◌ is_prefix
after-fence s = (refl, refl)

inside-fenced : (s : String) → inside_fences (fenced s) ≡ some ("json\n" ⧺ s ⧺ "\n")
inside-fenced s =
    rw (is_prefix-fenced s, fence-ends s, ==-refl "```", fence-starts s, (after-fence s).0)
      (ground (arith, length-fenced s))

pub unfenced-fenced : (s : String) → IsTrimmed s → unfenced (fenced s) ≡ s
unfolding unfenced
unfenced-fenced s h = rw (unfenced, inside-fenced s) (ap strip (after-fence s).1 ∙ strip-inner s h)
