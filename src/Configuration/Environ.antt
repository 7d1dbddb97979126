-- ===== src/Configuration/Environ.antt =====
-- Which variables `load_local_env` of rrpp_bridge/config.py may change.
use rrpp_agent_bridge.Common.{
  ℕ, suc, String, Bool, true, false, not, ◌&&◌, ◌||◌, Option, none, some, List, [], ◌∷◌, eqb, ◌==◌,
  ◌≡◌, refl, ◌∙◌, sym, ap, subst, arith, Bool-cases, inl, inr, ==→eq,
}
use rrpp_agent_bridge.Common.Text.{Python, any_char, is_empty, is_prefix, strip}
use rrpp_agent_bridge.Configuration.Local.{
  after_equals, assign, before_equals, is_env_key, is_set, load_lines, load_local_env, set_variable,
  Variables,
}

-- The variables that a file may set: those of the program, if nothing is to be overridden only where
-- they are not set.
abbrev pub may_change : Bool → Variables → String → Bool
may_change override variables name = is_env_key name && (override || not (is_set (variables name)))

kept_key :
    (override : Bool) (key value : String) (variables : Variables)
    → is_env_key key ≡ true
    → may_change override variables key ≡ false
    → assign override key value variables key ≡ variables key
unfolding assign
kept_key override key value variables known h =
    elim (Bool-cases (override || not (is_set (variables key)))) [
      | inl e ↦ absurd (ground (arith, known, h, e))
      | inr e ↦ rw e refl
    ]

kept_other :
    (override : Bool) (key value : String) (variables : Variables) (name : String)
    → (name == key) ≡ false
    → assign override key value variables name ≡ variables name
unfolding assign set_variable
kept_other override key value variables name other =
    elim (Bool-cases (override || not (is_set (variables key)))) [
      | inl e ↦ rw (e, other) refl
      | inr e ↦ rw e refl
    ]

assign-Kept :
    (override : Bool) (key value : String) (variables : Variables) (name : String)
    → is_env_key key ≡ true
    → may_change override variables name ≡ false
    → assign override key value variables name ≡ variables name
assign-Kept override key value variables name known h = elim (Bool-cases (name == key)) [
  | inl e ↦ same (sym (==→eq name key e))
  | inr e ↦ kept_other override key value variables name e
]
  where
    same : key ≡ name → assign override key value variables name ≡ variables name
    same e =
        subst (λ k. assign override key value variables k ≡ variables k) e
          (kept_key override key value variables known
            (subst (λ k. may_change override variables k ≡ false) (sym e) h))

load_lines-Kept :
    (python : Python) (override : Bool) (number : ℕ) (lines : List String) (variables : Variables)
    (name : String)
    → may_change override variables name ≡ false
    → (load_lines python override number lines variables).1 name ≡ variables name
unfolding load_lines
load_lines-Kept python override number [] variables name h = refl
load_lines-Kept python override number (raw_line ∷ lines) variables name h =
    let line = strip raw_line in
    let key = strip (before_equals line) in
    let value = strip (after_equals line) in
    elim (Bool-cases (is_empty line || is_prefix "#" line)) [
      | inl a ↦
          rw (load_lines, a) (load_lines-Kept python override (suc number) lines variables name h)
      | inr a ↦ elim (Bool-cases (any_char (eqb b'=') line)) [
        | inr b ↦ rw (load_lines, a, b) refl
        | inl b ↦ elim (Bool-cases (is_env_key key)) [
          | inr c ↦ rw (load_lines, a, b, c) refl
          | inl c ↦
              let kept = assign-Kept override key value variables name c h in
              let may = ap (λ v. is_env_key name && (override || not (is_set v))) kept ∙ h in
              rw (load_lines, a, b, c)
                (load_lines-Kept python override (suc number) lines
                    (assign override key value variables) name may
                  ∙ kept)
        ]
      ]
    ]

-- Whatever the lines of the file are, and also where one of them is refused, loading it changes no
-- variable but those that the program knows, and unless it overrides, none that is set.
pub load_local_env-Kept :
    (python : Python) (file : Option (List String)) (override : Bool) (variables : Variables)
    (name : String)
    → may_change override variables name ≡ false
    → (load_local_env python file override variables).1 name ≡ variables name
unfolding load_local_env
load_local_env-Kept python none override variables name h = refl
load_local_env-Kept python (some lines) override variables name h =
    load_lines-Kept python override 1 lines variables name h
