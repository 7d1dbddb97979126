-- ===== src/Common/Lists/Laws.antt =====
-- How a statement changes what the queries count, find and project.
use Prim.Native.Nat.{suc, ◌+◌, ◌≤◌}
use mathlib.Core.Path.{◌≡◌, refl, ap}
use mathlib.Core.Logic.{inl, inr}
use mathlib.Core.Bool.{Bool, true, false, ◌&&◌, ◌||◌}
use mathlib.Core.List.{List, [], ◌∷◌, ◌++◌, map}
use mathlib.Core.Option.{some}
use native.Mathlib.Omega.{arith}
use rrpp_agent_bridge.Common.Tests.{Bool-cases, if◌then◌else◌}
use rrpp_agent_bridge.Common.Lists.Defs.{length, find_where, any_where, update_where, count_where}

module _ {ℓ} {A : Type ℓ} (p : A → Bool) (f : A → A) where
  pub length-update_where : (l : List A) → length (update_where p f l) ≡ length l
  unfolding update_where
  length-update_where [] = refl
  length-update_where (x ∷ l) = ap suc (length-update_where l)

  -- A column that the statement does not set is the same afterwards.
  pub map-update_where {κ} :
      {B : Type κ} (g : A → B)
      → ((x : A) → g (f x) ≡ g x)
      → (l : List A) → map g (update_where p f l) ≡ map g l
  unfolding update_where
  map-update_where g same [] = refl
  map-update_where g same (x ∷ l) = elim (Bool-cases (p x)) [
    | inl e ↦ rw (e, same x, map-update_where g same l)
    | inr e ↦ rw (e, map-update_where g same l)
  ]

  -- At most the rows that the statement selects come to satisfy a condition.
  pub count-update_le_add :
      (c : A → Bool) (l : List A)
      → count_where c (update_where p f l) ≤ count_where c l + count_where p l
  unfolding update_where count_where
  count-update_le_add c [] = omega arith
  count-update_le_add c (x ∷ l) = ground (arith, count-update_le_add c l)

  -- A statement after which no new row satisfies a condition.
  pub count-update_le :
      (c : A → Bool) (l : List A)
      → ((x : A) → p x ≡ true → c (f x) ≡ true → c x ≡ true)
      → count_where c (update_where p f l) ≤ count_where c l
  unfolding update_where count_where
  count-update_le c [] shrinks = omega arith
  count-update_le c (x ∷ l) shrinks = ground (arith, shrinks x, count-update_le c l shrinks)

module _ {ℓ} {A : Type ℓ} (p : A → Bool) where
  pub count_where-append :
      (l m : List A) → count_where p (l ++ m) ≡ count_where p l + count_where p m
  unfolding count_where
  count_where-append [] m = omega arith
  count_where-append (x ∷ l) m = ground (arith, count_where-append l m)

  pub count-eq_zero : (l : List A) → any_where p l ≡ false → count_where p l ≡ 0
  unfolding count_where any_where
  count-eq_zero [] h = refl
  count-eq_zero (x ∷ l) h = ground (arith, count-eq_zero l)

  pub find_where-true : (l : List A) (x : A) → find_where p l ≡ some x → p x ≡ true
  unfolding find_where
  find_where-true [] x h = cc
  find_where-true (y ∷ l) x h = ground (arith, find_where-true l x)

  pub count_where-snoc :
      (l : List A) (x : A) → count_where p (l ++ x ∷ []) ≡ count_where p l + (if p x then 1 else 0)
  unfolding count_where
  count_where-snoc [] x = ground arith
  count_where-snoc (y ∷ l) x = ground (arith, count_where-snoc l x)

  -- No row satisfies the first of two alternatives, if none satisfies either.
  pub count-eq_zero_of_or :
      (q : A → Bool) (l : List A) → any_where (λ x. p x || q x) l ≡ false → count_where p l ≡ 0
  unfolding count_where any_where
  count-eq_zero_of_or q [] h = refl
  count-eq_zero_of_or q (x ∷ l) h = ground (arith, count-eq_zero_of_or q l)

  -- A row that a query finds is counted.
  pub count-pos_of_find :
      (c : A → Bool) (l : List A) (x : A)
      → find_where p l ≡ some x
      → c x ≡ true
      → 1 ≤ count_where c l
  unfolding count_where find_where
  count-pos_of_find c [] x h hc = cc
  count-pos_of_find c (y ∷ l) x h hc = ground (arith, count-pos_of_find c l x)

  -- Two conditions that exclude one another.
  pub count-add_le_of_disjoint :
      (a b : A → Bool)
      → ((x : A) → a x ≡ true → b x ≡ true → ⊥)
      → (l : List A)
      → count_where (λ x. p x && a x) l + count_where (λ x. p x && b x) l ≤ count_where p l
  unfolding count_where
  count-add_le_of_disjoint a b apart [] = omega arith
  count-add_le_of_disjoint a b apart (x ∷ l) =
      ground (arith, apart x, count-add_le_of_disjoint a b apart l)

  pub count-and_le : (a : A → Bool) (l : List A) → count_where (λ x. p x && a x) l ≤ count_where p l
  unfolding count_where
  count-and_le a [] = omega arith
  count-and_le a (x ∷ l) = ground (arith, count-and_le a l)

  -- The rows that come to satisfy a condition are among those that the statement sets so.
  pub count-update_le_new :
      (f : A → A) (c : A → Bool) (l : List A)
      → count_where c (update_where p f l) ≤ count_where c l + count_where (λ x. p x && c (f x)) l
  unfolding update_where count_where
  count-update_le_new f c [] = omega arith
  count-update_le_new f c (x ∷ l) = ground (arith, count-update_le_new f c l)

  pub count-update_eq :
      (f : A → A) (c : A → Bool)
      → ((x : A) → c (f x) ≡ c x)
      → (l : List A) → count_where c (update_where p f l) ≡ count_where c l
  unfolding update_where count_where
  count-update_eq f c same [] = refl
  count-update_eq f c same (x ∷ l) = ground (arith, same x, count-update_eq f c same l)

  -- A statement that takes a condition away from every row that satisfies it.
  pub count-update_cleared :
      (f : A → A) (c : A → Bool)
      → ((x : A) → c x ≡ true → p x ≡ true)
      → ((x : A) → p x ≡ true → c (f x) ≡ false)
      → (l : List A) → count_where c (update_where p f l) ≡ 0
  unfolding update_where count_where
  count-update_cleared f c among away [] = refl
  count-update_cleared f c among away (x ∷ l) =
      ground (arith, among x, away x, count-update_cleared f c among away l)
