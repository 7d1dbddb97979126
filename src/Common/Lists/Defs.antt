-- ===== src/Common/Lists/Defs.antt =====
-- Lists as tables: the rows in the order of their row ids. A query reads them, and a statement
-- rewrites the rows that its condition selects.
use Prim.Native.Nat.{ℕ, zero, suc}
use mathlib.Core.Bool.{Bool, true, false, ◌&&◌, ◌||◌}
use mathlib.Core.List.{List, [], ◌∷◌}
use mathlib.Core.Option.{Option, none, some}
use rrpp_agent_bridge.Common.Tests.{if◌then◌else◌}

module _ {ℓ} {A : Type ℓ} where
  abbrev pub length : List A → ℕ
  length [] = 0
  length (x ∷ xs) = suc (length xs)

  abbrev pub take : ℕ → List A → List A
  take zero xs = []
  take (suc n) [] = []
  take (suc n) (x ∷ xs) = x ∷ take n xs

  abbrev pub drop : ℕ → List A → List A
  drop zero xs = xs
  drop (suc n) [] = []
  drop (suc n) (x ∷ xs) = drop n xs

  -- SELECT ... LIMIT 1, in row order.
  unfoldable pub find_where : (A → Bool) → List A → Option A
  find_where p [] = none
  find_where p (x ∷ xs) = if p x then some x else find_where p xs

  -- SELECT 1 ...
  unfoldable pub any_where : (A → Bool) → List A → Bool
  any_where p [] = false
  any_where p (x ∷ xs) = p x || any_where p xs

  unfoldable pub all_where : (A → Bool) → List A → Bool
  all_where p [] = true
  all_where p (x ∷ xs) = p x && all_where p xs

  -- SELECT ...
  unfoldable pub select_where : (A → Bool) → List A → List A
  select_where p [] = []
  select_where p (x ∷ xs) = let rest = select_where p xs in if p x then x ∷ rest else rest

  -- UPDATE ... SET ... WHERE ...
  unfoldable pub update_where : (A → Bool) → (A → A) → List A → List A
  update_where p f [] = []
  update_where p f (x ∷ xs) = (if p x then f x else x) ∷ update_where p f xs

  -- SELECT count(*) ...
  unfoldable pub count_where : (A → Bool) → List A → ℕ
  count_where p [] = 0
  count_where p (x ∷ xs) = let rest = count_where p xs in if p x then suc rest else rest

  -- ORDER BY rowid DESC LIMIT 1.
  unfoldable pub last_where : (A → Bool) → List A → Option A
  last_where p [] = none
  last_where p (x ∷ xs) = elim (last_where p xs) [
    | some y ↦ some y
    | none ↦ if p x then some x else none
  ]
