-- ===== src/Catalog/Order.antt =====
-- ORDER BY and LIMIT of SQLite: texts by their code points, rows with equal keys in the order of the
-- table.
use Prim.Native.Char.{code}
use rrpp_agent_bridge.Common.{
  String, Bool, true, false, ◌&&◌, ◌||◌, List, [], ◌∷◌, ltb, eqb, if◌then◌else◌, ◌≡◌, refl, length,
  suc, arith, ap, ◌∙◌,
}

-- a <= b of two texts
unfoldable pub text_le : String → String → Bool
text_le String.[] t = true
text_le (String.◌∷◌ c s) String.[] = false
text_le (String.◌∷◌ c s) (String.◌∷◌ d t) =
    let rest = text_le s t in ltb (code c) (code d) || (eqb (code c) (code d) && rest)

module _ {A : Type 0} (le : A → A → Bool) where
  unfoldable pub insert_row : A → List A → List A
  insert_row a [] = a ∷ []
  insert_row a (b ∷ l) = let rest = insert_row a l in if le a b then a ∷ b ∷ l else b ∷ rest

  -- ORDER BY
  unfoldable pub order_by : List A → List A
  order_by [] = []
  order_by (a ∷ l) = insert_row a (order_by l)

  length-insert_row : (a : A) (l : List A) → length (insert_row a l) ≡ suc (length l)
  unfolding insert_row
  length-insert_row a [] = refl
  length-insert_row a (b ∷ l) = ground (arith, length-insert_row a l)

  pub length-order_by : (l : List A) → length (order_by l) ≡ length l
  unfolding order_by
  length-order_by [] = refl
  length-order_by (a ∷ l) = length-insert_row a (order_by l) ∙ ap suc (length-order_by l)
