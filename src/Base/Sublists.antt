-- ===== src/Base/Sublists.antt =====
-- Lists with some members left out.
use mathlib.Core.Path.{subst}
use mathlib.Core.List.{List, [], ◌∷◌, ◌++◌, append-nil}

-- The first list is the second with some members left out.
pub data Sub {A : Type 0} : List A → List A → Type 0 where
  sub_nil : Sub [] []
  sub_keep : (x : A) (xs ys : List A) → Sub xs ys → Sub (x ∷ xs) (x ∷ ys)
  sub_skip : (y : A) (xs ys : List A) → Sub xs ys → Sub xs (y ∷ ys)

module _ {A : Type 0} where
  pub Sub-refl : (xs : List A) → Sub xs xs
  Sub-refl [] = sub_nil
  Sub-refl (x ∷ xs) = sub_keep x xs xs (Sub-refl xs)

  pub Sub-empty : (ys : List A) → Sub [] ys
  Sub-empty [] = sub_nil
  Sub-empty (y ∷ ys) = sub_skip y [] ys (Sub-empty ys)

  -- A longer list, and the same members after both.
  pub Sub-append : (xs ys zs ws : List A) → Sub xs ys → Sub zs ws → Sub (xs ++ zs) (ys ++ ws)
  Sub-append xs ys zs ws sub_nil q = q
  Sub-append xs ys zs ws (sub_keep x xs' ys' p) q =
      sub_keep x (xs' ++ zs) (ys' ++ ws) (Sub-append xs' ys' zs ws p q)
  Sub-append xs ys zs ws (sub_skip y xs' ys' p) q =
      sub_skip y (xs' ++ zs) (ys' ++ ws) (Sub-append xs' ys' zs ws p q)

  pub Sub-longer : (xs ys ws : List A) → Sub xs ys → Sub xs (ys ++ ws)
  Sub-longer xs ys ws p =
      subst (λ (l : List A). Sub l (ys ++ ws)) (append-nil xs)
        (Sub-append xs ys [] ws p (Sub-empty ws))
