-- ===== src/Base/Members.antt =====
-- Membership in a list by recursion, which may be taken apart into data, and the tests and removals
-- that go with it.
use Prim.Native.Nat.{ℕ, ◌≤◌}
use mathlib.Core.Path.{◌≡◌, refl, ap, ◌∙◌, subst, sym}
use mathlib.Core.Logic.{◌⊎◌, inl, inr}
use mathlib.Core.Bool.{Bool, true, false, ◌||◌, not}
use mathlib.Core.List.{List, [], ◌∷◌, map}
use native.Mathlib.Omega.{arith}
use memory_bridge.Base.Tests.{◌==◌, if◌then◌else◌}
use memory_bridge.Base.Lists.{length, keep_if, All}

module _ {A : Type 0} where
  abbrev pub In : A → List A → Type 0
  In x [] = ⊥
  In x (y ∷ ys) = (x ≡ y) ⊎ In x ys

  pub In-All {κ} : (P : A → Type κ) (x : A) (xs : List A) → All P xs → In x xs → P x
  In-All P x [] h i = absurd i
  In-All P x (y ∷ ys) h (inl e) = subst P (sym e) h.0
  In-All P x (y ∷ ys) h (inr i) = In-All P x ys h.1 i

  pub In-keep_if : (p : A → Bool) (x : A) (xs : List A) → In x xs → p x ≡ true → In x (keep_if p xs)
  In-keep_if p x [] i h = absurd i
  In-keep_if p x (y ∷ ys) (inl e) h =
      subst (λ (t : Bool). In x (if t then y ∷ keep_if p ys else keep_if p ys)) (sym h ∙ ap p e)
        (inl e)
  In-keep_if p x (y ∷ ys) (inr i) h = go (p y) (In-keep_if p x ys i h)
    where
      go : (t : Bool) → In x (keep_if p ys) → In x (if t then y ∷ keep_if p ys else keep_if p ys)
      go true j = inr j
      go false j = j

pub In-map : {A B : Type 0} (f : A → B) (x : A) (xs : List A) → In x xs → In (f x) (map f xs)
In-map f x [] i = absurd i
In-map f x (y ∷ ys) (inl e) = inl (ap f e)
In-map f x (y ∷ ys) (inr i) = inr (In-map f x ys i)

-- `n in ns`
abbrev pub has : ℕ → List ℕ → Bool
has n [] = false
has n (m ∷ ms) = n == m || has n ms

abbrev pub drop_id : ℕ → List ℕ → List ℕ
drop_id n = keep_if (λ k. not (k == n))

abbrev pub drop_ids : List ℕ → List ℕ → List ℕ
drop_ids [] xs = xs
drop_ids (n ∷ ns) xs = drop_ids ns (drop_id n xs)

pub length-drop_id-le : (n : ℕ) (xs : List ℕ) → length (drop_id n xs) ≤ length xs
length-drop_id-le n [] = omega arith
length-drop_id-le n (x ∷ xs) = ground (arith, length-drop_id-le n xs)

pub length-drop_ids-le : (ns xs : List ℕ) → length (drop_ids ns xs) ≤ length xs
length-drop_ids-le [] xs = omega arith
length-drop_ids-le (n ∷ ns) xs =
    omega (arith, length-drop_ids-le ns (drop_id n xs), length-drop_id-le n xs)

drop_id-rest :
    (n : ℕ) (ns xs : List ℕ)
    → All (λ k. has k (n ∷ ns) ≡ true) xs
    → All (λ k. has k ns ≡ true) (drop_id n xs)
drop_id-rest n ns [] h = tt
drop_id-rest n ns (x ∷ xs) h = ground (arith, drop_id-rest n ns xs h.1)

-- Nothing is left of a list whose members are all removed.
pub drop_ids-All : (ns xs : List ℕ) → All (λ k. has k ns ≡ true) xs → drop_ids ns xs ≡ []
drop_ids-All [] [] h = refl
drop_ids-All [] (x ∷ xs) h = cc
drop_ids-All (n ∷ ns) xs h = drop_ids-All ns (drop_id n xs) (drop_id-rest n ns xs h)
