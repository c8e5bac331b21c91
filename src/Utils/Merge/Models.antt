-- ===== src/Utils/Merge/Models.antt =====
-- The set of models of utils/merge_predictions.py.
use memory_bridge.Base.{
  ◌+◌, ◌≤◌, ◌≡◌, refl, Bool, true, false, List, [], ◌∷◌, ◌++◌, Str, str_eq_refl, if◌then◌else◌,
  length, length-append, arith, ◌⊎◌, inl, inr,
}
use memory_bridge.Utils.Merge.{among, add_model}

among-snoc :
    (s t : Str) (names : List Str) → among s names ≡ true → among s (names ++ t ∷ []) ≡ true
unfolding among
among-snoc s t [] h = cc
among-snoc s t (n ∷ names) h = ground (arith, h, among-snoc s t names)

among-last : (s : Str) (names : List Str) → among s (names ++ s ∷ []) ≡ true
unfolding among
among-last s [] = ground (arith, str_eq_refl s)
among-last s (n ∷ names) = ground (arith, among-last s names)

-- The name of a model is noted, and those noted before still are.
pub among-add_model :
    (s model : Str) (models : List Str)
    → among s models ≡ true
    → among s (add_model model models) ≡ true
among-add_model s model models h = go (among model models)
  where
    go : (t : Bool) → among s (if t then models else models ++ model ∷ []) ≡ true
    go true = h
    go false = among-snoc s model models h

pub add_model-noted :
    (model : Str) (models : List Str) → among model (add_model model models) ≡ true
add_model-noted model models = go (among model models) refl
  where
    go :
        (t : Bool)
        → among model models ≡ t
        → among model (if t then models else models ++ model ∷ []) ≡ true
    go true e = e
    go false e = among-last model models

pub length-add_model :
    (model : Str) (models : List Str) → length (add_model model models) ≤ length models + 1
length-add_model model models = go (among model models)
  where
    go : (t : Bool) → length (if t then models else models ++ model ∷ []) ≤ length models + 1
    go true = omega arith
    go false = omega (arith, length-append models (model ∷ []))

pub snoc_not_empty : (s : Str) (names : List Str) → ¬ ((names ++ s ∷ []) ≡ [])
snoc_not_empty s [] e = cc
snoc_not_empty s (n ∷ names) e = cc

pub add_model-only :
    (s model : Str) (models : List Str)
    → s ≡ model
    → (models ≡ []) ⊎ (models ≡ model ∷ [])
    → add_model s models ≡ model ∷ []
unfolding among
add_model-only s model models e (inl h) = rw (h, e) refl
add_model-only s model models e (inr h) = rw (h, e, str_eq_refl model) refl
