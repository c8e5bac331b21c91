-- ===== src/Shared/Recall/Order.antt =====
-- What `recall_context` delivers, and in which order, over the loop of Shared/Recall.antt.
use mathlib.Core.List.{Sublist, nil-sublist}
use mathlib.Core.List.Sublist
use memory_bridge.Base.{
  keep_if-All, ℕ, zero, suc, ◌≤◌, ◌≡◌, sym, ◌∙◌, ◌⊎◌, inl, inr, Bool, true, List, [], ◌∷◌, ◌++◌,
  Option, arith, map, length, take, keep_if, All, Str, append-nil, append_assoc, Bool-cases,
  length-take-le,
}
use memory_bridge.Shared.Config.{MemoryConfig}
use memory_bridge.Shared.Integration.{Integration}
use memory_bridge.Shared.Recall.{
  Fill, no_lines, meets_floor, select_hits, place_budgeted, place, fill_step, fill,
}

keep_if-sublist {ℓ} : {A : Type ℓ} (p : A → Bool) (xs : List A) → Sublist (keep_if p xs) xs
keep_if-sublist p [] = Sublist.refl []
keep_if-sublist p (x ∷ xs) = elim (Bool-cases (p x)) [
  | inl e ↦ rw e (Sublist.cons-cons x (keep_if-sublist p xs))
  | inr e ↦ rw e (Sublist.cons x (keep_if-sublist p xs))
]

take-sublist {ℓ} : {A : Type ℓ} (n : ℕ) (xs : List A) → Sublist (take n xs) xs
take-sublist zero xs = nil-sublist xs
take-sublist (suc n) [] = Sublist.refl []
take-sublist (suc n) (x ∷ xs) = Sublist.cons-cons x (take-sublist n xs)

take-All {ℓ κ} : {A : Type ℓ} (P : A → Type κ) (n : ℕ) (xs : List A) → All P xs → All P (take n xs)
take-All P zero xs h = tt
take-All P (suc n) [] h = tt
take-All P (suc n) (x ∷ xs) h = (h.0, take-All P n xs h.1)

module _ (I : Integration) (c : MemoryConfig I.Score) where
  open I use {Hit, hit_origin}

  -- The selection holds at most `max_memories` hits, in ranking order, and each meets the floor.
  pub select_hits_lem :
      (hits : List Hit)
      → (length (select_hits I c hits) ≤ c.max_memories)
        × Sublist (select_hits I c hits) hits
        × All (λ hit. meets_floor I c.recall_min_score hit ≡ true) (select_hits I c hits)
  unfolding select_hits
  select_hits_lem hits = (
    length-take-le c.max_memories (keep_if (meets_floor I c.recall_min_score) hits),
    Sublist.trans (take-sublist c.max_memories (keep_if (meets_floor I c.recall_min_score) hits))
        (keep_if-sublist (meets_floor I c.recall_min_score) hits),
    take-All _ c.max_memories _ (keep_if-All (meets_floor I c.recall_min_score) hits),
  )

  module _ (session : Option Str) where
    -- One round appends the hit with its origin, or leaves the two lists as they are.
    fill_step-appends :
        (acc : Fill I) (hit : Hit)
        → (((fill_step I c session acc hit).rendered ≡ acc.rendered ++ hit ∷ [])
            × ((fill_step I c session acc hit).origins ≡ acc.origins ++ hit_origin hit ∷ []))
          ⊎ (((fill_step I c session acc hit).rendered ≡ acc.rendered)
              × ((fill_step I c session acc hit).origins ≡ acc.origins))
    unfolding fill_step place_budgeted place
    fill_step-appends acc hit = ground arith

    -- The loop appends some of the hits, in their order, with their origins.
    fill-appends :
        (acc : Fill I) (hits : List Hit)
        → (new : List Hit) × ((fill I c session acc hits).rendered ≡ acc.rendered ++ new)
          × ((fill I c session acc hits).origins ≡ acc.origins ++ map hit_origin new)
          × Sublist new hits
    unfolding fill
    fill-appends acc [] = ([], sym (append-nil _), sym (append-nil _), Sublist.refl [])
    fill-appends acc (hit ∷ hits) =
        let (new, r, o, s) = fill-appends (fill_step I c session acc hit) hits in
        elim (fill_step-appends acc hit) [
          | inl (p, q) ↦ (
            hit ∷ new,
            r ∙ rw (p, append_assoc),
            o ∙ rw (q, append_assoc),
            Sublist.cons-cons hit s,
          )
          | inr (p, q) ↦ (new, r ∙ rw p, o ∙ rw q, Sublist.cons hit s)
        ]

    -- The delivered hits are among the selected ones, in ranking order and none twice for one
    -- place, and the payload's origins are theirs, one for each.
    pub fill-ranked :
        (hits : List Hit)
        → Sublist (fill I c session (no_lines I) hits).rendered hits
          × ((fill I c session (no_lines I) hits).origins
              ≡ map hit_origin (fill I c session (no_lines I) hits).rendered)
    fill-ranked hits = let (new, r, o, s) = fill-appends (no_lines I) hits in (rw r s, rw (r, o))
