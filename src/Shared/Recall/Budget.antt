-- ===== src/Shared/Recall/Budget.antt =====
-- The two recall budgets, over the loop of Shared/Recall.antt.
use memory_bridge.Base.{
  ℕ, ◌+◌, ◌-◌, ◌≤◌, ◌<◌, ◌≡◌, refl, ◌⊎◌, inl, false, not, List, [], ◌∷◌, ◌++◌, Option, arith,
  length, is_empty, keep_if, length-append, append-nil, append_assoc, All, Str, Bool, true, inr,
  sym, ◌∙◌, ap, if◌then◌else◌,
}
use memory_bridge.Shared.Truncate.{
  cap_line, mark_cut, min_truncated_recall_line_chars, length-mark_cut-le,
}
use memory_bridge.Shared.Config.{MemoryConfig}
use memory_bridge.Shared.Integration.{Integration}
use memory_bridge.Shared.Recall.{
  Fill, no_lines, origin_suffix, separator, add_line, place, place_budgeted, fill_step, fill,
}

module _ (I : Integration) where
  open I use {Hit, Score, render_line, hit_budget_exempt}

  length-add_line :
      (body line : Str)
      → length (add_line I body line) ≡ length body + separator I body + length line
  unfolding add_line separator
  length-add_line [] line = omega arith
  length-add_line (c ∷ body) line = omega (arith, length-append (c ∷ body) (10 ∷ line))

  place_budgeted-le :
      (total : ℕ) (acc : Fill I) (hit : Hit) (origin : Option Str) (line : Str)
      → 0 < total
      → acc.budget ≤ total
      → (place_budgeted I total acc hit origin line).budget ≤ total
  unfolding place_budgeted
  place_budgeted-le total acc hit origin line pos h =
      ground (arith, length-mark_cut-le (total - acc.budget - separator I acc.body) line)

  module _ (c : MemoryConfig Score) (session : Option Str) where
    fill_step-budget-le :
        (acc : Fill I) (hit : Hit)
        → 0 < c.max_total_recall_chars
        → acc.budget ≤ c.max_total_recall_chars
        → (fill_step I c session acc hit).budget ≤ c.max_total_recall_chars
    unfolding fill_step place
    fill_step-budget-le acc hit pos h = ground (
      arith,
      place_budgeted-le c.max_total_recall_chars acc hit (I.hit_origin hit) (
          cap_line c.max_chars_per_memory
            (render_line hit ++ origin_suffix session (I.hit_origin hit))),
    )

    fill-budget-le :
        (acc : Fill I) (hits : List Hit)
        → 0 < c.max_total_recall_chars
        → acc.budget ≤ c.max_total_recall_chars
        → (fill I c session acc hits).budget ≤ c.max_total_recall_chars
    unfolding fill
    fill-budget-le acc [] pos h = h
    fill-budget-le acc (hit ∷ hits) pos h =
        fill-budget-le (fill_step I c session acc hit) hits pos (fill_step-budget-le acc hit pos h)

    -- Without budget-exempt hits the budget is the length of the body, separators included.
    fill_step-counted :
        (acc : Fill I) (hit : Hit)
        → hit_budget_exempt hit ≡ false
        → length acc.body ≡ acc.budget
        → length (fill_step I c session acc hit).body ≡ (fill_step I c session acc hit).budget
    unfolding fill_step place_budgeted place
    fill_step-counted acc hit e h = ground (
      arith,
      length-add_line acc.body (
          cap_line c.max_chars_per_memory
            (render_line hit ++ origin_suffix session (I.hit_origin hit))),
      length-add_line acc.body (
          mark_cut (c.max_total_recall_chars - acc.budget - separator I acc.body) (
            cap_line c.max_chars_per_memory
              (render_line hit ++ origin_suffix session (I.hit_origin hit)))),
    )

    fill-counted :
        (acc : Fill I) (hits : List Hit)
        → All (λ hit. hit_budget_exempt hit ≡ false) hits
        → length acc.body ≡ acc.budget
        → length (fill I c session acc hits).body ≡ (fill I c session acc hits).budget
    unfolding fill
    fill-counted acc [] e h = h
    fill-counted acc (hit ∷ hits) e h =
        fill-counted (fill_step I c session acc hit) hits e.1 (fill_step-counted acc hit e.0 h)

    -- With a total bound and no budget-exempt hit, the body that the loop builds, separators
    -- included, keeps within the bound.
    pub fill-body-le :
        (hits : List Hit)
        → 0 < c.max_total_recall_chars
        → All (λ hit. hit_budget_exempt hit ≡ false) hits
        → length (fill I c session (no_lines I) hits).body ≤ c.max_total_recall_chars
    fill-body-le hits pos e = omega (
      arith,
      fill-budget-le (no_lines I) hits pos (omega arith),
      fill-counted (no_lines I) hits e refl,
    )

    abbrev pub is_visible : Hit → Bool
    is_visible hit = not (is_empty (render_line hit))

    -- The line of a hit under the cap of a line.
    abbrev pub line_of : Hit → Str
    line_of hit =
        cap_line c.max_chars_per_memory
          (render_line hit ++ origin_suffix session (I.hit_origin hit))

    -- What is spent before the next line is placed, its separator included.
    abbrev pub spent : Fill I → ℕ
    spent acc = acc.budget + separator I acc.body

    -- There is a total bound, and a line that counts against it does not fit, with fewer than 40
    -- characters left.
    abbrev pub IsDropped : Fill I → Hit → Type 0
    IsDropped acc hit =
        (is_visible hit ≡ true)
        × (hit_budget_exempt hit ≡ false)
        × (0 < c.max_total_recall_chars)
        × (c.max_total_recall_chars < spent acc + min_truncated_recall_line_chars)
        × (c.max_total_recall_chars < spent acc + length (line_of hit))

    -- All hits with a line before this one are delivered, and it is dropped at its turn.
    abbrev pub FirstDrop : Fill I → List Hit → Type 0
    FirstDrop acc hits =
        (before : List Hit) × (hit : Hit) × (after : List Hit) × (hits ≡ before ++ hit ∷ after)
        × ((fill I c session acc before).rendered ≡ acc.rendered ++ keep_if is_visible before)
        × IsDropped (fill I c session acc before) hit

    place_budgeted-waste :
        (total : ℕ) (acc : Fill I) (hit : Hit) (origin : Option Str) (line : Str)
        → ((place_budgeted I total acc hit origin line).rendered ≡ acc.rendered ++ hit ∷ [])
          ⊎ ((0 < total)
              × (total < acc.budget + separator I acc.body + min_truncated_recall_line_chars)
              × (total < acc.budget + separator I acc.body + length line))
    unfolding place_budgeted place separator
    place_budgeted-waste total acc hit origin line = ground arith

    -- One round delivers the hit's line, or the hit has none, or it does not fit.
    fill_step-waste :
        (acc : Fill I) (hit : Hit)
        → ((fill_step I c session acc hit).rendered ≡ acc.rendered ++ keep_if is_visible (hit ∷ []))
          ⊎ IsDropped acc hit
    unfolding fill_step place
    fill_step-waste acc hit = go (is_empty (render_line hit)) (hit_budget_exempt hit) refl refl
      where
        budgeted : Fill I
        budgeted =
            place_budgeted I c.max_total_recall_chars acc hit (I.hit_origin hit) (line_of hit)

        exempt : Fill I
        exempt =
            place I acc hit (I.hit_origin hit)
              (render_line hit ++ origin_suffix session (I.hit_origin hit)) 0

        go :
            (blank free : Bool)
            → is_empty (render_line hit) ≡ blank
            → hit_budget_exempt hit ≡ free
            → ((if blank then acc else if free then exempt else budgeted).rendered
                ≡ acc.rendered ++ (if not blank then hit ∷ [] else []))
              ⊎ IsDropped acc hit
        go true free e f = inl (sym (append-nil acc.rendered))
        go false true e f = inl refl
        go false false e f =
            elim (place_budgeted-waste c.max_total_recall_chars acc hit (I.hit_origin hit)
              (line_of hit)) [
                | inl placed ↦ inl placed
                | inr (pos, near, wide) ↦ inr (ap not e, f, pos, near, wide)
              ]

    joined :
        (hit : Hit) (hits : List Hit)
        → keep_if is_visible (hit ∷ []) ++ keep_if is_visible hits ≡ keep_if is_visible (hit ∷ hits)
    joined hit hits = go (is_visible hit)
      where
        go :
            (t : Bool)
            → (if t then hit ∷ [] else []) ++ keep_if is_visible hits
              ≡ (if t then hit ∷ keep_if is_visible hits else keep_if is_visible hits)
        go true = refl
        go false = refl

    -- What a delivered step adds to the lines of the hits after it.
    chain :
        (acc : Fill I) (hit : Hit) (hits : List Hit) (rendered : List Hit)
        → (fill_step I c session acc hit).rendered ≡ acc.rendered ++ keep_if is_visible (hit ∷ [])
        → rendered ≡ (fill_step I c session acc hit).rendered ++ keep_if is_visible hits
        → rendered ≡ acc.rendered ++ keep_if is_visible (hit ∷ hits)
    chain acc hit hits rendered e e' =
        e'
        ∙ ap (λ (l : List Hit). l ++ keep_if is_visible hits) e
        ∙ append_assoc acc.rendered (keep_if is_visible (hit ∷ [])) _
        ∙ ap (λ (l : List Hit). acc.rendered ++ l) (joined hit hits)

    fill-waste :
        (acc : Fill I) (hits : List Hit)
        → ((fill I c session acc hits).rendered ≡ acc.rendered ++ keep_if is_visible hits)
          ⊎ FirstDrop acc hits
    unfolding fill
    fill-waste acc [] = inl (sym (append-nil acc.rendered))
    fill-waste acc (hit ∷ hits) = elim (fill_step-waste acc hit) [
      | inr dropped ↦ inr ([], hit, hits, refl, sym (append-nil acc.rendered), dropped)
      | inl e ↦ elim (fill-waste (fill_step I c session acc hit) hits) [
        | inl e' ↦ inl (chain acc hit hits _ e e')
        | inr (before, h, after, split, e', dropped) ↦ inr (
          hit ∷ before,
          h,
          after,
          ap (λ (l : List Hit). hit ∷ l) split,
          chain acc hit before _ e e',
          dropped,
        )
      ]
    ]

    -- Exactly the selected hits with a line are delivered, in their order; or this holds of the hits
    -- before one of them, and that one is dropped at its turn: there is a total bound, its line
    -- counts and does not fit beside what is spent, and fewer than 40 characters are left.
    pub fill-rendered-or-FirstDrop :
        (hits : List Hit)
        → ((fill I c session (no_lines I) hits).rendered ≡ keep_if is_visible hits)
          ⊎ FirstDrop (no_lines I) hits
    fill-rendered-or-FirstDrop hits = fill-waste (no_lines I) hits
