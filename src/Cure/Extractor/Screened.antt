-- ===== src/Cure/Extractor/Screened.antt =====
-- Which messages reach the model (integration/cure_memory/src/cure_memory/extractor.py, `extract`).
use memory_bridge.Base.{
  suc, ◌≡◌, refl, ap, Bool, ◌&&◌, not, List, [], ◌∷◌, strip, is_empty, keep_if, length, Bool-cases,
  inl, inr,
}
use memory_bridge.Cure.Model.{SessionMessage}
use memory_bridge.Cure.Extractor.{Runtime}
use memory_bridge.Cure.Extractor.Candidate.{screen}

module _ (R : Runtime) where
  abbrev pub is_blank : SessionMessage → Bool
  is_blank m = is_empty (strip m.content)

  abbrev pub holds_secret : SessionMessage → Bool
  holds_secret m = not (is_blank m) && R.is_sensitive (strip m.content)

  -- The messages for the model are the ones that are neither blank nor sensitive, in their order, and
  -- there is one rejection for each sensitive message.
  pub screen_lem :
      (messages : List SessionMessage)
      → ((screen R messages).0
          ≡ keep_if (λ m. not (is_blank m) && not (R.is_sensitive (strip m.content))) messages)
        × (length (screen R messages).1 ≡ length (keep_if holds_secret messages))
  unfolding screen
  screen_lem [] = (refl, refl)
  screen_lem (m ∷ messages) =
      let (kept, refused) = screen_lem messages in
      elim (Bool-cases (is_blank m)) [
        | inl b ↦ rw b (kept, refused)
        | inr b ↦ elim (Bool-cases (R.is_sensitive (strip m.content))) [
          | inl s ↦ rw (b, s) (kept, ap suc refused)
          | inr s ↦ rw (b, s) (ap (λ (ms : List SessionMessage). m ∷ ms) kept, refused)
        ]
      ]
