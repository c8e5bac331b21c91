-- ===== src/Shared/Chunk.antt =====
-- `_chunk_events` of shared-bridge/src/shared_bridge/backend.py: POST batches under the recorder's
-- two caps. The size of an event, `len(json.dumps(event))`, is an argument.
pub mod Batches
use memory_bridge.Base.{
  if◌then◌else◌, ℕ, ◌+◌, ◌-◌, ◌*◌, Bool, true, false, ◌&&◌, ◌||◌, not, List, [], ◌∷◌, ◌++◌, ltb,
  leb, length, is_empty,
}

abbrev pub max_events_per_post : ℕ
max_events_per_post = 256

abbrev pub max_post_bytes : ℕ
max_post_bytes = 1024 * 1024 - 2048

module _ {E : Type 0} (size_of : E → ℕ) where
  -- `if chunk and (len(chunk) >= ... or size + event_size > ...)`
  unfoldable pub must_flush : List E → ℕ → E → Bool
  must_flush chunk size event =
      not (is_empty chunk)
      && (leb max_events_per_post (length chunk) || ltb max_post_bytes (size + size_of event))

  -- The loop over the events that are left, with the variables `chunks`, `chunk` and `size`.
  unfoldable pub chunk_loop : List (List E) → List E → ℕ → List E → List (List E)
  unfolding must_flush
  chunk_loop chunks chunk size [] = if is_empty chunk then chunks else chunks ++ chunk ∷ []
  chunk_loop chunks chunk size (event ∷ events) = elim (must_flush chunk size event) [
    | true ↦ chunk_loop (chunks ++ chunk ∷ []) (event ∷ []) (size_of event) events
    | false ↦ chunk_loop chunks (chunk ++ event ∷ []) (size + size_of event) events
  ]

  unfoldable pub chunk_events : List E → List (List E)
  unfolding chunk_loop
  chunk_events events = chunk_loop [] [] 0 events
