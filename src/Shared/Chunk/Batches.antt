-- ===== src/Shared/Chunk/Batches.antt =====
-- What `_chunk_events` returns: the events in order, in batches within the recorder's caps.
use memory_bridge.Base.{
  ℕ, ◌+◌, ◌≤◌, ◌<◌, ◌≡◌, refl, ◌∙◌, ◌⊎◌, inl, inr, false, List, [], ◌∷◌, ◌++◌, arith, length, All,
  All-append, append-nil, append_assoc, length-append, Bool-cases,
}
use memory_bridge.Shared.Chunk.{
  max_events_per_post, max_post_bytes, must_flush, chunk_loop, chunk_events,
}

pub concat {ℓ} : {A : Type ℓ} → List (List A) → List A
concat [] = []
concat (xs ∷ xss) = xs ++ concat xss

concat-append {ℓ} :
    {A : Type ℓ} (xss yss : List (List A)) → concat (xss ++ yss) ≡ concat xss ++ concat yss
unfolding concat
concat-append [] yss = refl
concat-append (xs ∷ xss) yss = rw (concat-append xss yss, append_assoc)

module _ {E : Type 0} (size_of : E → ℕ) where
  -- the byte length of a batch's events
  abbrev pub bytes : List E → ℕ
  bytes [] = 0
  bytes (e ∷ es) = size_of e + bytes es

  -- A batch that the recorder's caps admit, or one that a single event fills.
  pub record IsBatch (chunk : List E) : Type 0 where
    pub filled : 0 < length chunk
    pub few : length chunk ≤ max_events_per_post
    pub small : (bytes chunk ≤ max_post_bytes) ⊎ (length chunk ≡ 1)

  bytes-append : (xs ys : List E) → bytes (xs ++ ys) ≡ bytes xs + bytes ys
  bytes-append [] ys = omega arith
  bytes-append (x ∷ xs) ys = omega (arith, bytes-append xs ys)

  concat-chunk_loop :
      (chunks : List (List E)) (chunk : List E) (size : ℕ) (events : List E)
      → concat (chunk_loop size_of chunks chunk size events) ≡ concat chunks ++ chunk ++ events
  unfolding chunk_loop concat
  concat-chunk_loop chunks [] size [] = simp append-nil
  concat-chunk_loop chunks (e ∷ chunk) size [] =
      concat-append chunks ((e ∷ chunk) ∷ []) ∙ simp append-nil
  concat-chunk_loop chunks chunk size (event ∷ events) =
      elim (Bool-cases (must_flush size_of chunk size event)) [
        | inl e ↦
            rw (e, chunk_loop)
              (concat-chunk_loop (chunks ++ chunk ∷ []) (event ∷ []) (size_of event) events
                ∙ simp (concat-append, append-nil, append_assoc))
        | inr e ↦
            rw (e, chunk_loop)
              (concat-chunk_loop chunks (chunk ++ event ∷ []) (size + size_of event) events
                ∙ simp append_assoc)
      ]

  -- The batches hold exactly the events, in their order.
  pub concat-chunk_events : (events : List E) → concat (chunk_events size_of events) ≡ events
  unfolding chunk_events concat
  concat-chunk_events events = concat-chunk_loop [] [] 0 events

  -- The open batch: `size` is its byte count, and it is empty or could be posted as it stands.
  record IsOpen (chunk : List E) (size : ℕ) : Type 0 where
    counted : size ≡ bytes chunk
    few : length chunk ≤ max_events_per_post
    small : (bytes chunk ≤ max_post_bytes) ⊎ (length chunk ≤ 1)

  IsOpen-flush : (event : E) → IsOpen (event ∷ []) (size_of event)
  IsOpen-flush event = ground arith

  IsOpen-extend :
      (chunk : List E) (size : ℕ) (event : E)
      → must_flush size_of chunk size event ≡ false
      → IsOpen chunk size
      → IsOpen (chunk ++ event ∷ []) (size + size_of event)
  unfolding must_flush
  IsOpen-extend [] size event h o = ground arith
  IsOpen-extend (e ∷ chunk) size event h o =
      ground (arith, length-append (e ∷ chunk) (event ∷ []), bytes-append (e ∷ chunk) (event ∷ []))

  IsBatch-closed :
      (e : E) (chunk : List E) (size : ℕ) → IsOpen (e ∷ chunk) size → IsBatch (e ∷ chunk)
  IsBatch-closed e chunk size o = ground arith

  chunk_loop-IsBatch :
      (chunks : List (List E)) (chunk : List E) (size : ℕ) (events : List E)
      → All IsBatch chunks
      → IsOpen chunk size
      → All IsBatch (chunk_loop size_of chunks chunk size events)
  unfolding chunk_loop
  chunk_loop-IsBatch chunks [] size [] h o = h
  chunk_loop-IsBatch chunks (e ∷ chunk) size [] h o =
      All-append IsBatch chunks ((e ∷ chunk) ∷ []) h (IsBatch-closed e chunk size o, tt)
  chunk_loop-IsBatch chunks [] size (event ∷ events) h o =
      unfold must_flush in
      chunk_loop-IsBatch chunks (event ∷ []) (size + size_of event) events h
        (IsOpen-extend [] size event refl o)
  chunk_loop-IsBatch chunks (x ∷ chunk) size (event ∷ events) h o =
      elim (Bool-cases (must_flush size_of (x ∷ chunk) size event)) [
        | inl e ↦
            rw (e, chunk_loop)
              (chunk_loop-IsBatch (chunks ++ (x ∷ chunk) ∷ []) (event ∷ []) (size_of event) events
                (All-append IsBatch chunks ((x ∷ chunk) ∷ []) h (IsBatch-closed x chunk size o, tt))
                (IsOpen-flush event))
        | inr e ↦
            rw (e, chunk_loop)
              (chunk_loop-IsBatch chunks ((x ∷ chunk) ++ event ∷ []) (size + size_of event) events h
                (IsOpen-extend (x ∷ chunk) size event e o))
      ]

  -- Every batch is posted whole: it is not empty, holds at most 256 events, and either its events
  -- fit the byte budget or it is one event by itself.
  pub chunk_events-IsBatch : (events : List E) → All IsBatch (chunk_events size_of events)
  unfolding chunk_events
  chunk_events-IsBatch events = chunk_loop-IsBatch [] [] 0 events tt (ground arith)
