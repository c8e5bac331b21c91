-- ===== src/TencentDb/Client/Chunks.antt =====
-- What a chunked add has confirmed
-- (integration/tencentdb/src/tencentdb_bridge/client.py, `conversation_add`).
use mathlib.Core.Path.{subst}
use memory_bridge.Base.{
  ℕ, zero, suc, ◌+◌, ◌≤◌, ◌≡◌, refl, ◌∙◌, ap, List, [], ◌∷◌, ◌++◌, append_assoc, Str, length,
  length-append, arith, All,
}
use memory_bridge.Shared.Json.{Json, Fields, no_fields}
use memory_bridge.TencentDb.Client.{
  add_chunk_messages, Result, ok, err, Request, Answer, Python, read_answer, Ids, split_at,
}
use memory_bridge.TencentDb.Client.Calls.{
  chunks_of, chunk_request, persisted_at, add_chunks, conversation_add,
}

abbrev pub concat : List (List Json) → List Json
concat [] = []
concat (chunk ∷ chunks) = chunk ++ concat chunks

split_at-parts :
    (n : ℕ) (xs : List Json)
    → (((split_at n xs).0 ++ (split_at n xs).1) ≡ xs) × (length (split_at n xs).0 ≤ n)
unfolding split_at
split_at-parts zero xs = (refl, omega arith)
split_at-parts (suc n) [] = (refl, omega arith)
split_at-parts (suc n) (x ∷ xs) =
    let (whole, short) = split_at-parts n xs in
    (ap (λ (l : List Json). x ∷ l) whole, omega (arith, short))

split_at-less :
    (n : ℕ) (x : Json) (xs : List Json) → length (split_at (suc n) (x ∷ xs)).1 ≤ length xs
unfolding split_at
split_at-less zero x xs = omega arith
split_at-less (suc n) x [] = omega arith
split_at-less (suc n) x (y ∷ xs) = omega (arith, split_at-less n y xs)

pub concat-chunks_of :
    (fuel : ℕ) (messages : List Json)
    → length messages ≤ fuel
    → concat (chunks_of fuel messages) ≡ messages
unfolding chunks_of
concat-chunks_of fuel [] h = refl
concat-chunks_of zero (x ∷ messages) h = absurd (omega (arith, h))
concat-chunks_of (suc fuel) (x ∷ messages) h =
    let (whole, short) = split_at-parts add_chunk_messages (x ∷ messages) in
    let (front, back) = split_at add_chunk_messages (x ∷ messages) in
    ap (λ (l : List Json). front ++ l)
      (concat-chunks_of fuel back (omega (arith, h, split_at-less 99 x messages)))
    ∙ whole

chunks_of-short :
    (fuel : ℕ) (messages : List Json)
    → All (λ (chunk : List Json). length chunk ≤ add_chunk_messages) (chunks_of fuel messages)
unfolding chunks_of
chunks_of-short fuel [] = tt
chunks_of-short zero (x ∷ messages) = tt
chunks_of-short (suc fuel) (x ∷ messages) = (
  (split_at-parts add_chunk_messages (x ∷ messages)).1,
  chunks_of-short fuel (split_at add_chunk_messages (x ∷ messages)).1,
)

module _ (P : Python) (send : ℕ → Request → Answer) (ids : Ids) (session_id task_id : Str) where
  -- The messages of the chunks up to the first one that is not answered with success.
  unfoldable pub confirmed : ℕ → List (List Json) → List Json
  confirmed k [] = []
  confirmed k (chunk ∷ chunks) =
      elim (read_answer P (send k (chunk_request P send ids session_id task_id chunk))) [
        | ok d ↦ chunk ++ confirmed (suc k) chunks
        | err e ↦ []
      ]

  -- The count in an error is that of the confirmed messages, which are the first ones.
  abbrev pub Told : ℕ → List Json → List Json → Result Fields → Type 0
  Told sent messages done (ok d) = done ≡ messages
  Told sent messages done (err e) =
      (e.persisted_messages ≡ sent + length done) × (rest : List Json) × ((done ++ rest) ≡ messages)

  Told-after :
      (sent : ℕ) (chunk messages done : List Json) (r : Result Fields)
      → Told (sent + length chunk) messages done r
      → Told sent (chunk ++ messages) (chunk ++ done) r
  Told-after sent chunk messages done (ok d) h = ap (λ (l : List Json). chunk ++ l) h
  Told-after sent chunk messages done (err e) (n, rest, whole) = (
    omega (arith, n, length-append chunk done),
    rest,
    append_assoc chunk done rest ∙ ap (λ (l : List Json). chunk ++ l) whole,
  )

  add_chunks-Told :
      (chunks : List (List Json)) (sent : ℕ) (answer : Fields) (k : ℕ)
      → Told sent
          (concat chunks)
          (confirmed k chunks)
          (add_chunks P send ids session_id task_id chunks sent answer k).0
  unfolding add_chunks confirmed
  add_chunks-Told [] sent answer k = refl
  add_chunks-Told (chunk ∷ chunks) sent answer k =
      go (read_answer P (send k (chunk_request P send ids session_id task_id chunk)))
        (λ d. add_chunks-Told chunks (sent + length chunk) d (suc k))
    where
      next : Fields → Result Fields × ℕ
      next d = add_chunks P send ids session_id task_id chunks (sent + length chunk) d (suc k)

      done : Result Fields → List Json
      done x = elim x [ ok d ↦ chunk ++ confirmed (suc k) chunks | err e ↦ [] ]

      result : Result Fields → Result Fields × ℕ
      result x = elim x [ err e ↦ (err (persisted_at sent e), suc k) | ok d ↦ next d ]

      go :
          (x : Result Fields)
          → ((d : Fields)
              → Told (sent + length chunk) (concat chunks) (confirmed (suc k) chunks) (next d).0)
          → Told sent (chunk ++ concat chunks) (done x) (result x).0
      go (ok d) again = Told-after sent chunk (concat chunks) _ (next d).0 (again d)
      go (err e) again = (omega arith, chunk ++ concat chunks, refl)

  -- An add that returns has had every message confirmed, in order, in chunks of at most 100; one that
  -- raises tells how many were confirmed, and those are the first ones.
  pub conversation_add-Told :
      (messages : List Json) (k : ℕ)
      → Told 0 messages
          (confirmed k (chunks_of (length messages) messages))
          (conversation_add P send ids session_id task_id messages k).0
        × All
            (λ (chunk : List Json). length chunk ≤ add_chunk_messages)
            (chunks_of (length messages) messages)
  unfolding conversation_add
  conversation_add-Told messages k = (
    subst
        (λ (l : List Json).
          Told 0 l (confirmed k (chunks_of (length messages) messages))
            (conversation_add P send ids session_id task_id messages k).0)
        (concat-chunks_of (length messages) messages (omega arith))
        (add_chunks-Told (chunks_of (length messages) messages) 0 no_fields k),
    chunks_of-short (length messages) messages,
  )
