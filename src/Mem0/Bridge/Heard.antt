-- ===== src/Mem0/Bridge/Heard.antt =====
-- What recording gives to the mem0 integration
-- (integration/mem0/src/mem0_bridge/backend.py, `_store_message`, under `record` of
-- shared-bridge/src/shared_bridge/backend.py).
use memory_bridge.Base.{
  ℕ, ◌≡◌, refl, ◌∙◌, sym, ap, Bool, true, false, ◌&&◌, not, List, [], ◌∷◌, ◌++◌, append-nil,
  append_assoc, Str, if◌then◌else◌,
}
use memory_bridge.Shared.Config.{MemoryConfig}
use memory_bridge.Shared.Truncate.{truncate}
use memory_bridge.Shared.Backend.State.{Outcome, returned, raised, Backend}
use memory_bridge.Shared.Backend.Record.{
  Entry, not_a_dict, dict, message_text, role_of, note_stored, unless_raised, settle_store,
  record_message, record_entry, record_all, record_messages,
}
use memory_bridge.Mem0.Hits.{Mem0, mem0, normalize_role, should_store}
use memory_bridge.Mem0.Bridge.{store_message}

module _ {S : Type 0} (M : Mem0 S) (c : MemoryConfig M.Score) where
  -- What recording makes of an entry: its normalized role and its capped text, unless it is skipped.
  unfoldable pub spoken_text : Str → Str → List (Str × Str)
  spoken_text role s = if should_store s then (role, s) ∷ [] else []

  unfoldable pub spoken_entry : Entry → List (Str × Str)
  spoken_entry not_a_dict = []
  spoken_entry (dict m) =
      if m.transient_recall
      then []
      else spoken_text (normalize_role (role_of m.role))
          (truncate (message_text m) c.max_message_chars)

  unfoldable pub spoken : List Entry → List (Str × Str)
  spoken [] = []
  spoken (entry ∷ entries) = spoken_entry entry ++ spoken entries

  abbrev pub recording : List Entry → ℕ → Backend (mem0 M) → Outcome × Backend (mem0 M)
  recording = record_messages c normalize_role should_store (store_message M)

  -- Nothing is recorded before a start that succeeds and after `finalize`.
  unfoldable pub heard : Backend (mem0 M) → List Entry → List (Str × Str)
  heard b entries = if b.available && not b.finalized then spoken entries else []

  -- The batch is pending after what was pending; the store is as it was.
  abbrev pub Queued : List (Str × Str) → Backend (mem0 M) → Backend (mem0 M) → Type 0
  Queued batch b b' =
      (b'.native.store ≡ b.native.store) × (b'.native.pending ≡ b.native.pending ++ batch)

  abbrev pub Records : List (Str × Str) → Backend (mem0 M) → Outcome × Backend (mem0 M) → Type 0
  Records batch b r = (r.0 ≡ returned) × Queued batch b r.1

  stay-Records : (b : Backend (mem0 M)) → Records [] b (returned, b)
  stay-Records b = (refl, (refl, sym (append-nil b.native.pending)))

  if-Records :
      (t : Bool) (xs ys : List (Str × Str)) (b : Backend (mem0 M))
      (r r' : Outcome × Backend (mem0 M))
      → Records xs b r
      → Records ys b r'
      → Records (if t then xs else ys) b (if t then r else r')
  if-Records true xs ys b r r' p q = p
  if-Records false xs ys b r r' p q = q

  record_entry-Records :
      (step : ℕ) (entry : Entry) (b : Backend (mem0 M))
      → Records
          (spoken_entry entry)
          b
          (record_entry c normalize_role should_store (store_message M) step entry b)
  unfolding record_entry record_message settle_store store_message note_stored spoken_entry
      spoken_text
  record_entry-Records step not_a_dict b = stay-Records b
  record_entry-Records step (dict m) b = if-Records m.transient_recall [] _ b _ _ (stay-Records b) (
      if-Records (should_store (truncate (message_text m) c.max_message_chars)) _ [] b _ _
        (refl, (refl, refl)) (stay-Records b))

  record_all-Records :
      (step : ℕ) (entries : List Entry) (b : Backend (mem0 M))
      → Records
          (spoken entries)
          b
          (record_all c normalize_role should_store (store_message M) step entries b)
  unfolding record_all spoken unless_raised
  record_all-Records step [] b = stay-Records b
  record_all-Records step (entry ∷ entries) b =
      let one = record_entry c normalize_role should_store (store_message M) step entry b in
      let rest = record_all c normalize_role should_store (store_message M) step entries one.1 in
      go one.0 one.1 rest (record_entry-Records step entry b)
        (record_all-Records step entries one.1)
    where
      go :
          (o : Outcome) (b' : Backend (mem0 M)) (rest : Outcome × Backend (mem0 M))
          → Records (spoken_entry entry) b (o, b')
          → Records (spoken entries) b' rest
          → Records (spoken_entry entry ++ spoken entries) b (unless_raised o rest b')
      go returned b' rest (e, (store, pending)) (e', (store', pending')) = (
        e',
        (
          store' ∙ store,
          pending'
              ∙ ap (λ (l : List (Str × Str)). l ++ spoken entries) pending
              ∙ append_assoc b.native.pending (spoken_entry entry) (spoken entries),
        ),
      )
      go (raised x) b' rest (e, q) p = cc

  -- Recording queues what it hears, in order, behind what is pending, and does not raise.
  pub recording-Records :
      (entries : List Entry) (step : ℕ) (b : Backend (mem0 M))
      → Records (heard b entries) b (recording entries step b)
  unfolding record_messages heard
  recording-Records entries step b =
      if-Records (b.available && not b.finalized) _ [] b _ _ (record_all-Records step entries b)
        (stay-Records b)
