-- ===== src/Shared/Backend/Record/Bounded.antt =====
-- The view of the recent messages stays bounded, and transient blocks are never recorded
-- (shared-bridge/src/shared_bridge/backend.py, `record`).
use mathlib.Core.Path.{subst}
use memory_bridge.Base.{
  ℕ, ◌≤◌, ◌≡◌, refl, ◌∙◌, sym, ap, Bool, true, false, ◌&&◌, not, List, [], ◌∷◌, ◌++◌, Str,
  if◌then◌else◌, ltb, length, All, keep_if, Bool-cases, inl, inr, arith, length-append,
}
use memory_bridge.Shared.Config.{MemoryConfig}
use memory_bridge.Shared.Integration.{Integration}
use memory_bridge.Shared.Truncate.{truncate, length-truncate}
use memory_bridge.Shared.Backend.State.{Outcome, returned, raised, Backend}
use memory_bridge.Shared.Backend.Record.{
  Message, Entry, not_a_dict, dict, Stored, stored, store_raised, drop_first, push_recent,
  message_text, role_of, note_stored, settle_store, record_message, is_recordable, record_entry,
  unless_raised, record_all, record_messages,
}

push_recent-length {ℓ} :
    {A : Type ℓ} (xs : List A) (x : A) → length xs ≤ 6 → length (push_recent xs x) ≤ 6
unfolding push_recent
push_recent-length [] x h = ground arith
push_recent-length (y ∷ ys) x h =
    ground (arith, length-append ys (x ∷ []), length-append (y ∷ ys) (x ∷ []))

drop_first-All {ℓ κ} :
    {A : Type ℓ} (P : A → Type κ) (xs : List A) → All P xs → All P (drop_first xs)
drop_first-All P [] h = tt
drop_first-All P (x ∷ xs) h = h.1

append-All {ℓ κ} :
    {A : Type ℓ} (P : A → Type κ) (xs : List A) (x : A) → All P xs → P x → All P (xs ++ x ∷ [])
append-All P [] x h p = (p, tt)
append-All P (y ∷ ys) x h p = (h.0, append-All P ys x h.1 p)

push_recent-All {ℓ κ} :
    {A : Type ℓ} (P : A → Type κ) (xs : List A) (x : A) → All P xs → P x → All P (push_recent xs x)
unfolding push_recent
push_recent-All P xs x h p = elim (Bool-cases (ltb (length xs) 6)) [
  | inl e ↦ rw e (append-All P xs x h p)
  | inr e ↦ rw e (append-All P (drop_first xs) x (drop_first-All P xs h) p)
]

module _ {I : Integration} (c : MemoryConfig I.Score) (normalize_role : Str → Str)
    (should_store : Str → Bool)
    (store_message : Str → Str → ℕ → Backend I → Stored × Backend I) where
  -- At most six entries, each within the recording cap.
  abbrev pub IsBounded : List (Str × Str) → Type 0
  IsBounded recent =
      (length recent ≤ 6) × All (λ (m : Str × Str). length m.1 ≤ c.max_message_chars) recent

  -- The integration leaves the recent messages to the base.
  abbrev pub KeepsRecent : Type 0
  KeepsRecent =
      (role text : Str) (step : ℕ) (b : Backend I)
      → (store_message role text step b).1.recent_messages ≡ b.recent_messages

  settle_store-IsBounded :
      (step : ℕ) (role text : Str) (r : Stored) (b : Backend I)
      → length text ≤ c.max_message_chars
      → IsBounded b.recent_messages
      → IsBounded
          (settle_store c normalize_role should_store store_message step role text
            (r, b)).1.recent_messages
  unfolding settle_store note_stored
  settle_store-IsBounded step role text (stored id) b short h = (
    push_recent-length b.recent_messages (role, text) h.0,
    push_recent-All _ b.recent_messages (role, text) h.1 short,
  )
  settle_store-IsBounded step role text (store_raised e) b short h = h

  IsBounded-if :
      (x : Bool) (p q : Outcome × Backend I)
      → IsBounded p.1.recent_messages
      → IsBounded q.1.recent_messages
      → IsBounded (if x then p else q).1.recent_messages
  IsBounded-if true p q h g = h
  IsBounded-if false p q h g = g

  record_message-IsBounded :
      (step : ℕ) (m : Message) (b : Backend I)
      → KeepsRecent
      → IsBounded b.recent_messages
      → IsBounded
          (record_message c normalize_role should_store store_message step m b).1.recent_messages
  unfolding record_message
  record_message-IsBounded step m b k h =
      let text = truncate (message_text m) c.max_message_chars in
      let role = normalize_role (role_of m.role) in
      let x = store_message role text step b in
      IsBounded-if (should_store text) _ _
        (settle_store-IsBounded step role text x.0 x.1
          (omega (arith, (length-truncate (message_text m) c.max_message_chars).0))
          (subst IsBounded (sym (k role text step b)) h))
        h

  record_entry-IsBounded :
      (step : ℕ) (entry : Entry) (b : Backend I)
      → KeepsRecent
      → IsBounded b.recent_messages
      → IsBounded
          (record_entry c normalize_role should_store store_message step entry b).1.recent_messages
  unfolding record_entry
  record_entry-IsBounded step not_a_dict b k h = h
  record_entry-IsBounded step (dict m) b k h =
      IsBounded-if m.transient_recall _ _ h (record_message-IsBounded step m b k h)

  unless_raised-IsBounded :
      (o : Outcome) (rest : Outcome × Backend I) (b : Backend I)
      → IsBounded rest.1.recent_messages
      → IsBounded b.recent_messages
      → IsBounded (unless_raised o rest b).1.recent_messages
  unfolding unless_raised
  unless_raised-IsBounded returned rest b h g = h
  unless_raised-IsBounded (raised e) rest b h g = g

  record_all-IsBounded :
      (step : ℕ) (entries : List Entry) (b : Backend I)
      → KeepsRecent
      → IsBounded b.recent_messages
      → IsBounded
          (record_all c normalize_role should_store store_message step entries b).1.recent_messages
  unfolding record_all
  record_all-IsBounded step [] b k h = h
  record_all-IsBounded step (entry ∷ entries) b k h =
      let (o, b') = record_entry c normalize_role should_store store_message step entry b in
      let g : IsBounded b'.recent_messages = record_entry-IsBounded step entry b k h in
      unless_raised-IsBounded o
        (record_all c normalize_role should_store store_message step entries b') b'
        (record_all-IsBounded step entries b' k g) g

  -- Recording keeps the rewriter's view bounded, under `strict` and after an exception too: at most
  -- six messages, each within the recording cap. The integration must leave the view to the base.
  pub record_messages-IsBounded :
      (entries : List Entry) (step : ℕ) (b : Backend I)
      → KeepsRecent
      → IsBounded b.recent_messages
      → IsBounded
          (record_messages c normalize_role should_store store_message entries step
            b).1.recent_messages
  unfolding record_messages
  record_messages-IsBounded entries step b k h =
      IsBounded-if (b.available && not b.finalized) _ _ (record_all-IsBounded step entries b k h) h

  record_all-recordable :
      (step : ℕ) (entries : List Entry) (b : Backend I)
      → record_all c normalize_role should_store store_message step
          (keep_if is_recordable entries)
          b
        ≡ record_all c normalize_role should_store store_message step entries b
  unfolding record_all record_entry is_recordable unless_raised
  record_all-recordable step [] b = refl
  record_all-recordable step (not_a_dict ∷ entries) b = record_all-recordable step entries b
  record_all-recordable step (dict m ∷ entries) b =
      let all = record_all c normalize_role should_store store_message step in
      let rest = keep_if is_recordable entries in
      let entered = record_message c normalize_role should_store store_message step m b in
      let kept = λ (x : Bool). all (if not x then dict m ∷ rest else rest) b in
      let next = λ (x : Bool).
        let r = if x then (returned, b) else entered in unless_raised r.0 (all entries r.1) r.1 in
      elim (Bool-cases m.transient_recall) [
        | inl e ↦ ap kept e ∙ record_all-recordable step entries b ∙ sym (ap next e)
        | inr e ↦
            ap kept e
            ∙ ap
                (λ (tail : Outcome × Backend I).
                  let r = if m.transient_recall then (returned, b) else entered in
                  unless_raised r.0 tail r.1)
                (record_all-recordable step entries
                  (if m.transient_recall then (returned, b) else entered).1)
      ]

  -- Transient recall blocks and entries that are no dictionaries are never recorded: recording a
  -- list is recording it without them.
  pub record_messages-recordable :
      (entries : List Entry) (step : ℕ) (b : Backend I)
      → record_messages c normalize_role should_store store_message
          (keep_if is_recordable entries)
          step
          b
        ≡ record_messages c normalize_role should_store store_message entries step b
  unfolding record_messages
  record_messages-recordable entries step b =
      ap
        (λ (all : Outcome × Backend I).
          if b.available && not b.finalized then all else (returned, b))
        (record_all-recordable step entries b)
