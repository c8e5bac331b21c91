-- ===== src/Mem0/Bridge/Receipts/Explained.antt =====
-- What it means that the audit of the receipts reports no drift
-- (integration/mem0/src/mem0_bridge/backend.py, `_attribute_changes` and `_audit_against_state`).
use mathlib.Core.Path.{subst}
use memory_bridge.Base.{
  ◌≡◌, refl, ◌∙◌, sym, ap, Bool, true, false, ◌&&◌, List, [], ◌∷◌, ◌++◌, Option, none, some, Str,
  str_eq, str_eq_iff, Bool-cases, arith, ◌⊎◌, inl, inr, if◌then◌else◌, All,
}
use memory_bridge.Base.Members.{In}
use memory_bridge.Shared.Json.{Json}
use memory_bridge.Shared.Backend.State.{
  Backend, Change, ChangeAction, create, update, delete, native_action,
}
use memory_bridge.Shared.Backend.Generation.{Attribution}
use memory_bridge.Shared.Backend.Generation.Diff.{row_at, attribute_changes}
use memory_bridge.Shared.Backend.Generation.Faithful.{Unchanged}
use memory_bridge.Shared.Backend.Generation.Located.{
  bind-some, some-injective, attribute_changes-Located,
}
use memory_bridge.Mem0.Client.{Receipt, truthy, text_of}
use memory_bridge.Mem0.Hits.{Mem0, MemoryRef, mem0, memory_ref, sha_of, version_of}
use memory_bridge.Mem0.Bridge.{event_of}
use memory_bridge.Mem0.Bridge.Receipts.{
  Claims, no_claims, claims_action, claim, claims_of, action_of, receipt_hit, Listing, Claimed,
  nothing_claimed, receipt_payload, note_claim, claim_receipt, claim_step, claim_all, refs_of,
  observed_line, observed_lines, receipt_lines, snapshot, audit_against_state, attribute_receipts,
}
use memory_bridge.Mem0.Bridge.Receipts.Keyed.{IsKeyed, snapshot-IsKeyed}

no_claim : (action : ChangeAction) → claims_action action no_claims ≡ false
unfolding claims_action
no_claim create = refl
no_claim update = refl
no_claim delete = refl
no_claim (native_action s) = refl

-- A claim on one id is none on another.
claims_of-claim :
    (key id : Str) (action : ChangeAction) (claimed : List (Str × Claims))
    → str_eq key id ≡ false
    → claims_of key (claim id action claimed) ≡ claims_of key claimed
unfolding claims_of claim
claims_of-claim key id action [] h = ground (arith, h)
claims_of-claim key id action ((k, x) ∷ claimed) h = elim (Bool-cases (str_eq id k)) [
  | inl e ↦
      ground (arith, h, e, subst (λ (s : Str). str_eq key s ≡ false) ((str_eq_iff id k).0 e) h)
  | inr e ↦ ground (arith, e, claims_of-claim key id action claimed h)
]

nothing_before : {A : Type 0} (xs ys : List A) → (xs ++ ys) ≡ [] → xs ≡ []
nothing_before [] ys e = refl
nothing_before (x ∷ xs) ys e = cc

module _ {S : Type 0} (M : Mem0 S) where
  -- A receipt with this id whose event is a change.
  unfoldable pub cites : Str → Receipt → Bool
  cites key r =
      truthy M.python r.id
      && str_eq key (text_of M.python r.id)
      && (elim (action_of (event_of M r)) [ none ↦ false | some action ↦ true ])

  claim_receipt-claims :
      (key : Str) (action : ChangeAction) (r : Receipt) (acc acc' : Claimed M)
      → str_eq key (text_of M.python r.id) ≡ false
      → claim_receipt M action r acc ≡ some acc'
      → claims_of key acc'.claimed ≡ claims_of key acc.claimed
  unfolding claim_receipt note_claim
  claim_receipt-claims key action r acc acc' h e =
      let (payload, ep, e1) = bind-some (receipt_payload M action r) _ acc' e in
      let (ref, er, e2) = bind-some (memory_ref M (receipt_hit r)) _ acc' e1 in
      ap (λ (x : Claimed M). claims_of key x.claimed)
        (sym (some-injective (note_claim M action r payload ref acc) acc' e2))
      ∙ claims_of-claim key (text_of M.python r.id) action acc.claimed h

  claim_step-claims :
      (key : Str) (r : Receipt) (acc acc' : Claimed M)
      → cites key r ≡ false
      → claim_step M r acc ≡ some acc'
      → claims_of key acc'.claimed ≡ claims_of key acc.claimed
  unfolding claim_step cites
  claim_step-claims key r acc acc' h e = go (truthy M.python r.id) (action_of (event_of M r)) h e
    where
      kept : some acc ≡ some acc' → claims_of key acc'.claimed ≡ claims_of key acc.claimed
      kept q = ap (λ (x : Claimed M). claims_of key x.claimed) (sym (some-injective acc acc' q))

      go :
          (t : Bool) (o : Option ChangeAction)
          → (t
              && str_eq key (text_of M.python r.id)
              && (elim o [ none ↦ false | some action ↦ true ]))
            ≡ false
          → (if t
              then (elim o [ none ↦ some acc | some action ↦ claim_receipt M action r acc ])
              else some acc)
            ≡ some acc'
          → claims_of key acc'.claimed ≡ claims_of key acc.claimed
      go false o q w = kept w
      go true none q w = kept w
      go true (some action) q w = claim_receipt-claims key action r acc acc' (ground (arith, q)) w

  claim_all-claims :
      (key : Str) (rs : List Receipt) (acc acc' : Claimed M)
      → All (λ r. cites key r ≡ false) rs
      → claim_all M rs acc ≡ some acc'
      → claims_of key acc'.claimed ≡ claims_of key acc.claimed
  unfolding claim_all
  claim_all-claims key [] acc acc' h e =
      ap (λ (x : Claimed M). claims_of key x.claimed) (sym (some-injective acc acc' e))
  claim_all-claims key (r ∷ rs) acc acc' h e =
      let (mid, em, e1) = bind-some (claim_step M r acc) _ acc' e in
      claim_all-claims key rs mid acc' h.1 e1 ∙ claim_step-claims key r acc mid h.0 em

  -- Where the observed changes give no line, each has its claim.
  observed_line-claimed :
      (claimed : List (Str × Claims)) (x : Change (mem0 M)) (ref : MemoryRef M.Score)
      (refs : List (MemoryRef M.Score))
      → observed_line M claimed x (ref ∷ refs) ≡ some []
      → claims_action x.action (claims_of ref.item_id claimed) ≡ true
  unfolding observed_line
  observed_line-claimed claimed x ref refs e = ground (arith, e)

  observed_lines-claimed :
      (claimed : List (Str × Claims)) (changes : List (Change (mem0 M))) (x : Change (mem0 M))
      (ref : MemoryRef M.Score) (refs : List (MemoryRef M.Score))
      → observed_lines M claimed changes ≡ some []
      → In x changes
      → refs_of M x ≡ ref ∷ refs
      → claims_action x.action (claims_of ref.item_id claimed) ≡ true
  unfolding observed_lines
  observed_lines-claimed claimed [] x ref refs e i h = absurd i
  observed_lines-claimed claimed (y ∷ changes) x ref refs e i h =
      let (first, ef, e1) = bind-some (observed_line M claimed y (refs_of M y)) _ [] e in
      let (rest, er, e2) = bind-some (observed_lines M claimed changes) _ [] e1 in
      go first rest (some-injective (first ++ rest) [] e2) ef er
        (λ q j. observed_lines-claimed claimed changes x ref refs q j h) i
    where
      Claim : Type 0
      Claim = claims_action x.action (claims_of ref.item_id claimed) ≡ true

      go :
          (first rest : List Str)
          → (first ++ rest) ≡ []
          → observed_line M claimed y (refs_of M y) ≡ some first
          → observed_lines M claimed changes ≡ some rest
          → (observed_lines M claimed changes ≡ some [] → In x changes → Claim)
          → (x ≡ y) ⊎ In x changes
          → Claim
      go [] [] q ef er again (inl same) = observed_line-claimed claimed x ref refs (
          subst (λ (l : List (MemoryRef M.Score)). observed_line M claimed x l ≡ some []) h
            (subst (λ (z : Change (mem0 M)). observed_line M claimed z (refs_of M z) ≡ some [])
              (sym same) ef))
      go [] [] q ef er again (inr i) = again er i
      go (s ∷ first) rest q ef er again j = cc
      go [] (s ∷ rest) q ef er again j = cc

  cited_first :
      (row : Json) (x : Change (mem0 M)) (ref : MemoryRef M.Score)
      → (x.after ≡ ref ∷ []) ⊎ ((x.after ≡ []) × (x.before ≡ ref ∷ []))
      → refs_of M x ≡ ref ∷ []
  unfolding refs_of
  cited_first row x ref (inl e) = rw e refl
  cited_first row x ref (inr (e, e')) = rw (e, e') refl

  abbrev pub Same : Listing M → Listing M → Str → Type 0
  Same before after key =
      Unchanged (mem0 M) (sha_of M) (version_of M)
        (row_at (mem0 M) (sha_of M) (version_of M) key before)
        (row_at (mem0 M) (sha_of M) (version_of M) key after)

  -- Without a line for the observed changes, a key without claims is unchanged.
  unclaimed-Same :
      (before after : Listing M) (observed : Attribution (mem0 M)) (claimed : List (Str × Claims))
      (key : Str)
      → attribute_changes (mem0 M) (sha_of M) (version_of M) (some before) (some after)
        ≡ some observed
      → observed_lines M claimed observed.changes ≡ some []
      → IsKeyed M before
      → IsKeyed M after
      → claims_of key claimed ≡ no_claims
      → Same before after key
  unclaimed-Same before after observed claimed key eo quiet kb ka none_claimed =
      elim (attribute_changes-Located (mem0 M) (sha_of M) (version_of M) before after observed key
        eo) [
          | inl same ↦ same
          | inr (row, x, at, i, (ref, er, how)) ↦ absurd (
              unclaimed x.action ref.item_id (at_key row ref at er) (
                observed_lines-claimed claimed observed.changes x ref [] quiet i
                  (cited_first row x ref how)))
        ]
    where
      at_key :
          (row : Json) (ref : MemoryRef M.Score)
          → (row_at (mem0 M) (sha_of M) (version_of M) key before ≡ some row)
            ⊎ (row_at (mem0 M) (sha_of M) (version_of M) key after ≡ some row)
          → memory_ref M row ≡ some ref
          → ref.item_id ≡ key
      at_key row ref (inl h) er = kb key row ref h er
      at_key row ref (inr h) er = ka key row ref h er

      unclaimed :
          (action : ChangeAction) (id : Str)
          → id ≡ key
          → claims_action action (claims_of id claimed) ≡ true
          → ⊥
      unclaimed action id e h =
          let f =
            sym h
            ∙ ap (λ (s : Str). claims_action action (claims_of s claimed)) e
            ∙ ap (claims_action action) none_claimed
            ∙ no_claim action in
          cc

  -- Where the audit of the receipts against the snapshots before and after reports no drift, a memory
  -- that no receipt cites is in neither of them, or in both with the same content digest.
  pub attribute_receipts-explained :
      (before after : Listing M) (rs : List Receipt) (a : Attribution (mem0 M)) (key : Str)
      (b b' : Backend (mem0 M))
      → attribute_receipts M (some before) (some rs) (some after) ≡ some a
      → a.unexplained ≡ []
      → snapshot M b ≡ some before
      → snapshot M b' ≡ some after
      → All (λ r. cites key r ≡ false) rs
      → Same before after key
  unfolding attribute_receipts audit_against_state claims_of
  attribute_receipts-explained before after rs a key b b' e quiet taken taken' uncited =
      let (acc, ea, e1) = bind-some (claim_all M rs (nothing_claimed M)) _ a e in
      let (lines, el, e2) =
        bind-some (audit_against_state M (some before) acc.claimed (some after)) _ a e1 in
      let (observed, eo, e3) =
        bind-some (attribute_changes (mem0 M) (sha_of M) (version_of M) (some before) (some after))
          _ lines el in
      let (seen, es, e4) = bind-some (observed_lines M acc.claimed observed.changes) _ lines e3 in
      let no_lines =
        some-injective (seen ++ receipt_lines M after acc.claimed) lines e4
        ∙ ap (λ (x : Attribution (mem0 M)). x.unexplained) (some-injective _ a e2)
        ∙ quiet in
      unclaimed-Same before after observed acc.claimed key eo
        (es
          ∙ ap (λ (l : List Str). some l)
              (nothing_before seen (receipt_lines M after acc.claimed) no_lines))
        (snapshot-IsKeyed M b before taken) (snapshot-IsKeyed M b' after taken')
        (claim_all-claims key rs (nothing_claimed M) acc uncited ea)
