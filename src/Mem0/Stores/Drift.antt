-- ===== src/Mem0/Stores/Drift.antt =====
-- The stores fail closed on a body that has lost its shape
-- (integration/mem0/src/mem0_bridge/stores/server.py and library.py).
use memory_bridge.Base.{ℕ, suc, ◌≡◌, refl, List, Option, none, some, Str, take, ◌<◌, ap, ◌∙◌}
use memory_bridge.Shared.Json.{Json, Items, Fields, dicts}
use memory_bridge.Mem0.Client.{
  Python, Mem0Error, Result, ok, err, Request, Answer, answered, Receipt, receipts, results_in,
}
use memory_bridge.Mem0.Client.Calls.{
  SearchCall, AddCall, rows_of, judge, request_json, proceed, give, ◌>>=◌,
}
use memory_bridge.Mem0.Stores.{
  Store, receipts_of, cut, server_store, server_add, server_search, server_get_all,
}
use memory_bridge.Mem0.Client.Added.{judge-ok}
use memory_bridge.Mem0.Stores.Library.{
  library_store, EngineCall, EngineAnswer, value, value_error, engine_raised, bare, call_engine,
  library_add, library_search, library_get_all,
}

-- The list of results of a body.
abbrev pub Lists : {A : Type 0} → (Items → List A) → Json → List A → Type 0
Lists read body xs = (items : Items) × (results_in body ≡ some items) × (xs ≡ read items)

-- A store over what answers its calls, `Answers`: every add and search that succeeds has its rows from
-- the list of results of an answer, and so has a listing, up to its limit.
pub record IsFailClosed {S : Type 0} (Answers : S → Json → Type 0) (store : Store S) : Type 0 where
  pub add :
      (call : AddCall) (s s' : S) (rs : List Receipt)
      → store.add call s ≡ (ok rs, s')
      → (body : Json) × Answers s body × Lists receipts body rs
  pub search :
      (call : SearchCall) (s s' : S) (rows : List Fields)
      → store.search call s ≡ (ok rows, s')
      → (body : Json) × Answers s body × Lists dicts body rows
  pub get_all :
      (user_id : Str) (limit : ℕ) (s s' : S) (rows : List Fields)
      → store.get_all user_id limit s ≡ (ok rows, s')
      → (body : Json) × Answers s body × Lists (λ items. take limit (dicts items)) body rows

-- A call that reads the body of its answer.
read-ok :
    {A : Type 0} (r : Result Json) (read : Json → Result A) (k n : ℕ) (a : A)
    → proceed (λ body. give (read body)) (r, k) ≡ (ok a, n)
    → (body : Json) × (r ≡ ok body) × (read body ≡ ok a)
read-ok (ok body) read k n a h = (body, refl, cc)
read-ok (err e) read k n a h = cc

results-ok :
    {A : Type 0} (o : Option Items) (read : Items → A) (e : Mem0Error) (a : A)
    → (let r : Result A = elim o [ some items ↦ ok (read items) | none ↦ err e ] in r) ≡ ok a
    → (items : Items) × (o ≡ some items) × (a ≡ read items)
results-ok (some items) read e a h = (items, refl, cc)
results-ok none read e a h = cc

module _ (P : Python) where
  receipts_of-Lists :
      (body : Json) (rs : List Receipt) → receipts_of P body ≡ ok rs → Lists receipts body rs
  unfolding receipts_of
  receipts_of-Lists body rs h = results-ok (results_in body) receipts _ rs h

  rows_of-Lists :
      (body : Json) (rows : List Fields) → rows_of P body ≡ ok rows → Lists dicts body rows
  unfolding rows_of
  rows_of-Lists body rows h = results-ok (results_in body) dicts _ rows h

  cut_ok :
      (limit : ℕ) (r : Result (List Fields)) (rows : List Fields)
      → cut limit r ≡ ok rows
      → (all : List Fields) × (r ≡ ok all) × (rows ≡ take limit all)
  unfolding cut
  cut_ok limit (ok all) rows h = (all, refl, cc)
  cut_ok limit (err e) rows h = cc

  cut-Lists :
      (limit : ℕ) (body : Json) (rows : List Fields)
      → cut limit (rows_of P body) ≡ ok rows
      → Lists (λ items. take limit (dicts items)) body rows
  cut-Lists limit body rows h =
      let (all, e, same) = cut_ok limit (rows_of P body) rows h in
      let (items, found, listed) = rows_of-Lists body all e in
      (items, found, same ∙ ap (take limit) listed)

  module _ (send : ℕ → Request → Answer) (add_timeout : ℕ) where
    abbrev pub ServerAnswers : ℕ → Json → Type 0
    ServerAnswers k body =
        (r : Request) × (status : ℕ) × (send k r ≡ answered status body) × (status < 400)

    server_read :
        {A : Type 0} (r : Request) (read : Json → Result A) (k n : ℕ) (a : A)
        → (request_json P send r >>= λ body. give (read body)) k ≡ (ok a, n)
        → (body : Json) × ServerAnswers k body × (read body ≡ ok a)
    unfolding request_json
    server_read r read k n a h =
        let (body, e, rest) = read-ok (judge (send k r)) read (suc k) n a h in
        let (status, sent, low) = judge-ok (send k r) body e in (body, (r, status, sent, low), rest)

    -- The server store fails closed.
    pub server_store-IsFailClosed : IsFailClosed ServerAnswers (server_store P send add_timeout)
    unfolding server_add server_search server_get_all
    server_store-IsFailClosed = record {
      add = λ call k n rs h.
          let (body, sent, e) = server_read _ (receipts_of P) k n rs h in
          (body, sent, receipts_of-Lists body rs e);
      search = λ call k n rows h.
          let (body, sent, e) = server_read _ (rows_of P) k n rows h in
          (body, sent, rows_of-Lists body rows e);
      get_all = λ user_id limit k n rows h.
          let (body, sent, e) = server_read _ (λ body. cut limit (rows_of P body)) k n rows h in
          (body, sent, cut-Lists limit body rows e);
    }

  module _ (engine : ℕ → EngineCall → EngineAnswer) where
    abbrev pub EngineAnswers : ℕ → Json → Type 0
    EngineAnswers k body = (call : EngineCall) × (engine k call ≡ value body)

    bare-ok : (a : EngineAnswer) (body : Json) → bare a ≡ ok body → a ≡ value body
    unfolding bare
    bare-ok (value x) body h = cc
    bare-ok (value_error s) body h = cc
    bare-ok (engine_raised e) body h = cc

    engine_read :
        {A : Type 0} (call : EngineCall) (read : Json → Result A) (k n : ℕ) (a : A)
        → (call_engine P engine bare call >>= λ body. give (read body)) k ≡ (ok a, n)
        → (body : Json) × EngineAnswers k body × (read body ≡ ok a)
    engine_read call read k n a h =
        let (body, e, rest) = read-ok (bare (engine k call)) read (suc k) n a h in
        (body, (call, bare-ok (engine k call) body e), rest)

    -- The library store fails closed.
    pub library_store-IsFailClosed : IsFailClosed EngineAnswers (library_store P engine)
    unfolding library_add library_search library_get_all
    library_store-IsFailClosed = record {
      add = λ call k n rs h.
          let (body, sent, e) = engine_read _ (receipts_of P) k n rs h in
          (body, sent, receipts_of-Lists body rs e);
      search = λ call k n rows h.
          let (body, sent, e) = engine_read _ (rows_of P) k n rows h in
          (body, sent, rows_of-Lists body rows e);
      get_all = λ user_id limit k n rows h.
          let (body, sent, e) = engine_read _ (λ body. cut limit (rows_of P body)) k n rows h in
          (body, sent, cut-Lists limit body rows e);
    }
