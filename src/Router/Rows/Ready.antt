-- ===== src/Router/Rows/Ready.antt =====
-- The cursor of a router never meets a key without _id.
use rust_sdk_mongodb_extensi.Prelude.{
  ℕ, String, ◌≡◌, ◌≢◌, refl, Option, none, some, List, [], ◌∷◌, ◌++◌,
}
use rust_sdk_mongodb_extensi.Prelude.Word.{F64}
use rust_sdk_mongodb_extensi.Errors.{Message, text, ExtensionResult, Result, ok, err}
use rust_sdk_mongodb_extensi.Bson.{Bson, Document, get}
use rust_sdk_mongodb_extensi.Json.{Json}
use rust_sdk_mongodb_extensi.Stage.{Next}
use rust_sdk_mongodb_extensi.Source.Ops.{Caught}
use rust_sdk_mongodb_extensi.Search.Control.{QueryControl, Action, and_then}
use rust_sdk_mongodb_extensi.Search.Fetch.{as_usize, next_attempt_timeout, body_of}
use rust_sdk_mongodb_extensi.Router.Decode.{KeyReader, decode_response}
use rust_sdk_mongodb_extensi.Router.Decode.Sound.{AreRows, decode_response-AreRows}
use rust_sdk_mongodb_extensi.Router.Rows.{
  SearchState, row_of, fetch_from, fetch, load, unwrapped, answered, conclude, next, search_url,
  default_timeout,
}

-- The keys of the rows have an _id.
abbrev pub AllKeyed : List (Document × F64) → Type 0
AllKeyed [] = Unit
AllKeyed ((key, score) ∷ rows) = ((id : Bson) × (get "_id" key ≡ some id)) × AllKeyed rows

-- A cursor whose rows, where it has them, have keys with an _id.
unfoldable pub IsReady : SearchState → Type 0
IsReady state = elim state.rows [ none ↦ Unit | some rows ↦ AllKeyed rows ]

module _ (ctx : QueryControl) (reader : KeyReader) where
  open ctx use {World, check_interrupt, post_search}

  AreRows-AllKeyed :
      (hits : List Json) (rows : List (Document × F64)) → AreRows reader hits rows → AllKeyed rows
  AreRows-AllKeyed [] [] h = tt
  AreRows-AllKeyed [] (row ∷ rows) h = absurd h
  AreRows-AllKeyed (hit ∷ hits) [] h = absurd h
  AreRows-AllKeyed (hit ∷ hits) ((key, score) ∷ rows) (p, h) =
      ((p.id, p.has_id), AreRows-AllKeyed hits rows h)

  -- Rows, where a call gives rows.
  abbrev KeyedOr : ExtensionResult (List (Document × F64)) → Type 0
  KeyedOr (ok rows) = AllKeyed rows
  KeyedOr (err e) = Unit

  decoded-KeyedOr :
      (value : Json) (limit : ℕ) (r : ExtensionResult (List (Document × F64)))
      → decode_response reader value limit ≡ r
      → KeyedOr r
  decoded-KeyedOr value limit (err e) h = tt
  decoded-KeyedOr value limit (ok rows) h =
      let (hits, whole, found, are, few) = decode_response-AreRows reader value limit h in
      AreRows-AllKeyed hits rows are

  and_then-KeyedOr :
      {A : Type 0} (p : ExtensionResult A × World) (f : A → Action World (List (Document × F64)))
      → ((a : A) (w : World) → KeyedOr (f a w).0)
      → KeyedOr (and_then p f).0
  and_then-KeyedOr (ok a, w) f h = h a w
  and_then-KeyedOr (err e, w) f h = tt

  answered-KeyedOr :
      (state : SearchState) (continue : Message → Action World (List (Document × F64)))
      (r : Result Message Json) (w : World)
      → ((e : Message) → KeyedOr (continue e w).0)
      → KeyedOr (answered ctx reader state continue r w).0
  answered-KeyedOr state continue (ok value) w h =
      decoded-KeyedOr value (as_usize state.args.limit) _ refl
  answered-KeyedOr state continue (err e) w h = h e

  fetch_from-KeyedOr :
      (state : SearchState) (endpoints : List String) (errors : List Message) (w : World)
      → KeyedOr (fetch_from ctx reader state endpoints errors w).0
  unfolding fetch_from
  fetch_from-KeyedOr state [] errors w = tt
  fetch_from-KeyedOr state (endpoint ∷ endpoints) errors w =
      and_then-KeyedOr (next_attempt_timeout ctx default_timeout w) _ (λ t w1.
        and_then-KeyedOr
          (check_interrupt
            (post_search (search_url endpoint state.index) (body_of ctx state.args) t w1).1)
          _
          (λ u w2.
            answered-KeyedOr state _
              (post_search (search_url endpoint state.index) (body_of ctx state.args) t w1).0 w2
              (λ e.
                fetch_from-KeyedOr state endpoints (errors ++ (text endpoint ∷ text ": " ∷ e) ∷ [])
                  w2)))

  load-KeyedOr :
      (state : SearchState) (o : Option (List (Document × F64))) (w : World)
      → state.rows ≡ o
      → IsReady state
      → KeyedOr (load ctx reader state o w).0
  unfolding load fetch IsReady
  load-KeyedOr state none w e h = fetch_from-KeyedOr state state.config.endpoints [] w
  load-KeyedOr state (some rows) w e h = rw e at h

  -- What a call of `next` leaves: no panic, and a cursor whose keys have an _id.
  Safe : (Caught Next × SearchState) × World → Type 0
  Safe l = (l.0.0 ≢ none) × IsReady l.0.1

  unwrapped-some :
      (key : Document) (score : F64) (id : Bson)
      → get "_id" key ≡ some id
      → unwrapped ctx reader (row_of key score) ≢ none
  unfolding row_of
  unwrapped-some key score id e = rw e (λ q. cc)

  conclude-Safe :
      (state : SearchState) (p : ExtensionResult (List (Document × F64)) × World)
      → IsReady state
      → KeyedOr p.0
      → Safe (conclude ctx reader state p)
  unfolding Safe IsReady
  conclude-Safe state (err e, w) s h = (λ q. cc, s)
  conclude-Safe state (ok [], w) s h = (λ q. cc, tt)
  conclude-Safe state (ok ((key, score) ∷ rows), w) s ((id, e), h) =
      (unwrapped-some key score id e, h)

  -- A call of `next` on a cursor whose keys have an _id, in particular on one that has not searched
  -- yet, does not panic, and leaves such a cursor.
  pub next-IsReady :
      (state : SearchState) (w : World)
      → IsReady state
      → ((next ctx reader state w).0.0 ≢ none) × IsReady (next ctx reader state w).0.1
  unfolding next Safe
  next-IsReady state w s =
      conclude-Safe state _ s
        (and_then-KeyedOr (check_interrupt w) _ (λ u v. load-KeyedOr state state.rows v refl s))
