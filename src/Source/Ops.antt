-- ===== src/Source/Ops.antt =====
-- extension-sdk-mongodb/src/source_stage.rs, stage_context.rs and byte_buf.rs: what an exported
-- source stage is made of, as the code that drives it sees it. A hook is a function of the
-- extension; it may fail, and it may panic, which `ffi_boundary` turns into `none`.
use rust_sdk_mongodb_extensi.Prelude.{ℕ, suc, ◌+◌, ◌≡◌, String, Bool, List, Option, none, some}
use rust_sdk_mongodb_extensi.Prelude.Int.{ℤ}
use rust_sdk_mongodb_extensi.Errors.{Message, ExtensionError, ExtensionResult, Result, ok, err}
use rust_sdk_mongodb_extensi.Bson.{Bson, Document}
use rust_sdk_mongodb_extensi.Stage.{Next}

-- stage_context.rs
pub record CatalogContext : Type 0 where
  pub database_name : String
  pub collection_name : String
  pub uuid : Option String
  pub in_router : Bool
  pub verbosity : ℕ

-- What `ffi_boundary` makes of a closure that returns a Result.
abbrev pub Caught {ℓ} : Type ℓ → Type ℓ
Caught A = Option (ExtensionResult A)

-- Vec<u8>
abbrev pub Bytes : Type 0
Bytes = List ℕ

-- bson::Document::from_reader and to_writer, with the message of their errors, and the message of
-- Document::get_document for a value that is not a document.
pub record Codec : Type 0 where
  pub access_error : Bson → Message
  pub from_reader : Bytes → Result Message Document
  pub to_writer : Document → Result Message Bytes

-- MongoExtensionGetNextResultCode
pub data Code : Type 0 where
  k_advanced : Code
  k_eof : Code
  k_pause_execution : Code

-- MongoExtensionByteContainer: a view of no bytes, a buffer that the extension allocated, or what
-- another stage put there.
pub data Container : Type 0 where
  empty_view : Container
  byte_buf : Bytes → Container
  foreign : ℕ → Container

pub record GetNextResult : Type 0 where
  pub code : Code
  pub result_document : Container
  pub result_metadata : Container

-- A MongoExtensionStatus that is not null, by what `get_code` returns.
pub record Status : Type 0 where
  pub get_code : ℤ

-- What a call returns to the host: status_ok, the status of the upstream stage as it is, or the
-- status of an error.
pub data Returned : Type 0 where
  status_ok : Returned
  upstream_status : Status → Returned
  into_raw_status : ExtensionError → Returned

-- What a call of open_from_doc has allocated: a state that it returns.
abbrev pub allocated : {A : Type 0} → Caught A → ℕ
allocated (some (ok state)) = 1
allocated (some (err e)) = 0
allocated none = 0

-- The hooks of SourceOps, and the host's upstream stage, over the state of what surrounds them.
-- `static_properties_doc` is none where the hook panics, and `drop_state` does not panic. `opens` and `drops` count the states that open_from_doc has returned and drop_state
-- has taken.
pub record SourceOps : Type 1 where
  pub World : Type 0
  pub State : Type 0
  pub Upstream : Type 0
  pub static_properties_doc : Option Document
  pub open_from_doc : Document → Option CatalogContext → World → Caught State × World
  pub drop_state : State → World → World
  pub next : State → Option CatalogContext → World → (State × Caught Next) × World
  pub get_next : Upstream → GetNextResult → World → (Option Status × GetNextResult) × World
  pub opens : World → ℕ
  pub drops : World → ℕ
  pub open-opens :
      (d : Document) (c : Option CatalogContext) (w : World)
      → opens (open_from_doc d c w).1 ≡ allocated (open_from_doc d c w).0 + opens w
  pub open-drops :
      (d : Document) (c : Option CatalogContext) (w : World)
      → drops (open_from_doc d c w).1 ≡ drops w
  pub drop-opens : (s : State) (w : World) → opens (drop_state s w) ≡ opens w
  pub drop-drops : (s : State) (w : World) → drops (drop_state s w) ≡ suc (drops w)
  pub next-opens :
      (s : State) (c : Option CatalogContext) (w : World) → opens (next s c w).1 ≡ opens w
  pub next-drops :
      (s : State) (c : Option CatalogContext) (w : World) → drops (next s c w).1 ≡ drops w
  pub upstream-opens :
      (u : Upstream) (r : GetNextResult) (w : World) → opens (get_next u r w).1 ≡ opens w
  pub upstream-drops :
      (u : Upstream) (r : GetNextResult) (w : World) → drops (get_next u r w).1 ≡ drops w
