-- ===== src/Mapping/Ops.antt =====
-- extension-sdk-mongodb/src/map_transform.rs, status.rs and byte_buf.rs: what a map-transform stage
-- is made of, and the byte buffers that stages hand to each other. A hook may panic, which
-- `ffi_boundary` turns into `none`; its errors are messages.
use rust_sdk_mongodb_extensi.Prelude.{ℕ, suc, Bool, Option, List, [], ◌∷◌, String}
use rust_sdk_mongodb_extensi.Errors.{
  Message, text, ExtensionError, host_error, Result, ok, err, ◌>>=◌, map_err,
}
use rust_sdk_mongodb_extensi.Prelude.Int.{negsuc}
use rust_sdk_mongodb_extensi.Bson.{Document}
use rust_sdk_mongodb_extensi.Source.Ops.{Bytes, Codec, Code, Status}
use rust_sdk_mongodb_extensi.Source.Nodes.{Expansion}

-- What `ffi_boundary` makes of a closure that returns Result<_, String>.
abbrev pub Boundary {ℓ} : Type ℓ → Type ℓ
Boundary A = Option (Result Message A)

-- MongoExtensionByteContainer: a view of bytes, which are none where its pointer is null, a null
-- buffer, or a buffer, which has an identity.
pub data ByteContainer : Type 0 where
  byte_view : Bytes → ByteContainer
  null_buf : ByteContainer
  byte_buf : ℕ → Bytes → ByteContainer

-- MongoExtensionGetNextResult
pub record RowResult : Type 0 where
  pub code : Code
  pub result_document : ByteContainer
  pub result_metadata : ByteContainer

-- The buffers that the stage has allocated and destroyed, the latest first; `next_id` names the next
-- one.
pub record Heap : Type 0 where
  pub next_id : ℕ
  pub made : List ℕ
  pub destroyed : List ℕ

abbrev pub empty_heap : Heap
empty_heap = record { next_id = 0; made = []; destroyed = [] }

-- The buffer that a container owns.
abbrev pub owned_by : ByteContainer → List ℕ
owned_by (byte_view bytes) = []
owned_by null_buf = []
owned_by (byte_buf id bytes) = id ∷ []

abbrev pub empty_byte_container : ByteContainer
empty_byte_container = byte_view []

unfoldable pub release_byte_container : ByteContainer → Heap → Heap
release_byte_container (byte_view bytes) h = h
release_byte_container null_buf h = h
release_byte_container (byte_buf id bytes) h = record h { destroyed = id ∷ h.destroyed }

-- A container that is a buffer is released and replaced by an empty view; another is kept.
abbrev pub cleared : ByteContainer → ByteContainer
cleared (byte_view bytes) = byte_view bytes
cleared null_buf = empty_byte_container
cleared (byte_buf id bytes) = empty_byte_container

unfoldable pub release_owned_metadata : RowResult → Heap → RowResult × Heap
unfolding release_byte_container
release_owned_metadata res h = (
  record res { result_metadata = cleared res.result_metadata },
  release_byte_container res.result_metadata h,
)

-- byte_buf::from_bson, once the document is encoded.
abbrev pub from_bytes : Bytes → Heap → ByteContainer × Heap
from_bytes bytes h =
    (byte_buf h.next_id bytes, record h { next_id = suc h.next_id; made = h.next_id ∷ h.made })

-- The bytes of a container; a null buffer is an error.
abbrev pub container_bytes : ByteContainer → Result Message Bytes
container_bytes (byte_view bytes) = ok bytes
container_bytes null_buf = err (text "null bytebuf in result_document" ∷ [])
container_bytes (byte_buf id bytes) = ok bytes

unfoldable pub document_from_byte_container : Codec → ByteContainer → Result Message Document
document_from_byte_container codec c = do
  bytes ← container_bytes c
  map_err (λ e. text "decode result_document: " ∷ e) (codec.from_reader bytes)

-- status::new_error_status with code -1.
abbrev pub failure : Message → ExtensionError
failure e = host_error (negsuc 0) e

-- The hooks of the stage.
pub record MapStageGlobals : Type 0 where
  pub name : String
  pub expect_empty : Bool
  pub transform : Document → Document → Boundary Document
  pub on_eof_no_rows : Option (Document → Boundary Document)
  pub static_properties_doc : Document
  pub expand_from_args_doc : Option (Document → Boundary Expansion)

-- The host's upstream stage, over the state of what surrounds the stage.
pub record Source : Type 1 where
  pub World : Type 0
  pub Upstream : Type 0
  pub get_next : Upstream → RowResult → World → (Option Status × RowResult) × World
