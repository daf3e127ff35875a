-- ===== src/Mapping/Exec/Hooks.antt =====
-- What the hooks of a map-transform stage give for decoded rows and arguments, as bytes.
use rust_sdk_mongodb_extensi.Prelude.{ℕ, ◌≡◌, ap, ◌∙◌, Option, none, some, ◌∷◌}
use rust_sdk_mongodb_extensi.Errors.{text, ok, map_err}
use rust_sdk_mongodb_extensi.Bson.{Document}
use rust_sdk_mongodb_extensi.Source.Ops.{Bytes, Codec}
use rust_sdk_mongodb_extensi.Mapping.Ops.{
  Boundary, ByteContainer, byte_view, byte_buf, document_from_byte_container, MapStageGlobals,
}
use rust_sdk_mongodb_extensi.Mapping.Exec.{
  written, transform_with, mapped_row, synthesize, synthetic_row,
}

-- A container of a row that has these bytes.
pub data Carries (raw : Bytes) : ByteContainer → Type 0 where
  in_view : Carries raw (byte_view raw)
  in_buf : {id : ℕ} → Carries raw (byte_buf id raw)

pub document-Carries :
    (codec : Codec) (raw : Bytes) {c : ByteContainer} {d : Document}
    → Carries raw c
    → codec.from_reader raw ≡ ok d
    → document_from_byte_container codec c ≡ ok d
unfolding document_from_byte_container
document-Carries codec raw in_view read =
    ap (map_err (λ e. text "decode result_document: " ∷ e)) read
document-Carries codec raw in_buf read =
    ap (map_err (λ e. text "decode result_document: " ∷ e)) read

module _ (globals : MapStageGlobals) (codec : Codec) where
  -- The hook for a row gives a document with these bytes, under the arguments.
  pub data Maps (args : Bytes) (d : Document) (bytes : Bytes) : Type 0 where
    maps :
        {a out : Document}
        → codec.from_reader args ≡ ok a
        → globals.transform d a ≡ some (ok out)
        → codec.to_writer out ≡ ok bytes
        → Maps args d bytes

  -- The row that the stage makes up for an input that has none: without the hook there is none.
  pub data MakesUp (args : Bytes)
      : Option (Document → Boundary Document) → Option Bytes → Type 0 where
    no_hook : MakesUp args none none
    made_up :
        {on_eof : Document → Boundary Document} {a out : Document} {bytes : Bytes}
        → codec.from_reader args ≡ ok a
        → on_eof a ≡ some (ok out)
        → codec.to_writer out ≡ ok bytes
        → MakesUp args (some on_eof) (some bytes)

  pub mapped_row-Maps :
      (args : Bytes) (d : Document) {bytes : Bytes}
      → Maps args d bytes
      → mapped_row globals codec args (ok d) ≡ some (ok bytes)
  mapped_row-Maps args d (maps read hook write) =
      ap (λ r. transform_with globals codec d r) read
      ∙ (ap (λ o. written globals codec o) hook ∙ ap some write)

  pub synthetic_row-made :
      (args : Bytes) (on_eof : Document → Boundary Document) {a out : Document} {bytes : Bytes}
      → codec.from_reader args ≡ ok a
      → on_eof a ≡ some (ok out)
      → codec.to_writer out ≡ ok bytes
      → synthetic_row globals codec args on_eof ≡ some (ok bytes)
  synthetic_row-made args on_eof read hook write =
      ap (λ r. synthesize globals codec on_eof r) read
      ∙ (ap (λ o. written globals codec o) hook ∙ ap some write)
