-- ===== src/Stage.antt =====
-- extension-sdk-mongodb/src: what the stages of every kind share.
use rust_sdk_mongodb_extensi.Prelude.{Option}
use rust_sdk_mongodb_extensi.Bson.{Document}

-- stage_output.rs
pub data Next : Type 0 where
  advanced : Document → Option Document → Next
  eof : Next
