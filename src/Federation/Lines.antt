-- ===== src/Federation/Lines.antt =====
-- examples/data-federation/data-federation-extension/src/lib.rs: the reader of one physical line. The
-- file is the bytes that are left, and the message of the fault that ends them, if there is one.
pub mod Read
use rust_sdk_mongodb_extensi.Prelude.{
  ℕ, suc, min, ◌+◌, ◌-◌, ◌^◌, Bool, if◌then◌else◌, Option, none, some, List, [], ◌∷◌, ◌++◌, ltb,
  ◌==◌,
}
use rust_sdk_mongodb_extensi.Prelude.Int.{pos}
use rust_sdk_mongodb_extensi.Errors.{
  Message, text, number, bad_value, runtime, ExtensionError, ExtensionResult, Result, ok, err,
}

abbrev pub u64_max : ℕ
u64_max = 2 ^ 64 - 1

abbrev pub newline : ℕ
newline = 10

abbrev pub too_long : ℕ → ExtensionError
too_long max_line_bytes = bad_value (
    text "line exceeds maxLineBytes (" ∷ number (pos max_line_bytes) ∷ text ") before newline" ∷ [])

-- What a call returns: an error, the end of the file, or a line; and the bytes that are left.
abbrev pub LineRead : Type 0
LineRead = ExtensionResult (Option (List ℕ)) × List ℕ

abbrev pub at_end : Option Message → List ℕ → ExtensionResult (Option (List ℕ))
at_end (some e) line_buf = err (runtime (text "read: " ∷ e))
at_end none [] = ok none
at_end none (b ∷ line_buf) = ok (some (b ∷ line_buf))

module _ (fault : Option Message) (max_line_bytes : ℕ) where
  -- The loop, from the bytes in the buffer and their number.
  unfoldable pub read_from : List ℕ → List ℕ → ℕ → LineRead
  read_from [] line_buf nread = (at_end fault line_buf, [])
  read_from (b ∷ bytes) line_buf nread =
      let rest = read_from bytes (line_buf ++ b ∷ []) (min (suc nread) u64_max) in
      if b == newline
      then (ok (some line_buf), bytes)
      else if ltb max_line_bytes (min (suc nread) u64_max)
      then (err (too_long max_line_bytes), bytes)
      else rest

  unfoldable pub read_jsonl_physical_line : List ℕ → LineRead
  unfolding read_from
  read_jsonl_physical_line bytes = read_from bytes [] 0
