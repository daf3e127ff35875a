-- ===== src/Source/Expanded.antt =====
-- extension-sdk-mongodb/src/source_stage.rs: the containers of an expansion. ExpandedSingle is the
-- container of one node. A pointer to a node is the node.
use rust_sdk_mongodb_extensi.Prelude.{
  ℕ, ◌≡◌, refl, Bool, true, false, if◌then◌else◌, if_lem, List, [], ◌∷◌, ◌++◌, length, ◌==◌,
}
use mathlib.Core.List.{append-nil}
use rust_sdk_mongodb_extensi.Errors.{text, bad_value, ExtensionError, ExtensionResult, ok, err}
use rust_sdk_mongodb_extensi.Source.Nodes.{Ast}

pub record ExpandedMulti : Type 0 where
  pub asts : List Ast
  pub transferred : Bool

unfoldable pub expanded_multi : List Ast → ExpandedMulti
expanded_multi asts = record { asts = asts; transferred = false }

unfoldable pub expanded_single : Ast → ExpandedMulti
unfolding expanded_multi
expanded_single ast = expanded_multi (ast ∷ [])

-- The nodes that the destruction of the container destroys.
unfoldable pub exp_multi_destroy : ExpandedMulti → List Ast
exp_multi_destroy this = if this.transferred then [] else this.asts

unfoldable pub exp_multi_size : ExpandedMulti → ℕ
exp_multi_size this = length this.asts

abbrev pub size_mismatch : ExtensionError
size_mismatch = bad_value (text "expanded array size mismatch" ∷ [])

-- The transfer to an array of the given size: the status with what is written, and the container.
unfoldable pub exp_multi_transfer : ExpandedMulti → ℕ → ExtensionResult (List Ast) × ExpandedMulti
exp_multi_transfer this size =
    if size == length this.asts
    then (ok this.asts, record this { transferred = true })
    else (err size_mismatch, this)

-- What the host has received.
abbrev pub written : ExtensionResult (List Ast) → List Ast
written (ok asts) = asts
written (err e) = []

-- A transfer that is followed by the destruction of a container that has not been transferred gives
-- each node to the host or destroys it, and not both.
pub exp_multi_transfer-destroy :
    (asts : List Ast) (size : ℕ)
    → (let (r, this) = exp_multi_transfer (expanded_multi asts) size in
        written r ++ exp_multi_destroy this ≡ asts)
unfolding exp_multi_transfer expanded_multi exp_multi_destroy
exp_multi_transfer-destroy asts size =
    if_lem
      (λ (p : ExtensionResult (List Ast) × ExpandedMulti).
        written p.0 ++ exp_multi_destroy p.1 ≡ asts)
      (size == length asts) (append-nil asts) refl
