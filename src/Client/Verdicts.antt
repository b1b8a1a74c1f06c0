-- ===== src/Client/Verdicts.antt =====
-- The daemon's replies of one line, as the client tells them apart.
use gpumemd.Base.{
  ℕ, ◌-◌, ◌≡◌, refl, Bool, true, false, not, ◌&&◌, [], ◌∷◌, ◌++◌, arith, Text, codes, text_eq,
  text_eq_iff, all_of, length, take, drop, ◌==◌, Bool-cases, inl, inr,
}
use gpumemd.Names.{is_digit}
use gpumemd.Resource
use gpumemd.Resource.{ErrorCode, OperationResult}
use gpumemd.Registry
use gpumemd.Registry.{ModelError, ModelOperationResult}
use gpumemd.Nodes
use gpumemd.Nodes.{NodeError, NodeOperationResult}
use gpumemd.Residency.Load.{is_ok}
use gpumemd.Residency.Operations.{ModelShareResult, is_done}
use gpumemd.Protocol.Decimal.{print, print-digits}
use gpumemd.Protocol.Replies.{
  newline, operation_reply, format_operation_result, model_reply, format_model_operation_result,
  node_reply, format_node_operation_result, share_reply, format_share_result, amount_field,
}
use gpumemd.Client.Exchange.{has_newline}
use gpumemd.Client.Replies.{IsReply, IsUnbroken, any_of-append}

-- What stands between `ERR ` and the last character.
abbrev error_body : Text → Text
error_body reply = take (length reply - 5) (drop 4 reply)

abbrev is_error : Text → Bool
is_error reply =
    text_eq reply (codes "ERR " ++ error_body reply ++ newline)
    && not (has_newline (error_body reply))

error-IsReply : (reply : Text) → is_error reply ≡ true → IsReply false reply
error-IsReply reply h = record {
  body = error_body reply;
  unbroken = ground (arith, h);
  written = ground (arith, text_eq_iff reply (codes "ERR " ++ error_body reply ++ newline));
}

digits-IsUnbroken : (text : Text) → all_of is_digit text ≡ true → IsUnbroken text
digits-IsUnbroken [] h = refl
digits-IsUnbroken (c ∷ text) h = ground (arith, digits-IsUnbroken text)

pub print-IsUnbroken : (n : ℕ) → IsUnbroken (print n)
print-IsUnbroken n =
    let (digits, filled, value) = print-digits n in digits-IsUnbroken (print n) digits

pub append-IsUnbroken : (xs ys : Text) → IsUnbroken xs → IsUnbroken ys → IsUnbroken (xs ++ ys)
append-IsUnbroken xs ys h k = ground (arith, any_of-append (λ c. c == b'\n') xs ys)

-- A field behind a space.
pub field-IsUnbroken : (xs ys : Text) → IsUnbroken xs → IsUnbroken ys → IsUnbroken (xs ++ b' ' ∷ ys)
field-IsUnbroken xs ys h k = append-IsUnbroken xs (b' ' ∷ ys) h (ground (arith, k))

amount_field-IsUnbroken : (amount : ℕ) → IsUnbroken (amount_field amount)
amount_field-IsUnbroken amount = elim (Bool-cases (amount == 0)) [
  | inl e ↦ rw e refl
  | inr e ↦ rw e (ground (arith, print-IsUnbroken amount))
]

-- `NodeOperationResult::ok`
abbrev pub is_fine : NodeError → Bool
is_fine Nodes.ok = true
is_fine _ = false

module _ (action name : Text) (action_unbroken : IsUnbroken action)
    (name_unbroken : IsUnbroken name) where
  ok-IsReply :
      (amount : ℕ)
      → IsReply true (codes "OK " ++ action ++ b' ' ∷ name ++ b' ' ∷ print amount ++ newline)
  ok-IsReply amount = record {
    body = action ++ b' ' ∷ name ++ b' ' ∷ print amount;
    unbroken =
        field-IsUnbroken (action ++ b' ' ∷ name) (print amount)
          (field-IsUnbroken action name action_unbroken name_unbroken) (print-IsUnbroken amount);
    written = refl;
  }

  pub operation_reply-IsReply :
      (error : ErrorCode) (amount : ℕ)
      → IsReply (is_ok error) (operation_reply action name error amount)
  unfolding text_eq
  operation_reply-IsReply Resource.ok amount = ok-IsReply amount
  operation_reply-IsReply Resource.invalid_name amount = error-IsReply _ refl
  operation_reply-IsReply Resource.invalid_size amount = error-IsReply _ refl
  operation_reply-IsReply Resource.duplicate_client amount = error-IsReply _ refl
  operation_reply-IsReply Resource.unknown_client amount = error-IsReply _ refl
  operation_reply-IsReply Resource.insufficient_memory amount = error-IsReply _ refl
  operation_reply-IsReply Resource.timeout amount = error-IsReply _ refl
  operation_reply-IsReply Resource.invalid_timeout amount = error-IsReply _ refl

  model_reply-IsReply :
      (error : ModelError) (amount : ℕ)
      → IsReply (is_done error) (model_reply action name error amount)
  unfolding text_eq
  model_reply-IsReply Registry.ok amount = ok-IsReply amount
  model_reply-IsReply Registry.invalid_id amount = error-IsReply _ refl
  model_reply-IsReply Registry.invalid_metadata amount = error-IsReply _ refl
  model_reply-IsReply Registry.invalid_size amount = error-IsReply _ refl
  model_reply-IsReply Registry.duplicate_model amount = error-IsReply _ refl
  model_reply-IsReply Registry.unknown_model amount = error-IsReply _ refl
  model_reply-IsReply Registry.model_in_use amount = error-IsReply _ refl
  model_reply-IsReply Registry.refcount_underflow amount = error-IsReply _ refl
  model_reply-IsReply Registry.unknown_residency amount = error-IsReply _ refl
  model_reply-IsReply Registry.insufficient_memory amount = error-IsReply _ refl
  model_reply-IsReply Registry.backend_failure amount = error-IsReply _ refl
  model_reply-IsReply Registry.invalid_path amount = error-IsReply _ refl
  model_reply-IsReply Registry.file_unavailable amount = error-IsReply _ refl
  model_reply-IsReply Registry.source_changed amount = error-IsReply _ refl
  model_reply-IsReply Registry.read_failure amount = error-IsReply _ refl
  model_reply-IsReply Registry.backend_unsupported amount = error-IsReply _ refl

  node_reply-IsReply :
      (error : NodeError) (amount : ℕ)
      → IsReply (is_fine error) (node_reply action name error amount)
  unfolding text_eq
  node_reply-IsReply Nodes.ok amount = record {
    body = action ++ b' ' ∷ name ++ amount_field amount;
    unbroken =
        append-IsUnbroken (action ++ b' ' ∷ name) (amount_field amount)
          (field-IsUnbroken action name action_unbroken name_unbroken)
          (amount_field-IsUnbroken amount);
    written = refl;
  }
  node_reply-IsReply Nodes.invalid_id amount = error-IsReply _ refl
  node_reply-IsReply Nodes.invalid_endpoint amount = error-IsReply _ refl
  node_reply-IsReply Nodes.invalid_capacity amount = error-IsReply _ refl
  node_reply-IsReply Nodes.duplicate_node amount = error-IsReply _ refl
  node_reply-IsReply Nodes.unknown_node amount = error-IsReply _ refl

share_reply-IsReply :
    (name token : Text) (error : ModelError) (amount : ℕ)
    → IsUnbroken name
    → IsUnbroken token
    → IsReply (is_done error) (share_reply name error amount token)
unfolding text_eq
share_reply-IsReply name token Registry.ok amount h k = record {
  body = codes "shared " ++ name ++ b' ' ∷ print amount ++ b' ' ∷ token;
  unbroken =
      field-IsUnbroken (codes "shared " ++ name ++ b' ' ∷ print amount) token
        (field-IsUnbroken (codes "shared " ++ name) (print amount)
          (append-IsUnbroken (codes "shared ") name refl h) (print-IsUnbroken amount))
        k;
  written = refl;
}
share_reply-IsReply name token Registry.invalid_id amount h k = error-IsReply _ refl
share_reply-IsReply name token Registry.invalid_metadata amount h k = error-IsReply _ refl
share_reply-IsReply name token Registry.invalid_size amount h k = error-IsReply _ refl
share_reply-IsReply name token Registry.duplicate_model amount h k = error-IsReply _ refl
share_reply-IsReply name token Registry.unknown_model amount h k = error-IsReply _ refl
share_reply-IsReply name token Registry.model_in_use amount h k = error-IsReply _ refl
share_reply-IsReply name token Registry.refcount_underflow amount h k = error-IsReply _ refl
share_reply-IsReply name token Registry.unknown_residency amount h k = error-IsReply _ refl
share_reply-IsReply name token Registry.insufficient_memory amount h k = error-IsReply _ refl
share_reply-IsReply name token Registry.backend_failure amount h k = error-IsReply _ refl
share_reply-IsReply name token Registry.invalid_path amount h k = error-IsReply _ refl
share_reply-IsReply name token Registry.file_unavailable amount h k = error-IsReply _ refl
share_reply-IsReply name token Registry.source_changed amount h k = error-IsReply _ refl
share_reply-IsReply name token Registry.read_failure amount h k = error-IsReply _ refl
share_reply-IsReply name token Registry.backend_unsupported amount h k = error-IsReply _ refl

-- Where neither the action nor the name nor a token has a newline, the replies to operations are one
-- line each, which begins with `OK` exactly if the operation has succeeded, and with `ERR` otherwise.
pub replies-IsReply :
    (action name : Text) (resource : OperationResult) (model : ModelOperationResult)
    (node : NodeOperationResult) (shared : ModelShareResult)
    → IsUnbroken action
    → IsUnbroken name
    → IsUnbroken shared.token
    → IsReply (is_ok resource.error) (format_operation_result action name resource)
      × IsReply (is_done model.error) (format_model_operation_result action name model)
      × IsReply (is_fine node.error) (format_node_operation_result action name node)
      × IsReply (is_done shared.error) (format_share_result name shared)
unfolding format_operation_result format_model_operation_result format_node_operation_result
    format_share_result
replies-IsReply action name resource model node shared h k l = (
  operation_reply-IsReply action name h k resource.error resource.amount,
  model_reply-IsReply action name h k model.error model.amount,
  node_reply-IsReply action name h k node.error node.amount,
  share_reply-IsReply name shared.token shared.error shared.amount k l,
)
