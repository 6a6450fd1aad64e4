-- ===== src/Client.antt =====
-- dfsha/client/distributed_client.py: how the client reads the errors of its calls. The modules below
-- this one hold its calls of the control nodes, its reads of blocks and the content of its writes.
pub mod Calls
pub mod Failover
pub mod ReadRange
pub mod SlotContent
use proyecto1_sd.Base.{Bool, Error, List, Option, RpcError, Status, Text, [], aborted}
use proyecto1_sd.Base.{access_denied, already_exists, auth_error, block_corrupted, block_not_found}
use proyecto1_sd.Base.{codes, conflict, data_loss, deadline_exceeded, failed_precondition, false}
use proyecto1_sd.Base.{if◌then◌else◌, internal, invalid_argument, invalid_path, keep, list_eq}
use proyecto1_sd.Base.{nat_eq, none, not_a_directory, not_a_file, not_empty, not_found, path_exists}
use proyecto1_sd.Base.{path_not_found, permission_denied, refl, some, true, unauthenticated}
use proyecto1_sd.Base.{unavailable, ◌==◌, ◌∷◌, ◌≡◌, ◌≢◌}
use proyecto1_sd.BlockStore.RoundTrip.{metadata}
use proyecto1_sd.DataNode.{abort_on_domain_error}

-- `type(exc).__name__`
abbrev pub error_name : Error → Text
error_name invalid_path = codes "InvalidPathError"
error_name path_not_found = codes "PathNotFoundError"
error_name path_exists = codes "PathExistsError"
error_name not_empty = codes "NotEmptyError"
error_name not_a_file = codes "NotAFileError"
error_name not_a_directory = codes "NotADirectoryError"
error_name block_not_found = codes "BlockNotFoundError"
error_name block_corrupted = codes "BlockCorruptedError"
error_name conflict = codes "ConflictError"
error_name access_denied = codes "AccessDeniedError"
error_name auth_error = codes "AuthError"
error_name internal = codes "Exception"

-- `ALLOWED_DOMAIN_ERROR_TYPES`
unfoldable pub allowed_domain_errors : List Error
allowed_domain_errors =
    invalid_path ∷ path_not_found ∷ path_exists ∷ not_empty ∷ not_a_file ∷ not_a_directory
    ∷ block_not_found ∷ block_corrupted ∷ conflict ∷ access_denied ∷ auth_error ∷ []

-- `_ALLOWED_DOMAIN_ERROR_BY_NAME.get(name)`
unfoldable pub error_named : List Error → Text → Option Error
error_named [] name = none
error_named (e ∷ errors) name = if error_name e == name then some e else error_named errors name

-- The trailing metadata of an error that a server aborted with.
abbrev pub error_key : Text
error_key = codes "dfsha-error"

abbrev pub trailing_metadata : RpcError → List (Text × Text)
trailing_metadata e = elim e.domain [ none ↦ [] | some d ↦ (error_key, error_name d) ∷ [] ]

unfoldable pub metadata_error_type : List (Text × Text) → Option Error
metadata_error_type metadata = elim (keep (λ (k, v). k == error_key) metadata) [
  | [] ↦ none
  | ((k, v) ∷ []) ↦ error_named allowed_domain_errors v
  | (x ∷ y ∷ rest) ↦ none
]

-- `_STATUS_ERROR_MAP`; nothing stands for a plain `DFShaError`.
unfoldable pub status_error : Status → Option Error
status_error not_found = some path_not_found
status_error already_exists = some path_exists
status_error failed_precondition = some not_empty
status_error permission_denied = some invalid_path
status_error invalid_argument = some not_a_file
status_error data_loss = some block_corrupted
status_error aborted = some conflict
status_error unauthenticated = some auth_error
status_error s = none

unfoldable pub translate : RpcError → Option Error
translate e = elim (metadata_error_type (trailing_metadata e)) [
  | none ↦ status_error e.code
  | some d ↦ some d
]

-- `_RETRYABLE_CODES` and `_READ_FAILOVER_CODES`
unfoldable pub is_retryable : Status → Bool
is_retryable unavailable = true
is_retryable deadline_exceeded = true
is_retryable s = false

unfoldable pub is_recoverable_read_error : RpcError → Bool
is_recoverable_read_error e = elim e.code [
  | unavailable ↦ true
  | deadline_exceeded ↦ true
  | data_loss ↦ true
  | not_found ↦ elim (metadata_error_type (trailing_metadata e)) [
    | some block_not_found ↦ true
    | _ ↦ false
  ]
  | _ ↦ false
]

-- The client gets the exception that a data node raised: an error of the domain that a node aborts a
-- call with is translated to itself.
pub translate-abort_on_domain_error :
    (e : Error) → e ≢ internal → translate (abort_on_domain_error e) ≡ some e
unfolding translate metadata_error_type error_named allowed_domain_errors list_eq nat_eq
translate-abort_on_domain_error invalid_path h = refl
translate-abort_on_domain_error path_not_found h = refl
translate-abort_on_domain_error path_exists h = refl
translate-abort_on_domain_error not_empty h = refl
translate-abort_on_domain_error not_a_file h = refl
translate-abort_on_domain_error not_a_directory h = refl
translate-abort_on_domain_error block_not_found h = refl
translate-abort_on_domain_error block_corrupted h = refl
translate-abort_on_domain_error conflict h = refl
translate-abort_on_domain_error access_denied h = refl
translate-abort_on_domain_error auth_error h = refl
translate-abort_on_domain_error internal h = absurd (h refl)
