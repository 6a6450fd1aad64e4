-- ===== src/Base/Calls.antt =====
-- How gRPC calls end. An error has a status of `grpc.StatusCode` and, in the trailing metadata
-- `dfsha-error`, the class of the exception if the server names it.
use mathlib.Core.Path.{◌≡◌, refl}
use mathlib.Core.Logic.{◌⊎◌, inl, inr}
use mathlib.Core.Option.{Option, none}
use proyecto1_sd.Base.Errors.{Error}

pub data Status : Type 0 where
  not_found already_exists failed_precondition permission_denied invalid_argument : Status
  aborted unauthenticated unavailable deadline_exceeded data_loss unknown : Status

pub record RpcError : Type 0 where
  pub code : Status
  pub domain : Option Error

-- `context.abort`
abbrev pub abort : Status → RpcError
abort s = record { code = s; domain = none }

pub data Rpc {ℓ} (A : Type ℓ) : Type ℓ where
  response : A → Rpc A
  rpc_failed : RpcError → Rpc A

pub Rpc-cases {ℓ} :
    {A : Type ℓ} (r : Rpc A) → ((a : A) × (r ≡ response a)) ⊎ ((e : RpcError) × (r ≡ rpc_failed e))
Rpc-cases (response a) = inl (a, refl)
Rpc-cases (rpc_failed e) = inr (e, refl)
