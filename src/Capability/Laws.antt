-- ===== src/Capability/Laws.antt =====
-- What a capability that is accepted must be.
use proyecto1_sd.Base.{List, Option-cases, Result-cases, Text, [], access_denied, arith, codes}
use proyecto1_sd.Base.{contains, err, false, inl, inr, list_eq, nat_eq, none, ok, refl, some, split}
use proyecto1_sd.Base.{ℕ, ◌&&◌, ◌*◌, ◌++◌, ◌<◌, ◌==◌, ◌∙◌, ◌∷◌, ◌≡◌}
use proyecto1_sd.Capability.{block_expiry, check_expiry, internal_expiry, number_onto, period}
use proyecto1_sd.Capability.{rpartition, separator, sign, verified_fields, verify_block}
use proyecto1_sd.Capability.{verify_internal}

rpartition-split :
    (sep : ℕ) (s before behind : Text)
    → rpartition sep s ≡ some (before, behind)
    → (s ≡ before ++ sep ∷ behind) × (contains behind sep ≡ false)
unfolding rpartition
rpartition-split sep [] before behind h = absurd (ground arith)
rpartition-split sep (c ∷ s) before behind h = elim (Option-cases (rpartition sep s)) [
  | inl e ↦ (ground arith, ground (arith, rpartition-none sep s))
  | inr ((b, a), e) ↦ let (p, q) = rpartition-split sep s b a e in (ground arith, ground arith)
]
  where
    rpartition-none : (sep : ℕ) (s : Text) → rpartition sep s ≡ none → contains s sep ≡ false
    rpartition-none sep [] h = refl
    rpartition-none sep (c ∷ s) h = elim (Option-cases (rpartition sep s)) [
      | inl e ↦ ground (arith, rpartition-none sep s)
      | inr (x, e) ↦ absurd (ground arith)
    ]

module _ (hexdigest : List ℕ → Text → Text) (second : ℕ) (key : List ℕ) (token : Text) where
  verified_fields_inv :
      (fields : List Text)
      → verified_fields hexdigest key token ≡ ok fields
      → (payload : Text) × (token ≡ sign hexdigest key payload) × (split separator payload ≡ fields)
  unfolding verified_fields sign
  verified_fields_inv fields h = elim (Option-cases (rpartition period token)) [
    | inl e ↦ absurd (ground arith)
    | inr ((payload, signature), e) ↦
        let (whole, _) = rpartition-split period token payload signature e in
        (payload, ground arith, ground arith)
  ]

  check_expiry_inv :
      (exp : Text) (now : ℕ)
      → check_expiry second exp now ≡ ok tt
      → now < number_onto 0 exp * second
  unfolding check_expiry
  check_expiry_inv exp now h = ground arith

  block_fields :
      (block_id op exp : Text) (fields : List Text)
      → block_expiry hexdigest block_id op fields ≡ ok exp
      → fields ≡ codes "b" ∷ op ∷ block_id ∷ exp ∷ []
  block_fields block_id op exp [] h = absurd (ground arith)
  block_fields block_id op exp (k ∷ []) h = absurd (ground arith)
  block_fields block_id op exp (k ∷ o ∷ []) h = absurd (ground arith)
  block_fields block_id op exp (k ∷ o ∷ b ∷ []) h = absurd (ground arith)
  block_fields block_id op exp (k ∷ o ∷ b ∷ e ∷ []) h = ground arith
  block_fields block_id op exp (k ∷ o ∷ b ∷ e ∷ f ∷ fs) h = absurd (ground arith)

  internal_fields :
      (op exp : Text) (fields : List Text)
      → internal_expiry hexdigest op fields ≡ ok exp
      → fields ≡ codes "i" ∷ op ∷ exp ∷ []
  internal_fields op exp [] h = absurd (ground arith)
  internal_fields op exp (k ∷ []) h = absurd (ground arith)
  internal_fields op exp (k ∷ o ∷ []) h = absurd (ground arith)
  internal_fields op exp (k ∷ o ∷ e ∷ []) h = ground arith
  internal_fields op exp (k ∷ o ∷ e ∷ f ∷ fs) h = absurd (ground arith)

  -- A data node accepts a capability for an operation on a block only if it is the signature, by the
  -- shared key, of a text whose fields are "b", that operation, that block and a time still to come.
  pub verify_block_lem :
      (block_id op : Text) (now : ℕ)
      → verify_block hexdigest second key token block_id op now ≡ ok tt
      → (payload exp : Text) × (token ≡ sign hexdigest key payload)
        × (split separator payload ≡ codes "b" ∷ op ∷ block_id ∷ exp ∷ [])
        × (now < number_onto 0 exp * second)
  unfolding verify_block
  verify_block_lem block_id op now h = elim (Result-cases (verified_fields hexdigest key token)) [
    | inr (e, f) ↦ absurd (ground arith)
    | inl (fields, f) ↦ elim (Result-cases (block_expiry hexdigest block_id op fields)) [
      | inr (e, x) ↦ absurd (ground arith)
      | inl (exp, x) ↦
          let (payload, signed, parts) = verified_fields_inv fields f in
          (
            payload,
            exp,
            signed,
            parts ∙ block_fields block_id op exp fields x,
            check_expiry_inv exp now (ground arith),
          )
    ]
  ]

  -- A control node's internal capability is accepted likewise, for the fields "i", the operation and
  -- a time still to come.
  pub verify_internal_lem :
      (op : Text) (now : ℕ)
      → verify_internal hexdigest second key token op now ≡ ok tt
      → (payload exp : Text) × (token ≡ sign hexdigest key payload)
        × (split separator payload ≡ codes "i" ∷ op ∷ exp ∷ [])
        × (now < number_onto 0 exp * second)
  unfolding verify_internal
  verify_internal_lem op now h = elim (Result-cases (verified_fields hexdigest key token)) [
    | inr (e, f) ↦ absurd (ground arith)
    | inl (fields, f) ↦ elim (Result-cases (internal_expiry hexdigest op fields)) [
      | inr (e, x) ↦ absurd (ground arith)
      | inl (exp, x) ↦
          let (payload, signed, parts) = verified_fields_inv fields f in
          (
            payload,
            exp,
            signed,
            parts ∙ internal_fields op exp fields x,
            check_expiry_inv exp now (ground arith),
          )
    ]
  ]

  -- A capability has one use: what a data node accepts for an operation on a block it refuses for any
  -- other operation or block, and for an internal operation, at all times.
  pub verify_block_once :
      (block_id op : Text) (now : ℕ)
      → verify_block hexdigest second key token block_id op now ≡ ok tt
      → (block_id' op' : Text) (now' : ℕ) → (block_id' == block_id && op' == op) ≡ false
      → (verify_block hexdigest second key token block_id' op' now' ≡ err access_denied)
        × (verify_internal hexdigest second key token op' now' ≡ err access_denied)
  unfolding verify_block verify_internal
  verify_block_once block_id op now h block_id' op' now' other =
      elim (Result-cases (verified_fields hexdigest key token)) [
        | inr (e, f) ↦ absurd (ground arith)
        | inl (fields, f) ↦ elim (Result-cases (block_expiry hexdigest block_id op fields)) [
          | inr (e, x) ↦ absurd (ground arith)
          | inl (exp, x) ↦
              let parts = block_fields block_id op exp fields x in (ground arith, ground arith)
        ]
      ]
