-- ===== src/Capability/Issue/Laws.antt =====
-- A data node accepts what a control node issues, until it expires.
use proyecto1_sd.Base.{Bool, Bool-cases, Error, List, Text, [], access_denied, ap, arith, codes}
use proyecto1_sd.Base.{contains, eq_self, err, every, false, guard, if◌then◌else◌, inl, inr}
use proyecto1_sd.Base.{internal, is_empty, list_eq, ltb, nat_eq, not, ok, refl, split, suc, sym}
use proyecto1_sd.Base.{true, zero, ℕ, ◌&&◌, ◌*◌, ◌++◌, ◌+◌, ◌<◌, ◌∙◌, ◌∷◌, ◌≡◌, ◌≤◌}
use proyecto1_sd.BlockStore.{is_block_id, is_hex_digit}
use proyecto1_sd.Capability.{check_expiry, is_ascii, is_digit, is_number, period, separator, sign}
use proyecto1_sd.Capability.{verified_fields, verify_block}
use proyecto1_sd.Capability.Issue.{block_ops, ceil, decimal, expiry, issue_block}
use proyecto1_sd.Capability.Issue.Texts.{every-append, every-decimal, every_weaker, every_without}
use proyecto1_sd.Capability.Issue.Texts.{is_empty-decimal, number_onto-decimal, rpartition-append}
use proyecto1_sd.Capability.Issue.Texts.{split-append, split_whole}

-- A text that stays one field of a capability.
abbrev is_field : Text → Bool
is_field s = is_ascii s && not (contains s separator)

among-is_field :
    (ops : List Text) (op : Text)
    → every is_field ops ≡ true
    → contains ops op ≡ true
    → is_field op ≡ true
among-is_field [] op all h = absurd (ground arith)
among-is_field (x ∷ ops) op all h = ground (arith, among-is_field ops op)

block_ops-is_field : (op : Text) → contains block_ops op ≡ true → is_field op ≡ true
unfolding nat_eq
block_ops-is_field op h = among-is_field block_ops op refl h

every_hex-is_field : (s : Text) → every is_hex_digit s ≡ true → is_field s ≡ true
unfolding nat_eq
every_hex-is_field s h = ground (
  arith,
  every_weaker is_hex_digit (λ c. ltb c 128) s (λ c d. ground arith) h,
  every_without is_hex_digit separator s refl h,
)

decimal-is_field : (rounds n : ℕ) → is_field (decimal rounds n) ≡ true
decimal-is_field rounds n = every_hex-is_field (decimal rounds n) (
    every_weaker is_digit is_hex_digit (decimal rounds n) (λ c d. ground arith)
      (every-decimal rounds n))

expiry-is_field : (second now ttl : ℕ) → is_field (expiry second now ttl) ≡ true
unfolding expiry
expiry-is_field second now ttl =
    let seconds = ceil second (now + ttl) in decimal-is_field seconds seconds

-- The least number of whole seconds that is not before a number of ticks.
ceil_bounds :
    (second ticks : ℕ)
    → 0 < second
    → (ticks ≤ ceil second ticks * second) × (ceil second ticks * second < ticks + second)
unfolding ceil
ceil_bounds zero ticks h = absurd (omega arith)
ceil_bounds (suc s) ticks h = (omega arith, omega arith)

check_expiry-expiry :
    (second now ttl later : ℕ)
    → check_expiry second (expiry second now ttl) later
      ≡ (if ltb later (ceil second (now + ttl) * second) then ok tt else err access_denied)
unfolding check_expiry is_number expiry
check_expiry-expiry second now ttl later =
    let seconds = ceil second (now + ttl) in
    rw
      (
        is_empty-decimal seconds seconds,
        every-decimal seconds seconds,
        number_onto-decimal seconds seconds (omega arith),
      )
      (guarded (ltb later (seconds * second)))
  where
    guarded : (b : Bool) → guard b access_denied ≡ (if b then ok tt else err access_denied)
    guarded true = refl
    guarded false = refl

fields_end :
    (s rest : Text)
    → is_field s ≡ true
    → split separator (s ++ separator ∷ rest) ≡ s ∷ (split separator rest)
fields_end s rest h = split-append separator s rest (ground arith)

ascii-append :
    (s rest : Text)
    → is_field s ≡ true
    → is_ascii rest ≡ true
    → is_ascii (s ++ separator ∷ rest) ≡ true
ascii-append s rest h k = ground (arith, every-append (λ c. ltb c 128) s (separator ∷ rest))

module _ (hexdigest : List ℕ → Text → Text) (second : ℕ) (key : List ℕ)
    (is_hex : (payload : Text) → every is_hex_digit (hexdigest key payload) ≡ true) where
  verified_fields-sign :
      (payload : Text)
      → is_ascii payload ≡ true
      → verified_fields hexdigest key (sign hexdigest key payload) ≡ ok (split separator payload)
  unfolding verified_fields sign nat_eq
  verified_fields-sign payload h = ground (
    arith,
    nonempty payload (period ∷ hexdigest key payload),
    rpartition-append period payload (hexdigest key payload)
        (every_without is_hex_digit period (hexdigest key payload) refl (is_hex payload)),
    every_hex-is_field (hexdigest key payload) (is_hex payload),
    eq_self (hexdigest key payload),
  )
    where
      nonempty : (s t : Text) → is_empty t ≡ false → is_empty (s ++ t) ≡ false
      nonempty [] t e = e
      nonempty (x ∷ s) t e = refl

  block_payload :
      (op block_id exp : Text)
      → is_field op ≡ true
      → is_field block_id ≡ true
      → is_field exp ≡ true
      → (is_ascii (codes "b" ++ separator ∷ (op ++ separator ∷ (block_id ++ separator ∷ exp)))
          ≡ true)
        × (split separator
              (codes "b" ++ separator ∷ (op ++ separator ∷ (block_id ++ separator ∷ exp)))
            ≡ codes "b" ∷ op ∷ block_id ∷ exp ∷ [])
  unfolding nat_eq
  block_payload op block_id exp o b e =
      let inner = block_id ++ separator ∷ exp in
      (
        ascii-append (codes "b") (op ++ separator ∷ inner) refl
            (ascii-append op inner o (ascii-append block_id exp b (ground arith))),
        fields_end (codes "b") (op ++ separator ∷ inner) refl
            ∙ ap (◌∷◌ (codes "b")) (
                fields_end op inner o
                ∙ ap (◌∷◌ op) (
                    fields_end block_id exp b
                    ∙ ap (◌∷◌ block_id) (split_whole separator exp (ground arith)))),
      )

  is_block_id-hex : (id : Text) → is_block_id id ≡ true → every is_hex_digit id ≡ true
  unfolding is_block_id
  is_block_id-hex id v = ground arith

  abbrev block_text : Text → Text → Text → Text
  block_text op block_id exp =
      codes "b" ++ separator ∷ (op ++ separator ∷ (block_id ++ separator ∷ exp))

  issue_block_inv :
      (block_id op token : Text) (ttl now : ℕ)
      → issue_block hexdigest second key block_id op ttl now ≡ ok token
      → (contains block_ops op ≡ true)
        × (is_block_id block_id ≡ true)
        × (token ≡ sign hexdigest key (block_text op block_id (expiry second now ttl)))
  unfolding issue_block
  issue_block_inv block_id op token ttl now h = elim (Bool-cases (contains block_ops op)) [
    | inr e ↦ absurd (failed {x = internal} (sym (rw e refl) ∙ h))
    | inl e ↦ elim (Bool-cases (is_block_id block_id)) [
      | inr f ↦ absurd (failed {x = internal} (sym (rw (e, f) refl) ∙ h))
      | inl f ↦ (
        e,
        f,
        sym (
            issued {s = sign hexdigest key (block_text op block_id (expiry second now ttl))}
              (sym (rw (e, f) refl) ∙ h)),
      )
    ]
  ]
    where
      failed : {x : Error} {t : Text} → err x ≡ ok t → ⊥
      failed p = cc

      issued : {s t : Text} → ok s ≡ ok t → s ≡ t
      issued p = cc

  verify_block-fields :
      (token block_id op exp : Text) (later : ℕ)
      → verified_fields hexdigest key token ≡ ok (codes "b" ∷ op ∷ block_id ∷ exp ∷ [])
      → verify_block hexdigest second key token block_id op later ≡ check_expiry second exp later
  unfolding verify_block
  verify_block-fields token block_id op exp later h =
      rw (h, eq_self (codes "b"), eq_self op, eq_self block_id) refl

  -- What a control node issues for an operation on a block expires at the first full second that is not
  -- before the end of its lifetime. A data node accepts it for that operation on that block as long as
  -- that second has not come, and refuses it from then on, if the HMAC is in hexadecimal and a
  -- second has ticks.
  pub verify_block-issue_block :
      (block_id op token : Text) (ttl now : ℕ)
      → 0 < second
      → issue_block hexdigest second key block_id op ttl now ≡ ok token
      → (expires_at : ℕ) × (now + ttl ≤ expires_at * second)
        × (expires_at * second < now + ttl + second)
        × ((later : ℕ)
            → verify_block hexdigest second key token block_id op later
              ≡ (if ltb later (expires_at * second) then ok tt else err access_denied))
  verify_block-issue_block block_id op token ttl now positive h =
      let exp = expiry second now ttl in
      let (known, valid, issued) = issue_block_inv block_id op token ttl now h in
      let (plain, parts) =
        block_payload op block_id exp (block_ops-is_field op known)
          (every_hex-is_field block_id (is_block_id-hex block_id valid))
          (expiry-is_field second now ttl) in
      let (reached, least) = ceil_bounds second (now + ttl) positive in
      (
        ceil second (now + ttl),
        reached,
        least,
        λ later.
            verify_block-fields token block_id op exp later (
              ap (verified_fields hexdigest key) issued
              ∙ verified_fields-sign (block_text op block_id exp) plain
              ∙ ap ok parts)
            ∙ check_expiry-expiry second now ttl later,
      )
