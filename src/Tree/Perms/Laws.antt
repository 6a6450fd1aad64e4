-- ===== src/Tree/Perms/Laws.antt =====
-- What the permission bits grant.
use proyecto1_sd.Base.{
  ℕ, zero, suc, ◌/◌, ◌%◌, ◌^◌, ◌≤◌, ◌<◌, bit_and, Bool, true, false, not, ◌&&◌, some, contains,
}
use proyecto1_sd.Base.{
  ◌≡◌, refl, ◌==◌, leb, eqb, Bool-cases, inl, inr, if◌then◌else◌, list_eq, nat_eq, arith,
}
use proyecto1_sd.Tree.Data.{Caller, Ownership, read_bit, write_bit}
use proyecto1_sd.Tree.Perms.{allows}

-- The octal digit of a mode that counts for a caller: the owner's, the group's or the others'.
unfoldable pub class_digit : Ownership → Caller → ℕ
class_digit own c =
    if c.username == own.owner
    then own.mode / 64
    else if contains c.groups own.group
    then own.mode / 8 % 8
    else own.mode % 8

check_below : ℕ → (ℕ → Bool) → Bool
check_below zero p = true
check_below (suc n) p = p n && check_below n p

check_below_sound : (n : ℕ) (p : ℕ → Bool) (x : ℕ) → check_below n p ≡ true → x < n → p x ≡ true
unfolding check_below
check_below_sound zero p x h lt = absurd (omega arith)
check_below_sound (suc n) p x h lt = ground (arith, check_below_sound n p x)

abbrev same : Bool → Bool → Bool
same true b = b
same false b = not b

same_eq : (a b : Bool) → same a b ≡ true → a ≡ b
same_eq true b h = ground arith
same_eq false b h = ground arith

grants_read : ℕ → ℕ → Bool
grants_read shift m = eqb (bit_and (m / 2 ^ shift) read_bit) read_bit

grants_write : ℕ → ℕ → Bool
grants_write shift m = eqb (bit_and (m / 2 ^ shift) write_bit) write_bit

-- A digit grants reading from 4 on, and writing if it leaves 2 or 3 modulo 4.
abbrev reads : ℕ → Bool
reads digit = leb 4 digit

abbrev writes : ℕ → Bool
writes digit = leb 2 (digit % 4)

agree_below :
    (p q : ℕ → Bool)
    → check_below 512 (λ m. same (p m) (q m)) ≡ true
    → (m : ℕ) → m ≤ 0o777
    → p m ≡ q m
agree_below p q table m h = same_eq _ _ (check_below_sound 512 _ m table (omega arith))

read_digits :
    (m : ℕ)
    → m ≤ 0o777
    → (grants_read 6 m ≡ reads (m / 64))
      × (grants_read 3 m ≡ reads (m / 8 % 8))
      × (grants_read 0 m ≡ reads (m % 8))
unfolding check_below grants_read
read_digits m h = (
  agree_below (grants_read 6) (λ m. reads (m / 64)) refl m h,
  agree_below (grants_read 3) (λ m. reads (m / 8 % 8)) refl m h,
  agree_below (grants_read 0) (λ m. reads (m % 8)) refl m h,
)

write_digits :
    (m : ℕ)
    → m ≤ 0o777
    → (grants_write 6 m ≡ writes (m / 64))
      × (grants_write 3 m ≡ writes (m / 8 % 8))
      × (grants_write 0 m ≡ writes (m % 8))
unfolding check_below grants_write
write_digits m h = (
  agree_below (grants_write 6) (λ m. writes (m / 64)) refl m h,
  agree_below (grants_write 3) (λ m. writes (m / 8 % 8)) refl m h,
  agree_below (grants_write 0) (λ m. writes (m % 8)) refl m h,
)

module _ (own : Ownership) (c : Caller) (fits : own.mode ≤ 0o777) (plain : c.is_admin ≡ false) where
  -- A caller who is no admin may read exactly if the octal digit of their own class is 4 or more,
  -- and may write exactly if it leaves 2 or 3 modulo 4. The owner's class has the first digit,
  -- that of a member of the node's group who is not the owner the second, the others' the third.
  pub allows-class_digit :
      (allows own (some c) read_bit ≡ leb 4 (class_digit own c))
      × (allows own (some c) write_bit ≡ leb 2 (class_digit own c % 4))
  unfolding allows class_digit grants_read grants_write
  allows-class_digit =
      let (r6, r3, r0) = read_digits own.mode fits in
      let (w6, w3, w0) = write_digits own.mode fits in
      elim (Bool-cases (c.username == own.owner)) [
        | inl mine ↦ rw (plain, mine) (r6, w6)
        | inr other ↦ elim (Bool-cases (contains c.groups own.group)) [
          | inl member ↦ rw (plain, other, member) (r3, w3)
          | inr stranger ↦ rw (plain, other, stranger) (r0, w0)
        ]
      ]
