-- ===== src/Domain/Requests/Keys.antt =====
-- The idempotency key of internal/domain/request.go determines the call that it stands for.
use mathlib.Core.List.{append_assoc}
use native.Mathlib.Nat.{pow-suc}
use waterfall.Prelude.{
  ℕ, zero, suc, ◌*◌, ◌/◌, ◌^◌, ◌<◌, ◌≡◌, refl, sym, ap, ◌∙◌, String, List, [], ◌∷◌, ◌++◌, length,
  All, arith,
}
use waterfall.Domain.Fields.{Field}
use waterfall.Domain.Requests.{
  EnrichmentRequest, Strings, little_endian, write_len_prefixed, write_parts, key_parts,
  idempotency_key,
}

cons_injective {ℓ} : {A : Type ℓ} {x y : A} {xs ys : List A} → x ∷ xs ≡ y ∷ ys → (x ≡ y) × (xs ≡ ys)
cons_injective h = (cc, cc)

append_injective {ℓ} :
    {A : Type ℓ} (xs ys : List A) {us vs : List A}
    → length xs ≡ length ys
    → xs ++ us ≡ ys ++ vs
    → (xs ≡ ys) × (us ≡ vs)
append_injective [] [] same h = (refl, h)
append_injective [] (y ∷ ys) same h = absurd (omega arith)
append_injective (x ∷ xs) [] same h = absurd (omega arith)
append_injective (x ∷ xs) (y ∷ ys) same h =
    let (first, rest) = cons_injective h in
    let (all, after) = append_injective xs ys (omega arith) rest in (cc, after)

length-little_endian : (k n : ℕ) → length (little_endian k n) ≡ k
unfolding little_endian
length-little_endian zero n = refl
length-little_endian (suc k) n = ap suc (length-little_endian k (n / 256))

digit_below : (k n : ℕ) → n < 256 ^ suc k → n / 256 < 256 ^ k
digit_below k n h = let power : 256 ^ suc k ≡ 256 ^ k * 256 = pow-suc 256 k in omega (arith, power)

little_endian_injective :
    (k n m : ℕ) → n < 256 ^ k → m < 256 ^ k → little_endian k n ≡ little_endian k m → n ≡ m
unfolding little_endian
little_endian_injective zero n m h g e = omega arith
little_endian_injective (suc k) n m h g e =
    let (low, high) = cons_injective e in
    let rest =
      little_endian_injective k (n / 256) (m / 256) (digit_below k n h) (digit_below k m g) high in
    omega (arith, low, rest)

-- Eight bytes of length tell where a part ends.
write_len_prefixed_injective :
    (xs ys : List ℕ) {us vs : List ℕ}
    → length xs < 2 ^ 64
    → length ys < 2 ^ 64
    → write_len_prefixed xs ++ us ≡ write_len_prefixed ys ++ vs
    → (xs ≡ ys) × (us ≡ vs)
unfolding write_len_prefixed
write_len_prefixed_injective xs ys h g e =
    let prefix =
      append_injective (little_endian 8 (length xs)) (little_endian 8 (length ys))
        (length-little_endian 8 (length xs) ∙ sym (length-little_endian 8 (length ys)))
        (sym (append_assoc (little_endian 8 (length xs)) xs _)
          ∙ e
          ∙ append_assoc (little_endian 8 (length ys)) ys _) in
    append_injective xs ys
      (little_endian_injective 8 (length xs) (length ys) (omega arith) (omega arith) prefix.0)
      prefix.1

abbrev pub IsShort : List (List ℕ) → Type 0
IsShort = All (λ part. length part < 2 ^ 64)

write_parts_injective :
    (xs ys : List (List ℕ))
    → length xs ≡ length ys
    → IsShort xs
    → IsShort ys
    → write_parts xs ≡ write_parts ys
    → xs ≡ ys
unfolding write_parts
write_parts_injective [] [] same h g e = refl
write_parts_injective [] (y ∷ ys) same h g e = absurd (omega arith)
write_parts_injective (x ∷ xs) [] same h g e = absurd (omega arith)
write_parts_injective (x ∷ xs) (y ∷ ys) same h g e =
    let (first, rest) = write_len_prefixed_injective x y h.0 g.0 e in
    let all = write_parts_injective xs ys (omega arith) h.1 g.1 rest in cc (first, all)

-- Two calls with the same idempotency key agree in the bytes of tenant, subject, field, provider,
-- normalized attributes and config version, in that order: no shift of a boundary between two of
-- them makes two calls one. The hash does not collide on the two inputs, and no part is 2^64 bytes
-- long.
pub idempotency_key_injective :
    {C : Type 0} (s : Strings) (r q : EnrichmentRequest C) (tenant tenant' : String)
    (field field' : Field) (provider provider' : String)
    → IsShort (key_parts s r tenant field provider)
    → IsShort (key_parts s q tenant' field' provider')
    → (s.sha256_hex (write_parts (key_parts s r tenant field provider))
          ≡ s.sha256_hex (write_parts (key_parts s q tenant' field' provider'))
        → write_parts (key_parts s r tenant field provider)
          ≡ write_parts (key_parts s q tenant' field' provider'))
    → idempotency_key s r tenant field provider ≡ idempotency_key s q tenant' field' provider'
    → key_parts s r tenant field provider ≡ key_parts s q tenant' field' provider'
unfolding idempotency_key
idempotency_key_injective s r q tenant tenant' field field' provider provider' h g no_collision e =
    write_parts_injective (key_parts s r tenant field provider)
      (key_parts s q tenant' field' provider') (unfold key_parts in refl) h g (no_collision e)
