-- ===== src/Prelude/Sorting.antt =====
-- Insertion sort by a strict weak order, and the lexicographic combination of two.
use mathlib.Core.Path.{◌≡◌, refl, subst}
use mathlib.Core.Bool.{Bool, true, false, not, ◌&&◌}
use mathlib.Core.Logic.{inl, inr}
use mathlib.Core.List.{List, [], ◌∷◌, Permᴰ}
use mathlib.Core.List.Permᴰ
use native.Mathlib.Omega.{arith}
use waterfall.Prelude.Tests.{Bool-cases, if◌then◌else◌}
use waterfall.Prelude.Lists.{All}

module _ {ℓ} {A : Type ℓ} where
  pub All-Permᴰ {κ} : (P : A → Type κ) {xs ys : List A} → Permᴰ xs ys → All P xs → All P ys
  All-Permᴰ P Permᴰ.nil h = h
  All-Permᴰ P (Permᴰ.cons e d) (h, hs) = (subst P e h, All-Permᴰ P d hs)
  All-Permᴰ P (Permᴰ.swap e e') (h, (h', hs)) = (subst P e' h', (subst P e h, hs))
  All-Permᴰ P (Permᴰ.trans d d') h = All-Permᴰ P d' (All-Permᴰ P d h)

module _ {ℓ} {A : Type ℓ} (before : A → A → Bool) where
  -- No element comes before itself or an earlier one in a round, and not before is transitive.
  pub record IsWeakOrder : Type ℓ where
    pub asymmetric : (a b : A) → before a b ≡ true → before b a ≡ false
    pub transitive : (a b c : A) → before a b ≡ false → before b c ≡ false → before a c ≡ false

  -- No element is before an earlier one.
  abbrev pub IsSorted : List A → Type 0
  IsSorted [] = Unit
  IsSorted (x ∷ xs) = All (λ y. before y x ≡ false) xs × IsSorted xs

  unfoldable pub insert_by : A → List A → List A
  insert_by a [] = a ∷ []
  insert_by a (b ∷ bs) = let rest = insert_by a bs in if before b a then b ∷ rest else a ∷ b ∷ bs

  unfoldable pub sort_by : List A → List A
  unfolding insert_by
  sort_by [] = []
  sort_by (a ∷ rest) = insert_by a (sort_by rest)

  insert_by-Permᴰ : (a : A) (xs : List A) → Permᴰ (a ∷ xs) (insert_by a xs)
  unfolding insert_by
  insert_by-Permᴰ a [] = Permᴰ.refl (a ∷ [])
  insert_by-Permᴰ a (b ∷ bs) = elim (Bool-cases (before b a)) [
    | inl q ↦ rw q (Permᴰ.trans (Permᴰ.swap refl refl) (Permᴰ.cons refl (insert_by-Permᴰ a bs)))
    | inr q ↦ rw q (Permᴰ.refl (a ∷ b ∷ bs))
  ]

  -- A sort rearranges.
  pub sort_by-Permᴰ : (xs : List A) → Permᴰ (sort_by xs) xs
  unfolding sort_by
  sort_by-Permᴰ [] = Permᴰ.nil
  sort_by-Permᴰ (a ∷ rest) =
      Permᴰ.trans (Permᴰ.symm (insert_by-Permᴰ a (sort_by rest)))
        (Permᴰ.cons refl (sort_by-Permᴰ rest))

  module _ (order : IsWeakOrder) where
    All-not_before :
        (a b : A) (xs : List A)
        → before b a ≡ false
        → All (λ y. before y b ≡ false) xs
        → All (λ y. before y a ≡ false) xs
    All-not_before a b [] q h = tt
    All-not_before a b (x ∷ xs) q (h, hs) = (order.transitive x b a h q, All-not_before a b xs q hs)

    insert_by-IsSorted : (a : A) (xs : List A) → IsSorted xs → IsSorted (insert_by a xs)
    unfolding insert_by
    insert_by-IsSorted a [] h = (tt, tt)
    insert_by-IsSorted a (b ∷ bs) (h, hs) = elim (Bool-cases (before b a)) [
      | inl q ↦ rw q (
        All-Permᴰ (λ y. before y b ≡ false) (insert_by-Permᴰ a bs) (order.asymmetric b a q, h),
        insert_by-IsSorted a bs hs,
      )
      | inr q ↦ rw q ((q, All-not_before a b bs q h), (h, hs))
    ]

    -- A sort sorts.
    pub sort_by-IsSorted : (xs : List A) → IsSorted (sort_by xs)
    unfolding sort_by
    sort_by-IsSorted [] = tt
    sort_by-IsSorted (a ∷ rest) = insert_by-IsSorted a (sort_by rest) (sort_by-IsSorted rest)

module _ {ℓ} {A : Type ℓ} (o p : A → A → Bool) where
  -- By `o`, and by `p` where `o` does not tell.
  abbrev pub then_by : A → A → Bool
  then_by a b = if not (o a b) && not (o b a) then p a b else o a b

  pub then_by-IsWeakOrder : IsWeakOrder o → IsWeakOrder p → IsWeakOrder then_by
  then_by-IsWeakOrder ho hp = record {
    asymmetric =
        λ a b h. ground (arith, h, ho.asymmetric a b, ho.asymmetric b a, hp.asymmetric a b);
    transitive = λ a b c h k. ground (
      arith,
      h,
      k,
      ho.transitive a b c,
      ho.transitive c b a,
      ho.transitive b a c,
      ho.transitive a c b,
      ho.transitive c a b,
      ho.transitive b c a,
      ho.asymmetric a b,
      ho.asymmetric b c,
      ho.asymmetric a c,
      hp.transitive a b c,
    );
  }
