-- ===== src/Prelude/Sort.antt =====
-- Python's `sorted(items, key=...)`, which is stable.
use mathlib.Core.List.{Perm}
use mathlib.Core.List.Perm
use mathlib.Core.List.{List, [], ◌∷◌}
use mathlib.Core.Path.{◌≡◌, refl}
use mathlib.Core.Logic.{◌↔◌, inl, inr}
use Prim.Native.Nat.{ℕ, ◌≤◌}
use native.Mathlib.Omega.{arith}
use cohort_switch.Prelude.Tests.{leb, leb→le, if◌then◌else◌, Bool-cases}
use cohort_switch.Prelude.Lists.{All, All-at, All-of_at, IsIn}

module _ {ℓ} {A : Type ℓ} (key : A → ℕ) where
  unfoldable pub insert : A → List A → List A
  insert x [] = x ∷ []
  insert x (y ∷ ys) = if leb (key x) (key y) then x ∷ y ∷ ys else y ∷ insert x ys

  unfoldable pub sorted : List A → List A
  unfolding insert
  sorted [] = []
  sorted (x ∷ xs) = insert x (sorted xs)

  -- Each item's key is at most those of the items behind it.
  abbrev pub IsSorted : List A → Type 0
  IsSorted [] = Unit
  IsSorted (x ∷ xs) = All (λ y. key x ≤ key y) xs × IsSorted xs

  pub All-insert {κ} : (P : A → Type κ) (x : A) (xs : List A) → P x → All P xs → All P (insert x xs)
  unfolding insert
  All-insert P x [] h hs = (h, tt)
  All-insert P x (y ∷ ys) h hs = elim (Bool-cases (leb (key x) (key y))) [
    | inl low ↦ rw low (h, hs)
    | inr high ↦ rw high (hs.0, All-insert P x ys h hs.1)
  ]

  pub All-sorted {κ} : (P : A → Type κ) (xs : List A) → All P xs → All P (sorted xs)
  unfolding sorted
  All-sorted P [] h = tt
  All-sorted P (x ∷ xs) h = All-insert P x (sorted xs) h.0 (All-sorted P xs h.1)

  pub All-le_trans :
      (a b : ℕ) (xs : List A) → a ≤ b → All (λ y. b ≤ key y) xs → All (λ y. a ≤ key y) xs
  All-le_trans a b [] le h = tt
  All-le_trans a b (x ∷ xs) le h = (omega arith, All-le_trans a b xs le h.1)

  insert-IsSorted : (x : A) (xs : List A) → IsSorted xs → IsSorted (insert x xs)
  unfolding insert
  insert-IsSorted x [] h = (tt, tt)
  insert-IsSorted x (y ∷ ys) h = elim (Bool-cases (leb (key x) (key y))) [
    | inl low ↦ rw low ((leb→le _ _ low, All-le_trans (key x) (key y) ys (leb→le _ _ low) h.0), h)
    | inr high ↦
        rw high (All-insert (λ z. key y ≤ key z) x ys (ground arith) h.0, insert-IsSorted x ys h.1)
  ]

  pub sorted-IsSorted : (xs : List A) → IsSorted (sorted xs)
  unfolding sorted
  sorted-IsSorted [] = tt
  sorted-IsSorted (x ∷ xs) = insert-IsSorted x (sorted xs) (sorted-IsSorted xs)

  insert_least : (x : A) (xs : List A) → All (λ y. key x ≤ key y) xs → insert x xs ≡ x ∷ xs
  unfolding insert
  insert_least x [] h = refl
  insert_least x (y ∷ ys) h = ground (arith, h.0)

  -- Sorting what is sorted changes nothing.
  pub sorted_of_IsSorted : (xs : List A) → IsSorted xs → sorted xs ≡ xs
  unfolding sorted
  sorted_of_IsSorted [] h = refl
  sorted_of_IsSorted (x ∷ xs) h = rw (sorted_of_IsSorted xs h.1) (insert_least x xs h.0)

  insert-perm : (x : A) (xs : List A) → Perm (insert x xs) (x ∷ xs)
  unfolding insert
  insert-perm x [] = Perm.refl (x ∷ [])
  insert-perm x (y ∷ ys) = elim (Bool-cases (leb (key x) (key y))) [
    | inl low ↦ rw low (Perm.refl (x ∷ y ∷ ys))
    | inr high ↦ rw high (Perm.trans (Perm.cons y (insert-perm x ys)) (Perm.swap x y ys))
  ]

  pub sorted-perm : (xs : List A) → Perm (sorted xs) xs
  unfolding sorted
  sorted-perm [] = Perm.refl []
  sorted-perm (x ∷ xs) = Perm.trans (insert-perm x (sorted xs)) (Perm.cons x (sorted-perm xs))

module _ {A : Type 0} (key : A → ℕ) where
  pub mem-insert : (a x : A) (xs : List A) → IsIn a (x ∷ xs) → IsIn a (insert key x xs)
  unfolding insert
  mem-insert a x [] i = i
  mem-insert a x (y ∷ ys) i = elim (Bool-cases (leb (key x) (key y))) [
    | inl low ↦ rw low i
    | inr high ↦ rw high (elim i [
      | inl e ↦ inr (mem-insert a x ys (inl e))
      | inr j ↦ elim j [ inl e ↦ inl e | inr k ↦ inr (mem-insert a x ys (inr k)) ]
    ])
  ]

  mem-sorted_of_mem : (a : A) (xs : List A) → IsIn a xs → IsIn a (sorted key xs)
  unfolding sorted
  mem-sorted_of_mem a [] i = i
  mem-sorted_of_mem a (x ∷ xs) (inl e) = mem-insert a x (sorted key xs) (inl e)
  mem-sorted_of_mem a (x ∷ xs) (inr i) =
      mem-insert a x (sorted key xs) (inr (mem-sorted_of_mem a xs i))

  -- Sorting loses no item and adds none.
  pub mem-sorted : (a : A) (xs : List A) → IsIn a (sorted key xs) ↔ IsIn a xs
  mem-sorted a xs = (
    λ i.
        All-at (λ x. IsIn x xs) a (sorted key xs)
          (All-sorted key (λ x. IsIn x xs) xs (All-of_at (λ x. IsIn x xs) xs (λ x j. j))) i,
    mem-sorted_of_mem a xs,
  )
