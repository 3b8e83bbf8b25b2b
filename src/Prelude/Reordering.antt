-- ===== src/Prelude/Reordering.antt =====
-- Lists with the same items in another order, as a query without an order gives rows.
use mathlib.Core.List.{List, [], ◌∷◌, map}
use mathlib.Core.Path.{◌≡◌, refl, sym, ap, ◌∙◌}
use mathlib.Core.Logic.{◌≢◌, ◌↔◌}
use mathlib.Core.Bool.{Bool, ◌||◌}
use Prim.Native.Nat.{ℕ}
use native.Mathlib.Omega.{arith}
use cohort_switch.Prelude.Lists.{All, All-at, All-of_at, IsIn, any, is_nonempty}
use cohort_switch.Prelude.Sort.{sorted, insert}

pub data Reordering {A : Type 0} : List A → List A → Type 0 where
  done : Reordering [] []
  kept : (x : A) {xs ys : List A} → Reordering xs ys → Reordering (x ∷ xs) (x ∷ ys)
  swapped : (x y : A) (xs : List A) → Reordering (x ∷ y ∷ xs) (y ∷ x ∷ xs)
  chained : {xs ys zs : List A} → Reordering xs ys → Reordering ys zs → Reordering xs zs

-- No two items have one key.
abbrev pub IsDistinct : {A K : Type 0} → (A → K) → List A → Type 0
IsDistinct key [] = Unit
IsDistinct key (x ∷ xs) = All (λ y. key x ≢ key y) xs × IsDistinct key xs

pub All-imply {ℓ κ} :
    {A : Type 0} (P : A → Type ℓ) (Q : A → Type κ) (xs : List A)
    → ((x : A) → P x → Q x)
    → All P xs
    → All Q xs
All-imply P Q [] f h = tt
All-imply P Q (x ∷ xs) f h = (f x h.0, All-imply P Q xs f h.1)

module _ {A : Type 0} where
  pub All-Reordering {κ} :
      (P : A → Type κ) (xs ys : List A) → Reordering xs ys → All P xs → All P ys
  All-Reordering P _ _ done h = tt
  All-Reordering P _ _ (kept x {xs} {ys} r) h = (h.0, All-Reordering P xs ys r h.1)
  All-Reordering P _ _ (swapped x y xs) h = (h.1.0, (h.0, h.1.1))
  All-Reordering P _ _ (chained {xs} {ys} {zs} r r') h =
      All-Reordering P ys zs r' (All-Reordering P xs ys r h)

  pub Reordering-sym : (xs ys : List A) → Reordering xs ys → Reordering ys xs
  Reordering-sym _ _ done = done
  Reordering-sym _ _ (kept x {xs} {ys} r) = kept x (Reordering-sym xs ys r)
  Reordering-sym _ _ (swapped x y xs) = swapped y x xs
  Reordering-sym _ _ (chained {xs} {ys} {zs} r r') =
      chained (Reordering-sym ys zs r') (Reordering-sym xs ys r)

  pub mem-Reordering : (xs ys : List A) → Reordering xs ys → (a : A) → IsIn a xs ↔ IsIn a ys
  mem-Reordering xs ys r a = (
    λ i.
        All-at (λ x. IsIn x ys) a xs
          (All-Reordering (λ x. IsIn x ys) ys xs (Reordering-sym xs ys r)
            (All-of_at (λ x. IsIn x ys) ys (λ x j. j)))
          i,
    λ i.
        All-at (λ x. IsIn x xs) a ys
          (All-Reordering (λ x. IsIn x xs) xs ys r (All-of_at (λ x. IsIn x xs) xs (λ x j. j))) i,
  )

  pub any-Reordering : (p : A → Bool) (xs ys : List A) → Reordering xs ys → any p xs ≡ any p ys
  any-Reordering p _ _ done = refl
  any-Reordering p _ _ (kept x {xs} {ys} r) = ap (λ b. p x || b) (any-Reordering p xs ys r)
  any-Reordering p _ _ (swapped x y xs) = ground arith
  any-Reordering p _ _ (chained {xs} {ys} {zs} r r') =
      any-Reordering p xs ys r ∙ any-Reordering p ys zs r'

  pub is_nonempty-Reordering : (xs ys : List A) → Reordering xs ys → is_nonempty xs ≡ is_nonempty ys
  is_nonempty-Reordering _ _ done = refl
  is_nonempty-Reordering _ _ (kept x r) = refl
  is_nonempty-Reordering _ _ (swapped x y xs) = refl
  is_nonempty-Reordering _ _ (chained {xs} {ys} {zs} r r') =
      is_nonempty-Reordering xs ys r ∙ is_nonempty-Reordering ys zs r'

  pub IsDistinct-Reordering :
      {K : Type 0}
      → (key : A → K) (xs ys : List A) → Reordering xs ys
      → IsDistinct key xs
      → IsDistinct key ys
  IsDistinct-Reordering key _ _ done d = tt
  IsDistinct-Reordering key _ _ (kept x {xs} {ys} r) d =
      (All-Reordering (λ y. key x ≢ key y) xs ys r d.0, IsDistinct-Reordering key xs ys r d.1)
  IsDistinct-Reordering key _ _ (swapped x y xs) d = (((λ e. d.0.0 (sym e)), d.1.0), (d.0.1, d.1.1))
  IsDistinct-Reordering key _ _ (chained {xs} {ys} {zs} r r') d =
      IsDistinct-Reordering key ys zs r' (IsDistinct-Reordering key xs ys r d)

  insert_swap :
      (key : A → ℕ) (x y : A) (xs : List A)
      → key x ≢ key y
      → insert key x (insert key y xs) ≡ insert key y (insert key x xs)
  unfolding insert
  insert_swap key x y [] ne = ground arith
  insert_swap key x y (z ∷ xs) ne = let rest = insert_swap key x y xs ne in grind arith

  pub sorted-Reordering :
      (key : A → ℕ) (xs ys : List A)
      → Reordering xs ys
      → IsDistinct key xs
      → sorted key xs ≡ sorted key ys
  unfolding sorted
  sorted-Reordering key _ _ done d = refl
  sorted-Reordering key _ _ (kept x {xs} {ys} r) d =
      ap (insert key x) (sorted-Reordering key xs ys r d.1)
  sorted-Reordering key _ _ (swapped x y xs) d = insert_swap key x y (sorted key xs) d.0.0
  sorted-Reordering key _ _ (chained {xs} {ys} {zs} r r') d =
      sorted-Reordering key xs ys r d
      ∙ sorted-Reordering key ys zs r' (IsDistinct-Reordering key xs ys r d)

pub map-Reordering :
    {A B : Type 0} (f : A → B) (xs ys : List A)
    → Reordering xs ys
    → Reordering (map f xs) (map f ys)
map-Reordering f _ _ done = done
map-Reordering f _ _ (kept x {xs} {ys} r) = kept (f x) (map-Reordering f xs ys r)
map-Reordering f _ _ (swapped x y xs) = swapped (f x) (f y) (map f xs)
map-Reordering f _ _ (chained {xs} {ys} {zs} r r') =
    chained (map-Reordering f xs ys r) (map-Reordering f ys zs r')

module _ {A B K : Type 0} (f : A → B) (key : A → K) (key' : B → K)
    (same : (a : A) → key' (f a) ≡ key a) where
  All-map_other : (k : K) (xs : List A) → All (λ y. k ≢ key y) xs → All (λ y. k ≢ key' y) (map f xs)
  All-map_other k [] h = tt
  All-map_other k (x ∷ xs) h = ((λ e. h.0 (e ∙ same x)), All-map_other k xs h.1)

  pub IsDistinct-map : (xs : List A) → IsDistinct key xs → IsDistinct key' (map f xs)
  IsDistinct-map [] d = tt
  IsDistinct-map (x ∷ xs) d = (
    All-imply (λ y. key x ≢ key' y) (λ y. key' (f x) ≢ key' y) (map f xs)
        (λ y h e. h (sym (same x) ∙ e)) (All-map_other (key x) xs d.0),
    IsDistinct-map xs d.1,
  )
