-- ===== src/Inspector/Listing/Order.antt =====
-- In which order a directory is listed.
use Prim.Native.Nat.{Ordering}
use mathlib.Core.List.{Perm}
use mathlib.Core.List.Perm
use edge_cdn_store.Common.{◌≡◌, ◌≢◌, ◌⊎◌, inl, inr, refl, true, false, List, [], ◌∷◌, arith}
use edge_cdn_store.Common.Text.{Text}
use edge_cdn_store.Inspector.Listing.{
  Item, reverse_order, text_cmp, insert_by, sort_by, item_cmp, sort_items,
}

Ordering-cases : (o : Ordering) → (o ≡ Ordering.gt) ⊎ (o ≢ Ordering.gt)
Ordering-cases Ordering.gt = inl refl
Ordering-cases Ordering.lt = inr (λ e. cc)
Ordering-cases Ordering.eq = inr (λ e. cc)

-- Each item and the next one are related.
abbrev pub Adjacent {ℓ} : {A : Type 0} → (A → A → Type ℓ) → List A → Type ℓ
Adjacent R [] = Unit
Adjacent R (x ∷ []) = Unit
Adjacent R (x ∷ y ∷ ys) = R x y × Adjacent R (y ∷ ys)

Adjacent-map {ℓ κ} :
    {A : Type 0} {R : A → A → Type ℓ} {S : A → A → Type κ}
    → ((x y : A) → R x y → S x y)
    → (xs : List A) → Adjacent R xs
    → Adjacent S xs
Adjacent-map f [] h = tt
Adjacent-map f (x ∷ []) h = tt
Adjacent-map f (x ∷ y ∷ ys) h = (f x y h.0, Adjacent-map f (y ∷ ys) h.1)

module _ {A : Type 0} (cmp : A → A → Ordering) where
  abbrev InOrder : A → A → Type 0
  InOrder x y = cmp x y ≢ Ordering.gt

  insert_by_past :
      (x y : A) (ys : List A)
      → cmp x y ≡ Ordering.gt
      → insert_by cmp x (y ∷ ys) ≡ y ∷ insert_by cmp x ys
  unfolding insert_by
  insert_by_past x y ys e = ground arith

  insert_by_here : (x y : A) (ys : List A) → InOrder x y → insert_by cmp x (y ∷ ys) ≡ x ∷ y ∷ ys
  unfolding insert_by
  insert_by_here x y ys n = ground arith

  insert_by-perm : (x : A) (ys : List A) → Perm (insert_by cmp x ys) (x ∷ ys)
  insert_by-perm x [] = unfold insert_by in Perm.refl (x ∷ [])
  insert_by-perm x (y ∷ ys) = elim (Ordering-cases (cmp x y)) [
    | inl past ↦
        rw (insert_by_past x y ys past)
          (Perm.trans (Perm.cons y (insert_by-perm x ys)) (Perm.swap x y ys))
    | inr here ↦ rw (insert_by_here x y ys here) (Perm.refl (x ∷ y ∷ ys))
  ]

  sort_by-perm : (xs : List A) → Perm (sort_by cmp xs) xs
  unfolding sort_by
  sort_by-perm [] = Perm.refl []
  sort_by-perm (x ∷ xs) =
      Perm.trans (insert_by-perm x (sort_by cmp xs)) (Perm.cons x (sort_by-perm xs))

  -- An item that comes before another one does not come after it.
  module _ (asym : (x y : A) → cmp x y ≡ Ordering.gt → InOrder y x) where
    insert_by_after :
        (x y : A) (ys : List A)
        → cmp x y ≡ Ordering.gt
        → Adjacent InOrder (y ∷ ys)
        → Adjacent InOrder (insert_by cmp x ys)
        → Adjacent InOrder (y ∷ insert_by cmp x ys)
    insert_by_after x y [] past h k = unfold insert_by in (asym x y past, tt)
    insert_by_after x y (z ∷ zs) past h k = elim (Ordering-cases (cmp x z)) [
      | inl further ↦
          rw (insert_by_past x z zs further) (h.0, rw (insert_by_past x z zs further) at k)
      | inr here ↦ rw (insert_by_here x z zs here) (asym x y past, (here, h.1))
    ]

    tail-Adjacent : (y : A) (ys : List A) → Adjacent InOrder (y ∷ ys) → Adjacent InOrder ys
    tail-Adjacent y [] h = tt
    tail-Adjacent y (z ∷ zs) h = h.1

    insert_by-Adjacent :
        (x : A) (ys : List A) → Adjacent InOrder ys → Adjacent InOrder (insert_by cmp x ys)
    insert_by-Adjacent x [] h = unfold insert_by in tt
    insert_by-Adjacent x (y ∷ ys) h = elim (Ordering-cases (cmp x y)) [
      | inl past ↦
          rw (insert_by_past x y ys past)
            (insert_by_after x y ys past h (insert_by-Adjacent x ys (tail-Adjacent y ys h)))
      | inr here ↦ rw (insert_by_here x y ys here) (here, h)
    ]

    sort_by-Adjacent : (xs : List A) → Adjacent InOrder (sort_by cmp xs)
    unfolding sort_by
    sort_by-Adjacent [] = tt
    sort_by-Adjacent (x ∷ xs) = insert_by-Adjacent x (sort_by cmp xs) (sort_by-Adjacent xs)

text_cmp_swap : (s t : Text) → text_cmp t s ≡ reverse_order (text_cmp s t)
unfolding text_cmp
text_cmp_swap [] [] = refl
text_cmp_swap [] (y ∷ t) = refl
text_cmp_swap (x ∷ s) [] = refl
text_cmp_swap (x ∷ s) (y ∷ t) = ground (arith, text_cmp_swap s t)

module _ (to_lowercase : Text → Text) where
  item_cmp_asym :
      (a b : Item)
      → item_cmp to_lowercase a b ≡ Ordering.gt
      → item_cmp to_lowercase b a ≢ Ordering.gt
  item_cmp_asym a b e = ground (arith, text_cmp_swap (to_lowercase a.0) (to_lowercase b.0))

  -- `b` may stand directly behind `a`: a directory behind a file, or, among files and among
  -- directories, a name in lower case that is not greater.
  abbrev pub Behind : Item → Item → Type 0
  Behind a b =
      ((a.1 ≡ false) × (b.1 ≡ true))
      ⊎ ((a.1 ≡ b.1) × (text_cmp (to_lowercase a.0) (to_lowercase b.0) ≢ Ordering.lt))

  Behind-of : (a b : Item) → item_cmp to_lowercase a b ≢ Ordering.gt → Behind a b
  Behind-of (s, false) (t, false) n = inr (refl, λ e. n (rw e))
  Behind-of (s, false) (t, true) n = inl (refl, refl)
  Behind-of (s, true) (t, false) n = absurd (n refl)
  Behind-of (s, true) (t, true) n = inr (refl, λ e. n (rw e))

  -- A listing has every entry of the directory once. The files come first, then the directories;
  -- each of the two groups goes down by its names in lower case.
  pub sort_items_order :
      (items : List Item)
      → Adjacent Behind (sort_items to_lowercase items) × Perm (sort_items to_lowercase items) items
  unfolding sort_items
  sort_items_order items = (
    Adjacent-map Behind-of _ (sort_by-Adjacent (item_cmp to_lowercase) item_cmp_asym items),
    sort_by-perm (item_cmp to_lowercase) items,
  )
