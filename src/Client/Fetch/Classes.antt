-- ===== src/Client/Fetch/Classes.antt =====
-- client-sdk/src/client/strategy: how one fetch divides what the store vault gave.
use intmax.Base.{
  ℕ, ◌+◌, ◌≡◌, ◌∙◌, refl, ap, Bool, true, false, inl, inr, List, [], ◌∷◌, ◌++◌, Option, none, some,
  reverse, if◌then◌else◌, All, All-append, Bool-cases, arith,
}
use intmax.Base.Sort.{
  sort_by, All-sort_by, IsSorted, sort_by-IsSorted, count, count-append, count-sort_by,
}
use intmax.Client.Strategy.{MetaData, MetaDataWithBlockNumber}
use intmax.Client.Fetch.{
  CursorOrder, asc, desc, DataInfo, is_timed_out, before_settled, before_meta, in_order, place,
  classify, sort_info,
}

count-reverse : {A : Type 0} (p : A → Bool) (xs : List A) → count p (reverse xs) ≡ count p xs
count-reverse p [] = refl
count-reverse p (x ∷ xs) = ground (arith, count-append p (reverse xs) (x ∷ []), count-reverse p xs)

All-reverse : {A : Type 0} (P : A → Type 0) (xs : List A) → All P xs → All P (reverse xs)
All-reverse P [] h = tt
All-reverse P (x ∷ xs) h = All-append P (reverse xs) (x ∷ []) (All-reverse P xs h.1) (h.0, tt)

count-in_order :
    {A : Type 0} (p : A → Bool) (order : CursorOrder) (xs : List A)
    → count p (in_order order xs) ≡ count p xs
count-in_order p asc xs = refl
count-in_order p desc xs = count-reverse p xs

All-in_order :
    {A : Type 0} (P : A → Type 0) (order : CursorOrder) (xs : List A)
    → All P xs
    → All P (in_order order xs)
All-in_order P asc xs h = h
All-in_order P desc xs h = All-reverse P xs h

reverse-snoc : {A : Type 0} (xs : List A) (x : A) → reverse (xs ++ x ∷ []) ≡ x ∷ reverse xs
reverse-snoc [] x = refl
reverse-snoc (y ∷ xs) x = ap (λ ys. ys ++ y ∷ []) (reverse-snoc xs x)

in_order-twice :
    {A : Type 0} (order : CursorOrder) (xs : List A) → in_order order (in_order order xs) ≡ xs
in_order-twice asc xs = refl
in_order-twice desc [] = refl
in_order-twice desc (x ∷ xs) = reverse-snoc (reverse xs) x ∙ ap (◌∷◌ x) (in_order-twice desc xs)

module _ {T : Type 0} where
  -- A test of data with their block numbers, on what is settled and on what is not.
  module _ (p : (MetaData × T) × Option ℕ → Bool) where
    abbrev pub on_settled : MetaDataWithBlockNumber × T → Bool
    on_settled x = p ((x.0.meta, x.1), some x.0.block_number)

    abbrev pub on_open : MetaData × T → Bool
    on_open x = p (x, none)

    -- How many data of the three lists pass it.
    abbrev pub counted : DataInfo T → ℕ
    counted info =
        count on_settled info.settled + (count on_open info.pending + count on_open info.timeout)

    place-counted :
        (now timeout : ℕ) (x : (MetaData × T) × Option ℕ) (info : DataInfo T)
        → counted (place now timeout x info) ≡ (if p x then 1 else 0) + counted info
    place-counted now timeout (x, some n) info = ground arith
    place-counted now timeout (x, none) info = ground arith

    pub classify-counted :
        (now timeout : ℕ) (xs : List ((MetaData × T) × Option ℕ))
        → counted (classify now timeout xs) ≡ count p xs
    unfolding classify
    classify-counted now timeout [] = omega arith
    classify-counted now timeout (x ∷ xs) = ground (
      arith,
      place-counted now timeout x (classify now timeout xs),
      classify-counted now timeout xs,
    )

    pub sort_info-counted :
        (order : CursorOrder) (info : DataInfo T) → counted (sort_info order info) ≡ counted info
    unfolding sort_info
    sort_info-counted order info = omega (
      arith,
      count-in_order on_settled order (sort_by before_settled info.settled),
      count-in_order on_open order (sort_by before_meta info.pending),
      count-in_order on_open order (sort_by before_meta info.timeout),
      count-sort_by on_settled before_settled info.settled,
      count-sort_by on_open before_meta info.pending,
      count-sort_by on_open before_meta info.timeout,
    )

  -- What is pending is not timed out, and what is timed out is.
  abbrev pub InTime : (now timeout : ℕ) → DataInfo T → Type 0
  InTime now timeout info =
      All (λ x. is_timed_out now timeout x.0 ≡ false) info.pending
      × All (λ x. is_timed_out now timeout x.0 ≡ true) info.timeout

  place-InTime :
      (now timeout : ℕ) (x : (MetaData × T) × Option ℕ) (info : DataInfo T)
      → InTime now timeout info
      → InTime now timeout (place now timeout x info)
  place-InTime now timeout (x, some n) info h = h
  place-InTime now timeout (x, none) info h = elim (Bool-cases (is_timed_out now timeout x.0)) [
    | inl e ↦ rw e (h.0, (e, h.1))
    | inr e ↦ rw e ((e, h.0), h.1)
  ]

  pub classify-InTime :
      (now timeout : ℕ) (xs : List ((MetaData × T) × Option ℕ))
      → InTime now timeout (classify now timeout xs)
  unfolding classify
  classify-InTime now timeout [] = (tt, tt)
  classify-InTime now timeout (x ∷ xs) =
      place-InTime now timeout x (classify now timeout xs) (classify-InTime now timeout xs)

  pub sort_info-InTime :
      (now timeout : ℕ) (order : CursorOrder) (info : DataInfo T)
      → InTime now timeout info
      → InTime now timeout (sort_info order info)
  unfolding sort_info
  sort_info-InTime now timeout order info h = (
    All-in_order _ order _ (All-sort_by before_meta _ info.pending h.0),
    All-in_order _ order _ (All-sort_by before_meta _ info.timeout h.1),
  )

  -- What is settled is in the order of its blocks, in the direction of the cursor.
  pub sort_info-IsSorted :
      (order : CursorOrder) (info : DataInfo T)
      → IsSorted before_settled (in_order order (sort_info order info).settled)
  unfolding sort_info
  sort_info-IsSorted order info = rw (in_order-twice order (sort_by before_settled info.settled)) (
      sort_by-IsSorted before_settled (λ x y h. ground arith) (λ x y z h k. ground arith)
        info.settled)
