-- ===== src/Client/Fetch/Kept.antt =====
-- client-sdk/src/client/strategy/common.rs: what fetch_decrypt_validate keeps of a list of data.
use intmax.Base.{
  ℕ, ◌≡◌, refl, sym, ap, true, false, inl, inr, List, [], ◌∷◌, Option, none, some, ==_iff, find,
  if◌then◌else◌, ◌==◌, map, filter_map, All, subst, Bool-cases, Option-cases, arith,
}
use intmax.Client.Strategy.{MetaData}
use intmax.Client.Fetch.{
  DataType, DataWithMetaData, Servers, Sealed, contains, enc_sender, unique_by_digest,
}
use intmax.Client.Fetch.Kinds.{decrypt_validate}

-- No number stands in the list twice.
abbrev pub IsUnique : List ℕ → Type 0
IsUnique [] = Unit
IsUnique (n ∷ ns) = (contains ns n ≡ false) × IsUnique ns

-- Numbers that are not in a list, one by one and all at once.
contains-none : (n : ℕ) (ns : List ℕ) → All (λ m. (m == n) ≡ false) ns → contains ns n ≡ false
contains-none n [] h = refl
contains-none n (m ∷ ns) h = rw h.0 (contains-none n ns h.1)

-- Of the digests that are taken first, none is taken again.
not_seen-cons :
    (x : ℕ) (seen ns : List ℕ)
    → All (λ n. contains (x ∷ seen) n ≡ false) ns
    → All (λ n. contains seen n ≡ false) ns × All (λ n. (n == x) ≡ false) ns
not_seen-cons x seen [] h = (tt, tt)
not_seen-cons x seen (n ∷ ns) h =
    let rest = not_seen-cons x seen ns h.1 in
    let first : (contains seen n ≡ false) × ((n == x) ≡ false) =
      ((let e = h.0 in ground arith), (let e = h.0 in ground arith)) in
    ((first.0, rest.0), (first.1, rest.1))

module _ {Bytes : Type 0} where
  abbrev pub digests : List (DataWithMetaData Bytes) → List ℕ
  digests = map (λ d. d.meta.digest)

  not_seen :
      (seen : List ℕ) (ds : List (DataWithMetaData Bytes))
      → All (λ n. contains seen n ≡ false) (digests (unique_by_digest seen ds))
  unfolding unique_by_digest
  not_seen seen [] = tt
  not_seen seen (d ∷ ds) = elim (Bool-cases (contains seen d.meta.digest)) [
    | inl e ↦ rw (e, All) (not_seen seen ds)
    | inr e ↦
        rw (e, All) (e, (not_seen-cons d.meta.digest seen _ (not_seen (d.meta.digest ∷ seen) ds)).0)
  ]

  pub unique_by_digest-IsUnique :
      (seen : List ℕ) (ds : List (DataWithMetaData Bytes))
      → IsUnique (digests (unique_by_digest seen ds))
  unfolding unique_by_digest
  unique_by_digest-IsUnique seen [] = tt
  unique_by_digest-IsUnique seen (d ∷ ds) = elim (Bool-cases (contains seen d.meta.digest)) [
    | inl e ↦ rw (e, IsUnique) (unique_by_digest-IsUnique seen ds)
    | inr e ↦
        rw (e, IsUnique)
          (
            contains-none d.meta.digest _
                (not_seen-cons d.meta.digest seen _ (not_seen (d.meta.digest ∷ seen) ds)).1,
            unique_by_digest-IsUnique (d.meta.digest ∷ seen) ds,
          )
  ]

module _ (s : Servers) (key : s.KeySet) {T : Type 0} (sealed : Sealed s T) (data_type : DataType)
    (excluded : List ℕ) where
  -- What is asked of a datum that is kept.
  abbrev pub IsKept : MetaData × T → Type 0
  IsKept x = (contains excluded x.0.digest ≡ false) × (sealed.validates (s.pubkey key) x.1 ≡ true)

  pub decrypt_validate-IsKept :
      (d : DataWithMetaData s.Bytes) (x : MetaData × T)
      → decrypt_validate s key sealed data_type excluded d ≡ some x
      → (x.0 ≡ d.meta) × IsKept x
  decrypt_validate-IsKept d x h =
      elim (Option-cases (sealed.decrypt key (enc_sender data_type (s.pubkey key)) d.encrypted)) [
        | inl none_left ↦ ground arith
        | inr (y, opened) ↦ elim (Bool-cases (sealed.validates (s.pubkey key) y)) [
          | inl valid ↦ ground arith
          | inr invalid ↦ ground arith
        ]
      ]

  abbrev pub kept : List (DataWithMetaData s.Bytes) → List (MetaData × T)
  kept = filter_map (decrypt_validate s key sealed data_type excluded)

  abbrev pub kept_digests : List (MetaData × T) → List ℕ
  kept_digests = map (λ x. x.0.digest)

  -- What is kept comes from the list, in its order.
  contains-kept :
      (n : ℕ) (ds : List (DataWithMetaData s.Bytes))
      → contains (digests ds) n ≡ false
      → contains (kept_digests (kept ds)) n ≡ false
  contains-kept n [] h = refl
  contains-kept n (d ∷ ds) h = elim (Bool-cases (d.meta.digest == n)) [
    | inl e ↦ ground arith
    | inr e ↦
        let rest = contains-kept n ds in
        elim (Option-cases (decrypt_validate s key sealed data_type excluded d)) [
          | inl q ↦ ground arith
          | inr (x, q) ↦ let m = (decrypt_validate-IsKept d x q).0 in ground arith
        ]
  ]

  pub kept-IsKept : (ds : List (DataWithMetaData s.Bytes)) → All IsKept (kept ds)
  kept-IsKept [] = tt
  kept-IsKept (d ∷ ds) = elim (Option-cases (decrypt_validate s key sealed data_type excluded d)) [
    | inl q ↦ rw (q, All) (kept-IsKept ds)
    | inr (x, q) ↦ rw (q, All) ((decrypt_validate-IsKept d x q).1, kept-IsKept ds)
  ]

  pub kept-IsUnique :
      (ds : List (DataWithMetaData s.Bytes))
      → IsUnique (digests ds)
      → IsUnique (kept_digests (kept ds))
  kept-IsUnique [] h = tt
  kept-IsUnique (d ∷ ds) h =
      elim (Option-cases (decrypt_validate s key sealed data_type excluded d)) [
        | inl q ↦ rw (q, IsUnique) (kept-IsUnique ds h.1)
        | inr (x, q) ↦
            rw (q, IsUnique)
              (
                subst (λ n. contains (kept_digests (kept ds)) n ≡ false)
                    (sym (ap (λ m. m.digest) (decrypt_validate-IsKept d x q).0))
                    (contains-kept d.meta.digest ds h.0),
                kept-IsUnique ds h.1,
              )
      ]

  -- What a datum of the vault opens to.
  abbrev pub opened : DataWithMetaData s.Bytes → Option (MetaData × T)
  opened d = elim (sealed.decrypt key (enc_sender data_type (s.pubkey key)) d.encrypted) [
    | none ↦ none
    | some y ↦ if sealed.validates (s.pubkey key) y then some (d.meta, y) else none
  ]

  -- What the first datum with a digest opens to, unless the digest is excluded.
  abbrev pub first_opened : ℕ → List (DataWithMetaData s.Bytes) → Option (MetaData × T)
  first_opened n ds = elim (find (λ d. d.meta.digest == n) ds) [
    | none ↦ none
    | some d ↦ if contains excluded n then none else opened d
  ]

  abbrev pub with_digest : ℕ → List (MetaData × T) → Option (MetaData × T)
  with_digest n xs = find (λ x. x.0.digest == n) xs

  decrypt_validate-opened :
      (d : DataWithMetaData s.Bytes)
      → decrypt_validate s key sealed data_type excluded d
        ≡ (if contains excluded d.meta.digest then none else opened d)
  decrypt_validate-opened d = refl

  pub with_digest-kept :
      (n : ℕ) (seen : List ℕ) (ds : List (DataWithMetaData s.Bytes))
      → with_digest n (kept (unique_by_digest seen ds))
        ≡ (if contains seen n then none else first_opened n ds)
  unfolding unique_by_digest
  with_digest-kept n seen [] = ground arith
  with_digest-kept n seen (d ∷ ds) = elim (Bool-cases (contains seen d.meta.digest)) [
    | inl e ↦
        let rest = with_digest-kept n seen ds in let same = ==_iff d.meta.digest n in ground arith
    | inr e ↦
        let rest = with_digest-kept n (d.meta.digest ∷ seen) ds in
        elim (Option-cases (decrypt_validate s key sealed data_type excluded d)) [
          | inl q ↦ elim (Bool-cases (d.meta.digest == n)) [
            | inl eq ↦
                let here = (==_iff d.meta.digest n).0 eq in
                let unseen = subst (λ i. contains seen i ≡ false) here e in
                let nothing_here =
                  subst (λ i. (if contains excluded i then none else opened d) ≡ none) here q in
                ground arith
            | inr ne ↦ ground arith
          ]
          | inr (x, q) ↦
              let m = ap (λ i. i.digest) (decrypt_validate-IsKept d x q).0 in
              elim (Bool-cases (d.meta.digest == n)) [
                | inl eq ↦
                    let here = (==_iff d.meta.digest n).0 eq in
                    let unseen = subst (λ i. contains seen i ≡ false) here e in
                    let found_here =
                      subst (λ i. (if contains excluded i then none else opened d) ≡ some x) here
                        q in
                    let eq' = subst (λ i. (i == n) ≡ true) (sym m) eq in ground arith
                | inr ne ↦ let ne' = subst (λ i. (i == n) ≡ false) (sym m) ne in ground arith
              ]
        ]
  ]
