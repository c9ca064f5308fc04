-- ===== src/ValidityProver/Versions/Laws.antt =====
-- Reading a table of validity-prover/src/trees/merkle_tree after a write or a deletion.
use intmax.Base.{
  ℕ, zero, suc, ◌≡◌, ◌<◌, ◌≤◌, ◌∙◌, sym, inl, inr, Option, none, some, Eq, if◌then◌else◌, ◌==◌, leb,
  arith, Bool-cases, Option-cases, ap,
}
use intmax.ValidityProver.Versions.{Versions, VersionsLaws, search_back}

search_back-cong :
    {V : Type 0} (f g : ℕ → Option V) (n : ℕ)
    → ((t : ℕ) → t ≤ n → f t ≡ g t)
    → search_back f n ≡ search_back g n
unfolding search_back
search_back-cong f g zero h = h 0 (omega arith)
search_back-cong f g (suc n) h =
    let a = h (suc n) (omega arith) in
    let b = search_back-cong f g n (λ t le. h t (omega (arith, le))) in ground arith

search_back-none :
    {V : Type 0} (f : ℕ → Option V) (n : ℕ) → ((t : ℕ) → f t ≡ none) → search_back f n ≡ none
unfolding search_back
search_back-none f zero h = h 0
search_back-none f (suc n) h = let a = h (suc n) in let b = search_back-none f n h in ground arith

-- A value with nothing after it.
search_back-found :
    {V : Type 0} (f : ℕ → Option V) (t n : ℕ) (v : V)
    → t ≤ n
    → f t ≡ some v
    → ((u : ℕ) → t < u → f u ≡ none)
    → search_back f n ≡ some v
unfolding search_back
search_back-found f t zero v le e h = let z : t ≡ 0 = omega (arith, le) in ground (arith, z, e)
search_back-found f t (suc n) v le e h = elim (Bool-cases (t == suc n)) [
  | inl q ↦ let z : t ≡ suc n = ground (arith, q) in ground (arith, z, e)
  | inr q ↦
      let here = h (suc n) (ground (arith, q, le)) in
      let rest = search_back-found f t n v (ground (arith, q, le)) e h in ground (arith, here, rest)
]

-- The same, with nothing after it up to the end of the search.
pub search_back-last :
    {V : Type 0} (f : ℕ → Option V) (t n : ℕ) (v : V)
    → t ≤ n
    → f t ≡ some v
    → ((u : ℕ) → t < u → u ≤ n → f u ≡ none)
    → search_back f n ≡ some v
unfolding search_back
search_back-last f t zero v le e h = let z : t ≡ 0 = omega (arith, le) in ground (arith, z, e)
search_back-last f t (suc n) v le e h = elim (Bool-cases (t == suc n)) [
  | inl q ↦ let z : t ≡ suc n = ground (arith, q) in ground (arith, z, e)
  | inr q ↦
      let here = h (suc n) (ground (arith, q, le)) (omega arith) in
      let rest =
        search_back-last f t n v (ground (arith, q, le)) e
          (λ u lt le'. h u lt (omega (arith, le'))) in
      ground (arith, here, rest)
]

-- What is found is the last value.
pub search_back-row :
    {V : Type 0} (f : ℕ → Option V) (t n : ℕ) (v : V)
    → t ≤ n
    → f t ≡ some v
    → (w : ℕ) × (m : V) × (w ≤ n)
      × (f w ≡ some m)
      × (search_back f n ≡ some m)
      × ((u : ℕ) (x : V) → u ≤ n → f u ≡ some x → u ≤ w)
unfolding search_back
search_back-row f t zero v le e =
    let z : t ≡ 0 = omega (arith, le) in
    let here = ap f (sym z) ∙ e in (0, v, omega arith, here, here, λ u x le' _. omega (arith, le'))
search_back-row f t (suc n) v le e = elim (Option-cases (f (suc n))) [
  | inr (m, q) ↦ (suc n, m, omega arith, q, ground (arith, q), λ u x le' _. le')
  | inl q ↦
      let before : t ≤ n = elim (Bool-cases (t == suc n)) [
        | inr r ↦ ground (arith, r, le)
        | inl r ↦ let z : t ≡ suc n = ground (arith, r) in absurd (ground (arith, z, e, q))
      ] in
      let (w, m, le', r, found, last) = search_back-row f t n v before e in
      (
        w,
        m,
        omega (arith, le'),
        r,
        ground (arith, q, found),
        λ u x le2 r2. elim (Bool-cases (u == suc n)) [
          | inl y ↦ let z : u ≡ suc n = ground (arith, y) in absurd (ground (arith, z, q, r2))
          | inr y ↦ last u x (ground (arith, y, le2)) r2
        ],
      )
]

pub search_back_found :
    {V : Type 0} (f : ℕ → Option V) (n : ℕ) (m : V)
    → search_back f n ≡ some m
    → (w : ℕ) × (w ≤ n) × (f w ≡ some m)
unfolding search_back
search_back_found f zero m e = (0, omega arith, e)
search_back_found f (suc n) m e = elim (Option-cases (f (suc n))) [
  | inr (v, q) ↦ (suc n, omega arith, ground (arith, q, e))
  | inl q ↦
      let (w, le, r) = search_back_found f n m (ground (arith, q, e)) in (w, omega (arith, le), r)
]

search_back-quiet :
    {V : Type 0} (f : ℕ → Option V) (t n : ℕ)
    → t ≤ n
    → ((u : ℕ) → t < u → f u ≡ none)
    → search_back f n ≡ search_back f t
unfolding search_back
search_back-quiet f t zero le h = let z : t ≡ 0 = omega (arith, le) in rw z
search_back-quiet f t (suc n) le h = elim (Bool-cases (t == suc n)) [
  | inl q ↦ let z : t ≡ suc n = ground (arith, q) in rw z
  | inr q ↦
      let here = h (suc n) (ground (arith, q, le)) in
      let rest = search_back-quiet f t n (ground (arith, q, le)) h in ground (arith, here, rest)
]

module _ {K V : Type 0} ⦃e : Eq K⦄ (d : Versions K V) (laws : VersionsLaws d) where
  -- Nothing is stored after a timestamp.
  abbrev pub IsSettled : ℕ → d.Table → Type 0
  IsSettled t s = (k : K) (u : ℕ) → t < u → laws.row u k s ≡ none

  pub empty-IsSettled : (t : ℕ) → IsSettled t d.empty
  empty-IsSettled t k u h = laws.row_empty u k

  pub latest-empty : (t : ℕ) (k : K) → d.latest t k d.empty ≡ none
  latest-empty t k = laws.latest_lem t k d.empty ∙ search_back-none _ t (λ u. laws.row_empty u k)

  pub save-IsSettled :
      (t u : ℕ) (k : K) (v : V) (s : d.Table) → t ≤ u → IsSettled t s → IsSettled u (d.save u k v s)
  save-IsSettled t u k v s le h l w lt =
      let a = laws.row_save w u l k v s in
      let b = h l w (omega (arith, le, lt)) in ground (arith, a, b, lt)

  -- The value that was saved last is read back from its timestamp on, and nothing else changes.
  pub latest-save :
      (t : ℕ) (k l : K) (v : V) (s : d.Table) (u : ℕ)
      → IsSettled t s
      → d.latest u l (d.save t k v s)
        ≡ (if e.beq l k then (if leb t u then some v else d.latest u l s) else d.latest u l s)
  latest-save t k l v s u h = elim (Bool-cases (e.beq l k)) [
    | inr q ↦
        rw (laws.latest_lem u l (d.save t k v s), laws.latest_lem u l s, q)
          (search_back-cong _ _ u λ w le. laws.row_save w t l k v s ∙ ground (arith, q))
    | inl q ↦ elim (Bool-cases (leb t u)) [
      | inl r ↦
          rw (laws.latest_lem u l (d.save t k v s), q, r)
            (search_back-found _ t u v (ground (arith, r))
              (laws.row_save t t l k v s ∙ ground (arith, q))
              (λ w lt. laws.row_save w t l k v s ∙ ground (arith, q, lt, h l w lt)))
      | inr r ↦
          rw (laws.latest_lem u l (d.save t k v s), laws.latest_lem u l s, q, r)
            (search_back-cong _ _ u λ w le. laws.row_save w t l k v s ∙ ground (arith, q, le, r))
    ]
  ]

  -- After the last write nothing changes.
  pub latest-quiet :
      (t u : ℕ) (k : K) (s : d.Table) → t ≤ u → IsSettled t s → d.latest u k s ≡ d.latest t k s
  latest-quiet t u k s le h =
      laws.latest_lem u k s ∙ search_back-quiet _ t u le (h k) ∙ sym (laws.latest_lem t k s)

  -- A deletion keeps what is before its timestamp.
  pub latest-delete_from :
      (t u : ℕ) (k : K) (s : d.Table) → u < t → d.latest u k (d.delete_from t s) ≡ d.latest u k s
  latest-delete_from t u k s lt =
      laws.latest_lem u k (d.delete_from t s)
      ∙ search_back-cong _ _ u (λ w le. laws.row_delete w t k s ∙ ground (arith, lt, le))
      ∙ sym (laws.latest_lem u k s)

  pub delete_from-IsSettled : (t : ℕ) (s : d.Table) → IsSettled t (d.delete_from (suc t) s)
  delete_from-IsSettled t s k u lt = laws.row_delete u (suc t) k s ∙ ground (arith, lt)
