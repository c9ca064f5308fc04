-- ===== src/BlockBuilder/Posting/Signatures.antt =====
-- block-builder/src/app/block_post.rs: which signatures a posted block has.
use intmax.Base.{
  ℕ, zero, suc, ◌≡◌, ◌∙◌, refl, sym, ap, inl, inr, Bool, true, false, not, ◌&&◌, List, [], ◌∷◌,
  Option, none, some, ok, if◌then◌else◌, ◌==◌, All, map, position, get_elem?, arith, Bool-cases,
  Option-cases, some-injective,
}
use intmax.Base.Search.{position_lem, position-any}
use intmax.Zkp.{Types, Zkp, UserSignature}
use intmax.BlockBuilder.BlockPost.{BlockPostTask}
use intmax.BlockBuilder.Posting.{
  PostEnv, SignatureContent, AccountInfo, registration, is_some, with_account, without_dummy,
  SenderWithSignature, contains, set_signature, place_signatures, unsigned, check_expiry,
  account_step, make_call, contract_call, default_or_hash,
}

module _ {t : Types} where
  -- The last signature of a public key.
  pub last_signature : ℕ → List (UserSignature t) → Option t.FlatG2
  last_signature pubkey [] = none
  last_signature pubkey (g ∷ gs) = elim (last_signature pubkey gs) [
    | some late ↦ some late
    | none ↦ if g.pubkey == pubkey then some g.signature else none
  ]

-- An index is that of the first copy of a public key.
pub is_first : List ℕ → ℕ → ℕ → Bool
is_first pubkeys pubkey i = elim (position (λ p. p == pubkey) pubkeys) [
  | none ↦ false
  | some j ↦ i == j
]

module _ (z : Zkp) (w : PostEnv z) where
  open z use {types, FlatG2}
  open w use {Error, Point}

  -- The entries of the public keys, with a signature for each index and key.
  abbrev pub entry : List ℕ → (ℕ → ℕ → Option FlatG2) → ℕ → Option (SenderWithSignature types)
  entry pubkeys signature i = elim (get_elem? pubkeys i) [
    | none ↦ none
    | some pubkey ↦ some (record { sender = pubkey; signature = signature i pubkey })
  ]

  entry-cong :
      (pubkeys : List ℕ) (a b : ℕ → ℕ → Option FlatG2) (i : ℕ)
      → ((pubkey : ℕ) → get_elem? pubkeys i ≡ some pubkey → a i pubkey ≡ b i pubkey)
      → entry pubkeys a i ≡ entry pubkeys b i
  entry-cong pubkeys a b i h = elim (Option-cases (get_elem? pubkeys i)) [
    | inl n ↦ ground (arith, n)
    | inr (x, n) ↦ let same = h x n in ground (arith, n, same)
  ]

  -- The signature of an index: its key's last one, when it is the key's first index and the key is
  -- not eliminated.
  pub signed : (pubkeys eliminated : List ℕ) → List (UserSignature types) → ℕ → ℕ → Option FlatG2
  signed pubkeys eliminated gs i pubkey =
      if is_first pubkeys pubkey i && not (contains eliminated pubkey)
      then last_signature pubkey gs
      else none

  abbrev or_else : Option FlatG2 → Option FlatG2 → Option FlatG2
  or_else (some g) old = some g
  or_else none old = old

  abbrev signature_at :
      (pubkeys eliminated : List ℕ)
      → List (UserSignature types)
      → (ℕ → Option FlatG2)
      → ℕ
      → ℕ
      → Option FlatG2
  signature_at pubkeys eliminated gs old i pubkey =
      if is_first pubkeys pubkey i && not (contains eliminated pubkey)
      then or_else (last_signature pubkey gs) (old i)
      else old i

  abbrev overwritten : ℕ → FlatG2 → (ℕ → Option FlatG2) → ℕ → Option FlatG2
  overwritten j g old i = if i == j then some g else old i

  abbrev sign : FlatG2 → Option (SenderWithSignature types) → Option (SenderWithSignature types)
  sign g none = none
  sign g (some s) = some (record s { signature = some g })

  get_elem?-set_signature :
      (ss : List (SenderWithSignature types)) (j i : ℕ) (g : FlatG2)
      → get_elem? (set_signature z w ss j g) i
        ≡ (if i == j then sign g (get_elem? ss i) else get_elem? ss i)
  get_elem?-set_signature [] j i g = ground arith
  get_elem?-set_signature (s ∷ ss) zero zero g = refl
  get_elem?-set_signature (s ∷ ss) zero (suc i) g = ground arith
  get_elem?-set_signature (s ∷ ss) (suc j) zero g = ground arith
  get_elem?-set_signature (s ∷ ss) (suc j) (suc i) g =
      let rest = get_elem?-set_signature ss j i g in ground (arith, rest)

  set_signature-entry :
      (pubkeys : List ℕ) (ss : List (SenderWithSignature types)) (old : ℕ → Option FlatG2) (j : ℕ)
      (g : FlatG2)
      → ((i : ℕ) → get_elem? ss i ≡ entry pubkeys (λ k _. old k) i)
      → (i : ℕ)
      → get_elem? (set_signature z w ss j g) i ≡ entry pubkeys (λ k _. overwritten j g old k) i
  set_signature-entry pubkeys ss old j g h i =
      get_elem?-set_signature ss j i g
      ∙ ap (λ o. if i == j then sign g o else o) (h i)
      ∙ elim (Option-cases (get_elem? pubkeys i)) [
        | inl n ↦ ground (arith, n)
        | inr (x, n) ↦ ground (arith, n)
      ]

  -- One signature that is not eliminated, then the rest.
  signature_at-step :
      (pubkeys eliminated : List ℕ) (g : UserSignature types) (gs : List (UserSignature types))
      (old : ℕ → Option FlatG2) (i j pubkey : ℕ)
      → position (λ p. p == g.pubkey) pubkeys ≡ some j
      → contains eliminated g.pubkey ≡ false
      → get_elem? pubkeys i ≡ some pubkey
      → signature_at pubkeys eliminated gs (overwritten j g.signature old) i pubkey
        ≡ signature_at pubkeys eliminated (g ∷ gs) old i pubkey
  unfolding is_first last_signature
  signature_at-step pubkeys eliminated g gs old i j pubkey pos kept at =
      let (here, at_j, is, inside) = position_lem (λ p. p == g.pubkey) pubkeys j pos in
      let named : here ≡ g.pubkey = ground (arith, is) in
      elim (Bool-cases (i == j)) [
        | inl q ↦
            let ij : i ≡ j = ground (arith, q) in
            let at_i = sym at ∙ ap (get_elem? pubkeys) ij ∙ at_j in
            let key : pubkey ≡ g.pubkey = some-injective at_i ∙ named in
            let first = ap (λ k. position (λ p. p == k) pubkeys) key ∙ pos in
            let keeps = ap (contains eliminated) key ∙ kept in
            ground (arith, q, ij, key, first, keeps)
        | inr q ↦ elim (Bool-cases (g.pubkey == pubkey)) [
          | inr differ ↦ ground (arith, q, differ)
          | inl same ↦
              let key : pubkey ≡ g.pubkey = ground (arith, same) in
              let first = ap (λ k. position (λ p. p == k) pubkeys) key ∙ pos in
              ground (arith, q, first)
        ]
      ]

  -- An eliminated signature, then the rest.
  signature_at-skip :
      (pubkeys eliminated : List ℕ) (g : UserSignature types) (gs : List (UserSignature types))
      (old : ℕ → Option FlatG2) (i pubkey : ℕ)
      → contains eliminated g.pubkey ≡ true
      → signature_at pubkeys eliminated gs old i pubkey
        ≡ signature_at pubkeys eliminated (g ∷ gs) old i pubkey
  unfolding last_signature
  signature_at-skip pubkeys eliminated g gs old i pubkey gone =
      elim (Bool-cases (g.pubkey == pubkey)) [
        | inl q ↦
            let key : g.pubkey ≡ pubkey = ground (arith, q) in
            let same = ap (contains eliminated) key in ground (arith, gone, same)
        | inr q ↦ ground (arith, q)
      ]

  place_signatures-entry :
      (pubkeys eliminated : List ℕ) (gs : List (UserSignature types))
      (ss : List (SenderWithSignature types)) (old : ℕ → Option FlatG2)
      → All (λ g. contains pubkeys g.pubkey ≡ true) gs
      → ((i : ℕ) → get_elem? ss i ≡ entry pubkeys (λ k _. old k) i)
      → (placed : List (SenderWithSignature types)) × (place_signatures z w pubkeys eliminated gs ss
          ≡ ok placed)
        × ((i : ℕ) → get_elem? placed i ≡ entry pubkeys (signature_at pubkeys eliminated gs old) i)
  unfolding place_signatures last_signature
  place_signatures-entry pubkeys eliminated [] ss old inside h = (
    ss,
    refl,
    λ i.
        h i
        ∙ entry-cong pubkeys (λ k _. old k) (signature_at pubkeys eliminated [] old) i
            (λ x n. ground arith),
  )
  place_signatures-entry pubkeys eliminated (g ∷ gs) ss old inside h =
      elim (Bool-cases (contains eliminated g.pubkey)) [
        | inl gone ↦
            let (placed, run, all) =
              place_signatures-entry pubkeys eliminated gs ss old inside.1 h in
            (
              placed,
              rw (place_signatures, gone) run,
              λ i.
                  all i
                  ∙ entry-cong pubkeys (signature_at pubkeys eliminated gs old)
                      (signature_at pubkeys eliminated (g ∷ gs) old) i
                      (λ x n. signature_at-skip pubkeys eliminated g gs old i x gone),
            )
        | inr kept ↦
            let (j, pos) = position-any (λ p. p == g.pubkey) pubkeys inside.0 in
            let (placed, run, all) =
              place_signatures-entry pubkeys eliminated gs (set_signature z w ss j g.signature)
                (overwritten j g.signature old) inside.1
                (set_signature-entry pubkeys ss old j g.signature h) in
            (
              placed,
              rw (place_signatures, kept, pos) run,
              λ i.
                  all i
                  ∙ entry-cong pubkeys
                      (signature_at pubkeys eliminated gs (overwritten j g.signature old))
                      (signature_at pubkeys eliminated (g ∷ gs) old) i
                      (λ x n. signature_at-step pubkeys eliminated g gs old i j x pos kept n),
            )
      ]

  unsigned-entry :
      (pubkeys : List ℕ) (i : ℕ)
      → get_elem? (map (unsigned z w) pubkeys) i ≡ entry pubkeys (λ _ _. none) i
  unsigned-entry [] i = refl
  unsigned-entry (p ∷ ps) zero = refl
  unsigned-entry (p ∷ ps) (suc i) = unsigned-entry ps i

  make_call_of_senders :
      (task : BlockPostTask types) (eliminated : List ℕ) (packed : Option z.AccountIdPacked)
      (senders : List (SenderWithSignature types))
      → check_expiry z w task ≡ ok tt
      → account_step z w task ≡ ok (eliminated, packed)
      → place_signatures z w task.pubkeys eliminated task.signatures
          (map (unsigned z w) task.pubkeys)
        ≡ ok senders
      → make_call z w task
        ≡ contract_call z w task packed (
            w.construct_signature task.block_sign_payload task.pubkey_hash
              (default_or_hash z w packed)
              senders)
  unfolding make_call
  make_call_of_senders task eliminated packed senders in_time accounts placed =
      rw (make_call, in_time, accounts, placed)

  or_else-none : (o : Option FlatG2) → or_else o none ≡ o
  or_else-none none = refl
  or_else-none (some g) = refl

  -- For a task whose expiry is not near, whose accounts are read, and whose signatures are of the
  -- block's public keys, the contract is called with the signature of entries of which each has
  -- its public key, and is signed when it is the first of a key that is not eliminated, with the
  -- key's last signature.
  pub make_call-signed :
      (task : BlockPostTask types) (eliminated : List ℕ) (packed : Option z.AccountIdPacked)
      → check_expiry z w task ≡ ok tt
      → account_step z w task ≡ ok (eliminated, packed)
      → All (λ g. contains task.pubkeys g.pubkey ≡ true) task.signatures
      → (senders : List (SenderWithSignature types)) × (make_call z w task
          ≡ contract_call z w task packed (
              w.construct_signature task.block_sign_payload task.pubkey_hash
                (default_or_hash z w packed)
                senders))
        × ((i : ℕ)
            → get_elem? senders i
              ≡ entry task.pubkeys (signed task.pubkeys eliminated task.signatures) i)
  unfolding make_call signed
  make_call-signed task eliminated packed in_time accounts inside =
      let (senders, run, all) =
        place_signatures-entry task.pubkeys eliminated task.signatures
          (map (unsigned z w) task.pubkeys) (λ _. none) inside (unsigned-entry task.pubkeys) in
      (
        senders,
        make_call_of_senders task eliminated packed senders in_time accounts run,
        λ i.
            all i
            ∙ entry-cong task.pubkeys
                (signature_at task.pubkeys eliminated task.signatures (λ _. none))
                (signed task.pubkeys eliminated task.signatures) i
                (λ x n.
                  ap
                    (λ o.
                      if is_first task.pubkeys x i && not (contains eliminated x) then o else none)
                    (or_else-none (last_signature x task.signatures))),
      )

  with_account-contains :
      (ps : List ℕ) (infos : List AccountInfo) (i p : ℕ) (info : AccountInfo)
      → get_elem? ps i ≡ some p
      → get_elem? infos i ≡ some info
      → is_some info.account_id ≡ true
      → contains (with_account z w ps infos) p ≡ true
  unfolding with_account
  with_account-contains [] infos i p info a b known = cc
  with_account-contains (q ∷ ps) [] i p info a b known = cc
  with_account-contains (q ∷ ps) (x ∷ infos) zero p info a b known =
      let same : x ≡ info = some-injective b in
      let key : q ≡ p = some-injective a in
      let k : is_some x.account_id ≡ true = ap (λ y. is_some y.account_id) same ∙ known in
      ground (arith, k, key)
  with_account-contains (q ∷ ps) (x ∷ infos) (suc i) p info a b known =
      let rest = with_account-contains ps infos i p info a b known in
      elim (Bool-cases (is_some x.account_id)) [
        | inl y ↦ ground (arith, y, rest)
        | inr n ↦ ground (arith, n, rest)
      ]

  registration_call :
      (task : BlockPostTask types) (signature : SignatureContent Point)
      → task.block_sign_payload.is_registration_block ≡ true
      → contract_call z w task none signature
        ≡ ok (registration task.block_sign_payload signature (without_dummy z w task.pubkeys))
  registration_call task signature registers = rw registers

  eliminated_entry :
      (pubkeys eliminated : List ℕ) (gs : List (UserSignature types)) (i p : ℕ)
      → get_elem? pubkeys i ≡ some p
      → contains eliminated p ≡ true
      → entry pubkeys (signed pubkeys eliminated gs) i ≡ some (unsigned z w p)
  unfolding signed
  eliminated_entry pubkeys eliminated gs i p at gone = ground (arith, at, gone)

  -- In a registration block, a public key that has an account by the validity prover's answer, at
  -- the key's place among the keys that are not the dummy, is left unsigned wherever it stands,
  -- whatever was signed.
  pub registered_unsigned :
      (task : BlockPostTask types) (infos : List AccountInfo) (k p i : ℕ) (info : AccountInfo)
      → task.block_sign_payload.is_registration_block ≡ true
      → w.get_account_info_batch (without_dummy z w task.pubkeys) ≡ ok infos
      → get_elem? (without_dummy z w task.pubkeys) k ≡ some p
      → get_elem? infos k ≡ some info
      → is_some info.account_id ≡ true
      → get_elem? task.pubkeys i ≡ some p
      → check_expiry z w task ≡ ok tt
      → All (λ g. contains task.pubkeys g.pubkey ≡ true) task.signatures
      → (senders : List (SenderWithSignature types)) × (make_call z w task
          ≡ ok (
              registration task.block_sign_payload
                (w.construct_signature task.block_sign_payload task.pubkey_hash 0 senders)
                (without_dummy z w task.pubkeys)))
        × (get_elem? senders i ≡ some (unsigned z w p))
  unfolding account_step
  registered_unsigned task infos k p i info registers answer key has known at in_time inside =
      let ps = without_dummy z w task.pubkeys in
      let accounts : account_step z w task ≡ ok (with_account z w ps infos, none) =
        rw (account_step, registers, answer) in
      let (senders, run, all) =
        make_call-signed task (with_account z w ps infos) none in_time accounts inside in
      let gone = with_account-contains ps infos k p info key has known in
      (
        senders,
        run ∙ registration_call task _ registers,
        all i
            ∙ eliminated_entry task.pubkeys (with_account z w ps infos) task.signatures i p at gone,
      )
