-- ===== src/BlockBuilder/Storage/Signatures.antt =====
-- block-builder/src/app/storage/memory_storage.rs: add_signature and process_signatures, and the
-- signatures that they keep.
use intmax.Base.{
  ◌≡◌, refl, subst, ◌⊎◌, inl, inr, String, true, List, [], ◌∷◌, ◌++◌, none, some, arith, Bool-cases,
  Option-cases, All, All-append, string_eq,
}
use intmax.Base.Map
use intmax.Base.Map.{HashMap, lookup-insert, beq_refl}
use intmax.Zkp.{Zkp, UserSignature}
use intmax.BlockBuilder.Types.{ProposalMemo}
use intmax.BlockBuilder.BlockPost.{BlockPostTask}
use intmax.BlockBuilder.Storage.{Storage, signatures_of, add_signature}

module _ (z : Zkp) where
  open z use {types}

  -- Every signature verifies for the memo's payload and keys.
  abbrev pub AllVerify : ProposalMemo types → List (UserSignature types) → Type 0
  AllVerify memo = All (λ g. z.verify_signature g memo.block_sign_payload memo.pubkey_hash ≡ true)

  abbrev pub TaskVerifies : BlockPostTask types → Type 0
  TaskVerifies t =
      All (λ g. z.verify_signature g t.block_sign_payload t.pubkey_hash ≡ true) t.signatures

  -- Each memo stands under its own block id.
  abbrev pub AreKeyed : HashMap String (ProposalMemo types) → Type 0
  AreKeyed [] = Unit
  AreKeyed ((k, memo) ∷ m) = (memo.block_id ≡ k) × (Map.lookup k m ≡ none) × AreKeyed m

  pub record Inv (s : Storage z) : Type 0 where
    pub keyed : AreKeyed s.memos
    pub verified :
        (k : String) (memo : ProposalMemo types) (v : List (UserSignature types))
        → Map.lookup k s.memos ≡ some memo
        → Map.lookup k s.signatures ≡ some v
        → AllVerify memo v
    pub tasks : All TaskVerifies s.block_post_tasks_hi

  -- A memo that the loop still has to visit is stored, or has no signatures left.
  abbrev Target : Storage z → ProposalMemo types → Type 0
  Target s memo =
      (Map.lookup memo.block_id s.memos ≡ some memo)
      ⊎ (Map.lookup memo.block_id s.signatures ≡ none)

  pub insert-AreKeyed :
      (memo : ProposalMemo types) (m : HashMap String (ProposalMemo types))
      → AreKeyed m
      → AreKeyed (Map.insert memo.block_id memo m)
  unfolding Map.insert Map.lookup
  insert-AreKeyed memo [] h = (refl, refl, tt)
  insert-AreKeyed memo ((j, old) ∷ m) h = elim (Bool-cases (string_eq.beq j memo.block_id)) [
    | inl e ↦ rw e (refl, ground (arith, h.1, string_eq.beq_iff j memo.block_id), h.2)
    | inr e ↦ rw e (
      h.0,
      ground (
        arith,
        lookup-insert j memo.block_id memo m,
        h.1,
        string_eq.beq_iff j memo.block_id,
        string_eq.beq_iff memo.block_id j,
      ),
      insert-AreKeyed memo m h.2,
    )
  ]

  signatures_of-verified :
      (k : String) (memo : ProposalMemo types) (s : Storage z)
      → Inv s
      → Map.lookup k s.memos ≡ some memo
      → AllVerify memo (signatures_of z k s)
  signatures_of-verified k memo s v e = elim (Option-cases (Map.lookup k s.signatures)) [
    | inl e' ↦ rw (e', signatures_of) tt
    | inr (gs, e') ↦ rw (e', signatures_of) (v.verified k memo gs e e')
  ]

  -- A signature for a stored memo is added only if it verifies.
  put_signature-Inv :
      (k : String) (memo : ProposalMemo types) (g : UserSignature types) (s : Storage z)
      → Inv s
      → Map.lookup k s.memos ≡ some memo
      → z.verify_signature g memo.block_sign_payload memo.pubkey_hash ≡ true
      → Inv (record s { signatures = Map.insert k (signatures_of z k s ++ g ∷ []) s.signatures })
  put_signature-Inv k memo g s v e ok' = record {
    keyed = v.keyed;
    verified = λ j other gs eo eg. elim (Bool-cases (string_eq.beq k j)) [
      | inl q ↦
          let same : k ≡ j = (string_eq.beq_iff k j).0 q in
          let it : memo ≡ other = ground arith in
          let added : signatures_of z k s ++ g ∷ [] ≡ gs =
            ground (arith, lookup-insert j k (signatures_of z k s ++ g ∷ []) s.signatures) in
          subst (AllVerify other) added (
            subst (λ m. AllVerify m (signatures_of z k s ++ g ∷ [])) it
              (All-append _ (signatures_of z k s) (g ∷ []) (signatures_of-verified k memo s v e)
                (ok', tt)))
      | inr q ↦
          v.verified j other gs eo
            (ground (arith, lookup-insert j k (signatures_of z k s ++ g ∷ []) s.signatures))
    ];
    tasks = v.tasks;
  }

  -- Posting a signature keeps the invariant: the memos stand under their ids, and every stored
  -- signature, and every signature of a task in the high queue, verifies for the payload and the keys
  -- that it stands with. The tasks in the low queue are not spoken of.
  pub add_signature-Inv :
      (id : String) (g : UserSignature types) (s : Storage z)
      → Inv s
      → Inv (add_signature z id g s).1
  unfolding add_signature
  add_signature-Inv id g s v = elim (Option-cases (Map.lookup id s.request_id_to_block_id)) [
    | inl e ↦ rw (e, add_signature) v
    | inr (k, e) ↦ elim (Option-cases (Map.lookup k s.memos)) [
      | inl e' ↦ rw (e, add_signature, e') v
      | inr (memo, e') ↦
          elim (Bool-cases (z.verify_signature g memo.block_sign_payload memo.pubkey_hash)) [
            | inl q ↦ rw (e, add_signature, e', q) (put_signature-Inv k memo g s v e' q)
            | inr q ↦ rw (e, add_signature, e', q) v
          ]
    ]
  ]
