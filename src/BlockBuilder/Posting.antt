-- ===== src/BlockBuilder/Posting.antt =====
-- block-builder/src/app/block_post.rs: posting one block to the rollup contract.
pub mod Waiting
pub mod Signatures
mod Examples
use intmax.Base.{
  ℕ, zero, suc, Bool, true, false, not, ◌&&◌, List, [], ◌∷◌, Option, none, some, Result, ok, err,
  ◌>>=◌, Panic, if◌then◌else◌, ◌==◌, ltb, leb, any, map, retain, position, get_elem?, set, length,
  add_u64,
}
use intmax.Zkp.{Types, Zkp, BlockSignPayload, UserSignature}
use intmax.BlockBuilder.BlockPost.{BlockPostTask}

abbrev pub validity_sync_max_retry : ℕ
validity_sync_max_retry = 10

abbrev pub expiry_buffer : ℕ
expiry_buffer = 5

-- interfaces/src/api/validity_prover/interface.rs
pub record AccountInfo : Type 0 where
  pub account_id : Option ℕ
  pub block_number : ℕ
  pub last_block_number : ℕ

module _ (t : Types) where
  -- `SenderWithSignature` of the crate intmax2-zkp.
  pub record SenderWithSignature : Type 0 where
    pub sender : ℕ
    pub signature : Option t.FlatG2

-- `SignatureContent` of the crate intmax2-zkp, as far as it is posted.
pub record SignatureContent (G : Type 0) : Type 0 where
  pub sender_flag : ℕ
  pub agg_pubkey : G
  pub agg_signature : G
  pub message_point : G

-- What the contract is called with.
pub data Posted (G Trimmed : Type 0) : Type 0 where
  registration : BlockSignPayload → SignatureContent G → List ℕ → Posted G Trimmed
  non_registration : BlockSignPayload → SignatureContent G → ℕ → Trimmed → Posted G Trimmed

pub data PostError (E : Type 0) : Type 0 where
  -- An error of the contract or of the validity prover, passed on.
  blockchain_error server_error : E → PostError E
  validity_prover_is_not_synced : ℕ → ℕ → PostError E
  already_expired : PostError E
  panicked : Panic → PostError E

-- The rollup contract and the validity prover as one posting sees them: what the questions of each
-- round are answered, and the functions of intmax2-zkp that it calls.
pub record PostEnv (z : Zkp) : Type 1 where
  pub Error : Type 0
  pub Point : Type 0
  pub Trimmed : Type 0
  pub get_latest_block_number : ℕ → Result Error ℕ
  pub get_block_number : ℕ → Result Error ℕ
  pub get_penalty : ℕ → Result Error ℕ
  pub current_time : ℕ
  pub get_account_info_batch : List ℕ → Result Error (List AccountInfo)
  pub account_ids_hash : z.AccountIdPacked → ℕ
  pub to_trimmed_bytes : z.AccountIdPacked → Trimmed
  pub construct_signature :
      BlockSignPayload → ℕ → ℕ → List (SenderWithSignature z.types) → SignatureContent Point
  pub post : Posted Point Trimmed → Result Error (Unit {0})

abbrev pub blockchain : {E A : Type 0} → Result E A → Result (PostError E) A
blockchain (ok a) = ok a
blockchain (err e) = err (blockchain_error e)

abbrev pub server : {E A : Type 0} → Result E A → Result (PostError E) A
server (ok a) = ok a
server (err e) = err (server_error e)

abbrev pub contains : List ℕ → ℕ → Bool
contains xs n = any (λ x. x == n) xs

abbrev pub is_some : Option ℕ → Bool
is_some none = false
is_some (some _) = true

abbrev pub is_empty {ℓ} : {A : Type ℓ} → List A → Bool
is_empty [] = true
is_empty (_ ∷ _) = false

module _ (z : Zkp) (w : PostEnv z) where
  open z use {types, dummy_pubkey}
  open w use {Error, Point, Trimmed}

  -- The loop that waits for the validity prover, from a round on; the number is that of the
  -- retries that are left.
  pub wait_synced : (left round : ℕ) → Result (PostError Error) (Unit {0})
  wait_synced zero round = do
    onchain ← blockchain (w.get_latest_block_number round)
    prover ← server (w.get_block_number round)
    if onchain == prover then ok tt else err (validity_prover_is_not_synced onchain prover)
  wait_synced (suc left) round =
      let rest = wait_synced left (suc round) in
      blockchain (w.get_latest_block_number round) >>= λ onchain.
      server (w.get_block_number round) >>= λ prover. (if onchain == prover then ok tt else rest)

  -- The loop that waits for the penalty fee, which has no bound of its own: nothing is returned
  -- when the rounds that are looked at do not end it.
  pub wait_penalty : (fuel round allowance : ℕ) → Option (Result (PostError Error) (Unit {0}))
  wait_penalty zero round allowance = none
  wait_penalty (suc fuel) round allowance =
      let rest = wait_penalty fuel (suc round) allowance in
      elim (w.get_penalty round) [
        | err e ↦ some (err (blockchain_error e))
        | ok penalty_fee ↦ if leb penalty_fee allowance then some (ok tt) else rest
      ]

  abbrev pub without_dummy : List ℕ → List ℕ
  without_dummy = retain (λ p. not (p == dummy_pubkey))

  -- The public keys, of two lists that are read side by side, with an account.
  pub with_account : List ℕ → List AccountInfo → List ℕ
  with_account [] infos = []
  with_account (p ∷ ps) [] = []
  with_account (p ∷ ps) (i ∷ infos) =
      if is_some i.account_id then p ∷ with_account ps infos else with_account ps infos

  -- The eliminated public keys and the packed account ids.
  pub account_step :
      BlockPostTask types → Result (PostError Error) (List ℕ × Option z.AccountIdPacked)
  unfolding with_account
  account_step task =
      if task.block_sign_payload.is_registration_block
      then (let pubkeys_without_dummy = without_dummy task.pubkeys in
          server (w.get_account_info_batch pubkeys_without_dummy) >>= λ account_ids.
          ok (with_account pubkeys_without_dummy account_ids, none))
      else elim task.account_ids [
        | none ↦ err (panicked Panic.unwrap_none)
        | some account_ids ↦ ok ([], some account_ids)
      ]

  abbrev pub set_signature :
      List (SenderWithSignature types) → ℕ → z.FlatG2 → List (SenderWithSignature types)
  set_signature [] i g = []
  set_signature (s ∷ ss) zero g = (record s { signature = some g }) ∷ ss
  set_signature (s ∷ ss) (suc i) g = s ∷ set_signature ss i g

  -- The loop over the signatures.
  pub place_signatures :
      (pubkeys eliminated : List ℕ)
      → List (UserSignature types)
      → List (SenderWithSignature types)
      → Result (PostError Error) (List (SenderWithSignature types))
  place_signatures pubkeys eliminated [] senders = ok senders
  place_signatures pubkeys eliminated (g ∷ gs) senders =
      let skipped = place_signatures pubkeys eliminated gs senders in
      if contains eliminated g.pubkey
      then skipped
      else elim (position (λ p. p == g.pubkey) pubkeys) [
        | none ↦ err (panicked Panic.unwrap_none)
        | some i ↦ place_signatures pubkeys eliminated gs (set_signature senders i g.signature)
      ]

  abbrev pub unsigned : ℕ → SenderWithSignature types
  unsigned pubkey = record { sender = pubkey; signature = none }

  abbrev pub default_or_hash : Option z.AccountIdPacked → ℕ
  default_or_hash none = 0
  default_or_hash (some ids) = w.account_ids_hash ids

  -- The arguments of the contract's method.
  abbrev pub contract_call :
      BlockPostTask types
      → Option z.AccountIdPacked
      → SignatureContent Point
      → Result (PostError Error) (Posted Point Trimmed)
  contract_call task packed signature =
      if task.block_sign_payload.is_registration_block
      then ok (registration task.block_sign_payload signature (without_dummy task.pubkeys))
      else elim packed [
        | none ↦ err (panicked Panic.unwrap_none)
        | some ids ↦ ok (
            non_registration task.block_sign_payload signature task.pubkey_hash
              (w.to_trimmed_bytes ids))
      ]

  abbrev pub check_expiry : BlockPostTask types → Result (PostError Error) (Unit {0})
  check_expiry task =
      let expiry = task.block_sign_payload.expiry in
      if not (expiry == 0) && ltb expiry (add_u64 w.current_time expiry_buffer)
      then err already_expired
      else ok tt

  -- `post_block` after its loops: the call that it makes.
  pub make_call : BlockPostTask types → Result (PostError Error) (Posted Point Trimmed)
  unfolding account_step place_signatures
  make_call task = do
    _ ← check_expiry task
    accounts ← account_step task
    senders ← place_signatures task.pubkeys accounts.0 task.signatures (map unsigned task.pubkeys)
    let signature =
        w.construct_signature task.block_sign_payload task.pubkey_hash (default_or_hash accounts.1)
          senders
    contract_call task accounts.1 signature

  abbrev pub call_contract :
      BlockPostTask types → Result (PostError Error) (Option (Posted Point Trimmed))
  call_contract task = do call ← make_call task; _ ← blockchain (w.post call); ok (some call)

  -- The call that was made, if one was made; nothing when the fuel ends first.
  pub post_block :
      (fuel eth_allowance_for_block : ℕ)
      → BlockPostTask types
      → Option (Result (PostError Error) (Option (Posted Point Trimmed)))
  unfolding wait_synced wait_penalty make_call
  post_block fuel allowance task =
      if is_empty task.signatures && not task.force_post
      then some (ok none)
      else elim (wait_synced validity_sync_max_retry 0) [
        | err e ↦ some (err e)
        | ok _ ↦ elim (wait_penalty fuel 0 allowance) [
          | none ↦ none
          | some waited ↦ some (waited >>= λ _. call_contract task)
        ]
      ]
