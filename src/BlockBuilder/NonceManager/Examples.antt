-- ===== src/BlockBuilder/NonceManager/Examples.antt =====
-- block-builder/src/app/storage/nonce_manager, with a contract that answers 0.
use intmax.Base.{
  ℕ, ◌≡◌, ◌≤◌, refl, true, false, List, [], ◌∷◌, ok, arith, ok-injective, ◌==◌, if◌then◌else◌,
}
use intmax.Base.BTreeSet
use intmax.BlockBuilder.NonceManager.{
  Rollup, InMemoryNonceManager, new, reserve_nonce, release_nonce, sync_onchain,
  get_onchain_next_nonce, reserved_nonces,
}
use intmax.BlockBuilder.NonceManager.Reservation.{
  Call, reserve, release, handed, handed-IsAscending, From, Below, Answers,
}
use intmax.BlockBuilder.NonceManager.Validity.{
  IsValid, reserve_nonce-IsValid, release_nonce-IsValid,
}

abbrev silent : Rollup
silent k = ok 0

abbrev reserved_one : InMemoryNonceManager
reserved_one = record {
  next_registration_nonce = 2;
  next_non_registration_nonce = 1;
  reserved_registration_nonces = 1 ∷ [];
  reserved_non_registration_nonces = [];
}

reserves : reserve_nonce silent true new ≡ ok (1, reserved_one)
unfolding reserve_nonce sync_onchain get_onchain_next_nonce BTreeSet.insert
reserves = refl

new-IsValid : IsValid new
new-IsValid = record {
  ascending = elim [ true ↦ tt | false ↦ tt ];
  below = elim [ true ↦ tt | false ↦ tt ];
}

reserved_one-IsValid : IsValid reserved_one
reserved_one-IsValid = record {
  ascending = elim [ true ↦ (tt, tt) | false ↦ tt ];
  below = elim [ true ↦ (omega arith, tt) | false ↦ tt ];
}

small : Below 5 (reserve silent true)
unfolding get_onchain_next_nonce
small k n e = omega (arith, ok-injective e)

abbrev history : List Call
history = reserve silent true ∷ release 1 true ∷ reserve silent true ∷ []

handed-IsAscending_example : From 0 (handed true history new)
handed-IsAscending_example = handed-IsAscending true history new 5 (record {
  answers = (small, (tt, (small, tt)));
  room = omega arith;
  start = elim [ true ↦ omega arith | false ↦ omega arith ];
})

reserve_nonce-IsValid_example :
    IsValid reserved_one
    × (BTreeSet.contains 1 [] ≡ false)
    × (BTreeSet.contains 1 (1 ∷ []) ≡ true)
    × ((c : ℕ) → Answers silent true c → c ≤ 1)
reserve_nonce-IsValid_example =
    reserve_nonce-IsValid 5 silent true new reserved_one 1 new-IsValid small (omega arith)
      (elim [ true ↦ omega arith | false ↦ omega arith ]) reserves

release_nonce-IsValid_example :
    IsValid (release_nonce 1 true reserved_one)
    × ((c : ℕ)
        → BTreeSet.contains c (reserved_nonces true (release_nonce 1 true reserved_one))
          ≡ (if 1 == c then false else BTreeSet.contains c (1 ∷ [])))
release_nonce-IsValid_example = release_nonce-IsValid 1 true reserved_one reserved_one-IsValid
