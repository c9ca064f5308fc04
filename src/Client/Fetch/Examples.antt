-- ===== src/Client/Fetch/Examples.antt =====
-- A store vault with pages of two, of which the second holds a transaction that was pending before.
use intmax.Base.{
  ℕ, ◌*◌, ◌⊎◌, ◌≡◌, ◌∙◌, sym, ap, subst, ok-injective, ◌<◌, refl, true, false, List, [], ◌∷◌,
  Option, none, some, Result, ok, ◌==◌, map, if◌then◌else◌, arith, inl, inr, Bool-cases, ltb,
  retain, take, reverse, length,
}
use intmax.Base.Sort.{sort_by, IsSorted}
use intmax.Toy.{toy_types}
use intmax.Client.Strategy.{MetaData, MetaDataWithBlockNumber, TxData, StrategyError}
use intmax.Client.Fetch.{
  CursorOrder, asc, desc, MetaDataCursor, MetaDataCursorResponse, DataWithMetaData, ProcessStatus,
  DataInfo, Servers, Sealed, nothing, before_settled, fetch_pages, fetch_all_unprocessed,
  unique_by_digest, classify, sort_info,
}
use intmax.Client.Fetch.Kinds.{fetch_tx_info, fetch_all_unprocessed_tx_info, fetch_decrypt_validate}
use intmax.Client.Fetch.Unique.{Divides, fetch_tx_info-Divides}
use intmax.Client.Fetch.Pages.{
  ascending_from, Pages, fetch_tx_page, VaultAdvances, fetch_all_unprocessed_tx_info-Pages,
}

abbrev meta_at : ℕ → MetaData
meta_at n = record { timestamp = 10 * n; digest = n }

abbrev item : ℕ → DataWithMetaData ℕ
item n = record { meta = meta_at n; encrypted = n }

abbrev tx_of : ℕ → TxData toy_types
tx_of n = record { nonce = 0; transfers = []; tx_tree_root = n }

abbrev entries : List (DataWithMetaData ℕ)
entries = item 2 ∷ item 3 ∷ item 4 ∷ item 5 ∷ []

-- Of data in order, those later than a time, and those earlier.
abbrev later : ℕ → List (DataWithMetaData ℕ) → List (DataWithMetaData ℕ)
later time [] = []
later time (d ∷ ds) = if ltb time d.meta.timestamp then d ∷ ds else later time ds

abbrev earlier : ℕ → List (DataWithMetaData ℕ) → List (DataWithMetaData ℕ)
earlier time ds = retain (λ d. ltb d.meta.timestamp time) ds

-- What comes after a cursor, from the oldest on or from the newest on.
abbrev after : CursorOrder → Option MetaData → List (DataWithMetaData ℕ)
after asc none = entries
after asc (some m) = later m.timestamp entries
after desc none = reverse entries
after desc (some m) = reverse (earlier m.timestamp entries)

abbrev last_meta : Option MetaData → List (DataWithMetaData ℕ) → Option MetaData
last_meta o [] = o
last_meta o (d ∷ ds) = last_meta (some d.meta) ds

abbrev size_of : Option ℕ → ℕ
size_of none = 2
size_of (some n) = n

abbrev cut : ℕ → List (DataWithMetaData ℕ) → List (DataWithMetaData ℕ) × MetaDataCursorResponse
cut size ds = (
  take size ds,
  record {
    next_cursor = last_meta none (take size ds);
    has_more = ltb size (length ds);
    total_count = length entries;
  },
)

abbrev page : MetaDataCursor → List (DataWithMetaData ℕ) × MetaDataCursorResponse
page c = cut (size_of c.limit) (after c.order c.cursor)

-- Only 2 and 4 are in blocks.
abbrev block_of : ℕ → Option ℕ
block_of n = if n == 4 then some 7 else if n == 2 then some 9 else none

abbrev servers : Servers
servers = record {
  Bytes = ℕ;
  KeySet = ℕ;
  pubkey = λ k. k;
  key_of = λ n. n;
  get_data_batch = λ k d ns. ok (map item ns);
  get_data_sequence = λ k d c. ok (page c);
  get_snapshot = λ k d. ok none;
  get_block_number_by_tx_tree_root_batch = λ roots. ok (map block_of roots);
  get_deposit_info_batch = λ hs. ok (map (λ h. none) hs);
  check_if_deposit_exists = λ n. ok false;
}

abbrev sealed : Sealed servers (TxData toy_types)
sealed = record { decrypt = λ k sender n. some (tx_of n); validates = λ p x. true }

abbrev status : ProcessStatus
status = record {
  last_processed_meta_data = none;
  processed_digests = [];
  pending_digests = 4 ∷ [];
}

abbrev first_cursor_of : MetaDataCursor
first_cursor_of = record { cursor = none; order = asc; limit = none }

abbrev settled_at : ℕ → ℕ → MetaDataWithBlockNumber × TxData toy_types
settled_at n block_number = (record { meta = meta_at n; block_number = block_number }, tx_of n)

abbrev first_page : DataInfo (TxData toy_types)
first_page = record {
  settled = settled_at 4 7 ∷ settled_at 2 9 ∷ [];
  pending = (meta_at 3, tx_of 3) ∷ [];
  timeout = [];
}

first_fetched :
    fetch_tx_info servers 1 toy_types sealed 40 20 (4 ∷ []) [] first_cursor_of
    ≡ ok (first_page, (page first_cursor_of).1)
unfolding fetch_tx_info fetch_decrypt_validate unique_by_digest classify sort_info sort_by
first_fetched = refl

fetch_tx_info-Divides_example :
    Divides servers 1 toy_types sealed 40 20 []
      (4 ∷ [])
      first_cursor_of
      (page first_cursor_of).1
      first_page
    × IsSorted before_settled first_page.settled
fetch_tx_info-Divides_example =
    fetch_tx_info-Divides servers 1 toy_types sealed 40 20 [] (4 ∷ []) first_cursor_of first_page
      (page first_cursor_of).1 first_fetched

-- How many data are left.
abbrev left : Option MetaData → ℕ
left c = length (after asc c)

later-cases :
    (time : ℕ)
    → ((later time entries ≡ entries) ⊎ (later time entries ≡ later 20 entries))
      ⊎ (length (later time entries) < 3)
later-cases time = elim (Bool-cases (ltb time 20)) [
  | inl a ↦ inl (inl (ground arith))
  | inr a ↦ elim (Bool-cases (ltb time 30)) [
    | inl b ↦ inl (inr (ground arith))
    | inr b ↦ inr (ground arith)
  ]
]

cut-advances :
    (ds : List (DataWithMetaData ℕ))
    → ((ds ≡ entries) ⊎ (ds ≡ later 20 entries)) ⊎ (length ds < 3)
    → (cut 2 ds).1.has_more ≡ true
    → left (cut 2 ds).1.next_cursor < length ds
cut-advances ds (inl (inl e)) more =
    subst (λ xs. left (cut 2 xs).1.next_cursor < length xs) (sym e) (omega arith)
cut-advances ds (inl (inr e)) more =
    subst (λ xs. left (cut 2 xs).1.next_cursor < length xs) (sym e) (omega arith)
cut-advances ds (inr short) more = absurd (ground arith)

page-advances :
    (c : Option MetaData)
    → (page (ascending_from c)).1.has_more ≡ true
    → left (page (ascending_from c)).1.next_cursor < left c
page-advances none more = cut-advances entries (inl (inl refl)) more
page-advances (some m) more =
    cut-advances (later m.timestamp entries) (later-cases m.timestamp) more

advances : VaultAdvances servers 1 toy_types sealed 40 20 left
advances c items response h more =
    let same = ap (λ p. p.1) (ok-injective h) in
    subst (λ r. left r.next_cursor < left c) same
      (page-advances c (ap (λ r. r.has_more) same ∙ more))

fetch_all_unprocessed_tx_info-Pages_example :
    (result : Result StrategyError (DataInfo (TxData toy_types))) × (fetch_all_unprocessed_tx_info
        servers 1 toy_types sealed 40 20 5 status
      ≡ some result)
    × Pages
        (fetch_tx_page servers 1 toy_types sealed 40 20 status)
        (4 ∷ [])
        first_cursor_of
        nothing
        result
fetch_all_unprocessed_tx_info-Pages_example =
    fetch_all_unprocessed_tx_info-Pages servers 1 toy_types sealed 40 20 status left advances 5
      (omega arith)

-- The transaction that was pending, and stands on the second page, is listed twice.
listed_twice :
    fetch_all_unprocessed_tx_info servers 1 toy_types sealed 40 20 5 status
    ≡ some (
        ok (record {
          settled = settled_at 4 7 ∷ settled_at 2 9 ∷ settled_at 4 7 ∷ [];
          pending = (meta_at 3, tx_of 3) ∷ (meta_at 5, tx_of 5) ∷ [];
          timeout = [];
        }))
unfolding fetch_all_unprocessed fetch_pages fetch_tx_info fetch_decrypt_validate unique_by_digest
    classify sort_info sort_by
listed_twice = refl
