-- ===== src/Client/Fetch/Pages.antt =====
-- client-sdk/src/client/strategy: the pages of the `fetch_all_unprocessed_…` functions.
use intmax.Base.{
  ℕ, zero, suc, ◌≡◌, ◌<◌, ◌∙◌, refl, ap, subst, true, false, inl, inr, List, [], Option, none, some,
  Result, ok, err, >>=-eq-ok, ok-injective, Result-cases, Bool-cases, arith,
}
use intmax.Zkp.{Types}
use intmax.Client.Strategy.{MetaData, TxData, StrategyError}
use intmax.Client.Fetch.{
  DataType, asc, MetaDataCursor, MetaDataCursorResponse, DataWithMetaData, ProcessStatus, DataInfo,
  Servers, Sealed, nothing, extend, fetch_pages, fetch_all_unprocessed,
}
use intmax.Client.Fetch.Kinds.{fetch_decrypt_validate, fetch_tx_info, fetch_all_unprocessed_tx_info}

-- The cursors of the loop.
abbrev pub ascending_from : Option MetaData → MetaDataCursor
ascending_from c = record { cursor = c; order = asc; limit = none }

module _ {T : Type 0}
    (fetch : List ℕ
      → MetaDataCursor
      → Result StrategyError (DataInfo T × MetaDataCursorResponse)) where
  -- What the pages from a cursor on give after what has been fetched: an error of the first page that
  -- fails, or all the pages up to the first that has no more after it. Only the first page is asked
  -- for included digests.
  pub data Pages
      : List ℕ → MetaDataCursor → DataInfo T → Result StrategyError (DataInfo T) → Type 0 where
    failed :
        (included : List ℕ) (cursor : MetaDataCursor) (info : DataInfo T) (e : StrategyError)
        → fetch included cursor ≡ err e
        → Pages included cursor info (err e)
    last_page :
        (included : List ℕ) (cursor : MetaDataCursor) (info part : DataInfo T)
        (response : MetaDataCursorResponse)
        → fetch included cursor ≡ ok (part, response)
        → response.has_more ≡ false
        → Pages included cursor info (ok (extend info part))
    next_page :
        (included : List ℕ) (cursor : MetaDataCursor) (info part : DataInfo T)
        (response : MetaDataCursorResponse) (result : Result StrategyError (DataInfo T))
        → fetch included cursor ≡ ok (part, response)
        → response.has_more ≡ true
        → Pages [] (record cursor { cursor = response.next_cursor }) (extend info part) result
        → Pages included cursor info result

  -- A page that has more after it brings the cursor nearer to the end.
  abbrev pub Advances : (Option MetaData → ℕ) → Type 0
  Advances left =
      (included : List ℕ) (c : Option MetaData) (part : DataInfo T)
      (response : MetaDataCursorResponse)
      → fetch included (ascending_from c) ≡ ok (part, response)
      → response.has_more ≡ true
      → left response.next_cursor < left c

  fetch_pages-next :
      (fuel : ℕ) (included : List ℕ) (cursor : MetaDataCursor) (info part : DataInfo T)
      (response : MetaDataCursorResponse)
      → fetch included cursor ≡ ok (part, response)
      → response.has_more ≡ true
      → fetch_pages fetch (suc fuel) included cursor info
        ≡ fetch_pages fetch fuel []
            (record cursor { cursor = response.next_cursor })
            (extend info part)
  unfolding fetch_pages
  fetch_pages-next fuel included cursor info part response q more =
      rw (fetch_pages, q) (rw more refl)

  pub fetch_pages-Pages :
      (left : Option MetaData → ℕ)
      → Advances left
      → (fuel : ℕ) (included : List ℕ) (c : Option MetaData) (info : DataInfo T) → left c < fuel
      → (result : Result StrategyError (DataInfo T)) × (fetch_pages fetch fuel included
            (ascending_from c)
            info
          ≡ some result)
        × Pages included (ascending_from c) info result
  unfolding fetch_pages
  fetch_pages-Pages left advances zero included c info enough = absurd (omega (arith, enough))
  fetch_pages-Pages left advances (suc fuel) included c info enough =
      elim (Result-cases (fetch included (ascending_from c))) [
        | inr (e, q) ↦
            (err e, (rw (fetch_pages, q) refl), Pages.failed included (ascending_from c) info e q)
        | inl ((part, response), q) ↦ elim (Bool-cases response.has_more) [
          | inr last ↦ (
            ok (extend info part),
            (rw (fetch_pages, q) (rw last refl)),
            Pages.last_page included (ascending_from c) info part response q last,
          )
          | inl more ↦
              let nearer = advances included c part response q more in
              let (result, e, pages) =
                fetch_pages-Pages left advances fuel [] response.next_cursor (extend info part)
                  (omega (arith, nearer, enough)) in
              (
                result,
                fetch_pages-next fuel included (ascending_from c) info part response q more ∙ e,
                Pages.next_page included (ascending_from c) info part response result q more pages,
              )
        ]
      ]

module _ (s : Servers) (key : s.KeySet) (t : Types) (sealed : Sealed s (TxData t))
    (now tx_timeout : ℕ) where
  -- The fetch of one page, for a status.
  abbrev pub fetch_tx_page :
      ProcessStatus
      → List ℕ
      → MetaDataCursor
      → Result StrategyError (DataInfo (TxData t) × MetaDataCursorResponse)
  fetch_tx_page status included cursor =
      fetch_tx_info s key t sealed now tx_timeout included status.processed_digests cursor

  abbrev pub first_cursor : ProcessStatus → MetaDataCursor
  first_cursor status = ascending_from status.last_processed_meta_data

  -- An ascending page of the store vault that has more after it brings the cursor nearer to the end.
  abbrev pub VaultAdvances : (Option MetaData → ℕ) → Type 0
  VaultAdvances left =
      (c : Option MetaData) (items : List (DataWithMetaData s.Bytes))
      (response : MetaDataCursorResponse)
      → s.get_data_sequence key DataType.tx (ascending_from c) ≡ ok (items, response)
      → response.has_more ≡ true
      → left response.next_cursor < left c

  fetch_tx_page-Advances :
      (status : ProcessStatus) (left : Option MetaData → ℕ)
      → VaultAdvances left
      → Advances (fetch_tx_page status) left
  unfolding fetch_tx_info fetch_decrypt_validate
  fetch_tx_page-Advances status left advances included c part response h more =
      let (fetched, h0, h1) =
        >>=-eq-ok
          (fetch_decrypt_validate s key sealed DataType.tx included status.processed_digests
            (ascending_from c))
          _ h in
      let (numbers, _, h2) = >>=-eq-ok (s.get_block_number_by_tx_tree_root_batch _) _ h1 in
      let (first, _, h3) = >>=-eq-ok (s.get_data_batch key DataType.tx included) _ h0 in
      let (unprocessed, asked, h4) =
        >>=-eq-ok (s.get_data_sequence key DataType.tx (ascending_from c)) _ h3 in
      let same = ap (λ r. r.1) (ok-injective h4) ∙ ap (λ r. r.1) (ok-injective h2) in
      subst (λ r. left r.next_cursor < left c) same
        (advances c unprocessed.0 unprocessed.1 asked (ap (λ r. r.has_more) same ∙ more))

  -- When each ascending page of the store vault that has more after it brings the cursor nearer to
  -- the end, enough rounds give a result: the error of the first page that fails, or what all the
  -- pages up to the first that has no more after it give, of which only the first is asked for the
  -- pending digests.
  pub fetch_all_unprocessed_tx_info-Pages :
      (status : ProcessStatus) (left : Option MetaData → ℕ)
      → VaultAdvances left
      → (fuel : ℕ) → left status.last_processed_meta_data < fuel
      → (result : Result StrategyError (DataInfo (TxData t))) × (fetch_all_unprocessed_tx_info s key
            t sealed now tx_timeout fuel status
          ≡ some result)
        × Pages (fetch_tx_page status) status.pending_digests (first_cursor status) nothing result
  unfolding fetch_all_unprocessed
  fetch_all_unprocessed_tx_info-Pages status left advances fuel enough =
      fetch_pages-Pages (fetch_tx_page status) left (fetch_tx_page-Advances status left advances)
        fuel status.pending_digests status.last_processed_meta_data nothing enough
