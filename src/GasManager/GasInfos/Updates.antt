-- ===== src/GasManager/GasInfos/Updates.antt =====
-- What the gas information of a chain is after any number of updates.
use composable_batch_erc.Common.{
  ℕ, ◌≡◌, refl, ap, sym, ◌∙◌, ◌↔◌, List, [], ◌∷◌, Option, none, some, arith, Option-cases, inl, inr,
}
use composable_batch_erc.Common.Text.{Text}
use composable_batch_erc.Common.Assoc.{lookup, lookup-insert_self}
use composable_batch_erc.GasManager.GasInfos.{
  GasInfo, GasInfos, newer_or, merge_gas_info, store, set_gas_info, latest, get_latest_gas_price,
}

newer_or-none {ℓ} : {A : Type ℓ} (o : Option A) → newer_or o none ≡ o
unfolding newer_or
newer_or-none none = refl
newer_or-none (some a) = refl

module _ {F : Type 0} (chain_id : Text) where
  -- The updates of one chain, in their order.
  abbrev pub set_all : List (GasInfo F) → GasInfos F → GasInfos F
  set_all [] s = s
  set_all (info ∷ infos) s = set_all infos (set_gas_info chain_id info s)

  abbrev pub stored : GasInfos F → Option (GasInfo F)
  stored s = lookup chain_id s.gas_infos_by_chain

  -- The last of the given prices that is not null, or else the one before them.
  abbrev pub last_price : Option ℕ → List (GasInfo F) → Option ℕ
  last_price price [] = price
  last_price price (info ∷ infos) = last_price (newer_or info.gas_price price) infos

  abbrev price_of : Option (GasInfo F) → Option ℕ
  price_of none = none
  price_of (some info) = info.gas_price

  abbrev pub stored_price : GasInfos F → Option ℕ
  stored_price s = price_of (stored s)

  store-price :
      (info : GasInfo F) (s : GasInfos F) → stored_price (store chain_id info s) ≡ info.gas_price
  unfolding store
  store-price info s = ap price_of (lookup-insert_self chain_id info s.gas_infos_by_chain)

  merge-price :
      (new previous : GasInfo F)
      → (merge_gas_info new previous).gas_price ≡ newer_or new.gas_price previous.gas_price
  unfolding merge_gas_info
  merge-price new previous = refl

  set_gas_info-price :
      (info : GasInfo F) (s : GasInfos F)
      → stored_price (set_gas_info chain_id info s) ≡ newer_or info.gas_price (stored_price s)
  unfolding set_gas_info
  set_gas_info-price info s = elim (Option-cases (stored s)) [
    | inl e ↦ rw (e, set_gas_info, store-price info s) (sym (newer_or-none info.gas_price))
    | inr (previous, e) ↦
        rw (e, set_gas_info, store-price (merge_gas_info info previous) s)
          (merge-price info previous)
  ]

  -- The stored gas price of a chain is the last one among its updates that is not null, or the one
  -- before them if all are null: a failed fetch never loses a price.
  pub set_all-price :
      (infos : List (GasInfo F)) (s : GasInfos F)
      → stored_price (set_all infos s) ≡ last_price (stored_price s) infos
  set_all-price [] s = refl
  set_all-price (info ∷ infos) s =
      set_all-price infos (set_gas_info chain_id info s)
      ∙ ap (λ p. last_price p infos) (set_gas_info-price info s)

  get_latest_gas_price-price :
      (s : GasInfos F) (price : ℕ)
      → (get_latest_gas_price chain_id s ≡ latest price) ↔ (stored_price s ≡ some price)
  unfolding get_latest_gas_price
  get_latest_gas_price-price s price = ground arith

  last_price-some :
      (infos : List (GasInfo F)) (price : ℕ)
      → (price' : ℕ) × (last_price (some price) infos ≡ some price')
  unfolding newer_or
  last_price-some [] price = (price, refl)
  last_price-some (info ∷ infos) price = elim (Option-cases info.gas_price) [
    | inl e ↦ rw (e) (last_price-some infos price)
    | inr (p, e) ↦ rw (e) (last_price-some infos p)
  ]

  -- Once a chain has a gas price, `getLatestGasPrice` gives one after any updates of that chain.
  pub get_latest_gas_price-kept :
      (infos : List (GasInfo F)) (s : GasInfos F) {price : ℕ}
      → get_latest_gas_price chain_id s ≡ latest price
      → (price' : ℕ) × (get_latest_gas_price chain_id (set_all infos s) ≡ latest price')
  get_latest_gas_price-kept infos s h =
      let (price', e) = last_price-some infos _ in
      (
        price',
        (get_latest_gas_price-price _ _).1 (
            set_all-price infos s
            ∙ ap (λ p. last_price p infos) ((get_latest_gas_price-price s _).0 h)
            ∙ e),
      )
