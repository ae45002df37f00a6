-- ===== src/Wallet/Exchanges.antt =====
-- exchange::Wallet: each call works on the wallet of its exchange and on no other.
use cryptobot.Common.{
  ℕ, ◌≡◌, ◌∙◌, ◌≢◌, Bool, true, false, none, some, List, [], ◌∷◌, arith, if◌then◌else◌,
  Option-cases, inl, inr,
}
use cryptobot.Common.Dict
use cryptobot.Types.{ExchangeId, exchange_eq, exchange_eq_iff, exchange_key}
use cryptobot.Double.{Double}
use cryptobot.Response.{Response}
use cryptobot.Wallet.Defs.{
  after, Wallet, Wallets, new_wallet, at, init_wallets, update, update_exchange, reserve,
  on_new_signal,
}

module _ (d : Double) where
  -- A response changes only the wallet of its exchange, by that wallet's own update, where the
  -- response names an exchange other than kInvalid; one of an exchange without a wallet changes
  -- nothing.
  update_exchange_lem :
      (r : Response) (ws : Wallets d) (id : ExchangeId)
      → r.exchange_id ≢ ExchangeId.k_invalid
      → at d id (after (update_exchange d r ws)) ≡ (
          if exchange_eq r.exchange_id id
          then elim (at d id ws) [ none ↦ none | some w ↦ some (after (update d r w)) ]
          else at d id ws)
  unfolding update_exchange at
  update_exchange_lem r ws id known = elim (Option-cases (at d r.exchange_id ws)) [
    | inl e ↦ ground (arith, exchange_eq_iff r.exchange_id id)
    | inr (w, e) ↦ ground (
      arith,
      exchange_eq_iff r.exchange_id id,
      Dict.lookup-insert r.exchange_id id (after (update d r w)) ws,
    )
  ]

  -- A reservation by signal, for an exchange other than kInvalid that has a wallet, reserves in
  -- that wallet as reserve does, and in no other.
  pub on_new_signal_lem :
      (id : ExchangeId) (order_id ticker qty : ℕ) (w : Wallet d) (ws : Wallets d) (j : ExchangeId)
      → id ≢ ExchangeId.k_invalid
      → at d id ws ≡ some w
      → let (done, ws') = on_new_signal d id order_id ticker qty ws in
        let (done', w') = reserve d order_id ticker qty w in
        (done ≡ done') × (at d j ws' ≡ (if exchange_eq id j then some w' else at d j ws))
  unfolding on_new_signal at
  on_new_signal_lem id order_id ticker qty w ws j known e =
      ground (arith, Dict.lookup-insert id j (reserve d order_id ticker qty w).1 ws)

  init_one :
      (id j : ExchangeId) (ws : Wallets d)
      → at d j (if Dict.contains id ws then ws else Dict.insert id (new_wallet d) ws)
        ≡ elim (at d j ws) [
          | none ↦ if exchange_eq id j then some (new_wallet d) else none
          | some w ↦ some w
        ]
  unfolding at
  init_one id j ws = ground (arith, exchange_eq_iff id j, Dict.lookup-insert id j (new_wallet d) ws)

  abbrev member : ExchangeId → List ExchangeId → Bool
  member j [] = false
  member j (id ∷ ids) = if exchange_eq id j then true else member j ids

  -- Initialising gives every listed exchange a wallet, and keeps the wallets that are there.
  pub init_wallets_lem :
      (ids : List ExchangeId) (ws : Wallets d) (j : ExchangeId)
      → at d j (init_wallets d ids ws) ≡ elim (at d j ws) [
        | none ↦ if member j ids then some (new_wallet d) else none
        | some w ↦ some w
      ]
  unfolding init_wallets
  init_wallets_lem [] ws j = ground arith
  init_wallets_lem (id ∷ ids) ws j = init_wallets_lem ids _ j ∙ rw (init_one id j ws) (ground arith)
