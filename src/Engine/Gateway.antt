-- ===== src/Engine/Gateway.antt =====
-- The gateway's loop over its two queues, and which requests reach an executor. What an executor does
-- with a request is a parameter, as a change of the program's state.
use cryptobot.Common.{
  ℕ, zero, suc, ◌≡◌, refl, sym, ap, ◌∙◌, ◌≤◌, Bool, true, false, none, some, List, [], ◌∷◌, ◌++◌,
  length, arith, Option-cases, inl, inr, if◌then◌else◌,
}
use cryptobot.Common.Dict
use cryptobot.Common.Dict.{Dict}
use cryptobot.Types.{ExchangeId, TradingPair, Side, exchange_key}
use mathlib.Core.List.{append-nil, append_assoc}
use cryptobot.Queue.{Queue}
use cryptobot.Queue.Consume.{shorter, length_0}

pub data ClientRequestType : Type 0 where
  invalid new cancel : ClientRequestType

pub record RequestNewOrder : Type 0 where
  pub exchange_id : ExchangeId
  pub type : ClientRequestType
  pub trading_pair : TradingPair
  pub order_id : ℕ
  pub side : Side
  pub price : ℕ
  pub qty : ℕ

pub record RequestCancelOrder : Type 0 where
  pub exchange_id : ExchangeId
  pub type : ClientRequestType
  pub trading_pair : TradingPair
  pub order_id : ℕ

module _ {ℓ} {W : Type ℓ} {R : Type 0} (exchange_of : R → ExchangeId)
    (executors : Dict ExchangeId (R → W → W)) where
  -- The body of a loop: a request for an exchange without executor is passed over.
  unfoldable execute : R → W → W
  execute r w = elim (Dict.lookup (exchange_of r) executors) [ none ↦ w | some exec ↦ exec r w ]

  unfoldable execute_all : List R → W → W
  unfolding execute
  execute_all [] w = w
  execute_all (r ∷ rs) w = execute_all rs (execute r w)

  -- The requests whose exchange has an executor.
  abbrev routed : List R → List R
  routed [] = []
  routed (r ∷ rs) =
      let rest = routed rs in if Dict.contains (exchange_of r) executors then r ∷ rest else rest

module _ {ℓ} {W : Type ℓ} (new_limit_orders : Dict ExchangeId (RequestNewOrder → W → W))
    (canceled_orders : Dict ExchangeId (RequestCancelOrder → W → W))
    (new_queue : Queue RequestNewOrder) (cancel_queue : Queue RequestCancelOrder) where
  pub record OrderGateway2 : Type ℓ where
    pub requests_new_order : new_queue.Q
    pub requests_cancel_order : cancel_queue.Q
    pub world : W

  -- One round of OrderGateway2::Run.
  unfoldable gateway_round : OrderGateway2 → OrderGateway2
  unfolding execute_all
  gateway_round g =
      let (news, q) = new_queue.try_dequeue_bulk 50 g.requests_new_order in
      let (cancels, q') = cancel_queue.try_dequeue_bulk 50 g.requests_cancel_order in
      record {
        requests_new_order = q;
        requests_cancel_order = q';
        world =
            execute_all (λ r. r.exchange_id) canceled_orders cancels
              (execute_all (λ r. r.exchange_id) new_limit_orders news g.world);
      }

  unfoldable pub gateway_rounds : ℕ → OrderGateway2 → OrderGateway2
  unfolding gateway_round
  gateway_rounds zero g = g
  gateway_rounds (suc n) g = gateway_rounds n (gateway_round g)

module _ {ℓ} {W : Type ℓ} {R N : Type 0} (exchange_of : R → ExchangeId)
    (executors : Dict ExchangeId (R → W → W)) (seen : W → List N) where
  execute_all-silent :
      (rs : List R) (w : W)
      → ((r : R) (v : W) (exec : R → W → W)
          → Dict.lookup (exchange_of r) executors ≡ some exec
          → seen (exec r v) ≡ seen v)
      → seen (execute_all exchange_of executors rs w) ≡ seen w
  unfolding execute_all execute
  execute_all-silent [] w h = refl
  execute_all-silent (r ∷ rs) w h =
      execute_all-silent rs (execute exchange_of executors r w) h
      ∙ elim (Option-cases (Dict.lookup (exchange_of r) executors)) [
        | inl n ↦ rw (n, execute) refl
        | inr (exec, e) ↦ rw (e, execute) (h r w exec e)
      ]

module _ {ℓ} {W : Type ℓ} {R : Type 0} (exchange_of : R → ExchangeId)
    (executors : Dict ExchangeId (R → W → W)) (seen : W → List R) where
  execute_all-seen :
      (rs : List R) (w : W)
      → ((r : R) (v : W) (exec : R → W → W)
          → Dict.lookup (exchange_of r) executors ≡ some exec
          → seen (exec r v) ≡ seen v ++ (r ∷ []))
      → seen (execute_all exchange_of executors rs w) ≡ seen w ++ routed exchange_of executors rs
  unfolding execute_all execute
  execute_all-seen [] w h = sym (append-nil (seen w))
  execute_all-seen (r ∷ rs) w h =
      execute_all-seen rs (execute exchange_of executors r w) h
      ∙ elim (Option-cases (Dict.lookup (exchange_of r) executors)) [
        | inl n ↦
            let unknown : Dict.contains (exchange_of r) executors ≡ false = ground (arith, n) in
            rw (n, execute, unknown) refl
        | inr (exec, e) ↦
            let known : Dict.contains (exchange_of r) executors ≡ true = ground (arith, e) in
            rw (e, execute, known, h r w exec e)
              (append_assoc (seen w) (r ∷ []) (routed exchange_of executors rs))
      ]

  routed-append :
      (xs ys : List R)
      → routed exchange_of executors (xs ++ ys)
        ≡ routed exchange_of executors xs ++ routed exchange_of executors ys
  routed-append [] ys = refl
  routed-append (r ∷ xs) ys =
      joined (Dict.contains (exchange_of r) executors) (routed exchange_of executors (xs ++ ys))
        (routed exchange_of executors xs) (routed exchange_of executors ys) (routed-append xs ys)
    where
      joined :
          (known : Bool) (all first second : List R)
          → all ≡ first ++ second
          → (if known then r ∷ all else all) ≡ (if known then r ∷ first else first) ++ second
      joined true all first second e = ap (λ rs. r ∷ rs) e
      joined false all first second e = e

module _ {ℓ} {W : Type ℓ} (new_limit_orders : Dict ExchangeId (RequestNewOrder → W → W))
    (canceled_orders : Dict ExchangeId (RequestCancelOrder → W → W))
    (new_queue : Queue RequestNewOrder) (cancel_queue : Queue RequestCancelOrder)
    (seen : W → List RequestNewOrder) where
  abbrev Gateway : Type ℓ
  Gateway = OrderGateway2 new_limit_orders canceled_orders new_queue cancel_queue

  abbrev pub news : List RequestNewOrder → List RequestNewOrder
  news rs = routed (λ r. r.exchange_id) new_limit_orders rs

  -- Where an executor of new orders adds its request to what is seen, and one of cancellations
  -- changes nothing there: after as many rounds as there are new orders in the queue, or more, the
  -- queue is empty, and seen are, after what was before, exactly the new orders for exchanges with an
  -- executor, in the order of the queue and once each, whatever cancellations are served between.
  pub gateway_rounds-news :
      (n : ℕ) (g : OrderGateway2 new_limit_orders canceled_orders new_queue cancel_queue)
      → ((r : RequestNewOrder) (v : W) (exec : RequestNewOrder → W → W)
          → Dict.lookup r.exchange_id new_limit_orders ≡ some exec
          → seen (exec r v) ≡ seen v ++ (r ∷ []))
      → ((r : RequestCancelOrder) (v : W) (exec : RequestCancelOrder → W → W)
          → Dict.lookup r.exchange_id canceled_orders ≡ some exec
          → seen (exec r v) ≡ seen v)
      → length (new_queue.contents g.requests_new_order) ≤ n
      → let g' = gateway_rounds new_limit_orders canceled_orders new_queue cancel_queue n g in
        (new_queue.contents g'.requests_new_order ≡ [])
        × (seen g'.world ≡ seen g.world ++ news (new_queue.contents g.requests_new_order))
  unfolding gateway_rounds gateway_round
  gateway_rounds-news zero g tells keeps l =
      let empty = length_0 (new_queue.contents g.requests_new_order) l in
      (empty, sym (append-nil (seen g.world)) ∙ ap (λ rs. seen g.world ++ news rs) (sym empty))
  gateway_rounds-news (suc n) g tells keeps l =
      let g' = gateway_round new_limit_orders canceled_orders new_queue cancel_queue g in
      let taken = new_queue.try_dequeue_bulk 50 g.requests_new_order in
      let canceled = cancel_queue.try_dequeue_bulk 50 g.requests_cancel_order in
      let (empty, all) =
        gateway_rounds-news n g' tells keeps
          (shorter (λ r (v : W). v) new_queue g.requests_new_order n l) in
      let now : seen g'.world ≡ seen g.world ++ news taken.0 =
        execute_all-silent (λ r. r.exchange_id) canceled_orders seen canceled.0 _ keeps
        ∙ execute_all-seen (λ r. r.exchange_id) new_limit_orders seen taken.0 g.world tells in
      let rest = new_queue.contents taken.1 in
      (
        empty,
        all
            ∙ ap (λ s. s ++ news rest) now
            ∙ append_assoc (seen g.world) (news taken.0) (news rest)
            ∙ ap (λ s. seen g.world ++ s)
                (sym (routed-append (λ r. r.exchange_id) new_limit_orders seen taken.0 rest))
            ∙ ap (λ rs. seen g.world ++ news rs)
                (sym (new_queue.contents-try_dequeue_bulk 50 g.requests_new_order)),
      )
