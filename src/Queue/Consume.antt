-- ===== src/Queue/Consume.antt =====
-- The loop of the threads that serve a queue: take up to 50 elements, handle each, and begin again.
use cryptobot.Common.{
  ℕ, zero, suc, ◌≡◌, refl, sym, ap, ◌∙◌, ◌≤◌, List, [], ◌∷◌, ◌++◌, length, length-append, arith,
}
use cryptobot.Queue.{Queue}

pub length_0 {ℓ} : {A : Type ℓ} (xs : List A) → length xs ≤ 0 → xs ≡ []
length_0 [] l = refl
length_0 (x ∷ xs) l = absurd (omega arith)

module _ {ℓ} {A : Type 0} {S : Type ℓ} (handle : A → S → S) where
  abbrev pub handle_all : List A → S → S
  handle_all [] s = s
  handle_all (x ∷ xs) s = handle_all xs (handle x s)

  handle_all-append :
      (xs ys : List A) (s : S) → handle_all (xs ++ ys) s ≡ handle_all ys (handle_all xs s)
  handle_all-append [] ys s = refl
  handle_all-append (x ∷ xs) ys s = handle_all-append xs ys (handle x s)

  module _ (queue : Queue A) where
    open queue use {Q, contents, try_dequeue_bulk}

    abbrev consume_round : Q × S → Q × S
    consume_round (q, s) = let (batch, q') = try_dequeue_bulk 50 q in (q', handle_all batch s)

    unfoldable pub consume_rounds : ℕ → Q × S → Q × S
    consume_rounds zero x = x
    consume_rounds (suc n) x = consume_rounds n (consume_round x)

    pub shorter :
        (q : Q) (n : ℕ)
        → length (contents q) ≤ suc n
        → length (contents (try_dequeue_bulk 50 q).1) ≤ n
    shorter q n h =
        shorter_of (contents q) (try_dequeue_bulk 50 q).0 (contents (try_dequeue_bulk 50 q).1) n h
          (queue.contents-try_dequeue_bulk 50 q) (queue.try_dequeue_bulk_empty 50 q (omega arith))
      where
        shorter_of :
            (xs ys zs : List A) (m : ℕ)
            → length xs ≤ suc m
            → xs ≡ ys ++ zs
            → (ys ≡ [] → xs ≡ [])
            → length zs ≤ m
        shorter_of xs [] zs m l e f =
            let none_left : length zs ≡ 0 = ap length (sym e ∙ f refl) in omega (arith, none_left)
        shorter_of xs (y ∷ ys) zs m l e f =
            let whole = ap length e in omega (arith, whole, length-append ys zs, l)

    -- In as many rounds as the queue has elements, or more, all of them are handled, in order and
    -- once each, and the queue is empty.
    pub consume_rounds_lem :
        (n : ℕ) (q : Q) (s : S)
        → length (contents q) ≤ n
        → (contents (consume_rounds n (q, s)).0 ≡ [])
          × ((consume_rounds n (q, s)).1 ≡ handle_all (contents q) s)
    unfolding consume_rounds
    consume_rounds_lem zero q s h =
        (length_0 (contents q) h, ap (λ xs. handle_all xs s) (sym (length_0 (contents q) h)))
    consume_rounds_lem (suc n) q s h =
        let (batch, q') = try_dequeue_bulk 50 q in
        let (empty, all) = consume_rounds_lem n q' (handle_all batch s) (shorter q n h) in
        (
          empty,
          all
              ∙ sym (handle_all-append batch (contents q') s)
              ∙ ap (λ xs. handle_all xs s) (sym (queue.contents-try_dequeue_bulk 50 q)),
        )
