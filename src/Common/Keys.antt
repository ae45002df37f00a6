-- ===== src/Common/Keys.antt =====
-- Types with a Boolean equality that decides `≡`: the keys of the program's hash maps.
use Prim.Native.Nat.{ℕ}
use mathlib.Core.Path.{◌≡◌, refl}
use mathlib.Core.Logic.{◌↔◌}
use mathlib.Core.Bool.{Bool, true}
use cryptobot.Common.Tests.{==_iff, ◌==◌ as nat_eq}

pub record Eq {ℓ} (A : Type ℓ) : Type ℓ where
  pub beq : A → A → Bool
  pub beq_iff : (a b : A) → (beq a b ≡ true) ↔ (a ≡ b)

instance abbrev pub nat_key : Eq ℕ
nat_key = record { beq = nat_eq; beq_iff = ==_iff }

module _ {ℓ} {A : Type ℓ} ⦃e : Eq A⦄ where
  pub beq_refl : (a : A) → e.beq a a ≡ true
  beq_refl a = (e.beq_iff a a).1 refl

  pub beq_of_eq : (a b : A) → a ≡ b → e.beq a b ≡ true
  beq_of_eq a b = (e.beq_iff a b).1
