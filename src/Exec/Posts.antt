-- ===== src/Exec/Posts.antt =====
-- What holds of the value of an action whenever it ends with one, by one rule for each way to build
-- an action.
use bttracker.Common.{
  ℕ, ◌≡◌, refl, Bool, true, false, Option, none, some, length, if◌then◌else◌, Option-cases, inl,
  inr,
}
use bttracker.Memory.{Bytes}
use bttracker.Memory.Blocks.{IsArray}
use bttracker.Platform.{Platform, World}
use bttracker.Platform.Laws.{HasBlocks}
use bttracker.Exec.{
  M, Fault, Outcome, done, fault, exit, continue, ◌>>=◌, pure, or_fault, malloc, malloc_or_exit,
  malloc_unchecked, stack_object,
}

abbrev pub Post : {A : Type 0} → (A → Type 0) → Outcome A → Type 0
Post P (done a) = P a
Post P (fault x) = Unit
Post P (exit c) = Unit

pub record Ensures {p : Platform} {A : Type 0} (P : A → Type 0) (m : M p A) : Type 0 where
  pub at : (w : World p) → Post P (m w).0

module _ {p : Platform} {A : Type 0} where
  pub Ensures-pure : {P : A → Type 0} (a : A) → P a → Ensures {p = p} P (pure a)
  Ensures-pure a h = record { at = λ w. h }

  pub Ensures-or_fault :
      {P : A → Type 0} (x : Fault) (o : Option A)
      → ((a : A) → o ≡ some a → P a)
      → Ensures {p = p} P (or_fault x o)
  Ensures-or_fault x none h = record { at = λ w. tt }
  Ensures-or_fault x (some a) h = record { at = λ w. h a refl }

  pub Ensures-if :
      {P : A → Type 0} (b : Bool) (m n : M p A)
      → Ensures P m
      → Ensures P n
      → Ensures P (if b then m else n)
  Ensures-if true m n h k = h
  Ensures-if false m n h k = k

  pub Ensures-map :
      {P Q : A → Type 0} {m : M p A} → ((a : A) → P a → Q a) → Ensures P m → Ensures Q m
  Ensures-map {P} {Q} {m} f h = record { at = λ w. weaken (m w).0 (h.at w) }
    where
      weaken : (o : Outcome A) → Post P o → Post Q o
      weaken (done a) k = f a k
      weaken (fault x) k = tt
      weaken (exit c) k = tt

  pub Ensures-option :
      {C : Type 0} {P : A → Type 0} (o : Option C) (m : M p A) (f : C → M p A)
      → Ensures P m
      → ((c : C) → Ensures P (f c))
      → Ensures P (elim o [ none ↦ m | some c ↦ f c ])
  Ensures-option none m f h k = h
  Ensures-option (some c) m f h k = k c

  pub Ensures-elim :
      {P : A → Type 0} (b : Bool) (m n : M p A)
      → Ensures P m
      → Ensures P n
      → Ensures P (elim b [ true ↦ m | false ↦ n ])
  Ensures-elim true m n h k = h
  Ensures-elim false m n h k = k

  -- Nothing is claimed.
  pub Ensures-any : (m : M p A) → Ensures (λ _. Unit {0}) m
  Ensures-any m = record { at = λ w. any_post (m w).0 }
    where
      any_post : (o : Outcome A) → Post (λ _. Unit {0}) o
      any_post (done a) = tt
      any_post (fault x) = tt
      any_post (exit c) = tt

module _ {p : Platform} {A B : Type 0} where
  continue-Post :
      {Q : A → Type 0} {P : B → Type 0} (o : Outcome A) (w : World p) (f : A → M p B)
      → Post Q o
      → ((a : A) → Q a → Ensures P (f a))
      → Post P (continue o w f).0
  continue-Post (done a) w f h k = (k a h).at w
  continue-Post (fault x) w f h k = tt
  continue-Post (exit c) w f h k = tt

  pub Ensures-bind :
      {P : B → Type 0} (Q : A → Type 0) (m : M p A) (f : A → M p B)
      → Ensures Q m
      → ((a : A) → Q a → Ensures P (f a))
      → Ensures P (m >>= f)
  Ensures-bind Q m f h k = record { at = λ w. continue-Post (m w).0 (m w).1 f (h.at w) k }

  -- What the first action gives is not used.
  pub Ensures-then :
      {P : B → Type 0} (m : M p A) (f : A → M p B)
      → ((a : A) → Ensures P (f a))
      → Ensures P (m >>= f)
  Ensures-then m f k = Ensures-bind (λ _. Unit {0}) m f (Ensures-any m) (λ a _. k a)

module _ (p : Platform) (blocks : HasBlocks p) (n : ℕ) where
  abbrev pub IsBlock : Bytes → Type 0
  IsBlock b = IsArray n b

  pub malloc_or_exit-Ensures : Ensures IsBlock (malloc_or_exit p n)
  unfolding malloc_or_exit malloc
  malloc_or_exit-Ensures = record {
    at = λ w. elim (Option-cases (p.malloc n w.heap).0) [
      | inl e ↦ rw e tt
      | inr (b, e) ↦ rw e (blocks.malloc_size n w.heap b e, blocks.malloc_bytes n w.heap b e)
    ];
  }

  pub malloc_unchecked-Ensures : Ensures IsBlock (malloc_unchecked p n)
  unfolding malloc_unchecked malloc
  malloc_unchecked-Ensures = record {
    at = λ w. elim (Option-cases (p.malloc n w.heap).0) [
      | inl e ↦ rw e tt
      | inr (b, e) ↦ rw e (blocks.malloc_size n w.heap b e, blocks.malloc_bytes n w.heap b e)
    ];
  }

pub stack_object-Ensures :
    (p : Platform) → HasBlocks p → (n : ℕ) → Ensures (λ b. length b ≡ n) (stack_object p n)
unfolding stack_object
stack_object-Ensures p blocks n = record { at = λ w. blocks.stack_length n w.heap }

pub ruleset post_rules = (Ensures-pure, Ensures-or_fault, Ensures-if)
