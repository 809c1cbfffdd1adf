-- ===== src/Exec/Returns.antt =====
-- Actions that end with a value in every world, by one rule for each way to build an action.
use bttracker.Common.{
  ℕ, ◌≡◌, refl, ap, ◌∙◌, Bool, true, false, Option, some, List, length, if◌then◌else◌,
}
use bttracker.Memory.{Bytes}
use bttracker.Platform.{Platform, World}
use bttracker.Platform.Laws.{HasMemory}
use bttracker.Exec.{
  M, Fault, Outcome, done, continue, ◌>>=◌, pure, or_fault, command, append_command, get_reply,
  malloc_or_exit, malloc_unchecked, stack_object,
}
use bttracker.Exec.Runs.{malloc_or_exit-done, malloc_unchecked-done}

-- Neither a fault nor an `exit`, and a value with a property.
pub record Gives {p : Platform} {A : Type 0} (P : A → Type 0) (m : M p A) : Type 0 where
  pub at : (w : World p) → (a : A) × ((m w).0 ≡ done a) × P a

abbrev pub Returns : {p : Platform} {A : Type 0} → M p A → Type 0
Returns m = Gives (λ _. Unit {0}) m

module _ {p : Platform} {A : Type 0} where
  pub Gives-pure : {P : A → Type 0} (a : A) → P a → Gives {p = p} P (pure a)
  Gives-pure a h = record { at = λ w. (a, refl, h) }

  pub Returns-pure : (a : A) → Returns {p = p} (pure a)
  Returns-pure a = Gives-pure a tt

  pub Gives-or_fault :
      {P : A → Type 0} (x : Fault) (o : Option A) (a : A)
      → o ≡ some a
      → P a
      → Gives {p = p} P (or_fault x o)
  Gives-or_fault x o a e h = record { at = λ w. (a, rw e, h) }

  pub Gives-if :
      {P : A → Type 0} (b : Bool) (m n : M p A)
      → Gives P m
      → Gives P n
      → Gives P (if b then m else n)
  Gives-if true m n h k = h
  Gives-if false m n h k = k

  -- Each branch may use its condition.
  pub Gives-if_known :
      {P : A → Type 0} (b : Bool) (m n : M p A)
      → (b ≡ true → Gives P m)
      → (b ≡ false → Gives P n)
      → Gives P (if b then m else n)
  Gives-if_known true m n h k = h refl
  Gives-if_known false m n h k = k refl

module _ {p : Platform} {A B : Type 0} where
  continue-Gives :
      {Q : A → Type 0} {P : B → Type 0} (o : Outcome A) (v : World p) (f : A → M p B)
      → (a : A) × (o ≡ done a) × Q a
      → ((a : A) → Q a → Gives P (f a))
      → (b : B) × ((continue o v f).0 ≡ done b) × P b
  continue-Gives o v f (a, e, q) k =
      let (b, e', h) = (k a q).at v in (b, ap (λ o. (continue o v f).0) e ∙ e', h)

  pub Gives-bind :
      {P : B → Type 0} (Q : A → Type 0) (m : M p A) (f : A → M p B)
      → Gives Q m
      → ((a : A) → Q a → Gives P (f a))
      → Gives P (m >>= f)
  Gives-bind Q m f h k = record { at = λ w. continue-Gives (m w).0 (m w).1 f (h.at w) k }

  -- What the first action gives is not used.
  pub Gives-then :
      {P : B → Type 0} (m : M p A) (f : A → M p B)
      → Returns m
      → ((a : A) → Gives P (f a))
      → Gives P (m >>= f)
  Gives-then m f h k = Gives-bind (λ _. Unit {0}) m f h (λ a _. k a)

module _ (p : Platform) where
  pub command-Returns : (words : List Bytes) → Returns (command p words)
  unfolding command
  command-Returns words = record { at = λ w. (_, refl, tt) }

  pub append_command-Returns : (words : List Bytes) → Returns (append_command p words)
  unfolding append_command
  append_command-Returns words = record { at = λ w. (_, refl, tt) }

  pub get_reply-Returns : Returns (get_reply p)
  unfolding get_reply
  get_reply-Returns = record { at = λ w. (_, refl, tt) }

  module _ (memory : HasMemory p) (n : ℕ) where
    abbrev pub IsSizedBlock : Bytes → Type 0
    IsSizedBlock b = length b ≡ n

    pub malloc_or_exit-Gives : Gives IsSizedBlock (malloc_or_exit p n)
    malloc_or_exit-Gives = record {
      at = λ w.
          (memory.block n w.heap, malloc_or_exit-done p n w memory, memory.block_size n w.heap);
    }

    pub malloc_unchecked-Gives : Gives IsSizedBlock (malloc_unchecked p n)
    malloc_unchecked-Gives = record {
      at = λ w.
          (memory.block n w.heap, malloc_unchecked-done p n w memory, memory.block_size n w.heap);
    }

    pub stack_object-Gives : Gives IsSizedBlock (stack_object p n)
    unfolding stack_object
    stack_object-Gives = record {
      at = λ w. ((p.stack n w.heap).0, refl, memory.stack_size n w.heap);
    }

    -- The size is not used.
    pub malloc_or_exit-Returns : Returns (malloc_or_exit p n)
    malloc_or_exit-Returns = record {
      at = λ w. (memory.block n w.heap, malloc_or_exit-done p n w memory, tt);
    }

    pub malloc_unchecked-Returns : Returns (malloc_unchecked p n)
    malloc_unchecked-Returns = record {
      at = λ w. (memory.block n w.heap, malloc_unchecked-done p n w memory, tt);
    }
