-- ===== src/Exec/Pipelines.antt =====
-- How many replies of Redis an action leaves unread, by one rule for each way to build an action.
use bttracker.Common.{
  ℕ, suc, Bool, true, false, Option, none, some, List, if◌then◌else◌, Option-cases, inl, inr,
}
use bttracker.Memory.{Bytes}
use bttracker.Platform.{Platform, World}
use bttracker.Platform.Pipelines.{IsUnread, HasPipeline}
use bttracker.Exec.{
  M, Fault, Outcome, done, fault, exit, continue, ◌>>=◌, pure, or_fault, command, append_command,
  get_reply, rand, malloc, malloc_or_exit, malloc_unchecked, stack_object,
}
use bttracker.Exec.Posts.{Post, Ensures, Ensures-any}

module _ {p : Platform} (pipe : HasPipeline p) where
  -- Begun with `n` replies unread, the action has `k` replies unread when it ends with a value.
  pub record Leaves {A : Type 0} (n k : ℕ) (m : M p A) : Type 0 where
    pub at :
        (w : World p)
        → IsUnread n (pipe.unread w.redis)
        → Post (λ _. IsUnread k (pipe.unread (m w).1.redis)) (m w).0

module _ {p : Platform} {pipe : HasPipeline p} where
  module _ {A : Type 0} where
    pub Leaves-pure : (n : ℕ) (a : A) → Leaves pipe n n (pure {p = p} a)
    Leaves-pure n a = record { at = λ w h. h }

    pub Leaves-or_fault :
        (n : ℕ) (x : Fault) (o : Option A) → Leaves pipe n n (or_fault {p = p} x o)
    Leaves-or_fault n x none = record { at = λ w h. tt }
    Leaves-or_fault n x (some a) = record { at = λ w h. h }

    pub Leaves-if :
        (n k : ℕ) (b : Bool) (m m' : M p A)
        → Leaves pipe n k m
        → Leaves pipe n k m'
        → Leaves pipe n k (if b then m else m')
    Leaves-if n k true m m' h h' = h
    Leaves-if n k false m m' h h' = h'

    pub Leaves-elim :
        (n k : ℕ) (b : Bool) (m m' : M p A)
        → Leaves pipe n k m
        → Leaves pipe n k m'
        → Leaves pipe n k (elim b [ true ↦ m | false ↦ m' ])
    Leaves-elim n k true m m' h h' = h
    Leaves-elim n k false m m' h h' = h'

    pub Leaves-option :
        {C : Type 0} (n k : ℕ) (o : Option C) (m : M p A) (f : C → M p A)
        → Leaves pipe n k m
        → ((c : C) → Leaves pipe n k (f c))
        → Leaves pipe n k (elim o [ none ↦ m | some c ↦ f c ])
    Leaves-option n k none m f h l = h
    Leaves-option n k (some c) m f h l = l c

  module _ {A B : Type 0} where
    continue-Left :
        (Q : A → Type 0) (j k : ℕ) (o : Outcome A) (w : World p) (f : A → M p B)
        → Post Q o
        → Post (λ _. IsUnread j (pipe.unread w.redis)) o
        → ((a : A) → Q a → Leaves pipe j k (f a))
        → Post (λ _. IsUnread k (pipe.unread (continue o w f).1.redis)) (continue o w f).0
    continue-Left Q j k (done a) w f q h l = (l a q).at w h
    continue-Left Q j k (fault x) w f q h l = tt
    continue-Left Q j k (exit c) w f q h l = tt

    -- The second action may use what holds of the value of the first.
    pub Leaves-bind :
        (Q : A → Type 0) (n j k : ℕ) (m : M p A) (f : A → M p B)
        → Ensures Q m
        → Leaves pipe n j m
        → ((a : A) → Q a → Leaves pipe j k (f a))
        → Leaves pipe n k (m >>= f)
    Leaves-bind Q n j k m f q h l = record {
      at = λ w u. continue-Left Q j k (m w).0 (m w).1 f (q.at w) (h.at w u) l;
    }

    pub Leaves-then :
        {n j k : ℕ} (m : M p A) (f : A → M p B)
        → Leaves pipe n j m
        → ((a : A) → Leaves pipe j k (f a))
        → Leaves pipe n k (m >>= f)
    Leaves-then m f h l = Leaves-bind (λ _. Unit {0}) _ _ _ m f (Ensures-any m) h (λ a q. l a)

module _ {p : Platform} (pipe : HasPipeline p) (n : ℕ) where
  pub command-Leaves : (words : List Bytes) → Leaves pipe n n (command p words)
  unfolding command
  command-Leaves words = record { at = λ w h. pipe.unread_command n words w.redis h }

  pub append_command-Leaves : (words : List Bytes) → Leaves pipe n (suc n) (append_command p words)
  unfolding append_command
  append_command-Leaves words = record { at = λ w h. pipe.unread_append n words w.redis h }

  pub get_reply-Leaves : Leaves pipe (suc n) n (get_reply p)
  unfolding get_reply
  get_reply-Leaves = record { at = λ w h. pipe.unread_get n w.redis h }

  pub rand-Leaves : Leaves pipe n n (rand p)
  unfolding rand
  rand-Leaves = record { at = λ w h. h }

  pub stack_object-Leaves : (size : ℕ) → Leaves pipe n n (stack_object p size)
  unfolding stack_object
  stack_object-Leaves size = record { at = λ w h. h }

  pub malloc-Leaves : (size : ℕ) → Leaves pipe n n (malloc p size)
  unfolding malloc
  malloc-Leaves size = record { at = λ w h. h }

  pub malloc_or_exit-Leaves : (size : ℕ) → Leaves pipe n n (malloc_or_exit p size)
  unfolding malloc_or_exit malloc
  malloc_or_exit-Leaves size = record {
    at = λ w h. elim (Option-cases (p.malloc size w.heap).0) [
      | inl e ↦ rw e tt
      | inr (b, e) ↦ rw e h
    ];
  }

  pub malloc_unchecked-Leaves : (size : ℕ) → Leaves pipe n n (malloc_unchecked p size)
  unfolding malloc_unchecked malloc
  malloc_unchecked-Leaves size = record {
    at = λ w h. elim (Option-cases (p.malloc size w.heap).0) [
      | inl e ↦ rw e tt
      | inr (b, e) ↦ rw e h
    ];
  }
