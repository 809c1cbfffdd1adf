-- ===== src/Exec.antt =====
-- Functions of the program as actions on the world. An action ends with a value, with undefined
-- behaviour (a fault), or by `exit`.
pub mod Runs
pub mod Posts
pub mod Returns
pub mod Binds
pub mod Responses
pub mod Pipelines
pub mod Echoes
use bttracker.Common.{ℕ, Option, none, some, List}
use bttracker.Memory.{Bytes}
use bttracker.Data.{ExitCode, malloc_error}
use bttracker.Platform.{Platform, World, Reply}

-- `bad_free` is a call of `freeReplyObject` on what is not, or no longer, a reply.
pub data Fault : Type 0 where
  null_pointer out_of_bounds bad_free : Fault

pub data Outcome (A : Type 0) : Type 0 where
  done : A → Outcome A
  fault : Fault → Outcome A
  exit : ExitCode → Outcome A

abbrev pub M : Platform → Type 0 → Type 0
M p A = World p → Outcome A × World p

abbrev pub continue :
    {p : Platform} {A B : Type 0} → Outcome A → World p → (A → M p B) → Outcome B × World p
continue (done a) w f = f a w
continue (fault x) w f = (fault x, w)
continue (exit c) w f = (exit c, w)

infixl 5 ◌>>=◌ ◌>>◌
abbrev pub ◌>>=◌ : {p : Platform} {A B : Type 0} → M p A → (A → M p B) → M p B
◌>>=◌ m f w = continue (m w).0 (m w).1 f

abbrev pub ◌>>◌ : {p : Platform} {A B : Type 0} → M p A → M p B → M p B
m >> k = m >>= λ _. k

abbrev pub pure : {p : Platform} {A : Type 0} → A → M p A
pure a w = (done a, w)

abbrev pub fail : {p : Platform} {A : Type 0} → Fault → M p A
fail x w = (fault x, w)

-- A pure part that has undefined behaviour where it gives `none`.
abbrev pub or_fault : {p : Platform} {A : Type 0} → Fault → Option A → M p A
or_fault x none w = (fault x, w)
or_fault x (some a) w = (done a, w)

module _ (p : Platform) where
  unfoldable pub command : List Bytes → M p (Option Reply)
  command words w =
      let (reply, redis) = p.redis_command words w.redis in (done reply, record w { redis = redis })

  unfoldable pub append_command : List Bytes → M p (Unit {0})
  append_command words w = (done tt, record w { redis = p.redis_append_command words w.redis })

  unfoldable pub get_reply : M p (Option Reply)
  get_reply w =
      let (reply, redis) = p.redis_get_reply w.redis in (done reply, record w { redis = redis })

  unfoldable pub rand : M p ℕ
  rand w = let (r, rng) = p.rand w.rng in (done r, record w { rng = rng })

  unfoldable pub malloc : ℕ → M p (Option Bytes)
  malloc n w = let (block, heap) = p.malloc n w.heap in (done block, record w { heap = heap })

  -- An allocation whose caller tests for NULL and exits, and one whose caller writes to it at once.
  unfoldable pub malloc_or_exit : ℕ → M p Bytes
  unfolding malloc
  malloc_or_exit n = malloc n >>= elim [ some b ↦ pure b | none ↦ λ w. (exit malloc_error, w) ]

  unfoldable pub malloc_unchecked : ℕ → M p Bytes
  unfolding malloc
  malloc_unchecked n = malloc n >>= elim [ some b ↦ pure b | none ↦ fail null_pointer ]

  unfoldable pub stack_object : ℕ → M p Bytes
  stack_object n w =
      let (object, heap) = p.stack n w.heap in (done object, record w { heap = heap })
