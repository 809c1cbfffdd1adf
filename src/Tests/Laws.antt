-- ===== src/Tests/Laws.antt =====
-- What the small hosts obey.
use mathlib.Core.Option.{some-injective}
use bttracker.Common.{
  ℕ, zero, suc, ◌-◌, ◌^◌, ◌≡◌, refl, sym, ap, ◌∙◌, arith, Option, none, some, List, [], ◌∷◌, length,
  All, length-append,
}
use bttracker.Memory.{Bytes, IsByte}
use bttracker.Text.{str_eq}
use bttracker.Platform.{Reply, ReplyType}
use bttracker.Common.Int.{pos}
use bttracker.Platform.Laws.{HasMemory, HasReplies, HasBlocks}
use bttracker.Platform.Pipelines.{IsUnread, HasPipeline}
use bttracker.Platform.Stores.{IsStore, IsRenamed, IsGot, IsReadable}
use bttracker.Redis.Outages.{IsDown}
use bttracker.Random.{scale}
use bttracker.Peers.Shuffles.{IsFair}
use bttracker.Tests.Arithmetic.{fixed, scale_zero}
use bttracker.Tests.Hosts.{
  Db, zeros, length-zeros, run_key, run_command, pop, rename_reply, text_reply, plain, offline,
  dead, steady,
}

pub zeros-IsByte : (n : ℕ) → All IsByte (zeros n)
zeros-IsByte zero = tt
zeros-IsByte (suc n) = (omega arith, zeros-IsByte n)

abbrev pub plain-HasMemory : HasMemory plain
plain-HasMemory = record {
  block = λ n h. zeros n;
  malloc_block = λ n h. refl;
  block_size = λ n h. length-zeros n;
  stack_size = λ n h. length-zeros n;
}

abbrev pub steady-HasMemory : HasMemory steady
steady-HasMemory = record {
  block = λ n h. zeros n;
  malloc_block = λ n h. refl;
  block_size = λ n h. length-zeros n;
  stack_size = λ n h. length-zeros n;
}

abbrev pub steady-HasReplies : HasReplies steady
steady-HasReplies = record {
  reply =
      λ s. record { type = ReplyType.string; integer = pos 0; str = some (zeros 40); element = [] };
  get_reply_some = λ s. refl;
}

abbrev pub offline-HasMemory : HasMemory offline
offline-HasMemory = record {
  block = λ n h. zeros n;
  malloc_block = λ n h. refl;
  block_size = λ n h. length-zeros n;
  stack_size = λ n h. length-zeros n;
}

pub plain-IsFair : (most : ℕ) → IsFair plain most
plain-IsFair most lo hi g le below =
    let start : scale fixed (2 ^ 31 - 1) 0 lo hi ≡ lo = scale_zero (2 ^ 31 - 1) lo hi in
    rw start (omega arith, omega arith)

renamed_reply : (o : Option Bytes) → IsRenamed o (rename_reply o)
renamed_reply none = refl
renamed_reply (some s) = λ e. cc

pub plain-IsStore : IsStore plain
unfolding str_eq
plain-IsStore = record {
  value = λ s. s.texts;
  setex = λ key text ttl s j a b. refl;
  del = λ key s j. refl;
  rename = λ a b s j. refl;
  rename_reply = λ a b s. renamed_reply (s.texts a);
  hincrby = λ key field by s j. refl;
}

pub steady-IsStore : IsStore steady
unfolding str_eq
steady-IsStore = record {
  value = λ s. s.texts;
  setex = λ key text ttl s j a b. refl;
  del = λ key s j. refl;
  rename = λ a b s j. refl;
  rename_reply = λ a b s. renamed_reply (s.texts a);
  hincrby = λ key field by s j. refl;
}

abbrev pub dead-HasMemory : HasMemory dead
dead-HasMemory = record {
  block = λ n h. zeros n;
  malloc_block = λ n h. refl;
  block_size = λ n h. length-zeros n;
  stack_size = λ n h. length-zeros n;
}

pub dead-IsDown : IsDown dead
dead-IsDown = record { refused = λ a timeout s e. cc; silent = λ s. refl }

pub plain-HasBlocks : HasBlocks plain
plain-HasBlocks = record {
  stack_length = λ n h. length-zeros n;
  malloc_bytes = λ n h b e. rw (← some-injective _ _ e) (zeros-IsByte n);
  malloc_size = λ n h b e. sym (ap length (some-injective _ _ e)) ∙ length-zeros n;
}

text_reply-IsGot : (o : Option Bytes) → (r : Reply) × (text_reply o ≡ some r) × IsGot o r
text_reply-IsGot none = (_, refl, refl)
text_reply-IsGot (some text) = (_, refl, (refl, refl))

pub plain-IsReadable : IsReadable plain plain-IsStore
unfolding str_eq plain-IsStore
plain-IsReadable = record { get = λ key s. text_reply-IsGot (s.texts key) }

-- A command leaves the queue as it is.
run_key-pending :
    (name key : Bytes) (args : List Bytes) (s : Db)
    → (run_key name key args s).1.pending ≡ s.pending
run_key-pending name key [] s = ground arith
run_key-pending name key (b ∷ []) s = ground arith
run_key-pending name key (ttl ∷ text ∷ []) s = ground arith
run_key-pending name key (ttl ∷ text ∷ b ∷ more) s = ground arith

run_command-pending : (words : List Bytes) (s : Db) → (run_command words s).1.pending ≡ s.pending
run_command-pending [] s = refl
run_command-pending (name ∷ []) s = refl
run_command-pending (name ∷ key ∷ args) s = run_key-pending name key args s

pop-pending :
    (n : ℕ) (s : Db) (queue : List (List Bytes))
    → length queue ≡ suc n
    → length (pop s queue).1.pending ≡ n
pop-pending n s [] h = omega arith
pop-pending n s (words ∷ more) h =
    rw (run_command-pending words (record s { pending = more })) (omega arith)

pub plain-HasPipeline : HasPipeline plain
plain-HasPipeline = record {
  unread = λ s. some (length s.pending);
  unread_append = λ n words s h. omega (arith, length-append s.pending (words ∷ []));
  unread_get = λ n s h. pop-pending n s s.pending h;
  unread_command = λ n words s h. ap length (run_command-pending words s) ∙ h;
  unread_connect = λ address timeout s. refl;
}

pub plain-IsUnread : (s : Db) → s.pending ≡ [] → IsUnread 0 (plain-HasPipeline.unread s)
unfolding plain-HasPipeline
plain-IsUnread s e = ap length e

pub plain-quiet : (s : Db) → plain-HasPipeline.unread s ≡ some 0 → length s.pending ≡ 0
unfolding plain-HasPipeline
plain-quiet s e = some-injective _ _ e

pub plain-value : (s : Db) → plain-IsStore.value s ≡ s.texts
unfolding plain-IsStore
plain-value s = refl

pub plain-idle :
    (s : Db) → IsUnread 0 (plain-HasPipeline.unread s) → plain-HasPipeline.unread s ≡ some 0
unfolding plain-HasPipeline
plain-idle s e = ap some e
