-- ===== src/Redis/Lists.antt =====
-- `bt_info_hash_blacklisted`: the verdict of each restriction, and what it is when Redis fails.
use bttracker.Common.{
  ◌≡◌, ◌≢◌, refl, ap, ◌∙◌, arith, Bool, true, false, not, Option, none, some, List, [], ◌∷◌, ◌++◌,
  if◌then◌else◌,
}
use bttracker.Common.Int.{pos}
use bttracker.Memory.{Bytes}
use bttracker.Text.{codes}
use bttracker.Data.{Config, Restriction, whitelist, blacklist, unrestricted}
use bttracker.Platform.{Platform, World, Reply, ReplyType}
use bttracker.Exec.{done, command}
use bttracker.Redis.{info_hash_blacklisted, not_whitelisted, is_blacklisted}
use bttracker.Redis.Effects.{reply_to, key_prefix-done}

-- Whether a torrent is refused, from its membership in the list that the restriction names.
abbrev pub verdict : Restriction → Bool → Bool
verdict whitelist member = not member
verdict blacklist member = member
verdict unrestricted member = false

abbrev pub list_name : Restriction → Bytes
list_name whitelist = codes ":ih:wl"
list_name blacklist = codes ":ih:bl"
list_name unrestricted = []

-- The reply of Redis to SISMEMBER.
abbrev pub IsMembership : Option Reply → Bool → Type 0
IsMembership none member = ⊥
IsMembership (some r) member =
    (r.type ≡ ReplyType.integer) × (r.integer ≡ pos (if member then 1 else 0))

not_whitelisted-eq : (o : Option Reply) (m : Bool) → IsMembership o m → not_whitelisted o ≡ not m
unfolding not_whitelisted
not_whitelisted-eq none m h = absurd h
not_whitelisted-eq (some r) true h = ground arith
not_whitelisted-eq (some r) false h = ground arith

is_blacklisted-eq : (o : Option Reply) (m : Bool) → IsMembership o m → is_blacklisted o ≡ m
unfolding is_blacklisted
is_blacklisted-eq none m h = absurd h
is_blacklisted-eq (some r) true h = ground arith
is_blacklisted-eq (some r) false h = ground arith

module _ (p : Platform) (config : Config) (prefix : Bytes)
    (has_prefix : config.redis_key_prefix ≡ some prefix) (info_hash_str : Bytes) (w : World p) where
  abbrev pub is_member : Restriction → List Bytes
  is_member r = codes "SISMEMBER" ∷ (prefix ++ list_name r) ∷ info_hash_str ∷ []

  abbrev answer : Restriction → Option Reply → Bool
  answer whitelist o = not_whitelisted o
  answer blacklist o = is_blacklisted o
  answer unrestricted o = false

  blacklisted-answer :
      (r : Restriction)
      → config.info_hash_restriction ≡ r
      → (info_hash_blacklisted p config info_hash_str w).0
        ≡ done (answer r (reply_to p (is_member r) w))
  unfolding info_hash_blacklisted command
  blacklisted-answer whitelist h = ground (arith, key_prefix-done p config prefix has_prefix w)
  blacklisted-answer blacklist h = ground (arith, key_prefix-done p config prefix has_prefix w)
  blacklisted-answer unrestricted h = ground arith

  answer-verdict :
      (r : Restriction) (o : Option Reply) (m : Bool)
      → (r ≢ unrestricted → IsMembership o m)
      → answer r o ≡ verdict r m
  answer-verdict whitelist o m h = not_whitelisted-eq o m (h (λ e. cc))
  answer-verdict blacklist o m h = is_blacklisted-eq o m (h (λ e. cc))
  answer-verdict unrestricted o m h = refl

  -- With a key prefix, where Redis answers with the membership of the hash in the list of the
  -- configured restriction, the hash is refused as that restriction says; without a restriction
  -- no answer is needed.
  pub blacklisted-verdict :
      (r : Restriction) (member : Bool)
      → config.info_hash_restriction ≡ r
      → (r ≢ unrestricted → IsMembership (reply_to p (is_member r) w) member)
      → (info_hash_blacklisted p config info_hash_str w).0 ≡ done (verdict r member)
  blacklisted-verdict r member h answers =
      blacklisted-answer r h
      ∙ ap done (answer-verdict r (reply_to p (is_member r) w) member answers)

  not_answered : (r : Restriction) → r ≢ unrestricted → answer r none ≡ true
  unfolding not_whitelisted is_blacklisted
  not_answered whitelist h = refl
  not_answered blacklist h = refl
  not_answered unrestricted h = absurd (h refl)

  refused_by_error :
      (r : Restriction) (o : Reply) → o.type ≡ ReplyType.error → answer r (some o) ≡ false
  unfolding not_whitelisted is_blacklisted
  refused_by_error whitelist o h = ground arith
  refused_by_error blacklist o h = ground arith
  refused_by_error unrestricted o h = refl

  -- Under a restriction, where no reply comes at all, the hash is refused.
  pub blacklisted_silent :
      (r : Restriction)
      → config.info_hash_restriction ≡ r
      → r ≢ unrestricted
      → reply_to p (is_member r) w ≡ none
      → (info_hash_blacklisted p config info_hash_str w).0 ≡ done true
  blacklisted_silent r h restricted silent =
      blacklisted-answer r h ∙ rw silent (ap done (not_answered r restricted))

  -- With a key prefix and under a restriction, a whitelist too, an error in place of the
  -- membership lets the hash pass.
  pub blacklisted_error :
      (r : Restriction) (o : Reply)
      → config.info_hash_restriction ≡ r
      → r ≢ unrestricted
      → reply_to p (is_member r) w ≡ some o
      → o.type ≡ ReplyType.error
      → (info_hash_blacklisted p config info_hash_str w).0 ≡ done false
  blacklisted_error r o h restricted came bad =
      blacklisted-answer r h ∙ rw came (ap done (refused_by_error r o bad))
