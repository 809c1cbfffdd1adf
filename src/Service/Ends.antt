-- ===== src/Service/Ends.antt =====
-- What is left of the program when it has ended.
use mathlib.Core.Path.{subst}
use bttracker.Common.{ℕ, ◌≡◌, refl, ◌∙◌}
use bttracker.Data.{Config}
use bttracker.Platform.{Platform}
use bttracker.Service.{
  Status, running, faulted, exited, killed, Service, while_running, work, arrive, terminate, Step,
  arrived, worked, signalled, Steps, still, onward,
}

module _ (p : Platform) (config : Config) where
  -- The process is there no longer.
  abbrev pub HasEnded : Status → Type 0
  HasEnded running = ⊥
  HasEnded (faulted x) = Unit
  HasEnded (exited c) = Unit
  HasEnded (killed signum) = Unit

  while_running_ended :
      (t : Status) (after s : Service p) → HasEnded t → while_running t after s ≡ s
  unfolding while_running
  while_running_ended running after s h = absurd h
  while_running_ended (faulted x) after s h = refl
  while_running_ended (exited c) after s h = refl
  while_running_ended (killed signum) after s h = refl

  Step_ended : {s s' : Service p} → Step config s s' → HasEnded s.status → s' ≡ s
  unfolding arrive work terminate
  Step_ended (arrived buff o s k) h = while_running_ended s.status _ s h
  Step_ended (worked worker s) h = while_running_ended s.status _ s h
  Step_ended (signalled signum s) h = while_running_ended s.status _ s h

  ended_lem : {s s' : Service p} → Steps config s s' → HasEnded s.status → s' ≡ s
  ended_lem (still s) h = refl
  ended_lem (onward steps step) h = let e = ended_lem steps h in Step_ended step (rw e h) ∙ e

  while_running_killed :
      (signum : ℕ) (t : Status) (s : Service p)
      → t ≡ s.status
      → let s' = while_running t (record s { status = killed signum }) s in
        HasEnded s'.status × (s'.sent ≡ s.sent) × (s'.server ≡ s.server) × (s'.world ≡ s.world)
  unfolding while_running
  while_running_killed signum running s e = (tt, refl, refl, refl)
  while_running_killed signum (faulted x) s e = (subst HasEnded e tt, refl, refl, refl)
  while_running_killed signum (exited c) s e = (subst HasEnded e tt, refl, refl, refl)
  while_running_killed signum (killed k) s e = (subst HasEnded e tt, refl, refl, refl)

  -- After a signal of any number, whatever arrives and whichever worker turns up: nothing is sent
  -- any more, and the jobs that waited are not run.
  pub terminate-Steps :
      (s s' : Service p) (signum : ℕ)
      → Steps config (terminate signum s) s'
      → (s'.sent ≡ s.sent) × (s'.server ≡ s.server) × (s'.world ≡ s.world)
  unfolding terminate
  terminate-Steps s s' signum steps =
      let (ended, sent, server, world) = while_running_killed signum s.status s refl in
      rw (ended_lem steps ended) (sent, server, world)
