-- ===== src/Exec/Binds.antt =====
-- Actions one behind the other.
use bttracker.Common.{◌≡◌, refl}
use bttracker.Platform.{Platform, World}
use bttracker.Exec.{M, Outcome, done, fault, exit, continue, ◌>>=◌}

module _ {p : Platform} where
  continue_extends :
      {A B C : Type 0} (o : Outcome A) (v : World p) (f : A → M p C) (g : A → M p B) (h : B → M p C)
      → ((a : A) (u : World p) → f a u ≡ (g a >>= h) u)
      → continue o v f ≡ continue (continue o v g).0 (continue o v g).1 h
  continue_extends (done a) v f g h e = e a v
  continue_extends (fault x) v f g h e = refl
  continue_extends (exit c) v f g h e = refl

  continue_cong :
      {A B : Type 0} (o : Outcome A) (v : World p) (f g : A → M p B)
      → ((a : A) (u : World p) → f a u ≡ g a u)
      → continue o v f ≡ continue o v g
  continue_cong (done a) v f g e = e a v
  continue_cong (fault x) v f g e = refl
  continue_cong (exit c) v f g e = refl

  -- Where `f` is `g` and then `h`, so are they behind an action.
  pub bind_extends :
      {A B C : Type 0} (m : M p A) (f : A → M p C) (g : A → M p B) (h : B → M p C)
      → ((a : A) (u : World p) → f a u ≡ (g a >>= h) u)
      → (w : World p) → (m >>= f) w ≡ ((m >>= g) >>= h) w
  bind_extends m f g h e w = continue_extends (m w).0 (m w).1 f g h e

  pub bind_cong :
      {A B : Type 0} (m : M p A) (f g : A → M p B)
      → ((a : A) (u : World p) → f a u ≡ g a u)
      → (w : World p) → (m >>= f) w ≡ (m >>= g) w
  bind_cong m f g e w = continue_cong (m w).0 (m w).1 f g e
