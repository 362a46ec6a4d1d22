-- ===== src/Exec/Laws.antt =====
-- Equations between actions.
use mathlib.Core.Path.{fun_ext}
use special_resource_operato.Prelude.{◌≡◌, refl}
use special_resource_operato.Exec.{
  Outcome, ok, err, exit, panic, out_of_fuel, pure, Exec, ◌>>=◌, ◌>>◌, continue,
}

module _ {S A B C : Type 0} where
  continue_assoc :
      (r : Outcome A) (f : A → Exec S B) (g : B → Exec S C) (s : S)
      → continue (continue r f s).0 g (continue r f s).1
        ≡ continue r (λ a t. continue (f a t).0 g (f a t).1) s
  continue_assoc (ok a) f g s = refl
  continue_assoc (err e) f g s = refl
  continue_assoc exit f g s = refl
  continue_assoc panic f g s = refl
  continue_assoc out_of_fuel f g s = refl

  pub bind_assoc :
      (m : Exec S A) (f : A → Exec S B) (g : B → Exec S C)
      → ((m >>= f) >>= g) ≡ (m >>= λ a. f a >>= g)
  unfolding ◌>>=◌
  bind_assoc m f g = fun_ext (λ s. continue_assoc (m s).0 f g (m s).1)

pub pure-bind : {S : Type 0} (m : Exec S (Unit {0})) → m ≡ (pure tt >> m)
unfolding ◌>>=◌
pure-bind m = fun_ext (λ s. refl)

-- An action goes on from what the one before it returned.
pub bind-returned :
    {S A B : Type 0} (m : Exec S A) (f : A → Exec S B) (a : A) (s : S)
    → (m s).0 ≡ ok a
    → (m >>= f) s ≡ f a (m s).1
unfolding ◌>>=◌
bind-returned m f a s e = rw e
