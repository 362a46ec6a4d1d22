-- ===== src/Exec/Returns.antt =====
-- What holds of every value that an action returns with a nil error.
use mathlib.Core.Path.{subst}
use special_resource_operato.Prelude.{◌≡◌, refl, Bool, true, false, String, if◌then◌else◌}
use special_resource_operato.Exec.{
  Outcome, ok, err, exit, panic, out_of_fuel, Error, Exec, pure, raise, os_exit, wrap, continue,
  Attempt, returned, raised, lift, ◌>>=◌, wrap_outcome,
}

pub record Returns {S A : Type 0} (Q : A → Type 0) (m : Exec S A) : Type 0 where
  pub post : (s : S) (a : A) → (m s).0 ≡ ok a → Q a

module _ {S A : Type 0} {Q : A → Type 0} where
  pub Returns-pure : (a : A) → Q a → Returns {S = S} Q (pure a)
  unfolding ◌>>=◌
  Returns-pure a h = record { post = λ s b e. subst Q (cc) h }

  pub Returns-raise : (e : Error) → Returns {S = S} Q (raise e)
  unfolding ◌>>=◌
  Returns-raise e = record { post = λ s b h. cc }

  pub Returns-os_exit : Returns {S = S} Q os_exit
  unfolding ◌>>=◌
  Returns-os_exit = record { post = λ s b h. cc }

  pub Returns-lift : (r : Attempt A) → ((a : A) → r ≡ returned a → Q a) → Returns {S = S} Q (lift r)
  unfolding ◌>>=◌
  Returns-lift (returned a) h = record { post = λ s b e. h b (cc) }
  Returns-lift (raised x) h = record { post = λ s b e. cc }

  pub Returns-if :
      (b : Bool) (m n : Exec S A) → Returns Q m → Returns Q n → Returns Q (if b then m else n)
  Returns-if true m n h k = h
  Returns-if false m n h k = k

  pub Returns-wrap : (msg : String) (m : Exec S A) → Returns Q m → Returns Q (wrap msg m)
  unfolding ◌>>=◌
  Returns-wrap msg m h = record { post = λ s a e. go s a (m s).0 refl e }
    where
      go : (s : S) (a : A) (r : Outcome A) → (m s).0 ≡ r → wrap_outcome msg r ≡ ok a → Q a
      go s a (ok b) e p = h.post s a (cc)
      go s a (err x) e p = cc
      go s a exit e p = cc
      go s a panic e p = cc
      go s a out_of_fuel e p = cc

module _ {S A B : Type 0} {R : B → Type 0} where
  continue_post :
      (r : Outcome A) (f : A → Exec S B) (s : S) (b : B)
      → ((a : A) → r ≡ ok a → Returns R (f a))
      → (continue r f s).0 ≡ ok b
      → R b
  continue_post (ok a) f s b h e = (h a refl).post s b e
  continue_post (err x) f s b h e = cc
  continue_post exit f s b h e = cc
  continue_post panic f s b h e = cc
  continue_post out_of_fuel f s b h e = cc

  pub Returns-bind :
      (Q : A → Type 0) (m : Exec S A) (f : A → Exec S B)
      → Returns Q m
      → ((a : A) → Q a → Returns R (f a))
      → Returns R (m >>= f)
  unfolding ◌>>=◌
  Returns-bind Q m f h k = record {
    post = λ s b e. continue_post (m s).0 f (m s).1 b (λ a x. k a (h.post s a x)) e;
  }

  -- where nothing is known of what the first action returns
  pub Returns-bind_any :
      (m : Exec S A) (f : A → Exec S B) → ((a : A) → Returns R (f a)) → Returns R (m >>= f)
  unfolding ◌>>=◌
  Returns-bind_any m f k = record {
    post = λ s b e. continue_post (m s).0 f (m s).1 b (λ a x. k a) e;
  }

pub ruleset returns_rules =
    (Returns-pure, Returns-raise, Returns-lift, Returns-if, Returns-wrap, Returns-bind_any)

-- A sequence that returned a value: its first action did, and its second ended where the whole did.
module _ {S A B : Type 0} where
  continue-ok :
      (r : Outcome A) (f : A → Exec S B) (s : S) (b : B)
      → (continue r f s).0 ≡ ok b
      → (a : A) × (r ≡ ok a) × ((f a s).0 ≡ ok b) × ((continue r f s).1 ≡ (f a s).1)
  continue-ok (ok a) f s b h = (a, refl, h, refl)
  continue-ok (err x) f s b h = cc
  continue-ok exit f s b h = cc
  continue-ok panic f s b h = cc
  continue-ok out_of_fuel f s b h = cc

  pub bind-ok :
      (m : Exec S A) (f : A → Exec S B) (s : S) (b : B)
      → ((m >>= f) s).0 ≡ ok b
      → (a : A) × ((m s).0 ≡ ok a) × ((f a (m s).1).0 ≡ ok b) × (((m >>= f) s).1 ≡ (f a (m s).1).1)
  unfolding ◌>>=◌
  bind-ok m f s b h = continue-ok (m s).0 f (m s).1 b h

pub pure-state : {S A : Type 0} (a : A) (s : S) → (pure a s).1 ≡ s
unfolding ◌>>=◌
pure-state a s = refl

pub wrap-ok :
    {S A : Type 0} (msg : String) (m : Exec S A) (s : S) (a : A)
    → (wrap msg m s).0 ≡ ok a
    → (m s).0 ≡ ok a
unfolding ◌>>=◌
wrap-ok msg m s a h = unwrapped (m s).0 h
  where
    unwrapped : {A : Type 0} {a : A} (r : Outcome A) → wrap_outcome msg r ≡ ok a → r ≡ ok a
    unwrapped (ok b) e = e
    unwrapped (err x) e = cc
    unwrapped exit e = cc
    unwrapped panic e = cc
    unwrapped out_of_fuel e = cc
