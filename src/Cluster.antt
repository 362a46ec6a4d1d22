-- ===== src/Cluster.antt =====
-- Calls of the API client as actions on the operator's state.
pub mod Log
use special_resource_operato.Prelude.{◌≡◌, refl, String}
use special_resource_operato.Exec.{◌>>=◌, api, wrapped, Exec, ok, err}
use special_resource_operato.State.{State}
use special_resource_operato.Env.{Answer, answered, refused}

module _ {W A : Type 0} where
  -- A call that moves the world on and answers.
  unfoldable pub ask : (W → A × W) → Exec (State W) A
  unfolding ◌>>=◌
  ask call s = (ok (call s.world).0, record s { world = (call s.world).1 })

  -- An answer whose error, if there is one, is wrapped and returned.
  unfoldable pub accept : String → Answer A → Exec (State W) A
  unfolding ◌>>=◌
  accept msg (answered a) s = (ok a, s)
  accept msg (refused e) s = (err (wrapped (api e) msg), s)

  pub ask-answer :
      (call : W → A × W) (s : State W) (a : A) → (ask call s).0 ≡ ok a → (call s.world).0 ≡ a
  unfolding ask
  ask-answer call s a h = cc

  pub accept-answered :
      (msg : String) (answer : Answer A) (s : State W) (a : A)
      → (accept msg answer s).0 ≡ ok a
      → answer ≡ answered a
  unfolding accept
  accept-answered msg (answered b) s a h = cc
  accept-answered msg (refused e) s a h = cc

  pub ask-world : (call : W → A × W) (s : State W) → (ask call s).1.world ≡ (call s.world).1
  unfolding ask
  ask-world call s = refl
