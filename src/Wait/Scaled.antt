-- ===== src/Wait/Scaled.antt =====
-- When the wait for a DaemonSet of controllers/waitfor.go succeeds.
use special_resource_operato.Prelude.{
  ℕ, zero, suc, ◌≡◌, ◌≢◌, refl, ◌∙◌, Bool, true, false, [], ◌∷◌, none, ◌≤◌, arith,
}
use special_resource_operato.Prelude.Int.{ℤ, int_eq, int_eq_iff}
use special_resource_operato.Exec.{ok, ◌>>=◌}
use special_resource_operato.Value.{Fields}
use special_resource_operato.State.{State}
use special_resource_operato.Env.{Env, answered}
use special_resource_operato.Cluster.{ask}
use special_resource_operato.Safety.{poll_rounds}
use special_resource_operato.Wait.{
  called_back, status_callback, daemon_set_callback, check_full_availability,
  wait_for_resource_full_availability, wait_for_daemon_set,
}
use special_resource_operato.Wait.Arrival.{
  PollsFor, AppearsIn, read, poll_done, poll_again, waited-AppearsIn,
}

module _ {W : Type 0} (env : Env W) (obj : Fields) where
  -- The DaemonSet as it is read says how many pods it wants, and how many are available.
  pub record Counted (s : State W) (desired available : ℤ) : Type 0 where
    pub found : Fields
    pub answer : (read env obj s.world).0 ≡ answered found
    pub wants :
        env.nested_int64 found ("status" ∷ "desiredNumberScheduled" ∷ []) ≡ (desired, true, none)
    pub has : env.nested_int64 found ("status" ∷ "numberAvailable" ∷ []) ≡ (available, true, none)

  -- After a read, the wanted number is kept in node.count.
  abbrev pub counted : State W → ℤ → State W
  counted s desired = record s {
    world = (read env obj s.world).1;
    node = record s.node { count = desired };
  }

  -- Of at most so many reads, the last one finds as many pods available as are wanted, and the others
  -- another number.
  pub data ScalesIn : ℕ → State W → State W → Type 0 where
    scaled :
        {n : ℕ} {s : State W} {desired : ℤ}
        → Counted s desired desired
        → ScalesIn (suc n) s (counted s desired)
    scaling :
        {n : ℕ} {s t : State W} {desired available : ℤ}
        → Counted s desired available
        → available ≢ desired
        → ScalesIn n (counted s desired) t
        → ScalesIn (suc n) s t

  checked :
      (s : State W) (desired available : ℤ) (b : Bool)
      → Counted s desired available
      → int_eq available desired ≡ b
      → check_full_availability env obj (daemon_set_callback env) s ≡ (ok b, counted s desired)
  unfolding check_full_availability ask called_back daemon_set_callback status_callback ◌>>=◌
  checked s desired available b c test = rw (c.answer, c.wants, c.has, test)

  differ : (a b : ℤ) → a ≢ b → int_eq a b ≡ false
  differ a b h = ground (arith, int_eq_iff a b)

  rounds-ScalesIn :
      (n m : ℕ) (s t : State W)
      → n ≤ m
      → ScalesIn n s t
      → poll_rounds m (check_full_availability env obj (daemon_set_callback env)) s ≡ (ok tt, t)
  rounds-ScalesIn zero m s t l a = elim a [ ]
  rounds-ScalesIn (suc n) zero s t l a = absurd (omega arith)
  rounds-ScalesIn (suc n) (suc m) s _ l (scaled {desired = desired} c) =
      poll_done _ m s _ (checked s desired desired true c ((int_eq_iff desired desired).1 refl))
  rounds-ScalesIn (suc n) (suc m) s t l
        (scaling {desired = desired} {available = available} c other later) =
      poll_again _ m s _ (checked s desired available false c (differ available desired other))
      ∙ rounds-ScalesIn n m (counted s desired) t (omega arith) later

module _ {W : Type 0} {n : ℕ} (env : Env W) (polls : PollsFor n env) where
  waited-ScalesIn :
      (obj : Fields) (s t : State W)
      → ScalesIn env obj n s t
      → wait_for_resource_full_availability env obj (daemon_set_callback env) s ≡ (ok tt, t)
  unfolding wait_for_resource_full_availability
  waited-ScalesIn obj s t a =
      let (m, enough, e) =
        polls.rounds (check_full_availability env obj (daemon_set_callback env)) s in
      e ∙ rounds-ScalesIn env obj n m s t enough a

  -- Let wait.Poll run its condition at least n times. A DaemonSet that appears in at most n reads, and then
  -- has as many pods available as it wants in at most n reads, of which the ones before show another
  -- number, is waited for with no error; the wait changes the world by these reads, keeps the last wanted
  -- number in node.count, and changes nothing else.
  pub wait_for_daemon_set-scales :
      (obj : Fields) (s t : State W) (w : W)
      → AppearsIn env obj n s.world w
      → ScalesIn env obj n (record s { world = w }) t
      → wait_for_daemon_set env obj s ≡ (ok tt, t)
  unfolding wait_for_daemon_set ◌>>=◌
  wait_for_daemon_set-scales obj s t w found scales = rw (
    waited-AppearsIn env polls obj s w found,
    waited-ScalesIn obj (record s { world = w }) t scales,
  )
