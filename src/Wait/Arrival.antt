-- ===== src/Wait/Arrival.antt =====
-- When the waits of controllers/waitfor.go succeed: the cluster answers as wished within the rounds of
-- the poll.
use special_resource_operato.Prelude.{
  ℕ, zero, suc, ◌≡◌, ◌≢◌, refl, ◌∙◌, Bool, true, false, String, List, [], ◌∷◌, none, ◌==◌, eq_iff,
  ◌≤◌, arith,
}
use special_resource_operato.Exec.{ok, not_found, Exec, ◌>>=◌}
use special_resource_operato.Value.{Fields}
use special_resource_operato.State.{State}
use special_resource_operato.Env.{Env, Answer, answered, refused}
use special_resource_operato.Cluster.{ask}
use special_resource_operato.Crud.{object_key}
use special_resource_operato.Safety.{poll_rounds}
use special_resource_operato.Wait.{
  retry_interval, timeout, text, status_callback, called_back, check_availability,
  check_full_availability, refused_availability, wait_for_resource_availability,
  wait_for_resource_full_availability, wait_for_pod,
}

-- wait.Poll with the interval and the timeout of the operator runs the condition at least `n` times,
-- unless it ends the poll before.
pub record PollsFor {W : Type 0} (n : ℕ) (env : Env W) : Type 0 where
  pub rounds :
      (condition : Exec (State W) Bool) (s : State W)
      → (m : ℕ) × (n ≤ m)
        × (env.poll retry_interval timeout condition s ≡ poll_rounds m condition s)

module _ {W : Type 0} (env : Env W) (obj : Fields) where
  abbrev pub read : W → Answer Fields × W
  read w = env.client.get obj (object_key env obj) w

  -- Of at most so many reads of the object, the last one finds it and the others miss it.
  pub data AppearsIn : ℕ → W → W → Type 0 where
    appears :
        {n : ℕ} {w : W} (found : Fields)
        → (read w).0 ≡ answered found
        → AppearsIn (suc n) w (read w).1
    missing :
        {n : ℕ} {w w' : W}
        → (read w).0 ≡ refused not_found
        → AppearsIn n (read w).1 w'
        → AppearsIn (suc n) w w'

  -- Of at most so many reads, the last one finds the expected text in the field, and the others another.
  pub data ReachesIn (expected : String) (fields : List String) : ℕ → W → W → Type 0 where
    reached :
        {n : ℕ} {w : W} (found : Fields)
        → (read w).0 ≡ answered found
        → env.nested_string found fields ≡ (expected, true, none)
        → ReachesIn expected fields (suc n) w (read w).1
    pending :
        {n : ℕ} {w w' : W} (found : Fields) (current : String)
        → (read w).0 ≡ answered found
        → env.nested_string found fields ≡ (current, true, none)
        → current ≢ expected
        → ReachesIn expected fields n (read w).1 w'
        → ReachesIn expected fields (suc n) w w'

  abbrev at : State W → W → State W
  at s w = record s { world = w }

  available :
      (s : State W) (found : Fields)
      → (read s.world).0 ≡ answered found
      → check_availability env obj s ≡ (ok true, at s (read s.world).1)
  unfolding check_availability ask refused_availability ◌>>=◌
  available s found e = rw e

  unavailable :
      (s : State W)
      → (read s.world).0 ≡ refused not_found
      → check_availability env obj s ≡ (ok false, at s (read s.world).1)
  unfolding check_availability ask refused_availability ◌>>=◌
  unavailable s e = rw e

  checked :
      (expected current : String) (fields : List String) (s : State W) (found : Fields)
      → (read s.world).0 ≡ answered found
      → env.nested_string found fields ≡ (current, true, none)
      → (b : Bool) → (current == expected) ≡ b
      → check_full_availability env obj (status_callback env (text expected) fields) s
        ≡ (ok b, at s (read s.world).1)
  unfolding check_full_availability ask called_back status_callback ◌>>=◌
  checked expected current fields s found e n b test = rw (e, n, test)

differ : (a b : String) → a ≢ b → (a == b) ≡ false
differ a b h = ground (arith, eq_iff a b)

module _ {S : Type 0} (condition : Exec S Bool) where
  pub poll_done :
      (m : ℕ) (s t : S) → condition s ≡ (ok true, t) → poll_rounds (suc m) condition s ≡ (ok tt, t)
  unfolding poll_rounds ◌>>=◌
  poll_done m s t e = rw e

  pub poll_again :
      (m : ℕ) (s t : S)
      → condition s ≡ (ok false, t)
      → poll_rounds (suc m) condition s ≡ poll_rounds m condition t
  unfolding poll_rounds ◌>>=◌
  poll_again m s t e = rw e

module _ {W : Type 0} (env : Env W) (obj : Fields) where
  rounds-AppearsIn :
      (n m : ℕ) (s : State W) (w : W)
      → n ≤ m
      → AppearsIn env obj n s.world w
      → poll_rounds m (check_availability env obj) s ≡ (ok tt, at env obj s w)
  rounds-AppearsIn zero m s w l a = elim a [ ]
  rounds-AppearsIn (suc n) zero s w l a = absurd (omega arith)
  rounds-AppearsIn (suc n) (suc m) s _ l (appears found e) =
      poll_done (check_availability env obj) m s _ (available env obj s found e)
  rounds-AppearsIn (suc n) (suc m) s w l (missing e later) =
      poll_again (check_availability env obj) m s _ (unavailable env obj s e)
      ∙ rounds-AppearsIn n m (at env obj s (read env obj s.world).1) w (omega arith) later

  rounds-ReachesIn :
      (expected : String) (fields : List String) (n m : ℕ) (s : State W) (w : W)
      → n ≤ m
      → ReachesIn env obj expected fields n s.world w
      → poll_rounds m
          (check_full_availability env obj (status_callback env (text expected) fields))
          s
        ≡ (ok tt, at env obj s w)
  rounds-ReachesIn expected fields zero m s w l a = elim a [ ]
  rounds-ReachesIn expected fields (suc n) zero s w l a = absurd (omega arith)
  rounds-ReachesIn expected fields (suc n) (suc m) s _ l (reached found e value) =
      poll_done _ m s _ (
        checked env obj expected expected fields s found e value true
          ((eq_iff expected expected).1 refl))
  rounds-ReachesIn expected fields (suc n) (suc m) s w l
        (pending found current e value other later) =
      poll_again _ m s _ (
        checked env obj expected current fields s found e value false
          (differ current expected other))
      ∙ rounds-ReachesIn expected fields n m (at env obj s (read env obj s.world).1) w (omega arith)
          later

abbrev pub phase : List String
phase = "status" ∷ "phase" ∷ []

module _ {W : Type 0} {n : ℕ} (env : Env W) (polls : PollsFor n env) where
  pub waited-AppearsIn :
      (obj : Fields) (s : State W) (w : W)
      → AppearsIn env obj n s.world w
      → wait_for_resource_availability env obj s ≡ (ok tt, record s { world = w })
  unfolding wait_for_resource_availability
  waited-AppearsIn obj s w a =
      let (m, enough, e) = polls.rounds (check_availability env obj) s in
      e ∙ rounds-AppearsIn env obj n m s w enough a

  pub waited-ReachesIn :
      (obj : Fields) (expected : String) (fields : List String) (s : State W) (w : W)
      → ReachesIn env obj expected fields n s.world w
      → wait_for_resource_full_availability env obj (status_callback env (text expected) fields) s
        ≡ (ok tt, record s { world = w })
  unfolding wait_for_resource_full_availability
  waited-ReachesIn obj expected fields s w a =
      let (m, enough, e) =
        polls.rounds (check_full_availability env obj (status_callback env (text expected) fields))
          s in
      e ∙ rounds-ReachesIn env obj expected fields n m s w enough a

  -- Let wait.Poll run its condition at least n times. A pod that appears in at most n reads, and then is
  -- Succeeded in at most n reads, of which the ones before show another phase, is waited for with no
  -- error, and the wait changes the world by these reads and nothing else.
  pub wait_for_pod-succeeds :
      (obj : Fields) (s : State W) (w w' : W)
      → AppearsIn env obj n s.world w
      → ReachesIn env obj "Succeeded" phase n w w'
      → wait_for_pod env obj s ≡ (ok tt, record s { world = w' })
  unfolding wait_for_pod ◌>>=◌
  wait_for_pod-succeeds obj s w w' found succeeded = rw (
    waited-AppearsIn obj s w found,
    waited-ReachesIn obj "Succeeded" phase (record s { world = w }) w' succeeded,
  )
