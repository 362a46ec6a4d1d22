-- ===== src/Wait/Polling.antt =====
-- What a wait of controllers/waitfor.go that succeeds says of the cluster.
use special_resource_operato.Prelude.{
  ℕ, zero, suc, ◌≡◌, ◌≢◌, refl, sym, ◌∙◌, ap, Bool, true, false, String, List, [], ◌∷◌, Option,
  none, some, ◌==◌, eq_iff,
}
use special_resource_operato.Exec.{
  Error, ok, Exec, pure, exit_on_error_or_not_found, raise, api, ◌>>=◌, ◌>>◌,
}
use special_resource_operato.Exec.Returns.{bind-ok}
use special_resource_operato.Value.{Fields}
use special_resource_operato.State.{State}
use special_resource_operato.Env.{Env, Answer, answered, refused}
use special_resource_operato.Cluster.{ask, ask-answer}
use special_resource_operato.Crud.{object_key}
use special_resource_operato.Safety.{poll_rounds, PollsInRounds}
use special_resource_operato.Wait.{
  retry_interval, timeout, text, status_callback, called_back, check_full_availability,
  wait_for_resource_full_availability, wait_for_pod,
}

module _ {S : Type 0} where
  raise-not_ok : {A : Type 0} (e : Error) (s : S) (a : A) → (raise e s).0 ≢ ok a
  unfolding ◌>>=◌
  raise-not_ok e s a = λ h. cc

  after_round : ℕ → Exec S Bool → Bool → Exec S (Unit {0})
  after_round n condition = elim [ true ↦ pure tt | false ↦ poll_rounds n condition ]

  last_round :
      (n : ℕ) (condition : Exec S Bool) (s : S) (b : Bool)
      → ((u : S) → (poll_rounds n condition u).0 ≡ ok tt → (t : S) × ((condition t).0 ≡ ok true))
      → (condition s).0 ≡ ok b
      → (after_round n condition b (condition s).1).0 ≡ ok tt
      → (t : S) × ((condition t).0 ≡ ok true)
  unfolding after_round
  last_round n condition s true later first second = (s, first)
  last_round n condition s false later first second = later (condition s).1 second

  poll_rounds-ok :
      (n : ℕ) (condition : Exec S Bool) (s : S)
      → (poll_rounds n condition s).0 ≡ ok tt
      → (t : S) × ((condition t).0 ≡ ok true)
  unfolding poll_rounds after_round
  poll_rounds-ok zero condition s h = absurd (raise-not_ok _ s tt h)
  poll_rounds-ok (suc n) condition s h =
      let (b, first, second, e) = bind-ok condition (after_round n condition) s tt h in
      last_round n condition s b (λ u k. poll_rounds-ok n condition u k) first second

module _ {W : Type 0} (env : Env W) where
  compared :
      (expected current : String) (there : Bool) (e : Option Error) (s : State W)
      → ((exit_on_error_or_not_found there e >> pure (current == expected)) s).0 ≡ ok true
      → (current ≡ expected) × (there ≡ true) × (e ≡ none)
  unfolding ◌>>=◌
  compared expected current true none s h = ((eq_iff current expected).0 (cc), refl, refl)
  compared expected current true (some e) s h = cc
  compared expected current false e s h = cc

  status_callback-true :
      (expected : String) (fields : List String) (found : Fields) (s : State W)
      → (status_callback env (text expected) fields found s).0 ≡ ok true
      → env.nested_string found fields ≡ (expected, true, none)
  unfolding status_callback
  status_callback-true expected fields found s h =
      let n = env.nested_string found fields in
      let (current, there, e) = compared expected n.0 n.1 n.2 s h in λ i. (current i, there i, e i)

  called_back-true :
      (expected : String) (fields : List String) (answer : Answer Fields) (t : State W)
      → (called_back env (status_callback env (text expected) fields) answer t).0 ≡ ok true
      → (found : Fields) × (answer ≡ answered found)
        × (env.nested_string found fields ≡ (expected, true, none))
  unfolding called_back
  called_back-true expected fields (answered found) t h =
      (found, refl, status_callback-true expected fields found t h)
  called_back-true expected fields (refused e) t h = absurd (raise-not_ok (api e) t true h)

  check_full_availability-true :
      (obj : Fields) (expected : String) (fields : List String) (s : State W)
      → (check_full_availability env obj (status_callback env (text expected) fields) s).0 ≡ ok true
      → (found : Fields) × ((env.client.get obj (object_key env obj) s.world).0 ≡ answered found)
        × (env.nested_string found fields ≡ (expected, true, none))
  unfolding check_full_availability
  check_full_availability-true obj expected fields s h =
      let call : Exec (State W) (Answer Fields) = ask (env.client.get obj (object_key env obj)) in
      let (answer, first, second, e) =
        bind-ok call (called_back env (status_callback env (text expected) fields)) s true h in
      let (found, a, n) = called_back-true expected fields answer (call s).1 second in
      (found, ask-answer (env.client.get obj (object_key env obj)) s answer first ∙ a, n)

  -- A wait for a pod that returns with no error has at some moment read the pod from the cluster with
  -- the phase Succeeded.
  pub wait_for_pod-ok :
      (polls : PollsInRounds env) (obj : Fields) (s : State W)
      → (wait_for_pod env obj s).0 ≡ ok tt
      → (t : State W) × (found : Fields) × ((env.client.get obj (object_key env obj) t.world).0
          ≡ answered found)
        × (env.nested_string found ("status" ∷ "phase" ∷ []) ≡ ("Succeeded", true, none))
  unfolding wait_for_pod wait_for_resource_full_availability
  wait_for_pod-ok polls obj s h =
      let (u, first, second, e) = bind-ok _ _ s tt h in
      let (n, rounds) = polls.rounds retry_interval timeout _ _ in
      let (t, checked) = poll_rounds-ok n _ _ (sym (ap (λ r. r.0) rounds) ∙ second) in
      let (found, read, phase) =
        check_full_availability-true obj "Succeeded" ("status" ∷ "phase" ∷ []) t checked in
      (t, found, read, phase)
