-- ===== src/Wait/Ready.antt =====
-- When a DaemonSet counts as up, and which part of a log is looked at: controllers/waitfor.go.
use special_resource_operato.Prelude.{
  ℕ, zero, suc, ◌-◌, ◌≡◌, refl, ap, Bool, true, false, List, [], ◌∷◌, ◌++◌, none, length, drop, leb,
  arith, if◌then◌else◌,
}
use special_resource_operato.Prelude.Int.{ℤ, pos, int_eq}
use special_resource_operato.Exec.{ok, ◌>>=◌}
use special_resource_operato.Value.{Fields}
use special_resource_operato.State.{State}
use special_resource_operato.Env.{Env}
use special_resource_operato.Wait.{last_bytes, status_callback, daemon_set_callback}

length-drop {ℓ} : {A : Type ℓ} (n : ℕ) (xs : List A) → length (drop n xs) ≡ length xs - n
length-drop zero xs = omega arith
length-drop (suc n) [] = omega arith
length-drop (suc n) (x ∷ xs) = omega (arith, length-drop n xs)

drop-IsSuffix {ℓ} :
    {A : Type ℓ} (n : ℕ) (xs : List A) → (before : List A) × (before ++ drop n xs ≡ xs)
drop-IsSuffix zero xs = ([], refl)
drop-IsSuffix (suc n) [] = ([], refl)
drop-IsSuffix (suc n) (x ∷ xs) =
    let (before, e) = drop-IsSuffix n xs in (x ∷ before, ap (λ t. x ∷ t) e)

-- What is matched is an end of the log: the last 100 bytes of a log that is longer than 100 bytes,
-- and nothing at all of a log of at most 100 bytes.
pub last_bytes_lem :
    (logs : List ℕ)
    → (length (last_bytes logs) ≡ (if leb (length logs) 100 then 0 else 100))
      × (before : List ℕ) × (before ++ last_bytes logs ≡ logs)
unfolding last_bytes
last_bytes_lem logs =
    let n : ℕ = length logs - (if leb (length logs) 100 then 0 else 100) in
    let (before, e) = drop-IsSuffix n logs in (ground (arith, length-drop n logs), before, e)

module _ {W : Type 0} (env : Env W) where
  -- A DaemonSet that says how many pods it wants is up exactly when numberAvailable, if it is there,
  -- is that number, and else when numberUnavailable is there and is 0; a counter that is there with an
  -- error ends the process. The wanted number is kept in node.count, and nothing else changes.
  pub daemon_set_callback_lem :
      (obj : Fields) (s : State W) (desired available unavailable : ℤ) (has has' : Bool)
      → env.nested_int64 obj ("status" ∷ "desiredNumberScheduled" ∷ []) ≡ (desired, true, none)
      → env.nested_int64 obj ("status" ∷ "numberAvailable" ∷ []) ≡ (available, has, none)
      → env.nested_int64 obj ("status" ∷ "numberUnavailable" ∷ []) ≡ (unavailable, has', none)
      → daemon_set_callback env obj s ≡ (
        ok (
            if has
            then int_eq available desired
            else if has'
            then int_eq unavailable (pos 0)
            else false),
        record s { node = record s.node { count = desired } },
      )
  unfolding daemon_set_callback status_callback ◌>>=◌
  daemon_set_callback_lem obj s desired available unavailable has has' d a u = ground arith
