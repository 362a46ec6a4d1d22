-- ===== src/Start/Groups.antt =====
-- The groups that main.go registers with the scheme.
use mathlib.Core.Path.{subst}
use special_resource_operato.Prelude.{◌≡◌, ◌⊎◌, inl, inr, refl, sym, arith}
use special_resource_operato.Exec.{ok, Attempt, returned, raised, attempt, modify, ◌>>=◌}
use special_resource_operato.Exec.Returns.{bind-ok}
use special_resource_operato.Start.{
  Group, route_v1, sec_v1, build_v1, image_v1, monitoring_v1, client_go, sro_v1beta1, Runtime,
  Process, Starting, must, or_exit, outside, add_to_scheme, add_3dparty_resources_to_scheme,
  add_kube_client, add_config_client, get_config_or_die, init,
}

-- AddToScheme, where it succeeds, adds the types of its group, and keeps those of the others.
pub record Registers (r : Runtime) : Type 1 where
  pub Knows : Group → r.Scheme → Type 0
  pub adds :
      (g : Group) (scheme added : r.Scheme)
      → r.add_to_scheme g scheme ≡ returned added
      → Knows g added
  pub keeps :
      (g other : Group) (scheme added : r.Scheme)
      → r.add_to_scheme g scheme ≡ returned added
      → Knows other scheme
      → Knows other added

module _ {r : Runtime} (registers : Registers r) where
  -- Where the step returns, its scheme knows the groups of before and those of `Q`.
  pub record Adds {A : Type 0} (Q : Group → Type 0) (m : Starting r A) : Type 0 where
    pub known :
        (p : Process r) (a : A)
        → (m p).0 ≡ ok a
        → (g : Group) → Q g ⊎ registers.Knows g p.scheme
        → registers.Knows g (m p).1.scheme

  abbrev pub NoGroup : Group → Type 0
  NoGroup g = ⊥

  Adds-bind :
      {A B : Type 0} {Q R : Group → Type 0} (m : Starting r A) (f : A → Starting r B)
      → Adds Q m
      → ((a : A) → Adds R (f a))
      → Adds (λ g. Q g ⊎ R g) (m >>= f)
  Adds-bind {Q = Q} {R = R} m f hm hf = record {
    known = λ p b h g k.
        let (a, first, second, e) = bind-ok m f p b h in
        subst (λ (q : Process r). registers.Knows g q.scheme) (sym e)
          ((hf a).known (m p).1 b second g (later p a first g k));
  }
    where
      later :
          (p : Process r) (a : _)
          → (m p).0 ≡ ok a
          → (g : Group) → (Q g ⊎ R g) ⊎ registers.Knows g p.scheme
          → R g ⊎ registers.Knows g (m p).1.scheme
      later p a first g (inl (inl q)) = inr (hm.known p a first g (inl q))
      later p a first g (inl (inr x)) = inl x
      later p a first g (inr k) = inr (hm.known p a first g (inr k))

  Adds-same :
      {A : Type 0} (m : Starting r A)
      → ((p : Process r) → (m p).1.scheme ≡ p.scheme)
      → Adds NoGroup m
  Adds-same m same = record {
    known = λ p a h g k.
        subst (λ (s : r.Scheme). registers.Knows g s) (sym (same p))
          (elim k [ inl n ↦ absurd n | inr x ↦ x ]);
  }

  added :
      (g : Group) (p : Process r) (u : Unit {0})
      → (add_to_scheme r g p).0 ≡ ok u
      → r.add_to_scheme g p.scheme ≡ returned (add_to_scheme r g p).1.scheme
  unfolding add_to_scheme must ◌>>=◌
  added g p u h = by_result (r.add_to_scheme g p.scheme) h
    where
      by_result :
          (result : Attempt r.Scheme)
          → ((must result >>= λ s. modify (λ q. record q { scheme = s })) p).0 ≡ ok u
          → result
            ≡ returned
                ((must result >>= λ s. modify (λ (q : Process r). record q { scheme = s }))
                  p).1.scheme
      by_result (returned s) h = refl
      by_result (raised e) h = cc

  Adds-add_to_scheme : (g : Group) → Adds (λ x. x ≡ g) (add_to_scheme r g)
  Adds-add_to_scheme g = record {
    known = λ p u h x. elim [
      | inl e ↦
          subst (λ y. registers.Knows y (add_to_scheme r g p).1.scheme) (sym e)
            (registers.adds g p.scheme _ (added g p u h))
      | inr k ↦ registers.keeps g x p.scheme _ (added g p u h) k
    ];
  }

  config-same : (p : Process r) → (get_config_or_die r p).1.scheme ≡ p.scheme
  unfolding get_config_or_die outside or_exit ◌>>=◌
  config-same p = ground arith

  config_client-same :
      (c : r.Config) (p : Process r) → (attempt (add_config_client r c) p).1.scheme ≡ p.scheme
  unfolding add_config_client ◌>>=◌
  config_client-same c p = ground arith

  kube_client-same :
      (c : r.Config) (p : Process r) → (attempt (add_kube_client r c) p).1.scheme ≡ p.scheme
  unfolding add_kube_client ◌>>=◌
  kube_client-same c p = ground arith

  abbrev pub IsThird : Group → Type 0
  IsThird x =
      (x ≡ route_v1) ⊎ ((x ≡ sec_v1) ⊎ ((x ≡ build_v1) ⊎ ((x ≡ image_v1) ⊎ (x ≡ monitoring_v1))))

  Adds-IsThird : Adds IsThird (add_3dparty_resources_to_scheme r)
  unfolding add_3dparty_resources_to_scheme
  Adds-IsThird = Adds-bind _ _ (Adds-add_to_scheme route_v1) λ u.
      Adds-bind _ _ (Adds-add_to_scheme sec_v1) λ u.
        Adds-bind _ _ (Adds-add_to_scheme build_v1)
          λ u. Adds-bind _ _ (Adds-add_to_scheme image_v1) λ u. Adds-add_to_scheme monitoring_v1

  abbrev pub IsGiven : Group → Type 0
  IsGiven x =
      IsThird x
      ⊎ (NoGroup x
          ⊎ (NoGroup x ⊎ (NoGroup x ⊎ (NoGroup x ⊎ ((x ≡ client_go) ⊎ (x ≡ sro_v1beta1))))))

  Adds-IsGiven : Adds IsGiven (init r)
  unfolding init
  Adds-IsGiven = Adds-bind _ _ Adds-IsThird λ u.
      Adds-bind _ _ (Adds-same (get_config_or_die r) config-same) λ c.
        Adds-bind _ _ (Adds-same (attempt (add_config_client r c)) (config_client-same c)) λ u.
          Adds-bind _ _ (Adds-same (get_config_or_die r) config-same) λ k.
            Adds-bind _ _ (Adds-same (attempt (add_kube_client r k)) (kube_client-same k))
              λ u. Adds-bind _ _ (Adds-add_to_scheme client_go) λ u. Adds-add_to_scheme sro_v1beta1

  is_given : (x : Group) → IsGiven x
  is_given route_v1 = inl (inl refl)
  is_given sec_v1 = inl (inr (inl refl))
  is_given build_v1 = inl (inr (inr (inl refl)))
  is_given image_v1 = inl (inr (inr (inr (inl refl))))
  is_given monitoring_v1 = inl (inr (inr (inr (inr refl))))
  is_given client_go = inr (inr (inr (inr (inr (inl refl)))))
  is_given sro_v1beta1 = inr (inr (inr (inr (inr (inr refl)))))

  -- After the initialisation, the scheme knows every group.
  pub init-Knows :
      (p : Process r) (u : Unit {0})
      → (init r p).0 ≡ ok u
      → (g : Group) → registers.Knows g (init r p).1.scheme
  init-Knows p u h g = Adds-IsGiven.known p u h g (inl (is_given g))
