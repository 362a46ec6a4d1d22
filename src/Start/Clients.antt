-- ===== src/Start/Clients.antt =====
-- The initialisation of main.go, where the clients of controllers/misc.go cannot be made.
use mathlib.Core.Path.{fun_ext}
use special_resource_operato.Prelude.{◌≡◌}
use special_resource_operato.Exec.{Error, err, raised, attempt, ◌>>=◌, ◌>>◌}
use special_resource_operato.Start.{
  client_go, sro_v1beta1, Runtime, Process, Starting, add_to_scheme,
  add_3dparty_resources_to_scheme, add_kube_client, add_config_client, get_config_or_die, init,
}

module _ (r : Runtime) where
  -- init of main.go, without the clients.
  abbrev pub init_without_clients : Starting r (Unit {0})
  init_without_clients = do
    add_3dparty_resources_to_scheme r
    _ ← get_config_or_die r
    _ ← get_config_or_die r
    add_to_scheme r client_go
    add_to_scheme r sro_v1beta1

  dropped :
      {A B : Type 0} (m : Starting r A) (e : Error) (k : Starting r B)
      → ((p : Process r) → m p ≡ (err e, p))
      → (attempt m >>= λ x. k) ≡ k
  unfolding ◌>>=◌
  dropped m e k fails = fun_ext λ p. rw (fails p)

  config_client-fails :
      (e : Error) (c : r.Config)
      → r.config_new_for_config c ≡ raised e
      → (p : Process r) → add_config_client r c p ≡ (err e, p)
  unfolding add_config_client ◌>>=◌
  config_client-fails e c h p = rw h

  kube_client-fails :
      (e : Error) (c : r.Config)
      → r.kubernetes_new_for_config c ≡ raised e
      → (p : Process r) → add_kube_client r c p ≡ (err e, p)
  unfolding add_kube_client ◌>>=◌
  kube_client-fails e c h p = rw h

  -- Where neither client can be made from any configuration, the initialisation does what it would do
  -- if it did not ask for them: it drops the errors and goes on.
  pub init-init_without_clients :
      (e e' : Error) (p : Process r)
      → ((c : r.Config) → r.config_new_for_config c ≡ raised e)
      → ((c : r.Config) → r.kubernetes_new_for_config c ≡ raised e')
      → init r p ≡ init_without_clients p
  unfolding init
  init-init_without_clients e e' p no_config no_kube = λ i.
      (add_3dparty_resources_to_scheme r
          >> (get_config_or_die r >>= λ c.
              dropped (add_config_client r c) e
                (get_config_or_die r >>= λ k.
                  dropped (add_kube_client r k) e'
                    (add_to_scheme r client_go >> add_to_scheme r sro_v1beta1)
                    (kube_client-fails e' k (no_kube k)) i)
                (config_client-fails e c (no_config c)) i))
        p
