-- ===== src/Proxy/Selected.antt =====
-- Which of the cluster's proxy configurations `getProxyConfiguration` of controllers/runtime.go
-- settles on.
use special_resource_operato.Prelude.{
  ◌≡◌, ◌∙◌, refl, Bool-cases, inl, inr, List, [], ◌∷◌, ◌++◌, All, contains, IsPart, contains-IsPart,
  part_contains,
}
use special_resource_operato.Value.{Fields}
use special_resource_operato.RuntimeInfo.{ProxyConfiguration}
use special_resource_operato.Env.{Env}
use special_resource_operato.Proxy.{read_proxy, select_proxy}

module _ {W : Type 0} (env : Env W) where
  select_proxy-others :
      (cfgs : List Fields) (proxy : ProxyConfiguration)
      → All (λ c. ¬ IsPart "cluster" (env.name c)) cfgs
      → select_proxy env cfgs proxy ≡ proxy
  unfolding select_proxy
  select_proxy-others [] proxy all = refl
  select_proxy-others (cfg ∷ rest) proxy (n, all) =
      elim (Bool-cases (contains (env.name cfg) "cluster")) [
        | inl e ↦ absurd (n (contains-IsPart (env.name cfg) "cluster" e))
        | inr e ↦ rw e (select_proxy-others rest proxy all)
      ]

  select_proxy-chosen :
      (after : List Fields) (cfg : Fields) (proxy : ProxyConfiguration)
      → IsPart "cluster" (env.name cfg)
      → select_proxy env (cfg ∷ after) proxy ≡ select_proxy env after (read_proxy env cfg)
  unfolding select_proxy
  select_proxy-chosen after cfg proxy part = rw (part_contains (env.name cfg) "cluster" part)

  -- Whatever configurations stand before it, the last one whose name has "cluster" in it decides.
  pub select_proxy-last :
      (before after : List Fields) (cfg : Fields) (proxy : ProxyConfiguration)
      → IsPart "cluster" (env.name cfg)
      → All (λ c. ¬ IsPart "cluster" (env.name c)) after
      → select_proxy env (before ++ cfg ∷ after) proxy ≡ read_proxy env cfg
  unfolding select_proxy
  select_proxy-last [] after cfg proxy part all =
      select_proxy-chosen after cfg proxy part ∙ select_proxy-others after _ all
  select_proxy-last (c ∷ before) after cfg proxy part all =
      select_proxy-last before after cfg _ part all
