-- ===== src/Grafana/Filled.antt =====
-- What the Grafana callback of controllers/custom.go writes.
use mathlib.Core.Path.{subst}
use special_resource_operato.Prelude.{
  ◌≡◌, ◌≢◌, refl, ◌∙◌, Bool, true, false, String, List, [], ◌∷◌, Option, none, some, Dict, index_or,
  replace_all, Substituted, replace_all-Substituted,
}
use special_resource_operato.Exec.{
  Error, ok, pure, Exec, Attempt, returned, raised, lift, exit_on_error_or_not_found, ◌>>=◌, ◌>>◌,
}
use special_resource_operato.Exec.Returns.{bind-ok}
use special_resource_operato.Value.{Value, Fields, object}
use special_resource_operato.State.{State}
use special_resource_operato.Env.{Env, Answer, answered, refused}
use special_resource_operato.Cluster.{ask}
use special_resource_operato.Crud.Writes.{SetsFields}
use special_resource_operato.Grafana.{
  answered_secret, first_datasource, get_prom_url_pass, fill_prom_data, custom_grafana_config_map,
}

abbrev pub prom_path : List String
prom_path = "data" ∷ "ocp-prometheus.yml" ∷ []

abbrev pub IsObject : Value → Type 0
IsObject (object fields) = Unit
IsObject v = ⊥

module _ {W : Type 0} (env : Env W) where
  -- The first data source has this address and this password; where there is none, or the first is not
  -- an object, both are empty.
  pub data HasFirst : List Value → String → String → Type 0 where
    first :
        {datasource : Fields} {rest : List Value} {url pass : String}
        → env.nested_string datasource ("url" ∷ []) ≡ (url, true, none)
        → env.nested_string datasource ("basicAuthPassword" ∷ []) ≡ (pass, true, none)
        → HasFirst (object datasource ∷ rest) url pass
    no_datasources : HasFirst [] "" ""
    no_object : {v : Value} {rest : List Value} → ¬ IsObject v → HasFirst (v ∷ rest) "" ""

  -- The secret that the cluster answers has this address and this password.
  pub record HasProm (s : State W) (url pass : String) : Type 0 where
    pub secret : Dict String
    pub answered_by :
        (env.client.secret
          (record { namespace = "openshift-monitoring"; name = "grafana-datasources" })
          s.world).0
        ≡ answered secret
    pub decoded : Fields
    pub read : env.json_unmarshal (index_or (some secret) "prometheus.yaml") ≡ returned decoded
    pub datasources : List Value
    pub listed : env.nested_slice decoded ("datasources" ∷ []) ≡ (datasources, true, none)
    pub has_first : HasFirst datasources url pass

  -- The address and the password were got in `s`, and the text was filled with them.
  pub record Filled (obj obj' : Fields) (s : State W) : Type 0 where
    pub text : String
    pub was : env.nested_string obj prom_path ≡ (text, true, none)
    pub url : String
    pub pass : String
    pub got : HasProm s url pass
    pub with_url : String
    pub with_pass : String
    pub filled : String
    pub url_for : Substituted "REPLACE_PROM_URL" url text with_url
    pub pass_for : Substituted "REPLACE_PROM_PASS" pass with_url with_pass
    pub user_for : Substituted "REPLACE_PROM_USER" "internal" with_pass filled
    pub now : env.nested_string obj' prom_path ≡ (filled, true, none)

  pure_ok : {A : Type 0} (a b : A) (s : State W) → (pure a s).0 ≡ ok b → a ≡ b
  unfolding ◌>>=◌
  pure_ok a b s h = cc

  ask_ok :
      {A : Type 0} (call : W → Answer A × W) (answer : Answer A) (s : State W)
      → (ask call s).0 ≡ ok answer
      → (call s.world).0 ≡ answer
  unfolding ask ◌>>=◌
  ask_ok call answer s h = cc

  there_ok :
      {B : Type 0} (found : Bool) (e : Option Error) (m : Exec (State W) B) (b : B) (s : State W)
      → ((exit_on_error_or_not_found found e >> m) s).0 ≡ ok b
      → (found ≡ true) × (e ≡ none) × ((m s).0 ≡ ok b)
  unfolding ◌>>=◌
  there_ok true none m b s h = (refl, refl, h)
  there_ok true (some e) m b s h = cc
  there_ok false e m b s h = cc

  lift_ok :
      {A : Type 0} (x : Attempt A) (a : A) (s : State W) → (lift x s).0 ≡ ok a → x ≡ returned a
  unfolding ◌>>=◌
  lift_ok (returned b) a s h = cc
  lift_ok (raised e) a s h = cc

  first_datasource-HasFirst :
      (datasources : List Value) (prom : String × String) (s : State W)
      → (first_datasource env datasources s).0 ≡ ok prom
      → HasFirst datasources prom.0 prom.1
  unfolding first_datasource
  first_datasource-HasFirst (object datasource ∷ rest) prom s h =
      let u = env.nested_string datasource ("url" ∷ []) in
      let p = env.nested_string datasource ("basicAuthPassword" ∷ []) in
      let (found, fine, more) = there_ok u.1 u.2 _ prom s h in
      let (found', fine', last) = there_ok p.1 p.2 _ prom s more in
      let same = pure_ok (u.0, p.0) prom s last in
      first (λ i. ((same i).0, found i, fine i)) (λ i. ((same i).1, found' i, fine' i))
  first_datasource-HasFirst [] prom s h =
      subst (λ q. HasFirst [] q.0 q.1) (pure_ok ("", "") prom s h) no_datasources
  first_datasource-HasFirst (v ∷ rest) prom s h =
      subst (λ q. HasFirst (v ∷ rest) q.0 q.1) (pure_ok ("", "") prom s h) (no_object (λ o. o))

  answered_ok :
      (answer : Answer (Dict String)) (data' : Dict String) (s : State W)
      → (answered_secret env answer s).0 ≡ ok data'
      → answer ≡ answered data'
  unfolding answered_secret ◌>>=◌
  answered_ok (answered d) data' s h = cc
  answered_ok (refused e) data' s h = cc

  get_prom_url_pass-HasProm :
      (s : State W) (prom : String × String)
      → (get_prom_url_pass env s).0 ≡ ok prom
      → HasProm s prom.0 prom.1
  unfolding get_prom_url_pass
  get_prom_url_pass-HasProm s prom h =
      let (answer, asked, rest, _) = bind-ok (ask _) _ s prom h in
      let (secret, given, rest', _) = bind-ok (answered_secret env answer) _ _ prom rest in
      let (decoded, read, rest'', _) = bind-ok (lift _) _ _ prom rest' in
      let d = env.nested_slice decoded ("datasources" ∷ []) in
      let (found, fine, last) = there_ok d.1 d.2 _ prom _ rest'' in
      record {
        secret = secret;
        answered_by = ask_ok _ answer s asked ∙ answered_ok answer secret _ given;
        decoded = decoded;
        read = lift_ok _ decoded _ read;
        datasources = d.0;
        listed = λ i. (d.0, found i, fine i);
        has_first = first_datasource-HasFirst d.0 prom _ last;
      }

  -- Where the callback succeeds, the ConfigMap's data had the text under its key, and the key now holds
  -- the text in which the address, the password and the user `internal` stand, one after the other, in
  -- place of REPLACE_PROM_URL, REPLACE_PROM_PASS and REPLACE_PROM_USER, wherever these stood. Address
  -- and password are those of the first data source in the cluster's secret, or empty where that is
  -- not there. What lies below another key than `data` is as before. A field that was set is found
  -- again, and setting it leaves the other keys alone.
  pub custom_grafana_config_map-Filled :
      (laws : SetsFields env.unstructured) (obj obj' : Fields) (s : State W) (other : String)
      (path : List String)
      → "data" ≢ other
      → (custom_grafana_config_map env obj s).0 ≡ ok obj'
      → Filled obj obj' s
        × (env.nested_string obj' (other ∷ path) ≡ env.nested_string obj (other ∷ path))
  unfolding custom_grafana_config_map fill_prom_data replace_all
  custom_grafana_config_map-Filled laws obj obj' s other path differs h =
      let n = env.nested_string obj prom_path in
      let (found, fine, rest) = there_ok n.1 n.2 _ obj' s h in
      let (prom, got, last, e) = bind-ok (get_prom_url_pass env) _ s obj' rest in
      let set = lift_ok _ obj' _ last in
      (
        record {
          text = n.0;
          was = λ i. (n.0, found i, fine i);
          url = prom.0;
          pass = prom.1;
          got = get_prom_url_pass-HasProm s prom got;
          with_url = replace_all n.0 "REPLACE_PROM_URL" prom.0;
          with_pass =
              replace_all (replace_all n.0 "REPLACE_PROM_URL" prom.0) "REPLACE_PROM_PASS" prom.1;
          filled = fill_prom_data env n.0 prom;
          url_for = replace_all-Substituted "R" "EPLACE_PROM_URL" prom.0 n.0;
          pass_for = replace_all-Substituted "R" "EPLACE_PROM_PASS" prom.1 _;
          user_for = replace_all-Substituted "R" "EPLACE_PROM_USER" "internal" _;
          now = laws.found_again (fill_prom_data env n.0 prom) prom_path obj obj' set;
        },
        laws.others_kept _ "data" other ("ocp-prometheus.yml" ∷ []) path obj obj' differs set,
      )
