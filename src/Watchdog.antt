-- ===== src/Watchdog.antt =====
-- infra/self-service/src/watchdog_handler.py: it observes what is billing, and does what
-- sweep.decide_sweep decides. The AWS clients are the fields of `Aws`; their calls may raise.
pub mod Effects
use text.Mathlib.Text.{find?, starts_with}
use aws_devops_sdet_demo.Prelude.{
  ℕ, ◌+◌, ℤ, String, Bool, true, false, not, Option, none, some, List, [], ◌∷◌, ◌++◌, Dict, Item,
  lookup, is_some, Fields, field, end, str, Exec, Outcome, ok, raised, pure, attempt, lift, reraise,
  ◌>>=◌, ◌>>◌, ◌==◌, if◌then◌else◌,
}
use aws_devops_sdet_demo.Control.Interface.{Error, exception, ControlStore}
use aws_devops_sdet_demo.Control.Decide.{release_quietly}
use aws_devops_sdet_demo.Github.{Http, installation_token, dispatch_workflow}
use aws_devops_sdet_demo.Sweep.{
  Kind, ecs, alb, rds, Resource, Action, dispatch, blunt, Sweep, tag, record_ttl_seconds,
  decide_sweep,
}

-- An ECS service, a load balancer, a database: what the lists answer of each.
pub record Service : Type 0 where
  pub service_arn : String
  pub tags : Dict String

pub record LoadBalancer : Type 0 where
  pub name : String
  pub arn : String

pub record Database : Type 0 where
  pub identifier : String
  pub tags : Dict String

pub record Aws (W : Type 0) : Type 0 where
  pub list_clusters : Exec W Error (List String)
  pub list_services : String → Exec W Error (List String)
  pub describe_services : String → List String → Exec W Error (List Service)
  pub describe_load_balancers : Exec W Error (List LoadBalancer)
  pub describe_tags : String → Exec W Error (Dict String)
  pub describe_db_instances : Exec W Error (List Database)
  pub update_service : String → String → ℕ → Exec W Error (Unit {0})
  pub delete_service : String → String → Exec W Error (Unit {0})
  pub delete_load_balancer : String → Exec W Error (Unit {0})
  pub delete_db_instance : String → Exec W Error (Unit {0})

pub record Config : Type 0 where
  pub owner : String
  pub repo : String
  pub app_id : String
  pub install_id : String
  pub secret_name : String
  pub destroy_workflow : String
  pub ref : String
  pub environment : String
  pub prefix : String
  pub grace : ℕ

abbrev service_resource : String → Service → Resource
service_resource cluster s = record {
  kind = ecs;
  id = s.service_arn;
  cluster = cluster;
  tags = s.tags;
}

pub services_found : String → List Service → List Resource
services_found cluster [] = []
services_found cluster (s ∷ rest) = service_resource cluster s ∷ services_found cluster rest

-- `[r for r in found if r["tags"].get("Launch")]`
pub launched_only : List Resource → List Resource
launched_only [] = []
launched_only (r ∷ rest) =
    let others = launched_only rest in if tag "Launch" r == "" then others else r ∷ others

pub databases_found : String → List Database → List Resource
databases_found prefix [] = []
databases_found prefix (db ∷ rest) =
    let others = databases_found prefix rest in
    if starts_with db.identifier prefix
    then record { kind = rds; id = db.identifier; cluster = ""; tags = db.tags } ∷ others
    else others

module _ {W : Type 0} (aws : Aws W) (prefix : String) where
  services_of : String → List String → Exec W Error (List Resource)
  unfolding services_found
  services_of cluster [] = pure []
  services_of cluster (arn ∷ arns) = do
    described ← aws.describe_services cluster (arn ∷ arns)
    pure (services_found cluster described)

  cluster_found : String → Exec W Error (List Resource)
  unfolding services_of
  cluster_found cluster =
      if is_some (find? cluster prefix)
      then (do arns ← aws.list_services cluster; services_of cluster arns)
      else pure []

  pub clusters_found : List String → Exec W Error (List Resource)
  unfolding cluster_found
  clusters_found [] = pure []
  clusters_found (cluster ∷ rest) = do
    here ← cluster_found cluster
    others ← clusters_found rest
    pure (here ++ others)

  balancer_found : LoadBalancer → Exec W Error (List Resource)
  balancer_found lb =
      if starts_with lb.name prefix
      then (do
        tags ← aws.describe_tags lb.arn
        pure (record { kind = alb; id = lb.arn; cluster = ""; tags = tags } ∷ []))
      else pure []

  pub balancers_found : List LoadBalancer → Exec W Error (List Resource)
  unfolding balancer_found
  balancers_found [] = pure []
  balancers_found (lb ∷ rest) = do
    here ← balancer_found lb
    others ← balancers_found rest
    pure (here ++ others)

  unfoldable pub observe : Exec W Error (List Resource)
  unfolding clusters_found balancers_found databases_found launched_only
  observe = do
    clusters ← aws.list_clusters
    services ← clusters_found clusters
    lbs ← aws.describe_load_balancers
    balancers ← balancers_found lbs
    dbs ← aws.describe_db_instances
    pure (launched_only (services ++ (balancers ++ databases_found prefix dbs)))

-- What `blunt_teardown` deleted, by kind.
pub record Deleted : Type 0 where
  pub ecs : List String
  pub alb : List String
  pub rds : List String

-- `[r for r in alive if r["kind"] == kind]`
abbrev is_kind : Kind → Kind → Bool
is_kind ecs ecs = true
is_kind alb alb = true
is_kind rds rds = true
is_kind _ _ = false

pub of_kind : Kind → List Resource → List Resource
of_kind kind [] = []
of_kind kind (r ∷ rest) =
    let others = of_kind kind rest in if is_kind r.kind kind then r ∷ others else others

module _ {W : Type 0} (aws : Aws W) where
  -- a loop of `blunt_teardown`: what raises is logged and left
  deleted_one : Outcome Error (Unit {0}) → String → List String → List String
  deleted_one (ok _) id rest = id ∷ rest
  deleted_one (raised e) id rest = rest

  delete_each : (Resource → Exec W Error (Unit {0})) → List Resource → Exec W Error (List String)
  unfolding deleted_one
  delete_each delete [] = pure []
  delete_each delete (r ∷ rest) = do
    gone ← attempt (delete r)
    others ← delete_each delete rest
    pure (deleted_one gone r.id others)

  delete_ecs : Resource → Exec W Error (Unit {0})
  delete_ecs r = do aws.update_service r.cluster r.id 0; aws.delete_service r.cluster r.id

  unfoldable pub blunt_teardown : List Resource → Exec W Error Deleted
  unfolding delete_each delete_ecs of_kind
  blunt_teardown alive = do
    services ← delete_each delete_ecs (of_kind ecs alive)
    balancers ← delete_each (λ r. aws.delete_load_balancer r.id) (of_kind alb alive)
    databases ← delete_each (λ r. aws.delete_db_instance r.id) (of_kind rds alive)
    pure (record { ecs = services; alb = balancers; rds = databases })

  module _ (http : Http W) (config : Config) where
    -- whatever it raises is logged
    unfoldable pub dispatch_destroy : ℕ → Exec W Error (Unit {0})
    unfolding installation_token dispatch_workflow
    dispatch_destroy now = do
      attempt {F = Error} (do
        pem ← reraise exception (http.secret config.secret_name)
        token ← installation_token http config.app_id pem config.install_id now
        dispatch_workflow http token config.owner config.repo config.destroy_workflow config.ref
            (field "environment" (str config.environment) (field "confirm" (str "DESTROY") end)))
      pure tt

    module _ (store : ControlStore W) where
      clear_record_quietly : Exec W Error (Unit {0})
      clear_record_quietly = do attempt {F = Error} store.clear_sweep; pure tt

      -- `if test: m`
      abbrev when : Bool → Exec W Error (Unit {0}) → Exec W Error (Unit {0})
      when test m = if test then m else pure tt

      abbrev is_dispatch : Action → Bool
      is_dispatch dispatch = true
      is_dispatch _ = false

      abbrev is_blunt : Action → Bool
      is_blunt blunt = true
      is_blunt _ = false

      pub perform : ℕ → List Resource → Sweep → Exec W Error (Option Deleted)
      unfolding dispatch_destroy clear_record_quietly release_quietly
      perform now alive d = do
        when (is_dispatch d.action) (dispatch_destroy now)
        when d.note_dispatch (store.note_sweep d.scope now (now + record_ttl_seconds))
        deleted ←
            if is_blunt d.action
            then (do gone ← blunt_teardown alive; pure (some gone))
            else pure none
        when d.release_lock (release_quietly store)
        when d.clear_record clear_record_quietly
        pure deleted

      -- The handler answers its decision, with what it deleted.
      unfoldable pub handler : (String → Option ℤ) → ℕ → Exec W Error (Sweep × Option Deleted)
      unfolding perform observe decide_sweep
      handler fromisoformat now = do
        lock ← store.read_lock
        last ← store.read_sweep
        alive ← observe aws config.prefix
        let d = decide_sweep fromisoformat alive lock last now config.grace
        deleted ← perform now alive d
        pure (d, deleted)
