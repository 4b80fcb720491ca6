-- ===== src/Bootstrap/Printed.antt =====
-- The token that the command in a pod prints.
use authentik_operator.Prelude.{String, ◌≡◌, ◌≢◌, none, List, ◌∷◌, ◌++◌, All}
use authentik_operator.Errors.{ok}
use authentik_operator.Text.{trim_space, split_lines}
use authentik_operator.Api.{Pod}
use authentik_operator.World.{Call, World, Env}
use authentik_operator.Bootstrap.{authentik_pod_selector, exec_request}

abbrev pub IsBlank : String → Type 0
IsBlank line = trim_space line ≡ ""

-- The last line that is not blank, without the space around it.
pub record IsLastLine (key : String) (lines : List String) : Type 0 where
  pub before : List String
  pub line : String
  pub after : List String
  pub cut : lines ≡ before ++ (line ∷ after)
  pub trimmed : trim_space line ≡ key
  pub full : key ≢ ""
  pub blank : All IsBlank after

-- A pod that runs, in a list.
pub record IsRunning (name : String) (pods : List Pod) : Type 0 where
  pub before : List Pod
  pub pod : Pod
  pub after : List Pod
  pub cut : pods ≡ before ++ (pod ∷ after)
  pub named : pod.name ≡ name
  pub runs : pod.phase ≡ "Running"

module _ (env : Env) (namespace : String) where
  -- The pods were listed and the command was run in one that runs, by two calls. Its stream ended well, and the
  -- key is the last line of its output that is not blank, without the space around it.
  pub record IsPrinted (key : String) (w w' : World) : Type 0 where
    pub pods : List Pod
    pub pod : String
    pub listed : env.list_pods w.trace namespace authentik_pod_selector ≡ ok pods
    pub running : IsRunning pod pods
    pub ended :
        env.exec_error
          (Call.pods_list namespace authentik_pod_selector ∷ w.trace)
          (exec_request namespace pod)
        ≡ none
    pub printed : IsLastLine key (
        split_lines
          (env.exec_output
            (Call.pods_list namespace authentik_pod_selector ∷ w.trace)
            (exec_request namespace pod)).stdout)
    pub after : w' ≡ record w {
      trace =
          Call.pod_exec (exec_request namespace pod)
          ∷ Call.pods_list namespace authentik_pod_selector
          ∷ w.trace;
    }
