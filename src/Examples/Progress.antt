-- ===== src/Examples/Progress.antt =====
-- The theorems on mutexes and starts at concrete inputs.
use edgelessdb.Prelude.{◌≡◌, refl, false, [], ◌∷◌}
use edgelessdb.World.{initialized}
use edgelessdb.World.Progress.{is_stuck}
use edgelessdb.Core.Lifecycle.{
  initialize, start_database, is_recovering, get_manifest_signature, recover,
}
use edgelessdb.Core.Progress.Methods.{methods_go_on, recover_goes_on}
use edgelessdb.Cmd.Run.{run}
use edgelessdb.Cmd.Progress.{run_goes_on}
use edgelessdb.Examples.Objects.{
  mock_host, mock_config, mock_db, mock_db-IsSeparate, mock_db-IsLively, mock_host-IsResponsive,
  node, sixteen,
}
use edgelessdb.Examples.Nodes.{ca_var, without_file}
use edgelessdb.Examples.Databases.{fresh}

methods_go_on_example :
    (is_stuck (initialize ca_var mock_host mock_db (45 ∷ []) (node initialized false)) ≡ false)
    × (is_stuck (start_database ca_var mock_host mock_db (node initialized false)) ≡ false)
    × (is_stuck (is_recovering ca_var mock_host mock_db (node initialized false)) ≡ false)
    × (is_stuck (get_manifest_signature ca_var mock_host mock_db (node initialized false)) ≡ false)
methods_go_on_example =
    methods_go_on ca_var mock_host mock_db mock_db-IsLively (45 ∷ []) (node initialized false)
      mock_db-IsSeparate refl

recover_goes_on_example : is_stuck (recover ca_var mock_host mock_db sixteen without_file) ≡ false
recover_goes_on_example =
    recover_goes_on ca_var mock_host mock_db mock_db-IsLively sixteen without_file
      mock_db-IsSeparate refl refl

run_goes_on_example :
    is_stuck (run ca_var mock_host [] 64 mock_config false (47 ∷ []) (58 ∷ []) fresh) ≡ false
run_goes_on_example =
    run_goes_on ca_var mock_host [] 64 mock_config false (47 ∷ []) (58 ∷ []) fresh
      mock_host-IsResponsive
