-- ===== src/Examples/Schedule.antt =====
-- The theorems on requests that are served at the same time, at concrete inputs.
use edgelessdb.Prelude.{◌≡◌, ◌≤◌, refl, inr, some, [], ◌∷◌, Bytes, Option, bytes_eq}
use edgelessdb.World.{World, after, previous_init_failed, read_file, write_file, remove}
use edgelessdb.Std.FilePath.{join_path}
use edgelessdb.Db.Mariadb.Config.{Mariadb, internal_file, write_internal, configure_bootstrap}
use edgelessdb.Db.Mariadb.Bootstrap.{
  found_errors, print_error_log, remove_old_log, run_bootstrap, check_manifest, bootstrap,
  initialize,
}
use edgelessdb.Db.Mariadb.Startup.{mariadb}
use edgelessdb.Db.Mariadb.Separate.{mariadb-IsSeparate}
use edgelessdb.Core.States.{lock, defer_unlock}
use edgelessdb.Core.Lifecycle.{encrypt_recovery_key}
use edgelessdb.Server.Schedule.{
  arrived, ready, applied, refused, arrives, moves, Reach, here, then, prepare, commit, move,
}
use edgelessdb.Server.Schedule.Once.{count_applied, applied_once}
use edgelessdb.Server.Schedule.Serving.{IsServing, Reach-IsServing}
use edgelessdb.Examples.Api.{no_json, no_text}
use edgelessdb.Examples.Objects.{sixteen}
use edgelessdb.Examples.Databases.{fresh, logging_host}

-- Two requests that prepare before one of them is applied.
abbrev recovery_key : Option Bytes
recovery_key = some (2 ∷ sixteen)

abbrev manifest : Bytes
manifest = 5 ∷ []

abbrev w1 : World Mariadb
w1 = after (prepare "CA" logging_host no_text no_json (mariadb logging_host []) manifest fresh)

abbrev w2 : World Mariadb
w2 = after (prepare "CA" logging_host no_text no_json (mariadb logging_host []) manifest w1)

abbrev w3 : World Mariadb
w3 =
    after
      (commit "CA" logging_host no_text no_json (mariadb logging_host []) manifest recovery_key w2)

two_ready :
    Reach "CA" logging_host no_text no_json
      (mariadb logging_host [])
      fresh
      []
      w2
      (ready manifest recovery_key ∷ ready manifest recovery_key ∷ [])
unfolding prepare encrypt_recovery_key
two_ready =
    then
      (then (then (then here (arrives manifest)) (arrives manifest))
        (moves (arrived manifest) (ready manifest recovery_key) [] (arrived manifest ∷ []) refl))
      (moves (arrived manifest) (ready manifest recovery_key) (ready manifest recovery_key ∷ []) []
        refl)

first_commits :
    move "CA" logging_host no_text no_json
      (mariadb logging_host [])
      (ready manifest recovery_key)
      w2
    ≡ some (applied manifest recovery_key, w3)
unfolding commit lock defer_unlock initialize check_manifest configure_bootstrap write_internal
    write_file bootstrap remove_old_log remove run_bootstrap print_error_log read_file internal_file
    join_path bytes_eq found_errors prepare encrypt_recovery_key
first_commits = refl

-- The second one finds that a manifest was tried.
abbrev w4 : World Mariadb
w4 =
    after
      (commit "CA" logging_host no_text no_json (mariadb logging_host []) manifest recovery_key w3)

second_refused :
    move "CA" logging_host no_text no_json
      (mariadb logging_host [])
      (ready manifest recovery_key)
      w3
    ≡ some (refused previous_init_failed, w4)
unfolding commit lock defer_unlock initialize check_manifest configure_bootstrap write_internal
    write_file bootstrap remove_old_log remove run_bootstrap print_error_log read_file internal_file
    join_path bytes_eq found_errors prepare encrypt_recovery_key
second_refused = refl

both_done :
    Reach "CA" logging_host no_text no_json
      (mariadb logging_host [])
      fresh
      []
      w4
      (applied manifest recovery_key ∷ refused previous_init_failed ∷ [])
both_done =
    then
      (then two_ready (
        moves (ready manifest recovery_key) (applied manifest recovery_key) []
          (ready manifest recovery_key ∷ []) first_commits))
      (moves (ready manifest recovery_key) (refused previous_init_failed)
        (applied manifest recovery_key ∷ []) [] second_refused)

applied_once_example :
    count_applied (applied manifest recovery_key ∷ refused previous_init_failed ∷ []) ≤ 1
applied_once_example =
    applied_once "CA" logging_host no_text no_json [] fresh w4
      (applied manifest recovery_key ∷ refused previous_init_failed ∷ []) refl refl both_done

fresh-IsServing : IsServing fresh.core fresh
fresh-IsServing = record { free = refl; same = refl; key = inr refl }

Reach-IsServing_example : IsServing fresh.core w4
Reach-IsServing_example =
    Reach-IsServing "CA" logging_host no_text no_json (mariadb logging_host [])
      (mariadb-IsSeparate logging_host []) fresh.core fresh w4 []
      (applied manifest recovery_key ∷ refused previous_init_failed ∷ []) fresh-IsServing both_done
